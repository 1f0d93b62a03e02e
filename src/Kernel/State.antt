-- ===== src/Kernel/State.antt =====
-- The snapshot dictionaries that the reducers of v4_alpha/kernel.py build, as records: a key that
-- only some entries have is an Option, and a text that names a state is a constructor. This is the
-- snapshot of the CONTENT_ADDRESSED_V1 storage mode, which every CreateLoop makes.
mod Entries
pub use Entries.*
use loop_skill.Protocol.Outcome.{at_key, Result}
use loop_skill.Protocol.Value.{null, str, Value}
use loop_skill.Protocol.Validate.{Outcome}
use loop_skill.Protocol.Envelope.{Event}
use loop_skill.Protocol.Derive.{Chain}
use loop_skill.Prelude.{
  is_empty, [], none, some, false, select, true, Bool, Dict, List, Option, String, ℕ, ℤ,
}

pub data Strength : Type 0 where
  none_yet local cooperative strict : Strength

pub record Assurance : Type 0 where
  pub finalization_ref : Option String
  pub receipt_ref : Option String
  pub revision : ℕ
  pub strength : Strength

pub data Disposition : Type 0 where
  succeeded succeeded_with_limitations limitation failed stopped : Disposition

pub data FinalizationState : Type 0 where
  prepared execution_closed : FinalizationState

pub record Finalization : Type 0 where
  pub artifact_ref : String
  pub assurance_strength : Strength
  pub attempt_ref : String
  pub delivery_ref : Option String
  pub disposition : Disposition
  pub external_effect_ref : Option String
  pub goal_ref : String
  pub report_ref : String
  pub result_ref : String
  pub review_ref : String
  pub revision : ℕ
  pub route_ref : Option String
  pub state : FinalizationState
  pub subject_chain_digest : String

pub data ExecutionState : Type 0 where
  active paused finalizing terminal : ExecutionState

pub data WaitKind : Type 0 where
  blocked budget failure human repair time : WaitKind

pub record Execution : Type 0 where
  pub disposition : Option Disposition
  pub pause_reason_digest : Option String
  pub revision : ℕ
  pub state : ExecutionState
  pub stop_reason_digest : Option String
  pub wait_kind : Option WaitKind

pub record Budget : Type 0 where
  pub max_cost_minor_units : ℤ
  pub max_host_invocations : ℤ
  pub wall_clock_seconds : ℤ

pub record BudgetExtension : Type 0 where
  pub extension_digest : String
  pub reason_digest : String
  pub revision : ℕ

pub record GoalPlan : Type 0 where
  pub active_goal_ref : String
  pub active_index : ℕ
  pub authority_digest : String
  pub budget : Budget
  pub budget_extension : Option BudgetExtension
  pub capacity_contract_version : String
  pub goal_count : ℕ
  pub max_roadmap_revisions : ℤ
  pub mode : String
  pub ordered_goal_ids : List String
  pub ordered_goal_slice_digests : List String
  pub plan_digest : String
  pub plan_index_digest : String
  pub revision : ℕ
  pub stop_policy_digest : String
  pub workspace_binding : String

pub data PolicyState : Type 0 where
  idle authorized exhausted repair_scheduled execution_pending : PolicyState

pub record Policy : Type 0 where
  pub decision_card_digest : Option String
  pub decision_revision : ℕ
  pub goal_ref : Option String
  pub last_decision : Option String
  pub last_failure_digest : Option String
  pub repair_attempts : ℕ
  pub same_failure_count : ℕ
  pub state : PolicyState

pub record StartAuthorization : Type 0 where
  pub boundary_digest : String
  pub bundle_digest : String
  pub manifest_digest : String
  pub receipt_ref : String

pub record Snapshot : Type 0 where
  pub artifacts : Dict Artifact
  pub attempts : Dict Attempt
  pub closure_assurance : Assurance
  pub current_result_ref : Option String
  pub deliveries : Dict Delivery
  pub execution : Execution
  pub external_effects : Option (Dict ExternalEffect)
  pub finalizations : Dict Finalization
  pub goal_plan : Option GoalPlan
  pub goals : Dict Goal
  pub host_resources : Dict HostResource
  pub loop_ref : String
  pub loop_revision : ℕ
  pub policy : Option Policy
  pub reports : Dict Report
  pub results : Dict LoopResult
  pub reviews : Dict Review
  pub routes : Dict Route
  pub start_authorization : Option StartAuthorization

-- the state, the events and the response of a reducer
pub record Reduction : Type 0 where
  pub snapshot : Snapshot
  pub events : List Event
  pub response : Dict Value

abbrev pub reduction : Snapshot → List Event → Dict Value → Reduction
reduction s events response = record { snapshot = s; events = events; response = response }

-- tests for a state
abbrev pub is_active_goal : Goal → Bool
is_active_goal g = elim g.state [ GoalState.active ↦ true | _ ↦ false ]

-- the entries whose state is ACTIVE
abbrev pub active_goals : Snapshot → Dict Goal
active_goals s = select is_active_goal s.goals

-- `snapshot["external_effects"]`, a key that only a startup effect makes
abbrev pub effects_of : Snapshot → Result (Dict ExternalEffect)
effects_of s = at_key s.external_effects

-- `snapshot.get("external_effects", {})`
abbrev pub effects_or_empty : Snapshot → Dict ExternalEffect
effects_or_empty s = elim s.external_effects [ none ↦ [] | some effects ↦ effects ]

abbrev pub is_committed : AttemptState → Bool
is_committed AttemptState.committed = true
is_committed _ = false

-- UNKNOWN or UNVERIFIABLE
abbrev pub is_late : AttemptState → Bool
is_late AttemptState.unknown = true
is_late AttemptState.unverifiable = true
is_late _ = false

-- the state text of an attempt, as the state of its delivery or effect
abbrev pub delivery_state : AttemptState → DeliveryState
delivery_state AttemptState.committed = DeliveryState.attempt_committed
delivery_state AttemptState.observed = DeliveryState.observed
delivery_state AttemptState.unknown = DeliveryState.unknown
delivery_state AttemptState.unverifiable = DeliveryState.unverifiable

pub attempt_text : AttemptState → String
attempt_text AttemptState.committed = "COMMITTED"
attempt_text AttemptState.observed = "OBSERVED"
attempt_text AttemptState.unknown = "UNKNOWN"
attempt_text AttemptState.unverifiable = "UNVERIFIABLE"

-- `ref if state == "OBSERVED" else None`
pub observed_resource : AttemptState → String → Value
observed_resource AttemptState.observed resource_ref = str resource_ref
observed_resource _ resource_ref = null

-- `not value` of an optional text
abbrev pub is_absent : Option String → Bool
is_absent none = true
is_absent (some s) = is_empty s
