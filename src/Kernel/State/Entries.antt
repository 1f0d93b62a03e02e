-- ===== src/Kernel/State/Entries.antt =====
-- The entries of a snapshot (v4_alpha/kernel.py): Goals, resources, effects, attempts, deliveries,
-- results, reports, artifacts and reviews.
use loop_skill.Protocol.Validate.{Outcome}
use loop_skill.Protocol.Derive.{Chain}
use loop_skill.Prelude.{Bool, Option, String, ℕ, ℤ}

pub data GoalState : Type 0 where
  pending active done skipped failed limitation stopped : GoalState

pub record Goal : Type 0 where
  pub chain_refs : Chain
  pub depends_on : Option String
  pub goal_id : String
  pub goal_slice_digest : String
  pub max_attempts : ℤ
  pub objective : Option String
  pub objective_digest : String
  pub order : ℕ
  pub requirement : String
  pub revision : ℕ
  pub state : GoalState

-- the state of a delivery and of an external effect
pub data DeliveryState : Type 0 where
  prepared attempt_committed observed unknown unverifiable : DeliveryState

pub data AttemptState : Type 0 where
  committed observed unknown unverifiable : AttemptState

pub record HostResource : Type 0 where
  pub provider_resource_ref : Option String
  pub receipt_ref : String
  pub revision : ℕ

pub record ArtifactBinding : Type 0 where
  pub artifact_baseline_blob_digest : String
  pub artifact_profile : String
  pub workspace_identity_digest : String

pub record ExternalEffect : Type 0 where
  pub action : String
  pub artifact_binding : Option ArtifactBinding
  pub attempt_ref : String
  pub goal_ref : String
  pub host_resource_ref : String
  pub observation_receipt_ref : Option String
  pub revision : ℕ
  pub state : DeliveryState
  pub target_ref : String

-- the provider request of an external effect
pub record ProviderRequest : Type 0 where
  pub active_index : ℕ
  pub artifact_digest : String
  pub goal_id : String
  pub goal_slice_digest : String
  pub plan_digest : String
  pub plan_index_digest : String
  pub prior_disposition : String
  pub target_ref : String
  pub workspace_binding : String

-- an attempt of an external effect has an action, an effect and a request, and one of a delivery
-- has the delivery
pub record Attempt : Type 0 where
  pub action : Option String
  pub automatic_budget_consumed : Bool
  pub delivery_ref : Option String
  pub executor_actor_ref : String
  pub executor_grant_ref : String
  pub external_effect_ref : Option String
  pub observation_receipt_ref : Option String
  pub ordinal : ℕ
  pub provider_idempotency_key : String
  pub provider_request : Option ProviderRequest
  pub provider_request_digest : String
  pub revision : ℕ
  pub state : AttemptState
  pub target_ref : String

pub record Route : Type 0 where
  pub delivery_ref : String
  pub goal_ref : String
  pub intent_digest : String
  pub revision : ℕ
  pub target_ref : String

pub record Delivery : Type 0 where
  pub attempt_ref : Option String
  pub automatic_attempt_budget : ℕ
  pub automatic_attempts_consumed : ℕ
  pub revision : ℕ
  pub route_ref : String
  pub state : DeliveryState
  pub target_ref : String

pub data ResultState : Type 0 where
  staged acknowledged : ResultState

pub record LoopResult : Type 0 where
  pub artifact_ref : Option String
  pub attempt_ref : String
  pub delivery_ref : Option String
  pub external_effect_ref : Option String
  pub goal_ref : Option String
  pub outcome : Outcome
  pub report_ref : String
  pub revision : ℕ
  pub route_ref : Option String
  pub source_observation_digest : Option String
  pub state : ResultState

pub data ReportState : Type 0 where
  staged accepted : ReportState

pub record Report : Type 0 where
  pub author_actor_ref : String
  pub content_digest : String
  pub result_ref : String
  pub revision : ℕ
  pub state : ReportState

pub data ArtifactState : Type 0 where
  verified unverifiable : ArtifactState

pub record Artifact : Type 0 where
  pub capture_state : String
  pub content_digest : String
  pub manifest_digest : String
  pub profile : String
  pub receipt_ref : String
  pub result_ref : String
  pub revision : ℕ
  pub state : ArtifactState
  pub verification_digest : String
  pub verification_state : String

pub data Verdict : Type 0 where
  pass repair limitation : Verdict

pub record Review : Type 0 where
  pub artifact_ref : String
  pub report_ref : String
  pub result_ref : String
  pub reviewer_actor_ref : String
  pub revision : ℕ
  pub state : Verdict
  pub subject_chain_digest : String
