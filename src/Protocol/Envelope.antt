-- ===== src/Protocol/Envelope.antt =====
-- The dataclasses of v4_alpha/generated_protocol.py that the kernel reads, the event dictionaries,
-- and what the code takes from outside: SHA-256 and the reading of ISO timestamps.
use mathlib.Core.Option
use loop_skill.Prelude.{
  not, if◌then◌else◌, ℤ, [], false, true, ◌∷◌, ltb, ℕ, String, Bool, Option, List, Dict, lookup,
}
use loop_skill.Protocol.Outcome.{
  err, value_error, raise_if, Result, ok, ◌>>◌, require, invalid_command, resource_limit_exceeded,
}
use loop_skill.Protocol.Value.{int?, text?, object_of, str, opt_str, Value, validate_value}

-- a `datetime`: its microseconds, and whether it has a time zone
pub record Moment : Type 0 where
  pub microseconds : ℕ
  pub aware : Bool

-- `sha256` is the hash of a domain and the canonical bytes of a value, in hexadecimal;
-- `canonical_size` is the length of those bytes; `fromisoformat` reads an ISO text with `Z` as
-- `+00:00`, none where it raises.
pub record Runtime : Type 0 where
  pub sha256 : String → Value → String
  pub canonical_size : Value → ℕ
  pub fromisoformat : String → Option Moment

-- `domain_digest`: canonical_bytes refuses a value that is out of bounds
unfoldable pub domain_digest : Runtime → String → Value → Result String
domain_digest rt domain value = do validate_value value; ok (rt.sha256 domain value)

-- `_parse_time`
unfoldable pub parse_time : Runtime → String → Result Moment
parse_time rt text = require (rt.fromisoformat text) invalid_command

abbrev pub alike : Bool → Bool → Bool
alike true b = b
alike false b = not b

-- `a < b` of two `datetime`, a TypeError where only one of them has a time zone
unfoldable pub is_before : Moment → Moment → Result Bool
is_before a b =
    if alike a.aware b.aware then ok (ltb a.microseconds b.microseconds) else err value_error

pub record ActorRef : Type 0 where
  pub actor_ref : String
  pub loop_namespace : String
  pub actor_kind : String
  pub identity_digest : String
  pub issuer_ref : String
  pub issuer_trust : String

-- the plan selector of an `AuthorityGrantV2`
pub record Selector : Type 0 where
  pub goal_index_max : ℕ
  pub goal_index_min : ℕ
  pub include_loop_scope : Bool
  pub mode : String
  pub plan_digest : String

-- what tells `AuthorityGrant` from `AuthorityGrantV2`
pub data Scope : Type 0 where
  exact_subjects : List String → Scope
  plan_selector : String → Selector → Scope

pub record Grant : Type 0 where
  pub grant_ref : String
  pub actor_ref : String
  pub issuer_actor_ref : String
  pub issuer_trust : String
  pub allowed_commands : List String
  pub loop_scope : String
  pub subject_kinds : List String
  pub scope : Scope
  pub not_before : String
  pub expires_at : String
  pub nonce : String
  pub canonical_digest : String

pub data TrustClass : Type 0 where
  strict cooperative : TrustClass
  other : String → TrustClass

pub data ReceiptOutcome : Type 0 where
  observed unknown unverifiable acknowledged : ReceiptOutcome
  other : String → ReceiptOutcome

trust_name : TrustClass → String
trust_name strict = "strict"
trust_name cooperative = "cooperative"
trust_name (other name) = name

outcome_name : ReceiptOutcome → String
outcome_name observed = "observed"
outcome_name unknown = "unknown"
outcome_name unverifiable = "unverifiable"
outcome_name acknowledged = "acknowledged"
outcome_name (other name) = name

abbrev pub is_strict : TrustClass → Bool
is_strict strict = true
is_strict _ = false

abbrev pub is_cooperative : TrustClass → Bool
is_cooperative cooperative = true
is_cooperative _ = false

abbrev pub is_observed : ReceiptOutcome → Bool
is_observed observed = true
is_observed _ = false

abbrev pub is_unknown : ReceiptOutcome → Bool
is_unknown unknown = true
is_unknown _ = false

abbrev pub is_unverifiable : ReceiptOutcome → Bool
is_unverifiable unverifiable = true
is_unverifiable _ = false

abbrev pub is_acknowledged : ReceiptOutcome → Bool
is_acknowledged acknowledged = true
is_acknowledged _ = false

pub record Receipt : Type 0 where
  pub receipt_ref : String
  pub issuer_ref : String
  pub issuer_trust : String
  pub trust_class : TrustClass
  pub action : String
  pub loop_ref : String
  pub subject_ref : String
  pub attempt_ref : Option String
  pub target_ref : Option String
  pub request_digest : Option String
  pub provider_idempotency_key : Option String
  pub provider_resource_ref : Option String
  pub outcome : ReceiptOutcome
  pub issued_at : String
  pub expires_at : String
  pub evidence_digest : String

abbrev pub max_receipt_bytes : ℕ
max_receipt_bytes = 8192

-- `receipt.__dict__`
receipt_value : Receipt → Value
receipt_value r = object_of (
    ("receipt_ref", str r.receipt_ref)
    ∷ ("issuer_ref", str r.issuer_ref)
    ∷ ("issuer_trust", str r.issuer_trust)
    ∷ ("trust_class", str (trust_name r.trust_class))
    ∷ ("action", str r.action)
    ∷ ("loop_ref", str r.loop_ref)
    ∷ ("subject_ref", str r.subject_ref)
    ∷ ("attempt_ref", opt_str r.attempt_ref)
    ∷ ("target_ref", opt_str r.target_ref)
    ∷ ("request_digest", opt_str r.request_digest)
    ∷ ("provider_idempotency_key", opt_str r.provider_idempotency_key)
    ∷ ("provider_resource_ref", opt_str r.provider_resource_ref)
    ∷ ("outcome", str (outcome_name r.outcome))
    ∷ ("issued_at", str r.issued_at)
    ∷ ("expires_at", str r.expires_at)
    ∷ ("evidence_digest", str r.evidence_digest)
    ∷ [])

unfoldable pub validate_receipt_size : Runtime → Receipt → Result (Unit {0})
unfolding receipt_value trust_name outcome_name
validate_receipt_size rt r = do
  validate_value (receipt_value r)
  raise_if (ltb max_receipt_bytes (rt.canonical_size (receipt_value r))) resource_limit_exceeded

-- COMMAND_TYPES, and any other text
pub data CommandType : Type 0 where
  acknowledge_result advance_goal begin_effect_delivery bind_host_resource : CommandType
  close_execution create_loop pause_loop prepare_finalization prepare_route : CommandType
  record_effect_observation record_external_effect_observation : CommandType
  record_policy_decision record_review resume_loop revise_goal_plan stop_loop : CommandType
  stage_external_result stage_result strengthen_closure_assurance : CommandType
  undeclared : String → CommandType

-- the text of a command type
unfoldable pub command_name : CommandType → String
command_name acknowledge_result = "AcknowledgeResult"
command_name advance_goal = "AdvanceGoal"
command_name begin_effect_delivery = "BeginEffectDelivery"
command_name bind_host_resource = "BindHostResource"
command_name close_execution = "CloseExecution"
command_name create_loop = "CreateLoop"
command_name pause_loop = "PauseLoop"
command_name prepare_finalization = "PrepareFinalization"
command_name prepare_route = "PrepareRoute"
command_name record_effect_observation = "RecordEffectObservation"
command_name record_external_effect_observation = "RecordExternalEffectObservation"
command_name record_policy_decision = "RecordPolicyDecision"
command_name record_review = "RecordReview"
command_name resume_loop = "ResumeLoop"
command_name revise_goal_plan = "ReviseGoalPlan"
command_name stop_loop = "StopLoop"
command_name stage_external_result = "StageExternalResult"
command_name stage_result = "StageResult"
command_name strengthen_closure_assurance = "StrengthenClosureAssurance"
command_name (undeclared name) = name

-- the subject dictionary, whose three keys `validate_command` requires
pub record Subject : Type 0 where
  pub loop_ref : String
  pub subject_kind : String
  pub subject_ref : String

-- the machine bindings, whose three groups `validate_command` requires
pub record Bindings : Type 0 where
  pub resolved_refs : Dict String
  pub allocate_refs : Dict String
  pub receipt_refs : Dict String

pub record Command : Type 0 where
  pub operation_id : String
  pub command_type : CommandType
  pub protocol_version : String
  pub actor_ref : String
  pub authority_grant_ref : String
  pub subject : Subject
  pub expected_loop_revision : ℕ
  pub expected_subject_revisions : Dict ℕ
  pub issued_at : String
  pub bindings : Bindings
  pub payload : Dict Value
  pub request_digest : String

-- `AuthorityContext` of v4_alpha/kernel.py
pub record AuthorityContext : Type 0 where
  pub actors : Dict ActorRef
  pub grants : Dict Grant
  pub receipts : Dict Receipt
  pub trusted_actor_issuers : Dict String
  pub trusted_grant_issuers : Dict String
  pub trusted_receipt_issuers : Dict String

-- EVENT_TYPES that the kernel emits
pub data EventType : Type 0 where
  loop_created goal_registered goal_activated goal_plan_registered start_authorized : EventType
  host_resource_bound external_effect_prepared external_effect_observed : EventType
  external_effect_unknown external_effect_unverifiable late_external_effect_observed : EventType
  route_prepared delivery_attempt_committed delivery_observed delivery_unknown : EventType
  delivery_unverifiable late_delivery_observed result_staged report_staged : EventType
  artifact_captured artifact_verified artifact_unverifiable report_accepted : EventType
  result_acknowledged review_recorded human_decision_recorded repair_authorized : EventType
  repair_attempt_scheduled repair_exhausted roadmap_revised goal_advanced goal_skipped : EventType
  budget_waiting budget_extended controller_gate_satisfied loop_paused loop_resumed : EventType
  loop_stopped finalization_prepared execution_finalized : EventType
  strict_finalization_acknowledged closure_assurance_strengthened : EventType

-- `_event`: the type is declared, so the check of it passes
pub record Event : Type 0 where
  pub kind : EventType
  pub body : Dict Value

abbrev pub event : EventType → Dict Value → Event
event kind body = record { kind = kind; body = body }

-- `_binding`
abbrev pub binding : Dict String → String → Result String
binding group name = require (lookup name group) invalid_command

-- the text or the number that a payload holds under a name
abbrev pub payload_text : Command → String → Option String
payload_text c name = Option.bind (lookup name c.payload) text?

abbrev pub payload_int : Command → String → Option ℤ
payload_int c name = Option.bind (lookup name c.payload) int?

abbrev pub content_storage_mode : String
content_storage_mode = "CONTENT_ADDRESSED_V1"
