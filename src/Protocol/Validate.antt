-- ===== src/Protocol/Validate.antt =====
-- `validate_command` and `validate_result_payload` of v4_alpha/protocol.py, over the payload
-- specifications of v4_alpha/generated_protocol.py.
pub mod Digest
mod Spec
unfoldable pub use Spec.*
use loop_skill.Protocol.Outcome.{
  control_field_injection, require, wrong_reference_kind, fetch, resource_limit_exceeded,
  invalid_command, unsupported_protocol_version, at_key, raise_if, ◌>>=◌, ◌>>◌, ok, Result,
}
use loop_skill.Protocol.Value.{
  validate_value, has_control_field, too_long, strings?, int?, num, str, text?, object_of, Value,
}
use loop_skill.Protocol.Envelope.{
  acknowledge_result, advance_goal, begin_effect_delivery, bind_host_resource, close_execution,
  create_loop, pause_loop, prepare_finalization, prepare_route, record_effect_observation,
  record_external_effect_observation, record_policy_decision, record_review, resume_loop,
  revise_goal_plan, stop_loop, stage_external_result, stage_result, strengthen_closure_assurance,
  undeclared, domain_digest, Command, CommandType, Runtime, command_name,
}
use loop_skill.Prelude.{
  is_empty, is_blank, chars, elem, keys, ltb, ◌&&◌, contains, subset, map, ◌==◌, ◌||◌, [], false,
  if◌then◌else◌, is_some, none, not, some, true, ◌∷◌, Bool, Dict, List, Option, String, ℕ,
}
use Prim.Native.String.{len}

abbrev pub protocol_version : String
protocol_version = "4.2.0"

abbrev pub max_command_bytes : ℕ
max_command_bytes = 16384

-- REFERENCE_KINDS
abbrev pub reference_kinds : List String
reference_kinds =
    "LoopRef" ∷ "ActorRef" ∷ "AuthorityGrantRef" ∷ "GoalRef" ∷ "HostResourceRef"
    ∷ "ExternalEffectRef" ∷ "RouteRef" ∷ "DeliveryRef" ∷ "AttemptRef" ∷ "ResultRef" ∷ "ReportRef"
    ∷ "ArtifactRef" ∷ "ReviewRef" ∷ "FinalizationRef" ∷ "ReceiptRef" ∷ []

unfoldable pub is_reference_kind : String → Bool
is_reference_kind kind = elem kind reference_kinds

-- `command.command_type in COMMAND_TYPES`
unfoldable pub is_declared : CommandType → Bool
is_declared (undeclared name) = false
is_declared _ = true

find_spec : String → List FieldSpec → Option FieldSpec
find_spec name [] = none
find_spec name (spec ∷ specs) = if spec.name == name then some spec else find_spec name specs

-- required <= set(payload)
has_required : Dict Value → List FieldSpec → Bool
has_required payload [] = true
has_required payload (spec ∷ specs) =
    (not spec.required || contains spec.name payload) && has_required payload specs

has_type : FieldType → Value → Bool
has_type text v = is_some (text? v)
has_type integer v = is_some (int? v)
has_type text_array v = is_some (strings? v)

in_enum : Option (List String) → Value → Bool
in_enum none v = true
in_enum (some choices) (str s) = elem s choices
in_enum (some choices) v = false

below_minimum : Option ℕ → Value → Bool
below_minimum (some n) (str s) = ltb (chars s) n || is_blank s
below_minimum _ v = false

above_maximum : Option ℕ → Value → Bool
above_maximum (some n) (str s) = ltb n (chars s)
above_maximum _ v = false

check_field : FieldSpec → Value → Result (Unit {0})
unfolding has_type in_enum below_minimum above_maximum
check_field spec v = do
  raise_if (not (has_type spec.type v)) invalid_command
  raise_if (not (in_enum spec.enum v)) invalid_command
  raise_if (below_minimum spec.min_length v) invalid_command
  raise_if (above_maximum spec.max_length v) resource_limit_exceeded

-- the loop over the payload, after the keys have been checked
unfoldable pub check_fields : List FieldSpec → Dict Value → Result (Unit {0})
unfolding check_field find_spec
check_fields specs [] = ok tt
check_fields specs ((name, v) ∷ payload) =
    (do spec ← at_key (find_spec name specs); check_field spec v) >> check_fields specs payload

numbers_value : Dict ℕ → Value
numbers_value d = object_of (map (λ (e : String × ℕ). (e.0, num e.1)) d)

texts_value : Dict String → Value
texts_value d = object_of (map (λ (e : String × String). (e.0, str e.1)) d)

spec_names : List FieldSpec → List String
spec_names [] = []
spec_names (spec ∷ specs) = spec.name ∷ spec_names specs

-- `command_without_digest`
unfoldable pub command_value : Command → Value
unfolding command_name numbers_value texts_value
command_value c = object_of (
    ("actor_ref", str c.actor_ref)
    ∷ ("authority_grant_ref", str c.authority_grant_ref)
    ∷ ("command_type", str (command_name c.command_type))
    ∷ ("expected_loop_revision", num c.expected_loop_revision)
    ∷ ("expected_subject_revisions", numbers_value c.expected_subject_revisions)
    ∷ ("issued_at", str c.issued_at)
    ∷ (
      "machine_bindings",
      object_of (
          ("resolved_refs", texts_value c.bindings.resolved_refs)
          ∷ ("allocate_refs", texts_value c.bindings.allocate_refs)
          ∷ ("receipt_refs", texts_value c.bindings.receipt_refs)
          ∷ []),
    )
    ∷ ("operation_id", str c.operation_id)
    ∷ ("protocol_version", str c.protocol_version)
    ∷ ("semantic_payload", object_of c.payload)
    ∷ (
      "subject",
      object_of (
          ("loop_ref", str c.subject.loop_ref)
          ∷ ("subject_kind", str c.subject.subject_kind)
          ∷ ("subject_ref", str c.subject.subject_ref)
          ∷ []),
    )
    ∷ [])

unfoldable pub command_digest : Runtime → Command → Result String
command_digest rt c = domain_digest rt "loopskill-command-v1\n" (command_value c)

-- the shape of the payload against its specification
unfoldable pub payload_drift : Command → Bool
unfolding has_required spec_names payload_spec
payload_drift c =
    not (has_required c.payload (payload_spec c.command_type))
    || not (subset (keys c.payload) (spec_names (payload_spec c.command_type)))

unfoldable pub validate_command : Runtime → Command → Result (Unit {0})
validate_command rt c = do
  raise_if (not (c.protocol_version == protocol_version)) unsupported_protocol_version
  raise_if (not (is_declared c.command_type)) invalid_command
  raise_if (is_empty c.operation_id || ltb 128 (len c.operation_id)) invalid_command
  raise_if (not (is_reference_kind c.subject.subject_kind)) wrong_reference_kind
  raise_if (has_control_field (object_of c.payload)) control_field_injection
  raise_if (payload_drift c) invalid_command
  check_fields (payload_spec c.command_type) c.payload
  validate_value (command_value c)
  raise_if (ltb max_command_bytes (rt.canonical_size (command_value c))) resource_limit_exceeded
  digest ← command_digest rt c
  raise_if (not (c.request_digest == digest)) invalid_command

pub data Outcome : Type 0 where
  pass failed limitation unverifiable : Outcome

-- the enum of `outcome`
outcome? : String → Option Outcome
outcome? s =
    if s == "PASS"
    then some pass
    else if s == "FAILED"
    then some failed
    else if s == "LIMITATION"
    then some limitation
    else if s == "UNVERIFIABLE"
    then some unverifiable
    else none

pub outcome_text : Outcome → String
outcome_text pass = "PASS"
outcome_text failed = "FAILED"
outcome_text limitation = "LIMITATION"
outcome_text unverifiable = "UNVERIFIABLE"

-- `validate_result_payload`
pub validate_result_payload : Dict Value → Result (Outcome × String)
unfolding outcome?
validate_result_payload payload = do
  raise_if
      (not (subset (keys payload) ("outcome" ∷ "summary" ∷ []))
        || not (subset ("outcome" ∷ "summary" ∷ []) (keys payload)))
      invalid_command
  outcome_value ← fetch "outcome" payload
  summary_value ← fetch "summary" payload
  outcome_name ← require (text? outcome_value) invalid_command
  outcome ← require (outcome? outcome_name) invalid_command
  summary ← require (text? summary_value) invalid_command
  raise_if
      (is_blank summary || ltb (chars summary) 1 || ltb 4096 (chars summary) || too_long summary)
      resource_limit_exceeded
  ok (outcome, summary)
