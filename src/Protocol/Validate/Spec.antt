-- ===== src/Protocol/Validate/Spec.antt =====
-- SEMANTIC_PAYLOAD_SPECS of v4_alpha/generated_protocol.py.
use loop_skill.Protocol.Envelope.{
  acknowledge_result, advance_goal, begin_effect_delivery, bind_host_resource, close_execution,
  create_loop, pause_loop, prepare_finalization, prepare_route, record_effect_observation,
  record_external_effect_observation, record_policy_decision, record_review, resume_loop,
  revise_goal_plan, stop_loop, stage_external_result, stage_result, strengthen_closure_assurance,
  undeclared, CommandType,
}
use loop_skill.Prelude.{[], false, none, some, true, ◌∷◌, Bool, List, Option, String, ℕ}

pub data FieldType : Type 0 where
  text integer text_array : FieldType

-- one entry of SEMANTIC_PAYLOAD_SPECS
pub record FieldSpec : Type 0 where
  pub name : String
  pub type : FieldType
  pub required : Bool
  pub enum : Option (List String)
  pub min_length : Option ℕ
  pub max_length : Option ℕ

abbrev field_spec : Bool → String → FieldType → FieldSpec
field_spec required name type = record {
  name = name;
  type = type;
  required = required;
  enum = none;
  min_length = none;
  max_length = none;
}

abbrev required : String → FieldType → FieldSpec
required = field_spec true

abbrev optional : String → FieldType → FieldSpec
optional = field_spec false

abbrev enumerated : String → Bool → List String → FieldSpec
enumerated name required choices = record {
  name = name;
  type = text;
  required = required;
  enum = some choices;
  min_length = none;
  max_length = none;
}

abbrev bounded : String → Bool → ℕ → ℕ → FieldSpec
bounded name required low high = record {
  name = name;
  type = text;
  required = required;
  enum = none;
  min_length = some low;
  max_length = some high;
}

unfoldable pub payload_spec : CommandType → List FieldSpec
payload_spec acknowledge_result = []
payload_spec advance_goal =
    (enumerated "disposition" true ("DONE" ∷ "FAILED" ∷ "LIMITATION" ∷ "SKIPPED" ∷ [])) ∷ []
payload_spec begin_effect_delivery = []
payload_spec bind_host_resource = (required "role" text) ∷ []
payload_spec close_execution = []
payload_spec create_loop =
    (required "acceptance_criteria" text_array)
    ∷ (required "authorization_boundaries" text_array)
    ∷ (required "budget" text)
    ∷ (enumerated "execution_mode" true ("STANDARD" ∷ "ADAPTIVE" ∷ []))
    ∷ (required "goal_plan" text_array)
    ∷ (optional "active_index" integer)
    ∷ (optional "authority_digest" text)
    ∷ (optional "capacity_contract_version" text)
    ∷ (optional "goal_count" integer)
    ∷ (optional "goal_id" text)
    ∷ (enumerated "goal_requirement" false ("required" ∷ "optional" ∷ []))
    ∷ (optional "goal_slice_digest" text)
    ∷ (required "max_roadmap_revisions" integer)
    ∷ (optional "max_cost_minor_units" integer)
    ∷ (optional "max_host_invocations" integer)
    ∷ (optional "max_attempts" integer)
    ∷ (optional "ordered_goal_ids" text_array)
    ∷ (optional "ordered_goal_slice_digests" text_array)
    ∷ (optional "plan_digest" text)
    ∷ (optional "plan_index_digest" text)
    ∷ (optional "plan_revision" integer)
    ∷ (enumerated "storage_mode" true ("CONTENT_ADDRESSED_V1" ∷ []))
    ∷ (optional "stop_policy_digest" text)
    ∷ (optional "wall_clock_seconds" integer)
    ∷ (optional "workspace_binding" text)
    ∷ (required "external_actions" text_array)
    ∷ (required "objective" text)
    ∷ (required "stop_conditions" text_array)
    ∷ (required "write_scope" text_array)
    ∷ []
payload_spec pause_loop =
    (required "reason" text)
    ∷ (enumerated "wait_kind" false
        ("BLOCKED" ∷ "BUDGET" ∷ "FAILURE" ∷ "HUMAN" ∷ "REPAIR" ∷ "TIME" ∷ []))
    ∷ []
payload_spec prepare_finalization =
    (enumerated "disposition" true
      ("SUCCEEDED" ∷ "SUCCEEDED_WITH_LIMITATIONS" ∷ "LIMITATION" ∷ "FAILED" ∷ []))
    ∷ []
payload_spec prepare_route = (required "intent" text) ∷ []
payload_spec record_effect_observation = []
payload_spec record_external_effect_observation = []
payload_spec record_policy_decision =
    (enumerated "decision" true ("CONTINUE_REPAIR" ∷ "WAIT" ∷ "STOP" ∷ []))
    ∷ (required "failure_fingerprint" text)
    ∷ []
payload_spec record_review =
    (enumerated "verdict" true ("PASS" ∷ "REPAIR" ∷ "LIMITATION" ∷ [])) ∷ []
payload_spec resume_loop =
    (optional "gate_digest" text)
    ∷ (optional "new_max_host_invocations" integer)
    ∷ (optional "new_wall_clock_seconds" integer)
    ∷ (optional "prior_budget_digest" text)
    ∷ (optional "reason_digest" text)
    ∷ []
payload_spec revise_goal_plan =
    (optional "objective_order" text_array)
    ∷ (optional "ordered_goal_ids" text_array)
    ∷ (optional "ordered_goal_slice_digests" text_array)
    ∷ (optional "plan_index_digest" text)
    ∷ (optional "plan_revision" integer)
    ∷ (required "reason" text)
    ∷ []
payload_spec stop_loop = (required "reason" text) ∷ []
payload_spec stage_external_result =
    (enumerated "outcome" true ("PASS" ∷ "FAILED" ∷ "LIMITATION" ∷ "UNVERIFIABLE" ∷ []))
    ∷ (bounded "summary" true 1 4096)
    ∷ []
payload_spec stage_result =
    (enumerated "outcome" true ("PASS" ∷ "FAILED" ∷ "LIMITATION" ∷ "UNVERIFIABLE" ∷ []))
    ∷ (bounded "summary" true 1 4096)
    ∷ []
payload_spec strengthen_closure_assurance = []
payload_spec (undeclared name) = []
