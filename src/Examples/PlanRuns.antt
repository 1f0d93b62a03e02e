-- ===== src/Examples/PlanRuns.antt =====
-- The plan codec's theorems at a plan of two Goals.
use loop_skill.Plan.Canonicalize.{
  attempts_of, canonicalize_as, canonicalize_plan_v2, finished, goals_of, invalid_goals, is_primary,
  sized, worker_attempts,
}
use loop_skill.Plan.Checks.{
  are_digits, bounded_text, closed, field, has_nul, integer, is_numbered, is_sized, keys, newlines,
  normalized, one_of, string_array, text, texts,
}
use loop_skill.Plan.Document.{
  plan_value, boundaries_value, budget_value, extension_fields, goal_value, goal_values,
  policy_fields, profile_value, requirement_members, roadmap_value, source_value,
}
use loop_skill.Plan.Parts.{
  at, boundaries_of, budget_of, currency_of, goal_id_of, goal_v2, goals_in, invalid_policy,
  is_approval, is_due, not_retained, policy_of, profile_of, requirements_in, requirements_of,
  roadmap_of, slice_from, source_of,
}
use loop_skill.Prelude.{
  is_digest, strip, lookup, place, sorted_items, cat, chars, has_prefix, is_hex,
}
use loop_skill.Protocol.Value.{size_members, size_values, too_long, validate_value}
use loop_skill.Protocol.Partial.{◌>>=◌, unless}
use loop_skill.Plan.Index.{
  misdescribes, same_goals, plan_digest, slice_digests, by_id_onto, digest_text, goal_slice_digest,
  invalid_order,
}
use loop_skill.Prelude.{insert}
use loop_skill.Protocol.Envelope.{domain_digest}
use loop_skill.Examples.Data.{hash, runtime}
use loop_skill.Plan.Canonicalize.{canonicalize_plan}
use loop_skill.Plan.Canonicalize.Bounds.{canonicalize_plan_protocol_bounds}
use loop_skill.Plan.Canonicalize.Sound.{IsSound, canonicalize_plan-IsSound}
use loop_skill.Plan.Checks.{Unicode}
use loop_skill.Plan.Document.{Extension, GoalPolicy, Plan, PlanGoal}
use loop_skill.Plan.Index.{IndexDocument, build_plan_index, validate_plan_index}
use loop_skill.Plan.Index.Sound.{IsIndexOf, validate_plan_index-IsIndexOf}
use loop_skill.Plan.Request.Total.{IsRequestAt, materialize_provider_request_total}
use loop_skill.Prelude.{String, [], arith, false, length, none, refl, some, true, ◌∷◌, ◌≡◌, ◌≤◌}
use Prim.Native.String.{len}

abbrev unicode : Unicode
unicode = record { normalize = λ s. s; upper = λ s. s }

abbrev worker_policy : GoalPolicy
worker_policy = record {
  capabilities = [];
  gate = "worker";
  max_attempts = 2;
  on_blocked = "wait";
  on_failure = "repair";
  recovery_policy = "resume";
  replay_safety = "file_local";
  requirement = "required";
  requirement_refs = "r001" ∷ [];
  verifiers = "tests" ∷ [];
}

abbrev goal_of : String → PlanGoal
goal_of goal_id = record {
  acceptance_criteria = "passes" ∷ [];
  goal_id = goal_id;
  objective = "build";
  policy = some worker_policy;
}

abbrev plan : Plan
plan = record {
  boundaries = record {
    destructive_actions_allowed = false;
    external_actions = [];
    forbidden_actions = [];
    forbidden_paths = [];
    write_scope = "src" ∷ [];
  };
  budget = record {
    currency = none;
    max_cost_minor_units = 0;
    max_host_invocations = 4;
    wall_clock_seconds = 60;
  };
  completion_evidence = "report" ∷ [];
  goals = goal_of "g001" ∷ goal_of "g002" ∷ [];
  objective = "build";
  roadmap_policy = record { max_reorders = 0; mode = "STANDARD" };
  source = record { kind = "literal_text"; source_digest = hash };
  stop_conditions = "done" ∷ [];
  extension = some (record {
    requirements = ("r001", "tests pass") ∷ [];
    worker_profile = record {
      attempt_timeout_seconds = 60;
      local_verification = true;
      model = "m";
      network_access = false;
      reasoning_effort = "low";
    };
  });
}

canonical : canonicalize_plan runtime unicode (plan_value plan) ≡ some plan
unfolding canonicalize_plan attempts_of canonicalize_as canonicalize_plan_v2 finished goals_of
    invalid_goals is_primary sized worker_attempts are_digits bounded_text closed field has_nul
    integer is_digest is_numbered is_sized keys newlines normalized one_of string_array text texts
    plan_value boundaries_value budget_value extension_fields goal_value goal_values policy_fields
    profile_value requirement_members roadmap_value source_value at boundaries_of budget_of
    currency_of goal_id_of goal_v2 goals_in invalid_policy is_approval is_due not_retained policy_of
    profile_of requirements_in requirements_of roadmap_of slice_from source_of strip lookup place
    sorted_items cat chars has_prefix is_hex size_members size_values too_long validate_value ◌>>=◌
    unless
canonical = refl

abbrev index : IndexDocument
index = record {
  authority_digest = hash;
  capacity_contract_version = "loopskill-capacity-v2";
  goal_count = 2;
  ordered_goal_ids = "g002" ∷ "g001" ∷ [];
  ordered_goal_slice_digests = hash ∷ hash ∷ [];
  plan_digest = hash;
  revision = 1;
  schema = "loopskill-plan-index-v2";
  workspace_binding = "workspace";
}

valid : validate_plan_index runtime unicode index plan ≡ some index
unfolding validate_plan_index misdescribes same_goals plan_digest slice_digests by_id_onto
    digest_text goal_slice_digest ◌>>=◌ unless bounded_text is_digest strip lookup insert has_nul
    newlines normalized chars is_hex has_prefix cat domain_digest validate_value goal_value
    policy_fields size_values size_members too_long plan_value boundaries_value budget_value
    extension_fields goal_values profile_value requirement_members roadmap_value source_value
valid = rw canonical refl

indexed :
    build_plan_index runtime unicode plan hash "workspace" hash 1 (some ("g002" ∷ "g001" ∷ []))
    ≡ some index
unfolding build_plan_index invalid_order same_goals slice_digests by_id_onto goal_slice_digest ◌>>=◌
    unless bounded_text is_digest strip lookup insert has_nul newlines normalized chars is_hex
    has_prefix cat domain_digest validate_value goal_value policy_fields size_values size_members
    too_long plan_value boundaries_value budget_value extension_fields goal_values profile_value
    requirement_members roadmap_value source_value
indexed = valid

canonicalize_plan-IsSound_example : IsSound plan
canonicalize_plan-IsSound_example =
    canonicalize_plan-IsSound runtime unicode (plan_value plan) plan canonical

canonicalize_plan_protocol_bounds_example :
    (len plan.objective ≤ 4096)
    × ((e : Extension) → plan.extension ≡ some e → length e.requirements ≤ 128)
canonicalize_plan_protocol_bounds_example =
    canonicalize_plan_protocol_bounds runtime unicode (plan_value plan) plan canonical

validate_plan_index-IsIndexOf_example : (index ≡ index) × IsIndexOf runtime unicode plan index
validate_plan_index-IsIndexOf_example =
    validate_plan_index-IsIndexOf runtime unicode plan index index valid

materialize_provider_request_total_example :
    IsRequestAt runtime unicode plan index 1 "target" hash "NONE"
materialize_provider_request_total_example =
    materialize_provider_request_total runtime unicode (plan_value plan) plan hash "workspace" hash
      1 (some ("g002" ∷ "g001" ∷ [])) index 1 "target" hash "NONE" canonical indexed (omega arith)
