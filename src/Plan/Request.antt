-- ===== src/Plan/Request.antt =====
-- `materialize_provider_request` of v4_alpha/plan_codec.py: what a provider is asked for a Goal.
pub mod Total
use loop_skill.Protocol.Outcome.{◌>>◌}
use loop_skill.Plan.Checks.{Unicode}
use loop_skill.Plan.Document.{Extension, GoalPolicy, Plan, PlanGoal, budget_value, profile_value}
use loop_skill.Plan.Index.{IndexDocument, by_id, validate_plan_index}
use loop_skill.Prelude.{Dict, List, Option, String, [], get_elem?, lookup, none, some, ℕ, ◌++◌, ◌∷◌}
use loop_skill.Protocol.Envelope.{Runtime}
use loop_skill.Protocol.Partial.{◌>>=◌}
use loop_skill.Protocol.Value.{Value, Values, array, array_of, cons, nil, num, object_of, str}

-- the requirements of a Goal, with their texts
unfoldable pub requirement_values : Dict String → List String → Option Values
requirement_values requirements [] = some nil
requirement_values requirements (reference ∷ refs) = do
  requirement ← lookup reference requirements
  rest ← requirement_values requirements refs
  some (cons (object_of (("requirement_id", str reference) ∷ ("text", str requirement) ∷ [])) rest)

goal_policy_value : GoalPolicy → Value
goal_policy_value p = object_of (
    ("gate", str p.gate)
    ∷ ("max_attempts", num p.max_attempts)
    ∷ ("on_blocked", str p.on_blocked)
    ∷ ("on_failure", str p.on_failure)
    ∷ ("recovery_policy", str p.recovery_policy)
    ∷ ("replay_safety", str p.replay_safety)
    ∷ ("requirement", str p.requirement)
    ∷ [])

-- the fields that a plan of loopskill-plan-v2 adds
unfoldable pub extended_fields :
    Option Extension → Option GoalPolicy → Option (List (String × Value))
unfolding goal_policy_value
extended_fields none policy = some []
extended_fields (some extension) policy = do
  p ← policy
  requirements ← requirement_values extension.requirements p.requirement_refs
  some (
      ("capabilities", array_of p.capabilities)
      ∷ ("goal_policy", goal_policy_value p)
      ∷ ("requirements", array requirements)
      ∷ ("verifiers", array_of p.verifiers)
      ∷ ("worker_profile", profile_value extension.worker_profile)
      ∷ [])

-- the fields of every request
unfoldable pub request_fields :
    Plan → PlanGoal → String → String → String → String → List (String × Value)
request_fields plan goal target_ref artifact_digest prior_disposition workspace =
    ("acceptance_criteria", array_of goal.acceptance_criteria)
    ∷ ("artifact_digest", str artifact_digest)
    ∷ (
      "authorization_boundaries",
      object_of (
          ("destructive_actions_allowed", Value.boolean plan.boundaries.destructive_actions_allowed)
          ∷ ("forbidden_actions", array_of plan.boundaries.forbidden_actions)
          ∷ ("forbidden_paths", array_of plan.boundaries.forbidden_paths)
          ∷ []),
    )
    ∷ ("budget", budget_value plan.budget)
    ∷ ("execution_mode", str plan.roadmap_policy.mode)
    ∷ ("external_actions", array_of plan.boundaries.external_actions)
    ∷ ("goal", str goal.objective)
    ∷ ("goal_id", str goal.goal_id)
    ∷ ("prior_disposition", str prior_disposition)
    ∷ ("stop_conditions", array_of plan.stop_conditions)
    ∷ ("target_ref", str target_ref)
    ∷ ("workspace_digest", str workspace)
    ∷ ("write_scope", array_of plan.boundaries.write_scope)
    ∷ []

module _ (rt : Runtime) (u : Unicode) where
  unfoldable pub materialize_provider_request :
      Plan → IndexDocument → ℕ → String → String → String → Option Value
  materialize_provider_request plan index goal_index target_ref artifact_digest prior_disposition =
      do
        verified ← validate_plan_index rt u index plan
        goal_id ← get_elem? verified.ordered_goal_ids goal_index
        goal ← lookup goal_id (by_id plan.goals)
        extended ← extended_fields plan.extension goal.policy
        some (
            object_of (
              request_fields plan goal target_ref artifact_digest prior_disposition
                verified.workspace_binding
              ++ extended))
