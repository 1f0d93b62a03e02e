-- ===== src/Plan/Document.antt =====
-- Canonical plan documents (v4_alpha/plan_codec.py), as `canonicalize_plan` returns them: those of
-- the schema loopskill-plan-v2 have an extension, and so has each of their Goals.
use loop_skill.Prelude.{Bool, Dict, List, Option, String, [], none, some, ℕ, ◌∷◌}
use loop_skill.Protocol.Value.{
  Members, Value, Values, array, array_of, cons, end, member, nil, num, object, object_of, opt_str,
  str,
}

pub record Source : Type 0 where
  pub kind : String
  pub source_digest : String

pub record Boundaries : Type 0 where
  pub destructive_actions_allowed : Bool
  pub external_actions : List String
  pub forbidden_actions : List String
  pub forbidden_paths : List String
  pub write_scope : List String

pub record Budget : Type 0 where
  pub currency : Option String
  pub max_cost_minor_units : ℕ
  pub max_host_invocations : ℕ
  pub wall_clock_seconds : ℕ

pub record RoadmapPolicy : Type 0 where
  pub max_reorders : ℕ
  pub mode : String

pub record GoalPolicy : Type 0 where
  pub capabilities : List String
  pub gate : String
  pub max_attempts : ℕ
  pub on_blocked : String
  pub on_failure : String
  pub recovery_policy : String
  pub replay_safety : String
  pub requirement : String
  pub requirement_refs : List String
  pub verifiers : List String

pub record PlanGoal : Type 0 where
  pub acceptance_criteria : List String
  pub goal_id : String
  pub objective : String
  pub policy : Option GoalPolicy

pub record WorkerProfile : Type 0 where
  pub attempt_timeout_seconds : ℕ
  pub local_verification : Bool
  pub model : String
  pub network_access : Bool
  pub reasoning_effort : String

pub record Extension : Type 0 where
  pub requirements : Dict String
  pub worker_profile : WorkerProfile

pub record Plan : Type 0 where
  pub boundaries : Boundaries
  pub budget : Budget
  pub completion_evidence : List String
  pub goals : List PlanGoal
  pub objective : String
  pub roadmap_policy : RoadmapPolicy
  pub source : Source
  pub stop_conditions : List String
  pub extension : Option Extension

-- PLAN_SCHEMA and PLAN_SCHEMA_V2
abbrev pub schema_of : {A : Type 0} → Option A → String
schema_of none = "loopskill-plan-v1"
schema_of (some e) = "loopskill-plan-v2"

-- the documents as JSON values

unfoldable pub boundaries_value : Boundaries → Value
boundaries_value b = object_of (
    ("destructive_actions_allowed", Value.boolean b.destructive_actions_allowed)
    ∷ ("external_actions", array_of b.external_actions)
    ∷ ("forbidden_actions", array_of b.forbidden_actions)
    ∷ ("forbidden_paths", array_of b.forbidden_paths)
    ∷ ("write_scope", array_of b.write_scope)
    ∷ [])

unfoldable pub budget_value : Budget → Value
budget_value b = object_of (
    ("currency", opt_str b.currency)
    ∷ ("max_cost_minor_units", num b.max_cost_minor_units)
    ∷ ("max_host_invocations", num b.max_host_invocations)
    ∷ ("wall_clock_seconds", num b.wall_clock_seconds)
    ∷ [])

unfoldable pub policy_fields : Option GoalPolicy → List (String × Value)
policy_fields none = []
policy_fields (some p) =
    ("capabilities", array_of p.capabilities)
    ∷ ("gate", str p.gate)
    ∷ ("max_attempts", num p.max_attempts)
    ∷ ("on_blocked", str p.on_blocked)
    ∷ ("on_failure", str p.on_failure)
    ∷ ("recovery_policy", str p.recovery_policy)
    ∷ ("replay_safety", str p.replay_safety)
    ∷ ("requirement", str p.requirement)
    ∷ ("requirement_refs", array_of p.requirement_refs)
    ∷ ("verifiers", array_of p.verifiers)
    ∷ []

unfoldable pub goal_value : PlanGoal → Value
unfolding policy_fields
goal_value g = object_of (
    ("acceptance_criteria", array_of g.acceptance_criteria)
    ∷ ("goal_id", str g.goal_id)
    ∷ ("objective", str g.objective)
    ∷ policy_fields g.policy)

unfoldable pub goal_values : List PlanGoal → Values
unfolding goal_value
goal_values [] = nil
goal_values (g ∷ goals) = cons (goal_value g) (goal_values goals)

unfoldable pub requirement_members : Dict String → Members
requirement_members [] = end
requirement_members ((k, requirement) ∷ d) = member k (str requirement) (requirement_members d)

unfoldable pub profile_value : WorkerProfile → Value
profile_value w = object_of (
    ("attempt_timeout_seconds", num w.attempt_timeout_seconds)
    ∷ ("local_verification", Value.boolean w.local_verification)
    ∷ ("model", str w.model)
    ∷ ("network_access", Value.boolean w.network_access)
    ∷ ("reasoning_effort", str w.reasoning_effort)
    ∷ ("sandbox", str "workspace-write")
    ∷ [])

unfoldable pub extension_fields : Option Extension → List (String × Value)
unfolding requirement_members profile_value
extension_fields none = []
extension_fields (some e) =
    ("requirements", object (requirement_members e.requirements))
    ∷ ("worker_profile", profile_value e.worker_profile)
    ∷ []

unfoldable pub roadmap_value : RoadmapPolicy → Value
roadmap_value r = object_of (("max_reorders", num r.max_reorders) ∷ ("mode", str r.mode) ∷ [])

unfoldable pub source_value : Source → Value
source_value s = object_of (
    ("kind", str s.kind)
    ∷ ("source_content_retained", Value.boolean Bool.false)
    ∷ ("source_digest", str s.source_digest)
    ∷ [])

unfoldable pub plan_value : Plan → Value
unfolding boundaries_value budget_value goal_values extension_fields roadmap_value source_value
plan_value p = object_of (
    ("boundaries", boundaries_value p.boundaries)
    ∷ ("budget", budget_value p.budget)
    ∷ ("completion_evidence", array_of p.completion_evidence)
    ∷ ("goals", array (goal_values p.goals))
    ∷ ("objective", str p.objective)
    ∷ ("roadmap_policy", roadmap_value p.roadmap_policy)
    ∷ ("schema", str (schema_of p.extension))
    ∷ ("source", source_value p.source)
    ∷ ("stop_conditions", array_of p.stop_conditions)
    ∷ extension_fields p.extension)
