-- ===== src/Plan/Canonicalize.antt =====
-- `canonicalize_plan` of v4_alpha/plan_codec.py, for both schemas.
pub mod Bounds
pub mod Sound
use loop_skill.Protocol.Outcome.{◌>>◌}
use loop_skill.Plan.Checks.{Unicode, closed, field, string_array, text, values?}
use loop_skill.Plan.Document.{Budget, Extension, Plan, PlanGoal, plan_value}
use loop_skill.Plan.Parts.{
  at, boundaries_of, budget_of, goal_v1, goal_v2, goals_in, item_max_bytes, profile_of,
  requirements_of, roadmap_of, source_of,
}
use loop_skill.Prelude.{
  if◌then◌else◌, Bool, List, Option, String, [], distinct, false, leb, ltb, map, none, not, some, ℕ,
  ◌&&◌, ◌+◌, ◌==◌, ◌||◌, ◌∷◌,
}
use loop_skill.Protocol.Envelope.{Runtime}
use loop_skill.Protocol.Partial.{settled, unless, ◌>>=◌}
use loop_skill.Protocol.Value.{Members, Value, object, size_values, text?, validate_value}

-- PLAN_FIELDS, and the other fields of PLAN_V2_FIELDS
abbrev pub plan_fields : List String → List String
plan_fields others =
    "schema" ∷ "source" ∷ "objective" ∷ "boundaries" ∷ "budget" ∷ "roadmap_policy"
    ∷ "completion_evidence" ∷ "stop_conditions" ∷ "goals" ∷ others

abbrev pub goal_ids : List PlanGoal → List String
goal_ids goals = map (λ (g : PlanGoal). g.goal_id) goals

-- `objective != goals[0]["objective"]`
unfoldable pub is_primary : String → List PlanGoal → Bool
is_primary objective [] = false
is_primary objective (g ∷ goals) = objective == g.objective

-- the attempts of a Goal behind the worker gate
unfoldable pub attempts_of : PlanGoal → ℕ
attempts_of g = elim g.policy [
  | none ↦ 0
  | some p ↦ if p.gate == "worker" then p.max_attempts else 0
]

unfoldable pub worker_attempts : List PlanGoal → ℕ
worker_attempts [] = 0
worker_attempts (g ∷ goals) = attempts_of g + worker_attempts goals

-- the tests of both schemas on their Goals; those of loopskill-plan-v1 have no attempts
unfoldable pub invalid_goals : Budget → String → List PlanGoal → Bool
unfolding is_primary worker_attempts
invalid_goals budget objective goals =
    not (distinct (goal_ids goals))
    || ltb budget.max_host_invocations (worker_attempts goals)
    || not (is_primary objective goals)

module _ (rt : Runtime) (u : Unicode) where
  -- the canonical bytes of the plan exist and are not too many
  unfoldable pub sized : ℕ → Plan → Option Plan
  sized maximum p = settled (validate_value (plan_value p)) >>= λ valid.
      unless (ltb maximum (rt.canonical_size (plan_value p))) (some p)

  unfoldable pub goals_of : (Value → Option PlanGoal) → ℕ → Value → Option (List PlanGoal)
  goals_of parse goal_max value = do
    vs ← values? value
    unless (not (leb 1 (size_values vs) && leb (size_values vs) goal_max)) (goals_in parse vs)

  -- the Goals of both schemas, with the fields that follow them
  unfoldable pub finished :
      (Value → Option PlanGoal) → ℕ → ℕ → ℕ → Members → Budget → Option Extension → Option Plan
  finished parse goal_max objective_max plan_max ms budget extension = do
    source ← at "source" ms (source_of u)
    boundaries ← at "boundaries" ms (boundaries_of u)
    roadmap ← at "roadmap_policy" ms (roadmap_of u)
    goals ← at "goals" ms (goals_of parse goal_max)
    objective ← at "objective" ms (text u objective_max)
    completion ← at "completion_evidence" ms (string_array u 32 false item_max_bytes)
    stops ← at "stop_conditions" ms (string_array u 16 false item_max_bytes)
    unless (invalid_goals budget objective goals) (
        sized plan_max (record {
          boundaries = boundaries;
          budget = budget;
          completion_evidence = completion;
          goals = goals;
          objective = objective;
          roadmap_policy = roadmap;
          source = source;
          stop_conditions = stops;
          extension = extension;
        }))

  unfoldable pub canonicalize_plan_v1 : Value → Option Plan
  canonicalize_plan_v1 value = do
    ms ← closed (plan_fields []) value
    budget ← at "budget" ms (budget_of u 0 1000000 31536000)
    finished (goal_v1 u) 32 2048 131072 ms budget none

  unfoldable pub canonicalize_plan_v2 : Value → Option Plan
  canonicalize_plan_v2 value = do
    ms ← closed (plan_fields ("requirements" ∷ "worker_profile" ∷ [])) value
    budget ← at "budget" ms (budget_of u 1 384 2592000)
    requirements ← at "requirements" ms (requirements_of u)
    profile ← at "worker_profile" ms (profile_of u)
    finished (goal_v2 rt u requirements) 128 8192 524288 ms budget
        (some (record { requirements = requirements; worker_profile = profile }))

  unfoldable pub canonicalize_as : String → Value → Option Plan
  canonicalize_as schema value =
      if schema == "loopskill-plan-v1"
      then canonicalize_plan_v1 value
      else if schema == "loopskill-plan-v2"
      then canonicalize_plan_v2 value
      else none

  unfoldable pub canonicalize_plan : Value → Option Plan
  canonicalize_plan (object ms) =
      field "schema" ms >>= λ schema. text? schema >>= λ s. canonicalize_as s (object ms)
  canonicalize_plan _ = none
