-- ===== src/Policy/Roadmap.antt =====
-- The Adaptive roadmap of v4_policy/policy.py: `build_adaptive_roadmap`. A function that raises
-- PolicyError or ProtocolRejection returns none.
pub mod History
use loop_skill.Protocol.Outcome.{◌>>◌}
use loop_skill.Prelude.{
  same_texts, not, some, Bool, Dict, List, Option, String, [], contains, eqb, false, insert, lookup,
  ltb, none, true, ℕ, ◌&&◌, ◌+◌, ◌==◌, ◌||◌, ◌∷◌,
}
use loop_skill.Policy.{GoalSpec, PolicyEnvelope, validate_goals}
use loop_skill.Protocol.Partial.{settled, unless, ◌>>=◌}
use loop_skill.Protocol.Envelope.{Runtime, domain_digest}
use loop_skill.Protocol.Value.{Value, Values, array, array_of, cons, nil, num, object_of, str}

pub record AdaptiveRoadmap : Type 0 where
  pub revision : ℕ
  pub active_goal_id : String
  pub goals : List GoalSpec
  pub roadmap_digest : String

-- `{goal.goal_id: goal for goal in goals}` onto a dictionary
unfoldable pub definitions_onto : Dict GoalSpec → List GoalSpec → Dict GoalSpec
definitions_onto d [] = d
definitions_onto d (g ∷ goals) = definitions_onto (insert g.goal_id g d) goals

abbrev pub definitions : List GoalSpec → Dict GoalSpec
definitions goals = definitions_onto [] goals

unfoldable pub same_goal : GoalSpec → GoalSpec → Bool
same_goal a b =
    (a.goal_id == b.goal_id)
    && (a.objective == b.objective)
    && same_texts a.depends_on b.depends_on
    && (a.milestone_id == b.milestone_id)

-- `goal_id in definitions and definitions[goal_id] != old`
abbrev pub differs : Option GoalSpec → GoalSpec → Bool
differs none old = false
differs (some g) old = not (same_goal g old)

-- an entry of the previous definitions that the new ones rewrite
unfoldable pub rewrites : Dict GoalSpec → Dict GoalSpec → Bool
rewrites new [] = false
rewrites new ((goal_id, old) ∷ previous) = differs (lookup goal_id new) old || rewrites new previous

unfoldable pub breaks_history : ℕ → List GoalSpec → Option AdaptiveRoadmap → Bool
breaks_history revision goals none = false
breaks_history revision goals (some previous) =
    not (eqb revision (previous.revision + 1))
    || rewrites (definitions goals) (definitions previous.goals)

unfoldable pub refuses : List GoalSpec → PolicyEnvelope → ℕ → String → Option AdaptiveRoadmap → Bool
refuses goals envelope revision active_goal_id previous =
    not (validate_goals goals envelope)
    || ltb revision 1
    || ltb envelope.max_roadmap_revisions revision
    || not (contains active_goal_id (definitions goals))
    || breaks_history revision goals previous

goal_value : GoalSpec → Value
goal_value g = object_of (
    ("depends_on", array_of g.depends_on)
    ∷ ("goal_id", str g.goal_id)
    ∷ ("milestone_id", str g.milestone_id)
    ∷ ("objective", str g.objective)
    ∷ [])

goal_values : List GoalSpec → Values
unfolding goal_value
goal_values [] = nil
goal_values (g ∷ goals) = cons (goal_value g) (goal_values goals)

roadmap_body : List GoalSpec → ℕ → String → Value
unfolding goal_values
roadmap_body goals revision active_goal_id = object_of (
    ("active_goal_id", str active_goal_id)
    ∷ ("goals", array (goal_values goals))
    ∷ ("revision", num revision)
    ∷ [])

unfoldable pub build_adaptive_roadmap :
    Runtime
    → List GoalSpec
    → PolicyEnvelope
    → ℕ
    → String
    → Option AdaptiveRoadmap
    → Option AdaptiveRoadmap
unfolding roadmap_body
build_adaptive_roadmap rt goals envelope revision active_goal_id previous =
    unless (refuses goals envelope revision active_goal_id previous) (
      settled (
        domain_digest rt "loopskill-adaptive-roadmap-v1\n"
          (roadmap_body goals revision active_goal_id))
      >>= λ digest. some (record {
        revision = revision;
        active_goal_id = active_goal_id;
        goals = goals;
        roadmap_digest = digest;
      }))
