-- ===== src/Kernel/Roadmap.antt =====
-- `_revise_goal_plan` of v4_alpha/kernel.py, for content-addressed plans.
pub mod Order
use loop_skill.Protocol.Value.{int, str, strings?}
use loop_skill.Protocol.Derive.{has_entries, is_long_digest}
use loop_skill.Protocol.Outcome.{
  raise_if, Result, invalid_command, invalid_transition, ok, require, ◌>>=◌, ◌>>◌,
}
use loop_skill.Protocol.Envelope.{
  event, domain_digest, payload_text, payload_int, AuthorityContext, Command, EventType, Runtime,
}
use loop_skill.Prelude.{
  same_texts, pos, not, Bool, Dict, List, Option, String, [], chars, distinct, eqb, eqb_ℤ, false,
  if◌then◌else◌, is_blank, leb_ℤ, length, lookup, ltb, none, some, strip, subset, take, true, ℕ,
  ◌&&◌, ◌+◌, ◌==◌, ◌||◌, ◌∷◌,
}
use loop_skill.Kernel.State.{reduction, Goal, GoalPlan, Reduction, Snapshot}
use mathlib.Core.Option

-- `dict(zip(ids, digests))`
pub assignment : List String → List String → Dict String
assignment (i ∷ is) (d ∷ ds) = (i, d) ∷ assignment is ds
assignment _ _ = []

-- two dictionaries with the same entries
abbrev same_entries : Dict String → Dict String → Bool
same_entries a b = has_entries a b && has_entries b a

-- the position of an identity in the new order, counted from `n`
position : ℕ → String → List String → Option ℕ
position n i [] = none
position n i (j ∷ js) = if j == i then some n else position (n + 1) i js

-- `goal["order"] = positions[goal_id]` where it has one
reordered : List String → Goal → Goal
unfolding position
reordered ids goal = elim (position 0 goal.goal_id ids) [
  | none ↦ goal
  | some n ↦ record goal { order = n }
]

reorder : List String → Dict Goal → Dict Goal
unfolding reordered
reorder ids [] = []
reorder ids ((goal_ref, goal) ∷ goals) = (goal_ref, reordered ids goal) ∷ reorder ids goals

-- the new order keeps what has been reached, and is a permutation with the same slices
unfoldable pub invalid_order : GoalPlan → List String → List String → Bool
unfolding assignment
invalid_order plan ids digests =
    let reached = plan.active_index + 1 in
    not (same_texts (take reached ids) (take reached plan.ordered_goal_ids))
    || not (same_texts (take reached digests) (take reached plan.ordered_goal_slice_digests))
    || not (eqb (length ids) (length plan.ordered_goal_ids))
    || not (eqb (length digests) (length plan.ordered_goal_slice_digests))
    || not (subset ids plan.ordered_goal_ids && subset plan.ordered_goal_ids ids)
    || not (distinct ids)
    || not (
        same_entries (assignment ids digests)
          (assignment plan.ordered_goal_ids plan.ordered_goal_slice_digests))

unfoldable pub revise_goal_plan : Runtime → AuthorityContext → Command → Snapshot → Result Reduction
unfolding reorder is_long_digest
revise_goal_plan rt ctx c s = do
  plan ← require s.goal_plan invalid_transition
  raise_if (not (plan.mode == "ADAPTIVE")) invalid_transition
  ids ← require (Option.bind (lookup "ordered_goal_ids" c.payload) strings?) invalid_command
  digests ←
      require (Option.bind (lookup "ordered_goal_slice_digests" c.payload) strings?) invalid_command
  raise_if (invalid_order plan ids digests) invalid_command
  revision ← require (payload_int c "plan_revision") invalid_command
  raise_if
      (not (eqb_ℤ revision (pos (plan.revision + 1))) || leb_ℤ plan.max_roadmap_revisions revision)
      invalid_command
  index_digest ← require (payload_text c "plan_index_digest") invalid_command
  raise_if (not (is_long_digest (some index_digest))) invalid_command
  reason ← require (payload_text c "reason") invalid_command
  raise_if (is_blank reason || ltb 512 (chars reason)) invalid_command
  reason_digest ← domain_digest rt "loopskill-roadmap-reason-v1\n" (str (strip reason))
  ok (
      reduction
        (record s {
          goal_plan = some (record plan {
            ordered_goal_ids = ids;
            ordered_goal_slice_digests = digests;
            plan_index_digest = index_digest;
            revision = plan.revision + 1;
          });
          goals = reorder ids s.goals;
        })
        (event EventType.roadmap_revised (
            ("plan_digest", str plan.plan_digest)
            ∷ ("plan_index_digest", str index_digest)
            ∷ ("reason_digest", str reason_digest)
            ∷ ("revision", int revision)
            ∷ [])
          ∷ [])
        (("plan_revision", int revision) ∷ []))
