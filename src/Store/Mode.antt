-- ===== src/Store/Mode.antt =====
-- `classify_persisted_storage_mode` of v4_alpha/protocol.py, on the snapshots of this storage mode:
-- a snapshot is content-addressed or malformed. The tests on the Python types of a snapshot's
-- fields hold of every record of Kernel/State.
use loop_skill.Prelude.{
  zero, not, suc, Bool, Dict, List, Option, String, [], any, distinct, eqb, false, if◌then◌else◌,
  is_empty, is_some, leb, length, ltb, none, some, true, ℕ, ◌&&◌, ◌+◌, ◌==◌, ◌||◌, ◌∷◌,
}
use loop_skill.Kernel.State.{is_absent, Goal, GoalPlan, Snapshot}

-- the Goals by their order, `by_order`; a second Goal of one order is malformed
goal_at : ℕ → Dict Goal → Option (String × Goal)
goal_at n [] = none
goal_at n ((goal_ref, goal) ∷ goals) =
    if eqb goal.order n then some (goal_ref, goal) else goal_at n goals

distinct_orders : Dict Goal → Bool
unfolding goal_at
distinct_orders [] = true
distinct_orders ((goal_ref, goal) ∷ goals) =
    not (is_some (goal_at goal.order goals)) && distinct_orders goals

own_chain : Dict Goal → Bool
own_chain [] = true
own_chain ((goal_ref, goal) ∷ goals) = (goal.chain_refs.goal_ref == goal_ref) && own_chain goals

-- the Goal of an index has the identity and the slice that the plan gives it
slot_agrees : Option (String × Goal) → String → String → Bool
slot_agrees none goal_id slice_digest = false
slot_agrees (some (goal_ref, goal)) goal_id slice_digest =
    (goal.goal_id == goal_id) && (goal.goal_slice_digest == slice_digest)

-- `for index in range(n, n + count)`
slots_agree : ℕ → ℕ → Dict Goal → List String → List String → Bool
unfolding goal_at slot_agrees
slots_agree zero n goals ids digests = true
slots_agree (suc count) n goals (i ∷ ids) (d ∷ digests) =
    slot_agrees (goal_at n goals) i d && slots_agree count (n + 1) goals ids digests
slots_agree (suc count) n goals _ _ = false

active_agrees : Option (String × Goal) → String → Bool
active_agrees none active_goal_ref = false
active_agrees (some (goal_ref, goal)) active_goal_ref = goal_ref == active_goal_ref

plan_agrees : Snapshot → GoalPlan → Bool
unfolding distinct_orders own_chain slots_agree active_agrees
plan_agrees s plan =
    leb 1 plan.goal_count
    && ltb plan.active_index plan.goal_count
    && eqb (length plan.ordered_goal_ids) plan.goal_count
    && eqb (length plan.ordered_goal_slice_digests) plan.goal_count
    && not (any is_empty plan.ordered_goal_ids)
    && not (any is_empty plan.ordered_goal_slice_digests)
    && distinct plan.ordered_goal_ids
    && eqb (length s.goals) (plan.active_index + 1)
    && own_chain s.goals
    && distinct_orders s.goals
    && slots_agree (plan.active_index + 1) 0 s.goals plan.ordered_goal_ids
        plan.ordered_goal_slice_digests
    && active_agrees (goal_at plan.active_index s.goals) plan.active_goal_ref

unfoldable pub is_malformed : Snapshot → Bool
unfolding plan_agrees
is_malformed s =
    is_empty s.loop_ref
    || eqb s.loop_revision 0
    || (is_some s.current_result_ref && is_absent s.current_result_ref)
    || not (elim s.goal_plan [ none ↦ false | some plan ↦ plan_agrees s plan ])
