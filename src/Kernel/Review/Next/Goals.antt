-- ===== src/Kernel/Review/Next/Goals.antt =====
-- The step to the next Goal leaves the records of the Goals that are there.
use loop_skill.Protocol.Outcome.{
  >>=-eq-ok, invalid_command, invalid_transition, ok, raise_if, require,
}
use loop_skill.Protocol.Derive.{goal_chain, Chain}
use loop_skill.Protocol.Envelope.{Command, Event, Runtime}
use loop_skill.Prelude.{
  ℤ, Dict, Bool-cases, List, Option, String, arith, contains, eq_iff, false, get_elem?, inl, inr,
  insert, lookup, lookup-insert, none, refl, parse_int, some, ◌+◌, ◌==◌, ◌∙◌, ◌≡◌,
}
use loop_skill.Kernel.State.{effects_of, ExternalEffect, Goal, GoalPlan, Snapshot}
use loop_skill.Kernel.Review.Next.{
  NextFields, activate_next, descriptor_drift, materialize, next_fields, next_goal, next_slot,
  with_default,
}

module _ (ref : String) (g : Goal) where
  insert_other :
      (key : String) (new : Goal) (s t : Snapshot)
      → t.goals ≡ insert key new s.goals
      → contains key s.goals ≡ false
      → lookup ref s.goals ≡ some g
      → lookup ref t.goals ≡ some g
  insert_other key new s t e fresh found = elim (Bool-cases (key == ref)) [
    | inl same ↦
        let equal : key ≡ ref = ground (arith, eq_iff key ref) in
        let held : lookup key s.goals ≡ some g = rw equal found in absurd (cc)
    | inr other ↦ rw e (lookup-insert key ref new s.goals ∙ rw other found)
  ]

  module _ (rt : Runtime) (c : Command) (prior : String) (s : Snapshot) (plan : GoalPlan) where
    fresh_goal :
        (chain : Chain) (fields : NextFields)
        → next_fields c s chain ≡ ok fields
        → contains chain.goal_ref s.goals ≡ false
    unfolding next_fields
    fresh_goal chain fields h = ground arith

    materialized :
        (chain : Chain) (goal_id slice_digest : String) (max_attempts : ℤ) (fields : NextFields)
        (effects : Dict ExternalEffect) (t : Snapshot)
        → t ≡ materialize c prior s plan chain goal_id slice_digest max_attempts fields effects
        → contains chain.goal_ref s.goals ≡ false
        → lookup ref s.goals ≡ some g
        → lookup ref t.goals ≡ some g
    unfolding materialize
    materialized chain goal_id slice_digest max_attempts fields effects t e fresh found = rw e (
        insert_other chain.goal_ref _ s
          (materialize c prior s plan chain goal_id slice_digest max_attempts fields effects) refl
          fresh found)

    activate_next-goals :
        (goal_id slice_digest : String) (r : Snapshot × List Event × Option String)
        → activate_next rt c prior s plan goal_id slice_digest ≡ ok r
        → lookup ref s.goals ≡ some g
        → lookup ref r.0.goals ≡ some g
    unfolding activate_next
    activate_next-goals goal_id slice_digest r h found =
        let (chain, _, h1) =
          >>=-eq-ok
            (goal_chain rt (record {
              loop_ref = s.loop_ref;
              plan_digest = plan.plan_digest;
              goal_id = goal_id;
              slice_digest = slice_digest;
            }))
            _ h in
        let (max_attempts, _, h2) =
          >>=-eq-ok
            (require
              (parse_int (with_default (lookup "next_max_attempts" c.bindings.resolved_refs) "1"))
              invalid_command)
            _ h1 in
        let (_, _, h3) =
          >>=-eq-ok
            (raise_if (descriptor_drift c plan chain goal_id slice_digest max_attempts)
              invalid_transition)
            _ h2 in
        let (fields, checked, h4) = >>=-eq-ok (next_fields c s chain) _ h3 in
        let (effects, _, h5) = >>=-eq-ok (effects_of s) _ h4 in
        materialized chain goal_id slice_digest max_attempts fields effects r.0 (ground arith)
          (fresh_goal chain fields checked) found

    next_slot-goals :
        (goal_id slice_digest : Option String) (r : Snapshot × List Event × Option String)
        → next_slot rt c prior s plan goal_id slice_digest ≡ ok r
        → lookup ref s.goals ≡ some g
        → lookup ref r.0.goals ≡ some g
    unfolding next_slot
    next_slot-goals (some i) (some d) r h found = activate_next-goals i d r h found
    next_slot-goals (some i) none r h found = ground arith
    next_slot-goals none d r h found = ground arith

    pub next_goal-goals :
        (r : Snapshot × List Event × Option String)
        → next_goal rt c prior s plan ≡ ok r
        → lookup ref s.goals ≡ some g
        → lookup ref r.0.goals ≡ some g
    unfolding next_goal
    next_goal-goals r h found =
        next_slot-goals (get_elem? plan.ordered_goal_ids (plan.active_index + 1))
          (get_elem? plan.ordered_goal_slice_digests (plan.active_index + 1)) r (ground arith) found
