-- ===== src/Kernel/Startup/Kept.antt =====
-- A new loop has no disposition.
use loop_skill.Protocol.Derive.{chain_allocations, has_entries, goal_chain}
use loop_skill.Protocol.Value.{str}
use loop_skill.Protocol.Outcome.{
  >>=-eq-ok, invalid_command, invalid_transition, raise_if, require, ok,
}
use loop_skill.Protocol.Envelope.{
  domain_digest, content_storage_mode, payload_text, binding, AuthorityContext, Command, Runtime,
}
use loop_skill.Prelude.{
  eqb, is_blank, is_some, lookup, none, not, opt_eq, refl, some, ◌||◌, Bool-cases, inl, inr, Option,
  String, arith, ◌≡◌,
}
use loop_skill.Kernel.State.{GoalPlan, Reduction, Snapshot}
use loop_skill.Kernel.Startup.{
  launch, StartPlan, fresh_snapshot, read_plan, check_objective, create_loop,
}
use loop_skill.Kernel.Startup.Effect.{names_startup, add_start, start_effect}
use loop_skill.Kernel.Closure.Honest.{IsHonest, SameClosure}

no_claim : (s : Snapshot) → s.execution.disposition ≡ none → IsHonest s
no_claim s h e = absurd (ground arith)

module _ (rt : Runtime) (ctx : AuthorityContext) (c : Command) where
  add_start-SameClosure :
      (goal_ref : String) (plan : GoalPlan) (goal_id slice_digest : String) (r t : Reduction)
      → add_start rt ctx c goal_ref plan goal_id slice_digest r ≡ ok t
      → SameClosure r.snapshot t.snapshot
  unfolding add_start
  add_start-SameClosure goal_ref plan goal_id slice_digest r t h = (ground arith, ground arith)

  start_effect-SameClosure :
      (goal_ref : String) (plan : GoalPlan) (goal_id slice_digest : String) (r t : Reduction)
      → start_effect rt ctx c goal_ref plan goal_id slice_digest r ≡ ok t
      → SameClosure r.snapshot t.snapshot
  unfolding start_effect
  start_effect-SameClosure goal_ref plan goal_id slice_digest r t h =
      elim (Bool-cases (names_startup c)) [
        | inl starts ↦ add_start-SameClosure goal_ref plan goal_id slice_digest r t (rw starts at h)
        | inr plain ↦ let done = rw plain at h in (ground arith, ground arith)
      ]

  launch-IsHonest :
      (goal_ref objective : String) (start : StartPlan) (r : Reduction)
      → launch rt ctx c goal_ref objective start ≡ ok r
      → IsHonest r.snapshot
  unfolding launch
  launch-IsHonest goal_ref objective start r h =
      let (digest, _, h8) =
        >>=-eq-ok (domain_digest rt "loopskill-goal-objective-v1\n" (str objective)) _ h in
      let (chain, _, h9) =
        >>=-eq-ok
          (goal_chain rt (record {
            loop_ref = c.subject.loop_ref;
            plan_digest = start.plan.plan_digest;
            goal_id = start.goal_id;
            slice_digest = start.slice_digest;
          }))
          _ h8 in
      let (_, _, h10) =
        >>=-eq-ok
          (raise_if
            (not (has_entries (chain_allocations chain) c.bindings.allocate_refs)
              || not (
                  opt_eq (lookup "target_ref" c.bindings.resolved_refs)
                    (some chain.provider_target)))
            invalid_command)
          _ h9 in
      let (disposition, closure) =
        start_effect-SameClosure goal_ref start.plan start.goal_id start.slice_digest _ r h10 in
      no_claim r.snapshot (rw disposition (unfold fresh_snapshot in refl))

  pub create_loop-IsHonest :
      (s : Option Snapshot) (r : Reduction) → create_loop rt ctx c s ≡ ok r → IsHonest r.snapshot
  unfolding create_loop
  create_loop-IsHonest s r h =
      let (_, _, h1) =
        >>=-eq-ok (raise_if (is_some s || not (eqb c.expected_loop_revision 0)) invalid_transition)
          _ h in
      let (goal_ref, _, h2) = >>=-eq-ok (binding c.bindings.allocate_refs "new_goal_ref") _ h1 in
      let (objective, _, h3) =
        >>=-eq-ok (require (payload_text c "objective") invalid_command) _ h2 in
      let (_, _, h4) = >>=-eq-ok (raise_if (is_blank objective) invalid_command) _ h3 in
      let (_, _, h5) =
        >>=-eq-ok
          (raise_if (not (opt_eq (payload_text c "storage_mode") (some content_storage_mode)))
            invalid_command)
          _ h4 in
      let ((mode, revisions), _, h6) = >>=-eq-ok (check_objective c objective) _ h5 in
      let (start, _, h7) = >>=-eq-ok (read_plan c goal_ref mode revisions) _ h6 in
      launch-IsHonest goal_ref objective start r h7

  -- a loop that exists is not created again
  pub create_loop-some : (s : Snapshot) (r : Reduction) → ¬ (create_loop rt ctx c (some s) ≡ ok r)
  unfolding create_loop
  create_loop-some s r h = absurd (ground arith)
