-- ===== src/Kernel/Delivery/Consumed.antt =====
-- The accepted commands leave a delivery consumed, but for a PrepareRoute that allocates it again.
use loop_skill.Prelude.{
  Bool-cases, eq_iff, inl, inr, none, ◌==◌, String, arith, insert, lookup, lookup-insert, not,
  opt_eq, refl, some, ◌+◌, ◌∙◌, ◌≡◌,
}
use loop_skill.Protocol.Outcome.{>>=-eq-ok, at_key, fetch, ok, raise_if, receipt_identity_mismatch}
use loop_skill.Protocol.Envelope.{binding, AuthorityContext, Command, CommandType, Runtime}
use loop_skill.Kernel.State.{
  delivery_state, AttemptState, Delivery, DeliveryState, Reduction, Snapshot,
}
use loop_skill.Kernel.Effects.{observed_state}
use loop_skill.Kernel.Reduce.{dispatch, reduce_command, reducer}
use loop_skill.Kernel.Reduce.Honest.{dispatched}
use loop_skill.Kernel.Reduce.Frame.{
  acknowledge_result-SameFrame, stage_result-SameFrame, stage_external_result-SameFrame,
  bind_host_resource-SameFrame, pause_loop-SameFrame, record_review-SameFrame,
  revise_goal_plan-SameFrame, observe_external_effect-SameFrame,
}
use loop_skill.Kernel.Lifecycle.Kept.{resume_loop-SameFrame, stop_loop-deliveries}
use loop_skill.Kernel.Repair.Kept.{record_policy_decision-SameFrame}
use loop_skill.Kernel.Startup.Kept.{create_loop-some}
use loop_skill.Kernel.Review.Kept.{advance_goal-SameFrame}
use loop_skill.Kernel.Closure.Honest.{
  prepare_finalization-SameFrame, close_execution-deliveries, strengthen-deliveries,
}
use loop_skill.Kernel.Receipts.{receipt_for}
use loop_skill.Kernel.Delivery.{
  begin_delivery, commit_delivery, delivery_expected, observe_delivery, prepare_route,
}

module _ (rt : Runtime) (ctx : AuthorityContext) where
  pub begun :
      (c : Command) (s : Snapshot) (r : Reduction)
      → begin_delivery rt ctx c s ≡ ok r
      → (d : Delivery) × (fetch c.subject.subject_ref s.deliveries ≡ ok d)
        × (attempt_ref : String) × (binding c.bindings.allocate_refs "new_attempt_ref"
            ≡ ok attempt_ref)
        × (r.snapshot.deliveries
            ≡ insert c.subject.subject_ref (commit_delivery d attempt_ref) s.deliveries)
  unfolding begin_delivery
  begun c s r h =
      let (d, found, _) = >>=-eq-ok (fetch c.subject.subject_ref s.deliveries) _ h in
      let (attempt_ref, allocated) : (a : String) × (binding c.bindings.allocate_refs
              "new_attempt_ref"
            ≡ ok a) =
        ground arith in
      (d, found, attempt_ref, allocated, ground arith)

  observed :
      (c : Command) (s : Snapshot) (r : Reduction)
      → observe_delivery rt ctx c s ≡ ok r
      → (ref : String) × (d : Delivery) × (t : AttemptState) × (lookup ref s.deliveries ≡ some d)
        × (r.snapshot.deliveries
            ≡ insert ref
                (record d { revision = d.revision + 1; state = delivery_state t })
                s.deliveries)
  unfolding observe_delivery fetch
  observed c s r h =
      let (attempt, _, h1) = >>=-eq-ok (fetch c.subject.subject_ref s.attempts) _ h in
      let (ref, _, h2) = >>=-eq-ok (at_key attempt.delivery_ref) _ h1 in
      let (d, found, h3) = >>=-eq-ok (fetch ref s.deliveries) _ h2 in
      let (receipt, _, h4) =
        >>=-eq-ok (receipt_for rt ctx c (delivery_expected ref c.subject.subject_ref attempt)) _
          h3 in
      let (_, _, h5) =
        >>=-eq-ok
          (raise_if
            (not (opt_eq receipt.provider_idempotency_key (some attempt.provider_idempotency_key)))
            receipt_identity_mismatch)
          _ h4 in
      let (t, _, h6) = >>=-eq-ok (observed_state receipt attempt.state) _ h5 in
      (ref, d, t, ground arith, ground arith)

  prepared :
      (c : Command) (s : Snapshot) (r : Reduction)
      → prepare_route rt ctx c s ≡ ok r
      → (ref : String) × (d : Delivery) × (binding c.bindings.allocate_refs "new_delivery_ref"
          ≡ ok ref)
        × (r.snapshot.deliveries ≡ insert ref d s.deliveries)
  unfolding prepare_route
  prepared c s r h =
      let (_, _, h1) = >>=-eq-ok (binding c.bindings.resolved_refs "goal_ref") _ h in
      let (target_ref, _, h2) = >>=-eq-ok (binding c.bindings.resolved_refs "target_ref") _ h1 in
      let (route_ref, _, h3) = >>=-eq-ok (binding c.bindings.allocate_refs "new_route_ref") _ h2 in
      let (ref, allocated, h4) =
        >>=-eq-ok (binding c.bindings.allocate_refs "new_delivery_ref") _ h3 in
      (
        ref,
        record {
          attempt_ref = none;
          automatic_attempt_budget = 1;
          automatic_attempts_consumed = 0;
          revision = 1;
          route_ref = route_ref;
          state = DeliveryState.prepared;
          target_ref = target_ref;
        },
        allocated,
        ground arith,
      )

-- the delivery has spent its one automatic attempt
abbrev pub IsConsumed : String → Snapshot → Type 0
IsConsumed ref s =
    (d : Delivery) × (lookup ref s.deliveries ≡ some d) × (d.automatic_attempts_consumed ≡ 1)

-- a PrepareRoute that allocates the delivery, which makes it a new one
abbrev pub IsReallocated : String → Command → Type 0
IsReallocated ref c =
    (c.command_type ≡ CommandType.prepare_route)
    × (binding c.bindings.allocate_refs "new_delivery_ref" ≡ ok ref)

insert-IsConsumed :
    (ref key : String) (d : Delivery) (s t : Snapshot)
    → t.deliveries ≡ insert key d s.deliveries
    → (key ≡ ref → d.automatic_attempts_consumed ≡ 1)
    → IsConsumed ref s
    → IsConsumed ref t
insert-IsConsumed ref key d s t e new (old, found, spent) = elim (Bool-cases (key == ref)) [
  | inl same ↦ (
    d,
    rw e (lookup-insert key ref d s.deliveries ∙ rw same refl),
    new (ground (arith, eq_iff key ref)),
  )
  | inr other ↦ (old, rw e (lookup-insert key ref d s.deliveries ∙ rw other found), spent)
]

same-IsConsumed :
    (ref : String) (s t : Snapshot)
    → t.deliveries ≡ s.deliveries
    → IsConsumed ref s
    → IsConsumed ref t
same-IsConsumed ref s t e (d, found, spent) = (d, rw e found, spent)

module _ (rt : Runtime) (ctx : AuthorityContext) (ref : String) (c : Command) where
  observe-IsConsumed :
      (s : Snapshot) (r : Reduction)
      → observe_delivery rt ctx c s ≡ ok r
      → IsConsumed ref s
      → IsConsumed ref r.snapshot
  observe-IsConsumed s r h (old, found, spent) =
      let (key, d, t, held, e) = observed rt ctx c s r h in
      insert-IsConsumed ref key (record d { revision = d.revision + 1; state = delivery_state t }) s
        r.snapshot e (λ same. cc) (old, found, spent)

  begin-IsConsumed :
      (s : Snapshot) (r : Reduction)
      → begin_delivery rt ctx c s ≡ ok r
      → IsConsumed ref s
      → IsConsumed ref r.snapshot
  unfolding commit_delivery
  begin-IsConsumed s r h old =
      let (d, _, attempt_ref, _, e) = begun rt ctx c s r h in
      insert-IsConsumed ref c.subject.subject_ref (commit_delivery d attempt_ref) s r.snapshot e
        (λ same. refl) old

  prepare-IsConsumed :
      (s : Snapshot) (r : Reduction)
      → prepare_route rt ctx c s ≡ ok r
      → ¬ (binding c.bindings.allocate_refs "new_delivery_ref" ≡ ok ref)
      → IsConsumed ref s
      → IsConsumed ref r.snapshot
  prepare-IsConsumed s r h other old =
      let (key, d, allocated, e) = prepared rt ctx c s r h in
      insert-IsConsumed ref key d s r.snapshot e (λ same. absurd (other (rw same at allocated))) old

module _ (rt : Runtime) (ctx : AuthorityContext) (ref : String) (c : Command) where
  reducer-IsConsumed :
      (kind : CommandType) (s : Snapshot) (r : Reduction)
      → reducer rt ctx kind c s ≡ ok r
      → ¬ (
          (kind ≡ CommandType.prepare_route)
          × (binding c.bindings.allocate_refs "new_delivery_ref" ≡ ok ref))
      → IsConsumed ref s
      → IsConsumed ref r.snapshot
  unfolding reducer
  reducer-IsConsumed CommandType.acknowledge_result s r h other old =
      same-IsConsumed ref s r.snapshot (acknowledge_result-SameFrame rt ctx c s r h).1 old
  reducer-IsConsumed CommandType.stage_result s r h other old =
      same-IsConsumed ref s r.snapshot (stage_result-SameFrame rt ctx c s r h).1 old
  reducer-IsConsumed CommandType.stage_external_result s r h other old =
      same-IsConsumed ref s r.snapshot (stage_external_result-SameFrame rt ctx c s r h).1 old
  reducer-IsConsumed CommandType.bind_host_resource s r h other old =
      same-IsConsumed ref s r.snapshot (bind_host_resource-SameFrame rt ctx c s r h).1 old
  reducer-IsConsumed CommandType.pause_loop s r h other old =
      same-IsConsumed ref s r.snapshot (pause_loop-SameFrame rt ctx c s r h).1 old
  reducer-IsConsumed CommandType.record_review s r h other old =
      same-IsConsumed ref s r.snapshot (record_review-SameFrame rt ctx c s r h).1 old
  reducer-IsConsumed CommandType.revise_goal_plan s r h other old =
      same-IsConsumed ref s r.snapshot (revise_goal_plan-SameFrame rt ctx c s r h).1 old
  reducer-IsConsumed CommandType.advance_goal s r h other old =
      same-IsConsumed ref s r.snapshot (advance_goal-SameFrame rt ctx c s r h).1 old
  reducer-IsConsumed CommandType.prepare_finalization s r h other old =
      same-IsConsumed ref s r.snapshot (prepare_finalization-SameFrame rt ctx c s r h).1 old
  reducer-IsConsumed CommandType.record_external_effect_observation s r h other old =
      same-IsConsumed ref s r.snapshot (observe_external_effect-SameFrame rt ctx c s r h).1 old
  reducer-IsConsumed CommandType.record_policy_decision s r h other old =
      same-IsConsumed ref s r.snapshot (record_policy_decision-SameFrame rt ctx c s r h).1 old
  reducer-IsConsumed CommandType.resume_loop s r h other old =
      same-IsConsumed ref s r.snapshot (resume_loop-SameFrame rt ctx c s r h).1 old
  reducer-IsConsumed CommandType.stop_loop s r h other old =
      same-IsConsumed ref s r.snapshot (stop_loop-deliveries rt ctx c s r h) old
  reducer-IsConsumed CommandType.close_execution s r h other old =
      same-IsConsumed ref s r.snapshot (close_execution-deliveries rt ctx c s r h) old
  reducer-IsConsumed CommandType.strengthen_closure_assurance s r h other old =
      same-IsConsumed ref s r.snapshot (strengthen-deliveries rt ctx c s r h) old
  reducer-IsConsumed CommandType.begin_effect_delivery s r h other old =
      begin-IsConsumed rt ctx ref c s r h old
  reducer-IsConsumed CommandType.record_effect_observation s r h other old =
      observe-IsConsumed rt ctx ref c s r h old
  reducer-IsConsumed CommandType.prepare_route s r h other old =
      prepare-IsConsumed rt ctx ref c s r h (λ e. other (refl, e)) old
  reducer-IsConsumed CommandType.create_loop s r h other old =
      absurd (create_loop-some rt ctx c s r h)
  reducer-IsConsumed (CommandType.undeclared name) s r h other old = absurd (ground arith)

  pub reduce_command-IsConsumed :
      (s : Snapshot) (r : Reduction)
      → reduce_command rt ctx c (some s) ≡ ok r
      → ¬ IsReallocated ref c
      → IsConsumed ref s
      → IsConsumed ref r.snapshot
  unfolding dispatch
  reduce_command-IsConsumed s r h other old =
      let (t, e, _, _, same) = dispatched rt ctx c (some s) r h in
      same-IsConsumed ref t.snapshot r.snapshot same
        (reducer-IsConsumed c.command_type s t e other old)
