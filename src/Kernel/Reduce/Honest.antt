-- ===== src/Kernel/Reduce/Honest.antt =====
-- No command makes an execution claim a success that has no strict readback.
use loop_skill.Kernel.Subject.{validate_references}
use loop_skill.Kernel.Authority.{validate_authority}
use loop_skill.Protocol.Validate.{validate_command}
use loop_skill.Protocol.Outcome.{>>=-eq-ok, invalid_transition, raise_if, ok}
use loop_skill.Protocol.Envelope.{AuthorityContext, Command, CommandType, Runtime}
use loop_skill.Prelude.{Option, ap, arith, none, some, ◌≡◌}
use loop_skill.Kernel.State.{Execution, Reduction, Snapshot}
use loop_skill.Kernel.Reduce.{reduce_command, reducer, create_or_reject, dispatch, missing_loop}
use loop_skill.Kernel.Reduce.Frame.{
  acknowledge_result-SameFrame, stage_result-SameFrame, stage_external_result-SameFrame,
  begin_delivery-SameClosure, observe_delivery-SameClosure, prepare_route-SameClosure,
  bind_host_resource-SameFrame, observe_external_effect-SameFrame, pause_loop-SameFrame,
  record_review-SameFrame, revise_goal_plan-SameFrame,
}
use loop_skill.Kernel.Startup.Kept.{create_loop-IsHonest}
use loop_skill.Kernel.Lifecycle.Kept.{resume_loop-SameFrame, stop_loop-IsHonest}
use loop_skill.Kernel.Repair.Kept.{record_policy_decision-SameFrame}
use loop_skill.Kernel.Review.Kept.{advance_goal-SameFrame}
use loop_skill.Kernel.Closure.Honest.{
  IsHonest, SameClosure-IsHonest, close_execution-IsHonest, strengthen-IsHonest,
  prepare_finalization-SameFrame,
}

-- the snapshot of a loop, where there is one
abbrev pub AllHonest : Option Snapshot → Type 0
AllHonest none = Unit
AllHonest (some s) = IsHonest s

module _ (rt : Runtime) (ctx : AuthorityContext) (c : Command) where
  reducer-IsHonest :
      (kind : CommandType) (s : Snapshot) (r : Reduction)
      → reducer rt ctx kind c s ≡ ok r
      → IsHonest s
      → IsHonest r.snapshot
  unfolding reducer
  reducer-IsHonest CommandType.acknowledge_result s r h old =
      SameClosure-IsHonest s r.snapshot (acknowledge_result-SameFrame rt ctx c s r h).0 old
  reducer-IsHonest CommandType.advance_goal s r h old =
      SameClosure-IsHonest s r.snapshot (advance_goal-SameFrame rt ctx c s r h).0 old
  reducer-IsHonest CommandType.begin_effect_delivery s r h old =
      SameClosure-IsHonest s r.snapshot (begin_delivery-SameClosure rt ctx c s r h) old
  reducer-IsHonest CommandType.bind_host_resource s r h old =
      SameClosure-IsHonest s r.snapshot (bind_host_resource-SameFrame rt ctx c s r h).0 old
  reducer-IsHonest CommandType.pause_loop s r h old =
      SameClosure-IsHonest s r.snapshot (pause_loop-SameFrame rt ctx c s r h).0 old
  reducer-IsHonest CommandType.prepare_finalization s r h old =
      SameClosure-IsHonest s r.snapshot (prepare_finalization-SameFrame rt ctx c s r h).0 old
  reducer-IsHonest CommandType.prepare_route s r h old =
      SameClosure-IsHonest s r.snapshot (prepare_route-SameClosure rt ctx c s r h) old
  reducer-IsHonest CommandType.record_effect_observation s r h old =
      SameClosure-IsHonest s r.snapshot (observe_delivery-SameClosure rt ctx c s r h) old
  reducer-IsHonest CommandType.record_external_effect_observation s r h old =
      SameClosure-IsHonest s r.snapshot (observe_external_effect-SameFrame rt ctx c s r h).0 old
  reducer-IsHonest CommandType.record_review s r h old =
      SameClosure-IsHonest s r.snapshot (record_review-SameFrame rt ctx c s r h).0 old
  reducer-IsHonest CommandType.revise_goal_plan s r h old =
      SameClosure-IsHonest s r.snapshot (revise_goal_plan-SameFrame rt ctx c s r h).0 old
  reducer-IsHonest CommandType.stage_external_result s r h old =
      SameClosure-IsHonest s r.snapshot (stage_external_result-SameFrame rt ctx c s r h).0 old
  reducer-IsHonest CommandType.stage_result s r h old =
      SameClosure-IsHonest s r.snapshot (stage_result-SameFrame rt ctx c s r h).0 old
  reducer-IsHonest CommandType.record_policy_decision s r h old =
      SameClosure-IsHonest s r.snapshot (record_policy_decision-SameFrame rt ctx c s r h).0 old
  reducer-IsHonest CommandType.resume_loop s r h old =
      SameClosure-IsHonest s r.snapshot (resume_loop-SameFrame rt ctx c s r h).0 old
  reducer-IsHonest CommandType.stop_loop s r h old = stop_loop-IsHonest rt ctx c s r h
  reducer-IsHonest CommandType.close_execution s r h old = close_execution-IsHonest rt ctx c s r h
  reducer-IsHonest CommandType.strengthen_closure_assurance s r h old =
      strengthen-IsHonest rt ctx c s r h
  reducer-IsHonest CommandType.create_loop s r h old = create_loop-IsHonest rt ctx c (some s) r h
  reducer-IsHonest (CommandType.undeclared name) s r h old = absurd (ground arith)

  create-IsHonest :
      (kind : CommandType) (r : Reduction)
      → create_or_reject rt ctx kind c ≡ ok r
      → IsHonest r.snapshot
  unfolding create_or_reject
  create-IsHonest CommandType.create_loop r h = create_loop-IsHonest rt ctx c none r h
  create-IsHonest CommandType.acknowledge_result r h = absurd (ground arith)
  create-IsHonest CommandType.advance_goal r h = absurd (ground arith)
  create-IsHonest CommandType.begin_effect_delivery r h = absurd (ground arith)
  create-IsHonest CommandType.bind_host_resource r h = absurd (ground arith)
  create-IsHonest CommandType.close_execution r h = absurd (ground arith)
  create-IsHonest CommandType.pause_loop r h = absurd (ground arith)
  create-IsHonest CommandType.prepare_finalization r h = absurd (ground arith)
  create-IsHonest CommandType.prepare_route r h = absurd (ground arith)
  create-IsHonest CommandType.record_effect_observation r h = absurd (ground arith)
  create-IsHonest CommandType.record_external_effect_observation r h = absurd (ground arith)
  create-IsHonest CommandType.record_policy_decision r h = absurd (ground arith)
  create-IsHonest CommandType.record_review r h = absurd (ground arith)
  create-IsHonest CommandType.resume_loop r h = absurd (ground arith)
  create-IsHonest CommandType.revise_goal_plan r h = absurd (ground arith)
  create-IsHonest CommandType.stop_loop r h = absurd (ground arith)
  create-IsHonest CommandType.stage_external_result r h = absurd (ground arith)
  create-IsHonest CommandType.stage_result r h = absurd (ground arith)
  create-IsHonest CommandType.strengthen_closure_assurance r h = absurd (ground arith)
  create-IsHonest (CommandType.undeclared name) r h = absurd (ground arith)

  dispatch-IsHonest :
      (s : Option Snapshot) (r : Reduction)
      → dispatch rt ctx c s ≡ ok r
      → AllHonest s
      → IsHonest r.snapshot
  unfolding dispatch
  dispatch-IsHonest none r h old = create-IsHonest c.command_type r h
  dispatch-IsHonest (some s) r h old = reducer-IsHonest c.command_type s r h old

  pub dispatched :
      (s : Option Snapshot) (r : Reduction)
      → reduce_command rt ctx c s ≡ ok r
      → (t : Reduction) × (dispatch rt ctx c s ≡ ok t)
        × (r.snapshot.execution ≡ t.snapshot.execution)
        × (r.snapshot.closure_assurance ≡ t.snapshot.closure_assurance)
        × (r.snapshot.deliveries ≡ t.snapshot.deliveries)
  unfolding reduce_command
  dispatched s r h =
      let (_, _, h1) = >>=-eq-ok (validate_command rt c) _ h in
      let (_, _, h2) = >>=-eq-ok (validate_authority rt ctx c s) _ h1 in
      let (_, _, h3) =
        >>=-eq-ok (raise_if (missing_loop c.command_type s) invalid_transition) _ h2 in
      let (_, _, h4) = >>=-eq-ok (validate_references s c) _ h3 in
      let (t, e, h5) = >>=-eq-ok (dispatch rt ctx c s) _ h4 in
      (t, e, ground arith, ground arith, ground arith)

  -- Every command that the kernel accepts keeps this: an execution whose disposition is SUCCEEDED or
  -- SUCCEEDED_WITH_LIMITATIONS has a closure assurance of strength STRICT. A new loop has it.
  pub reduce_command-IsHonest :
      (s : Option Snapshot) (r : Reduction)
      → reduce_command rt ctx c s ≡ ok r
      → AllHonest s
      → IsHonest r.snapshot
  reduce_command-IsHonest s r h old =
      let (t, e, x, a, _) = dispatched s r h in
      SameClosure-IsHonest t.snapshot r.snapshot (ap (λ (y : Execution). y.disposition) x, a)
        (dispatch-IsHonest s t e old)
