-- ===== src/Examples/DeliveryRuns.antt =====
-- A delivery that has begun is not begun again after a PauseLoop.
use loop_skill.Kernel.Authority.{
  check_scope, authority_grant_digest, check_grant, check_actor, validate_authority,
}
use loop_skill.Kernel.Delivery.{begin_delivery}
use loop_skill.Kernel.Delivery.Once.{Later, begin_delivery-begin_delivery}
use loop_skill.Kernel.Lifecycle.{pause_events, wait_kind_of, valid_reason, pause_loop}
use loop_skill.Kernel.Reduce.{reducer, reduce_command}
use loop_skill.Kernel.State.{Reduction, Snapshot}
use loop_skill.Kernel.Subject.{check_snapshot, kind_for_ref, check_subject, validate_references}
use loop_skill.Prelude.{chars, has_prefix, is_blank, lookup, refl, some, ◌≡◌}
use loop_skill.Protocol.Envelope.{is_before, command_name, parse_time, domain_digest}
use loop_skill.Protocol.Outcome.{Result, attempt_already_consumed, err, ok, rejection}
use loop_skill.Protocol.Value.{size_values, size_members, validate_value}
use loop_skill.Examples.Data.{context, pause, paused, runtime}
use loop_skill.Examples.Finished.{begin, routed}
use loop_skill.Examples.Pause.{reduced, valid_ok}
use mathlib.Core.Option

-- the reduction of a run that returns
abbrev returned : Result Reduction → Reduction
returned (ok r) = r
returned (err e) = reduced

abbrev sent : Reduction
sent = returned (begin_delivery runtime context begin routed)

begun : begin_delivery runtime context begin routed ≡ ok sent
unfolding begin_delivery lookup domain_digest validate_value size_members
begun = refl

abbrev waiting : Snapshot
waiting = record (sent.snapshot) { execution = paused.execution }

authority_ok : validate_authority runtime context pause (some sent.snapshot) ≡ ok tt
unfolding validate_authority check_actor lookup check_grant authority_grant_digest domain_digest
    validate_value size_members size_values parse_time is_before command_name check_scope
    begin_delivery
authority_ok = refl

references_ok : validate_references (some sent.snapshot) pause ≡ ok tt
unfolding validate_references check_subject kind_for_ref has_prefix check_snapshot begin_delivery
    lookup domain_digest validate_value size_members
references_ok = refl

pause_ok :
    pause_loop runtime context pause sent.snapshot
    ≡ ok (record reduced {
      snapshot = record waiting { loop_revision = sent.snapshot.loop_revision };
    })
unfolding pause_loop valid_reason Option.bind lookup is_blank chars wait_kind_of domain_digest
    validate_value pause_events begin_delivery size_members
pause_ok = refl

abbrev after : Reduction
after = record reduced { snapshot = record waiting { loop_revision = paused.loop_revision } }

reduce_ok : reduce_command runtime context pause (some sent.snapshot) ≡ ok after
unfolding reduce_command reducer
reduce_ok = rw (valid_ok, authority_ok, references_ok, pause_ok) refl

begin_delivery-begin_delivery_example :
    begin_delivery runtime context begin after.snapshot ≡ err (rejection attempt_already_consumed)
begin_delivery-begin_delivery_example =
    begin_delivery-begin_delivery runtime context context begin begin routed after.snapshot sent
      begun
      (Later.next context pause sent.snapshot after.snapshot after reduce_ok (λ (e, _). cc)
        (Later.now after.snapshot))
      refl
