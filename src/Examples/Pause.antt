-- ===== src/Examples/Pause.antt =====
-- The store's theorems at a PauseLoop.
use loop_skill.Store.Integrity.{IsConsistent}
use loop_skill.Store.Honest.{LoopsHonest}
use loop_skill.Kernel.Closure.Honest.{IsHonest}
use mathlib.Core.Option
use loop_skill.Store.{
  revision_of, count_loop, empty_store, ApplyResult, Store, commit, find, finish, prepare, fresh,
  known, with_digest, apply, is_malformed,
}
use loop_skill.Kernel.Subject.{check_snapshot, kind_for_ref, check_subject, validate_references}
use loop_skill.Kernel.Reduce.{reducer, reduce_command}
use loop_skill.Kernel.Lifecycle.{pause_events, wait_kind_of, valid_reason, pause_loop}
use loop_skill.Kernel.Authority.{
  check_scope, authority_grant_digest, check_grant, check_actor, validate_authority,
}
use loop_skill.Kernel.State.{Reduction}
use loop_skill.Protocol.Value.{size_values, str, has_control_field, size_members, validate_value}
use loop_skill.Protocol.Envelope.{
  is_before, Command, command_name, parse_time, event, EventType, domain_digest,
}
use loop_skill.Protocol.Outcome.{
  Result, after_commit_before_response, err, injected_crash, rejection, stale_loop_revision, ok,
}
use loop_skill.Prelude.{
  Bool-cases, String, ap, arith, inl, inr, ◌==◌, ◌≢◌, chars, is_blank, has_prefix, [], false, none,
  some, ◌∷◌, lookup, refl, ◌≡◌,
}
use loop_skill.Examples.Data.{
  paused_result, store, encode, loop, context, paused, pause, runtime, hash,
}
use loop_skill.Protocol.Validate.{
  check_fields, payload_drift, is_reference_kind, command_value, is_declared, validate_command,
  command_digest,
}

pub digest_ok : command_digest runtime pause ≡ ok hash
unfolding command_digest domain_digest validate_value command_value size_members
digest_ok = refl

pub valid_ok : validate_command runtime pause ≡ ok tt
unfolding validate_command is_declared is_reference_kind has_control_field payload_drift lookup
    check_fields validate_value command_value size_members command_digest domain_digest
valid_ok = refl

pub authority_ok : validate_authority runtime context pause (some loop) ≡ ok tt
unfolding validate_authority check_actor lookup check_grant authority_grant_digest domain_digest
    validate_value size_members size_values parse_time is_before command_name check_scope
authority_ok = refl

references_ok : validate_references (some loop) pause ≡ ok tt
unfolding validate_references check_subject kind_for_ref has_prefix check_snapshot
references_ok = refl

abbrev pub reduced : Reduction
reduced = record {
  snapshot = record paused { loop_revision = 1 };
  events = event EventType.loop_paused (("reason_digest", str hash) ∷ []) ∷ [];
  response = ("execution_state", str "PAUSED") ∷ [];
}

pause_ok : pause_loop runtime context pause loop ≡ ok reduced
unfolding pause_loop valid_reason Option.bind lookup is_blank chars wait_kind_of domain_digest
    validate_value pause_events
pause_ok = refl

pub well_formed : is_malformed loop ≡ false
unfolding is_malformed
well_formed = refl

pub reduce_ok :
    reduce_command runtime context pause (some loop) ≡ ok (record reduced { snapshot = paused })
unfolding reduce_command reducer
reduce_ok = rw (valid_ok, authority_ok, references_ok, pause_ok) refl

pub apply_ok : apply runtime context encode store pause none ≡ (
  commit runtime context encode store pause hash
      (record { candidate = paused; pending = reduced.events; result = paused_result }),
  ok paused_result,
)
unfolding apply with_digest known fresh prepare finish find lookup empty_store commit
apply_ok = rw (digest_ok, well_formed, valid_ok, reduce_ok) refl

pub apply_result : (apply runtime context encode store pause none).1 ≡ ok paused_result
apply_result = ap (λ (x : Store × Result ApplyResult). x.1) apply_ok

-- the same command at a revision that the loop does not have
abbrev pub stale : Command
stale = record pause { expected_loop_revision = 7 }

pub stale_digest : command_digest runtime stale ≡ ok hash
unfolding command_digest domain_digest validate_value command_value size_members
stale_digest = refl

stale_valid : validate_command runtime stale ≡ ok tt
unfolding validate_command is_declared is_reference_kind has_control_field payload_drift lookup
    check_fields validate_value command_value size_members command_digest domain_digest
stale_valid = refl

pub stale_rejected :
    (apply runtime context encode store stale none).1 ≡ err (rejection stale_loop_revision)
unfolding apply with_digest known fresh prepare finish find lookup empty_store
stale_rejected = rw (stale_digest, well_formed, stale_valid) refl

-- the loop and its store satisfy the invariants
pub store-IsConsistent : IsConsistent store
unfolding lookup count_loop empty_store
store-IsConsistent = record { sequenced = λ j. tt; counted = λ j. counted j; keyed = (refl, tt) }
  where
    counted : (j : String) → revision_of (lookup j store.snapshots) ≡ count_loop j store.accepted
    counted j = elim (Bool-cases ("loop-1" == j)) [
      | inl same ↦ rw same refl
      | inr other ↦ rw other refl
    ]

pub loop-IsHonest : IsHonest loop
loop-IsHonest e = absurd (ground arith)

pub store_honest : LoopsHonest store
unfolding lookup empty_store
store_honest j = elim (Bool-cases ("loop-1" == j)) [
  | inl same ↦ rw same loop-IsHonest
  | inr other ↦ rw other tt
]

pub rejection_no_crash : rejection stale_loop_revision ≢ injected_crash after_commit_before_response
rejection_no_crash e = cc e
