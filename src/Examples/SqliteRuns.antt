-- ===== src/Examples/SqliteRuns.antt =====
-- The durable store's theorems at the PauseLoop of Examples/Pause.
use loop_skill.Sqlite.Wire.{delivery_wire, attempt_wire}
use loop_skill.Sqlite.Refines.Answers.{apply-AnswersAs, AnswersAs}
use loop_skill.Sqlite.Wedged.{corruption-IsWedged, IsWedged}
use loop_skill.Sqlite.Atomic.{apply-OnlyRejects, OnlyRejects}
use loop_skill.Sqlite.Apply.{
  respond, settle_raised, settle_returned, settle, answer, attempt, begin, before, with_begun,
  with_digest, apply,
}
use loop_skill.Sqlite.Refines.{Represents}
use loop_skill.Sqlite.Identity.{sync_receipts}
use loop_skill.Sqlite.Outbox.Agrees.{sync_outbox-Mirrors, Mirrors}
use loop_skill.Kernel.State.{AttemptState, Snapshot}
use loop_skill.Examples.Finished.{attempt as sent_attempt, finished}
use loop_skill.Sqlite.Outbox.{upsert_attempt, sync_attempt, sync_attempts, sync_outbox}
use loop_skill.Store.{empty_store, ApplyResult, apply as memory_apply, find, sequence_from}
use loop_skill.Sqlite.Database.{
  database_error, busy, protocol, Answer, Database, insert_event, insert_operation, corruption,
  crash, raised, returned, loop_events, ◌>>=◌, Durable,
}
use loop_skill.Protocol.Outcome.{ok}
use loop_skill.Prelude.{
  insert, Bool-cases, inl, inr, ◌&&◌, ◌==◌, arith, sorted_items, Option, lookup, Keyed, ◌≢◌, List,
  [], none, refl, some, ◌∷◌, ◌≡◌, ◌≤◌,
}
use loop_skill.Examples.Data.{
  context, runtime, encode, store, hash, paused_result, loop, pause, paused,
}
use loop_skill.Examples.Durable.{drifted_conn, ready_row, database, drifted, conn, host}
use loop_skill.Examples.Pause.{digest_ok, reduce_ok, reduced, valid_ok, well_formed}
use loop_skill.Sqlite.Calls.{Call, count_grants, run}
use loop_skill.Sqlite.Claims.{count_grants-le-one}
use loop_skill.Sqlite.Extends.{Extends}
use loop_skill.Sqlite.Extends.Calls.{run-Extends}
use loop_skill.Sqlite.Write.{
  run_new, sync, write_snapshot, write_events, write_rest, write_outcome, result_of, reduce, write,
  Write, reduce_current,
}

abbrev calls : List Call
calls =
    Call.claim_for "attempt-1" "executor-1"
    ∷ Call.reopen
    ∷ Call.apply_command pause none
    ∷ Call.claim_for "attempt-1" "executor-2"
    ∷ []

count_grants-le-one_example : count_grants host "attempt-1" conn calls ≤ 1
count_grants-le-one_example = count_grants-le-one host "attempt-1" conn calls

run-Extends_example : Extends conn.durable (run host conn calls).durable
run-Extends_example = run-Extends host conn calls

current_ok : reduce_current host pause (some loop) ≡ ok (record reduced { snapshot = paused })
unfolding reduce_current
current_ok = rw (well_formed, valid_ok, reduce_ok) refl

abbrev drafted : Write
drafted = record {
  candidate = paused;
  sequenced = sequence_from 0 reduced.events;
  result = paused_result;
}

reduced_ok : reduce host pause none database ≡ (database, returned drafted)
unfolding reduce ◌>>=◌ lookup result_of loop_events
reduced_ok = rw current_ok refl

late_reduced :
    reduce host pause (some Durable.before_commit) database ≡ (database, returned drafted)
unfolding reduce ◌>>=◌ lookup result_of loop_events
late_reduced = rw current_ok refl

drifted_reduced : reduce host pause none drifted ≡ (drifted, returned drafted)
unfolding reduce ◌>>=◌ lookup result_of loop_events
drifted_reduced = rw current_ok refl

written : (write host pause hash none drafted database).1 ≡ returned paused_result
unfolding write ◌>>=◌ write_outcome insert_operation find write_rest write_events sequence_from
    insert_event write_snapshot sync sync_outbox sync_attempts sorted_items sync_receipts
written = refl

halted :
    (write host pause hash (some Durable.before_commit) drafted database).1
    ≡ raised (crash Durable.before_commit)
unfolding write ◌>>=◌ write_outcome insert_operation find write_rest write_events sequence_from
    insert_event write_snapshot sync sync_outbox sync_attempts sorted_items sync_receipts
halted = refl

broken : (write host pause hash none drafted drifted).1 ≡ raised corruption
unfolding write ◌>>=◌ write_outcome insert_operation find write_rest write_events sequence_from
    insert_event write_snapshot sync sync_outbox sync_attempts sorted_items lookup
broken = refl

settle_result :
    (m : Database × Answer ApplyResult)
    → m.1 ≡ returned paused_result
    → (settle host conn pause hash none m).1 ≡ returned paused_result
unfolding settle settle_returned respond
settle_result (db, returned r) e = e
settle_result (db, raised x) e = cc

returns : (apply host conn pause none).1 ≡ returned paused_result
unfolding apply with_digest with_begun before begin attempt answer find run_new ◌>>=◌
returns =
    rw (digest_ok, reduced_ok) (settle_result (write host pause hash none drafted database) written)

settle_crash :
    (f : Option Durable) (m : Database × Answer ApplyResult)
    → m.1 ≡ raised (crash Durable.before_commit)
    → (settle host conn pause hash f m).1 ≡ raised (crash Durable.before_commit)
unfolding settle settle_raised
settle_crash f (db, returned r) e = cc
settle_crash f (db, raised (crash b)) e = e
settle_crash f (db, raised (protocol x)) e = cc
settle_crash f (db, raised corruption) e = cc
settle_crash f (db, raised busy) e = cc
settle_crash f (db, raised database_error) e = cc

crashes :
    (apply host conn pause (some Durable.before_commit)).1 ≡ raised (crash Durable.before_commit)
unfolding apply with_digest with_begun before begin attempt answer find run_new ◌>>=◌
crashes =
    rw (digest_ok, late_reduced)
      (settle_crash (some Durable.before_commit)
        (write host pause hash (some Durable.before_commit) drafted database) halted)

breaks :
    run_new host pause hash none drifted
    ≡ ((write host pause hash none drafted drifted).0, raised corruption)
unfolding run_new ◌>>=◌
breaks = rw drifted_reduced (ground (arith, broken))

represents : Represents database store
unfolding lookup find loop_events empty_store
represents = record {
  snapshots = λ l. elim (Bool-cases ("loop-1" == l)) [
    | inl same ↦ rw same refl
    | inr other ↦ rw other refl
  ];
  events = λ l. refl;
  accepted = λ l o. elim (Bool-cases (("loop-1" == l) && ("op-1" == o))) [
    | inl same ↦ rw same refl
    | inr other ↦ rw other refl
  ];
  rejected = λ l o. elim (Bool-cases (("loop-1" == l) && ("op-1" == o))) [
    | inl same ↦ rw same refl
    | inr other ↦ rw other refl
  ];
}

early : crash Durable.before_commit ≢ crash Durable.after_commit_before_response
early e = cc e

apply-AnswersAs_example :
    AnswersAs
      (apply host conn pause none).0.durable
      paused_result
      (memory_apply runtime context encode store pause none)
apply-AnswersAs_example =
    apply-AnswersAs host conn pause none store paused_result represents returns

apply-OnlyRejects_example :
    OnlyRejects host conn pause
      (crash Durable.before_commit)
      (apply host conn pause (some Durable.before_commit)).0.durable
apply-OnlyRejects_example =
    apply-OnlyRejects host conn pause (some Durable.before_commit) (crash Durable.before_commit)
      crashes early

fresh_operation : find "loop-1" "op-2" drifted.operations ≡ none
unfolding find
fresh_operation = refl

corruption-IsWedged_example :
    ((apply host drifted_conn pause none).1 ≡ raised corruption)
    × ((apply host drifted_conn pause none).0.durable ≡ drifted)
    × IsWedged host (apply host drifted_conn pause none).0
corruption-IsWedged_example =
    corruption-IsWedged host drifted_conn pause hash (write host pause hash none drafted drifted).0
      refl refl digest_ok fresh_operation breaks

-- an attempt of loop-1 that is committed, beside a row of loop-2
abbrev sending : Snapshot
sending = record finished {
  attempts =
      (
        "attempt-1",
        record sent_attempt { state = AttemptState.committed; observation_receipt_ref = none },
      )
      ∷ [];
}

abbrev other_loop : Database
other_loop = record database {
  outbox = ("attempt-9", record ready_row { provider_idempotency_key = "key-9" }) ∷ [];
}

sent : (sync_outbox host "loop-1" sending other_loop).1 ≡ returned tt
unfolding sync_outbox ◌>>=◌ sync_attempts sorted_items sync_attempt attempt_wire delivery_wire
    lookup upsert_attempt insert
sent = refl

sending-Keyed : Keyed sending.attempts
unfolding lookup
sending-Keyed = (refl, tt)

sync_outbox-Mirrors_example :
    Mirrors host "loop-1" sending other_loop (sync_outbox host "loop-1" sending other_loop).0
sync_outbox-Mirrors_example =
    sync_outbox-Mirrors host "loop-1" sending other_loop sending-Keyed sent
