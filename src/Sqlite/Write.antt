-- ===== src/Sqlite/Write.antt =====
-- The statements of `SQLiteStore.apply` of v4_persistence/sqlite_store.py: the reduction of a command
-- and the rows that it writes.
pub mod Kept
use loop_skill.Sqlite.Identity.{sync_loop_identity, sync_receipts}
use loop_skill.Sqlite.Outbox.{sync_outbox}
use loop_skill.Sqlite.Wire.{Host, event_json, outcome_json}
use loop_skill.Sqlite.Database.{
  Durable, EventRow, Recorded, Transaction, accepted, crash_point, loop_events, give, insert_event,
  insert_operation, lift, protocol, query, raise_when, rejected, returned, snapshot_of, ◌>>=◌, ◌>>◌,
}
use loop_skill.Kernel.Reduce.{reduce_command}
use loop_skill.Protocol.Validate.{Outcome, validate_command}
use loop_skill.Protocol.Outcome
use loop_skill.Protocol.Outcome.{
  Result, raise_if, Code, internal_invariant_violation, rejection, stale_loop_revision,
}
use loop_skill.Protocol.Envelope.{Command, CommandType, Event}
use loop_skill.Store.{
  malformed_current, ApplyResult, Entry, SequencedEvent, is_malformed, revision_of, sequence_from,
}
use loop_skill.Prelude.{
  Bool, List, Option, String, [], eqb, false, insert, length, map, none, not, some, true, ◌∷◌,
}
use loop_skill.Kernel.State.{Reduction, Snapshot}

abbrev creates_loop : CommandType → Bool
creates_loop CommandType.create_loop = true
creates_loop _ = false

unfoldable pub event_rows : String → String → List SequencedEvent → List EventRow
event_rows loop_ref operation_id [] = []
event_rows loop_ref operation_id (e ∷ es) =
    record { loop_ref = loop_ref; operation_id = operation_id; event = e }
    ∷ event_rows loop_ref operation_id es

-- what the reduction of a command writes
pub record Write : Type 0 where
  pub candidate : Snapshot
  pub sequenced : List SequencedEvent
  pub result : ApplyResult

abbrev pub operation_row : Command → String → Recorded → Entry Recorded
operation_row c digest outcome = record {
  loop_ref = c.subject.loop_ref;
  operation_id = c.operation_id;
  request_digest = digest;
  value = outcome;
}

module _ (host : Host) where
  -- the checks of the snapshot and of the command, and the reduction
  unfoldable pub reduce_current : Command → Option Snapshot → Result Reduction
  reduce_current c current =
      Outcome.◌>>◌ (raise_if (malformed_current current) internal_invariant_violation) (
        Outcome.◌>>◌ (validate_command host.runtime c) (
          Outcome.◌>>◌
            (raise_if (not (eqb (revision_of current) c.expected_loop_revision))
              stale_loop_revision)
            (reduce_command host.runtime host.authority c current)))

  unfoldable pub result_of : Command → Reduction → String → ApplyResult
  result_of c r digest = record {
    operation_id = c.operation_id;
    loop_ref = c.subject.loop_ref;
    loop_revision = r.snapshot.loop_revision;
    event_types = map (λ (e : Event). e.kind) r.events;
    response = r.response;
    snapshot_digest = digest;
    replayed = false;
  }

  -- from the snapshot to the ApplyResult
  unfoldable pub reduce : Command → Option Durable → Transaction Write
  reduce c fault_at = do
    current ← query λ db. returned (snapshot_of c.subject.loop_ref db)
    r ← lift (reduce_current c current)
    crash_point Durable.after_reduce_before_write fault_at
    present ← query λ db. returned (loop_events c.subject.loop_ref db.events)
    digest ← lift (host.snapshot_digest r.snapshot)
    give (record {
      candidate = r.snapshot;
      sequenced = sequence_from (length present) r.events;
      result = result_of c r digest;
    })

  -- `INSERT INTO operations` with the canonical outcome
  unfoldable pub write_outcome : Command → String → Recorded → Transaction (Unit {0})
  write_outcome c digest outcome = do
    lift (host.canonical (outcome_json outcome))
    insert_operation (operation_row c digest outcome)

  unfoldable pub write_events : List EventRow → Transaction (Unit {0})
  write_events [] = give tt
  write_events (row ∷ rows) = do
    lift (host.canonical (event_json row.event))
    insert_event row
    write_events rows

  -- the upsert of `loops`
  unfoldable pub write_snapshot : String → Write → Transaction (Unit {0})
  write_snapshot loop_ref w db = (
    record db {
      loops =
          insert loop_ref
            (record {
              loop_revision = w.candidate.loop_revision;
              snapshot = w.candidate;
              snapshot_digest = w.result.snapshot_digest;
            })
            db.loops;
    },
    returned tt,
  )

  sync_identity_if : Bool → Command → Transaction (Unit {0})
  sync_identity_if true c = sync_loop_identity host c
  sync_identity_if false c = give tt

  -- the outbox, the identity of a new loop and the receipts
  unfoldable pub sync : Command → Snapshot → Transaction (Unit {0})
  unfolding sync_identity_if
  sync c candidate = do
    sync_outbox host c.subject.loop_ref candidate
    sync_identity_if (creates_loop c.command_type) c
    sync_receipts host c

  -- from the events to the commit
  unfoldable pub write_rest : Command → Option Durable → Write → Transaction ApplyResult
  unfolding event_rows
  write_rest c fault_at w = do
    crash_point Durable.after_operation_write fault_at
    write_events (event_rows c.subject.loop_ref c.operation_id w.sequenced)
    crash_point Durable.after_events_write fault_at
    write_snapshot c.subject.loop_ref w
    crash_point Durable.after_snapshot_write fault_at
    sync c w.candidate
    crash_point Durable.after_outbox_write fault_at
    crash_point Durable.before_commit fault_at
    give w.result

  unfoldable pub write : Command → String → Option Durable → Write → Transaction ApplyResult
  write c digest fault_at w = write_outcome c digest (accepted w.result) >> write_rest c fault_at w

  unfoldable pub run_new : Command → String → Option Durable → Transaction ApplyResult
  run_new c digest fault_at = do w ← reduce c fault_at; write c digest fault_at w

  -- `_record_rejection_in_transaction`
  unfoldable pub record_rejection : Command → String → Code → Transaction (Unit {0})
  record_rejection c digest code = write_outcome c digest (rejected code)
