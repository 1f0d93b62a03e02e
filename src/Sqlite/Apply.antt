-- ===== src/Sqlite/Apply.antt =====
-- `SQLiteStore.apply` of v4_persistence/sqlite_store.py, with its nine fault boundaries. The
-- statements work on a copy of the database, which a commit makes the database and a rollback drops.
use loop_skill.Sqlite.Wire.{Host}
use loop_skill.Sqlite.Database.{
  Answer, Database, Durable, Failure, Recorded, accepted, busy, corruption, crash, crash_now,
  database_error, protocol, raised, rejected, returned,
}
use loop_skill.Protocol.Validate.{command_digest}
use loop_skill.Protocol.Outcome.{
  Code, Result, err, idempotency_conflict, injected_crash, key_error, ok, rejection, value_error,
}
use loop_skill.Protocol.Envelope.{Command}
use loop_skill.Store.{ApplyResult, Entry, conflicts, find}
use loop_skill.Sqlite.Write.{record_rejection, run_new}
use loop_skill.Prelude.{Bool, Option, String, false, if◌then◌else◌, none, some, true}

-- A connection: what is durable, the copy that an open transaction works on, and whether another
-- connection holds the write lock longer than `busy_timeout_ms`.
pub record Connection : Type 0 where
  pub durable : Database
  pub transaction : Option Database
  pub locked : Bool

-- `_begin`; within a transaction BEGIN is an error
unfoldable pub begin : Connection → Answer Database
begin conn = elim conn.transaction [
  | some working ↦ raised database_error
  | none ↦ if conn.locked then raised busy else returned conn.durable
]

abbrev pub committed : Connection → Database → Connection
committed conn working = record conn { durable = working; transaction = none }

abbrev pub rolled_back : Connection → Connection
rolled_back conn = record conn { transaction = none }

abbrev pub left_open : Connection → Database → Connection
left_open conn working = record conn { transaction = some working }

abbrev pub is_conflict : Code → Bool
is_conflict idempotency_conflict = true
is_conflict _ = false

module _ (host : Host) where
  -- the commit and the crash after it
  unfoldable pub respond : Answer (Unit {0}) → ApplyResult → Answer ApplyResult
  respond (raised failure) result = raised failure
  respond (returned u) result = returned result

  unfoldable pub settle_returned :
      Connection → Option Durable → Database → ApplyResult → Connection × Answer ApplyResult
  unfolding respond
  settle_returned conn fault_at working result = (
    committed conn working,
    respond (crash_now Durable.after_commit_before_response fault_at) result,
  )

  -- the commit of a rejection; what `_record_rejection_in_transaction` raises is not handled
  unfoldable pub settle_recorded :
      Connection → Code → Database × Answer (Unit {0}) → Connection × Answer ApplyResult
  settle_recorded conn code (working, returned u) =
      (committed conn working, raised (protocol (rejection code)))
  settle_recorded conn code (working, raised failure) = (left_open conn working, raised failure)

  unfoldable pub settle_rejected :
      Connection → Command → String → Code → Database → Connection × Answer ApplyResult
  settle_rejected conn c digest code working =
      if is_conflict code
      then (rolled_back conn, raised (protocol (rejection code)))
      else settle_recorded conn code (record_rejection host c digest code working)

  -- the `except` clauses; any other exception leaves the transaction open
  unfoldable pub settle_raised :
      Connection → Command → String → Database → Failure → Connection × Answer ApplyResult
  settle_raised conn c digest working (protocol (rejection code)) =
      settle_rejected conn c digest code working
  settle_raised conn c digest working (crash boundary) = (rolled_back conn, raised (crash boundary))
  settle_raised conn c digest working database_error = (rolled_back conn, raised corruption)
  settle_raised conn c digest working (protocol key_error) =
      (left_open conn working, raised (protocol key_error))
  settle_raised conn c digest working (protocol value_error) =
      (left_open conn working, raised (protocol value_error))
  settle_raised conn c digest working (protocol (injected_crash boundary)) =
      (rolled_back conn, raised (protocol (injected_crash boundary)))
  settle_raised conn c digest working corruption = (left_open conn working, raised corruption)
  settle_raised conn c digest working busy = (left_open conn working, raised busy)

  unfoldable pub settle :
      Connection
      → Command
      → String
      → Option Durable
      → Database × Answer ApplyResult
      → Connection × Answer ApplyResult
  settle conn c digest fault_at (working, returned result) =
      settle_returned conn fault_at working result
  settle conn c digest fault_at (working, raised failure) =
      settle_raised conn c digest working failure

  abbrev pub replayed : Recorded → Answer ApplyResult
  replayed (accepted result) = returned (record result { replayed = true })
  replayed (rejected code) = raised (protocol (rejection code))

  -- an operation that has a row
  unfoldable pub answer_known :
      Connection → Command → String → Database → Entry Recorded → Connection × Answer ApplyResult
  answer_known conn c digest working row =
      if conflicts host.runtime host.authority host.snapshot_digest row.request_digest c digest
      then (rolled_back conn, raised (protocol (rejection idempotency_conflict)))
      else (committed conn working, replayed row.value)

  unfoldable pub answer :
      Connection
      → Command
      → String
      → Option Durable
      → Database
      → Option (Entry Recorded)
      → Connection × Answer ApplyResult
  answer conn c digest fault_at working (some row) = answer_known conn c digest working row
  answer conn c digest fault_at working none =
      settle conn c digest fault_at (run_new host c digest fault_at working)

  -- the `try` block
  unfoldable pub attempt :
      Connection
      → Command
      → String
      → Option Durable
      → Database
      → Answer (Unit {0})
      → Connection × Answer ApplyResult
  attempt conn c digest fault_at working (raised failure) = (rolled_back conn, raised failure)
  attempt conn c digest fault_at working (returned u) =
      answer conn c digest fault_at working
        (find c.subject.loop_ref c.operation_id working.operations)

  unfoldable pub with_begun :
      Connection
      → Command
      → String
      → Option Durable
      → Answer Database
      → Connection × Answer ApplyResult
  with_begun conn c digest fault_at (raised failure) = (conn, raised failure)
  with_begun conn c digest fault_at (returned working) =
      attempt conn c digest fault_at working (crash_now Durable.after_begin fault_at)

  unfoldable pub before : Connection → Option Durable → Answer Database
  unfolding begin
  before conn fault_at = elim (crash_now Durable.before_begin fault_at) [
    | raised failure ↦ raised failure
    | returned u ↦ begin conn
  ]

  unfoldable pub with_digest :
      Connection → Command → Option Durable → Result String → Connection × Answer ApplyResult
  with_digest conn c fault_at (err e) = (conn, raised (protocol e))
  with_digest conn c fault_at (ok digest) = with_begun conn c digest fault_at (before conn fault_at)

  -- `SQLiteStore.apply`
  unfoldable pub apply : Connection → Command → Option Durable → Connection × Answer ApplyResult
  apply conn c fault_at = with_digest conn c fault_at (command_digest host.runtime c)
