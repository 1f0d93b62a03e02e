-- ===== src/Sqlite/Calls.antt =====
-- The other writers of v4_persistence/sqlite_store.py, `claim_attempt` and `put_blob`, and sequences
-- of calls on one connection.
use loop_skill.Sqlite.Apply.{Connection, apply, begin, committed, rolled_back}
use loop_skill.Sqlite.Outbox.{claim}
use loop_skill.Sqlite.Wire.{Host}
use loop_skill.Sqlite.Database.{
  Answer, Database, Durable, Transaction, corruption, raised, returned,
}
use loop_skill.Store.Blobs.{same_bytes}
use loop_skill.Protocol.Envelope.{Command}
use loop_skill.Prelude.{
  Bool, List, Option, String, [], false, if◌then◌else◌, insert, length, lookup, none, some, ℕ, ◌&&◌,
  ◌+◌, ◌==◌, ◌∷◌,
}

-- `commit`, or `rollback` and the exception again
unfoldable pub finish : {A : Type 0} → Connection → Database × Answer A → Connection × Answer A
finish conn (working, returned a) = (committed conn working, returned a)
finish conn (working, raised failure) = (rolled_back conn, raised failure)

unfoldable pub in_transaction :
    {A : Type 0} → Connection → Transaction A → Answer Database → Connection × Answer A
in_transaction conn m (raised failure) = (conn, raised failure)
in_transaction conn m (returned working) = finish conn (m working)

-- `claim_attempt`
unfoldable pub claim_attempt : Connection → String → String → Connection × Answer Bool
claim_attempt conn attempt_ref executor_ref =
    in_transaction conn (claim attempt_ref executor_ref) (begin conn)

unfoldable pub put_row : String → List ℕ → Option (List ℕ) → Transaction String
put_row digest content none db = (
  record db {
    immutable_blobs =
        insert digest (record { content = content; content_bytes = length content })
          db.immutable_blobs;
  },
  returned digest,
)
put_row digest content (some stored) db =
    if same_bytes stored content then (db, returned digest) else (db, raised corruption)

-- what can happen to a connection: calls, another writer that takes or drops the lock, and a
-- process that ends and opens the database again
pub data Call : Type 0 where
  apply_command : Command → Option Durable → Call
  claim_for : String → String → Call
  put_content : List ℕ → Call
  set_lock : Bool → Call
  reopen : Call

abbrev pub is_granted : Answer Bool → Bool
is_granted (returned b) = b
is_granted (raised failure) = false

-- the call hands the attempt to an executor
unfoldable pub grants : String → Connection → Call → Bool
grants attempt_ref conn (claim_for other executor_ref) =
    (other == attempt_ref) && is_granted (claim_attempt conn other executor_ref).1
grants attempt_ref conn _ = false

module _ (host : Host) where
  unfoldable pub put : List ℕ → Transaction String
  put content db =
      put_row (host.blob_digest content) content
        (elim (lookup (host.blob_digest content) db.immutable_blobs) [
          | none ↦ none
          | some row ↦ some row.content
        ])
        db

  -- `put_blob`
  unfoldable pub put_blob : Connection → List ℕ → Connection × Answer String
  put_blob conn content = in_transaction conn (put content) (begin conn)

  unfoldable pub step : Connection → Call → Connection
  step conn (apply_command c fault_at) = (apply host conn c fault_at).0
  step conn (claim_for attempt_ref executor_ref) = (claim_attempt conn attempt_ref executor_ref).0
  step conn (put_content content) = (put_blob conn content).0
  step conn (set_lock b) = record conn { locked = b }
  step conn reopen = rolled_back conn

  unfoldable pub run : Connection → List Call → Connection
  run conn [] = conn
  run conn (call ∷ calls) = run (step conn call) calls

  -- how many calls of a sequence hand the attempt to an executor
  unfoldable pub count_grants : String → Connection → List Call → ℕ
  count_grants attempt_ref conn [] = 0
  count_grants attempt_ref conn (call ∷ calls) =
      (if grants attempt_ref conn call then 1 else 0)
      + count_grants attempt_ref (step conn call) calls
