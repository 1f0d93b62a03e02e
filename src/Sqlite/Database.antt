-- ===== src/Sqlite/Database.antt =====
-- The database of v4_persistence/sqlite_store.py: its tables, and statements that run in a
-- transaction. A table with a text key is a dictionary from the key to the other columns. A column
-- of canonical JSON holds the value that it encodes.
use loop_skill.Store.{ApplyResult, Entry, SequencedEvent, find}
use loop_skill.Protocol.Value.{Value}
use loop_skill.Protocol.Outcome.{Code, Error, Result, err, ok}
use loop_skill.Protocol.Envelope.{ActorRef, Grant, Receipt}
use loop_skill.Prelude.{
  Bool, Dict, List, Option, String, [], eqb, false, if◌then◌else◌, is_some, lookup, none, some,
  true, ℕ, ◌++◌, ◌&&◌, ◌==◌, ◌||◌, ◌∷◌,
}
use loop_skill.Kernel.State.{AttemptState, Snapshot}

-- DURABLE_FAULT_BOUNDARIES
pub data Durable : Type 0 where
  before_begin after_begin after_reduce_before_write after_operation_write : Durable
  after_events_write after_snapshot_write after_outbox_write before_commit : Durable
  after_commit_before_response : Durable

-- the position in DURABLE_FAULT_BOUNDARIES
abbrev pub position : Durable → ℕ
position before_begin = 0
position after_begin = 1
position after_reduce_before_write = 2
position after_operation_write = 3
position after_events_write = 4
position after_snapshot_write = 5
position after_outbox_write = 6
position before_commit = 7
position after_commit_before_response = 8

-- What a call raises: an error of the protocol, InjectedCrash, PersistenceCorruption,
-- PersistenceBusy, and `sqlite3.DatabaseError` with its subclasses
pub data Failure : Type 0 where
  protocol : Error → Failure
  crash : Durable → Failure
  corruption busy database_error : Failure

pub data Answer {ℓ} (A : Type ℓ) : Type ℓ where
  returned : A → Answer A
  raised : Failure → Answer A

-- `outcome_json` with the column `accepted`
pub data Recorded : Type 0 where
  accepted : ApplyResult → Recorded
  rejected : Code → Recorded

pub data InvocationState : Type 0 where
  ready started observed unknown unverifiable : InvocationState

pub record LoopRow : Type 0 where
  pub loop_revision : ℕ
  pub snapshot : Snapshot
  pub snapshot_digest : String

pub record EventRow : Type 0 where
  pub loop_ref : String
  pub operation_id : String
  pub event : SequencedEvent

pub record OutboxRow : Type 0 where
  pub loop_ref : String
  pub delivery_ref : String
  pub subject_kind : String
  pub subject_ref : String
  pub target_ref : String
  pub action : String
  pub payload : Value
  pub provider_idempotency_key : String
  pub provider_request_digest : String
  pub automatic_budget_consumed : Bool
  pub attempt_revision : ℕ
  pub attempt_state : AttemptState
  pub invocation_state : InvocationState
  pub executor_ref : Option String
  pub observation_receipt_ref : Option String

pub record BlobRow : Type 0 where
  pub content : List ℕ
  pub content_bytes : ℕ

pub record Descriptor : Type 0 where
  pub goal_text : String
  pub goal_digest : String
  pub created_at : String

-- a row of `authority_actors`, `authority_grants` or `authority_receipts`
pub record Owned (A : Type 0) : Type 0 where
  pub loop_ref : String
  pub value : A

pub data TrustKind : Type 0 where
  actor grant receipt : TrustKind

pub record TrustRoot : Type 0 where
  pub loop_ref : String
  pub trust_kind : TrustKind
  pub issuer_ref : String
  pub issuer_trust : String

pub record Database : Type 0 where
  pub loops : Dict LoopRow
  pub operations : List (Entry Recorded)
  pub events : List EventRow
  pub outbox : Dict OutboxRow
  pub immutable_blobs : Dict BlobRow
  pub loop_descriptors : Dict Descriptor
  pub authority_actors : Dict (Owned ActorRef)
  pub authority_grants : Dict (Owned Grant)
  pub authority_receipts : Dict (Owned Receipt)
  pub authority_trust_roots : List TrustRoot

-- Statements of one transaction: each sees and leaves the working copy of the database.
abbrev pub Transaction : Type 0 → Type 0
Transaction A = Database → Database × Answer A

abbrev pub and_then :
    {A B : Type 0} → Database × Answer A → (A → Transaction B) → Database × Answer B
and_then (db, returned a) next = next a db
and_then (db, raised failure) next = (db, raised failure)

unfoldable pub give : {A : Type 0} → A → Transaction A
give a db = (db, returned a)

unfoldable pub fail : {A : Type 0} → Failure → Transaction A
fail failure db = (db, raised failure)

-- code that reads and writes no table
unfoldable pub lift : {A : Type 0} → Result A → Transaction A
unfolding give fail
lift (ok a) = give a
lift (err e) = fail (protocol e)

-- a query
unfoldable pub query : {A : Type 0} → (Database → Answer A) → Transaction A
query read db = (db, read db)

-- `if b: raise`
unfoldable pub raise_when : Bool → Failure → Transaction (Unit {0})
unfolding give fail
raise_when true failure = fail failure
raise_when false failure = give tt

infixl 5 ◌>>=◌
infixl 5 ◌>>◌
-- the next statement, which an exception skips; opening this opens the statements above
unfoldable pub ◌>>=◌ : {A B : Type 0} → Transaction A → (A → Transaction B) → Transaction B
unfolding give fail lift query raise_when
◌>>=◌ m next db = and_then (m db) next

abbrev pub ◌>>◌ : {B : Type 0} → Transaction (Unit {0}) → Transaction B → Transaction B
m >> next = m >>= λ _. next

abbrev is_at : Durable → Option Durable → Bool
is_at boundary none = false
is_at boundary (some fault) = eqb (position boundary) (position fault)

-- `if fault_at == boundary: raise InjectedCrash(fault_at)`
abbrev pub crash_now : Durable → Option Durable → Answer (Unit {0})
crash_now boundary fault_at =
    if is_at boundary fault_at then raised (crash boundary) else returned tt

abbrev pub crash_point : Durable → Option Durable → Transaction (Unit {0})
crash_point boundary fault_at = query λ db. crash_now boundary fault_at

-- `INSERT INTO operations`, with its primary key
unfoldable pub insert_operation : Entry Recorded → Transaction (Unit {0})
insert_operation row db =
    if is_some (find row.loop_ref row.operation_id db.operations)
    then (db, raised database_error)
    else (record db { operations = db.operations ++ (row ∷ []) }, returned tt)

unfoldable pub has_sequence : String → ℕ → List EventRow → Bool
has_sequence loop_ref n [] = false
has_sequence loop_ref n (row ∷ rows) =
    ((row.loop_ref == loop_ref) && eqb row.event.sequence n) || has_sequence loop_ref n rows

-- `INSERT INTO events`, with its primary key
unfoldable pub insert_event : EventRow → Transaction (Unit {0})
unfolding has_sequence
insert_event row db =
    if has_sequence row.loop_ref row.event.sequence db.events
    then (db, raised database_error)
    else (record db { events = db.events ++ (row ∷ []) }, returned tt)

-- the events of a loop, in the order of their insertion
unfoldable pub loop_events : String → List EventRow → List SequencedEvent
loop_events loop_ref [] = []
loop_events loop_ref (row ∷ rows) =
    let rest = loop_events loop_ref rows in
    if row.loop_ref == loop_ref then row.event ∷ rest else rest

abbrev pub row_snapshot : Option LoopRow → Option Snapshot
row_snapshot none = none
row_snapshot (some row) = some row.snapshot

-- `SELECT snapshot_json FROM loops`
abbrev pub snapshot_of : String → Database → Option Snapshot
snapshot_of loop_ref db = row_snapshot (lookup loop_ref db.loops)
