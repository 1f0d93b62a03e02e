-- ===== src/Sqlite/Extends.antt =====
-- What no statement of v4_persistence/sqlite_store.py takes back: recorded answers, blobs, receipts
-- and the claims of attempts.
pub mod Rows
pub mod Calls
use loop_skill.Sqlite.Keeps.{Preorder}
use loop_skill.Sqlite.Outbox.{is_ready}
use loop_skill.Sqlite.Database.{
  give, ◌>>◌, lift, query, raise_when, Failure, Answer, BlobRow, Database, OutboxRow, Owned,
  Recorded, Transaction, raised, returned, and_then, ◌>>=◌,
}
use loop_skill.Protocol.Envelope.{Receipt}
use loop_skill.Protocol.Outcome.{err, ok, Result}
use loop_skill.Store.{Entry, find}
use loop_skill.Prelude.{subst, sym, ◌∙◌, Bool, true, String, false, lookup, none, refl, some, ◌≡◌}

-- an attempt with a row that is no longer READY
abbrev pub IsClaimed : String → Database → Type 0
IsClaimed attempt_ref db =
    (row : OutboxRow) × (lookup attempt_ref db.outbox ≡ some row)
    × (is_ready row.invocation_state ≡ false)

pub record Extends (old new : Database) : Type 0 where
  pub operations :
      (loop_ref operation_id : String) (e : Entry Recorded)
      → find loop_ref operation_id old.operations ≡ some e
      → find loop_ref operation_id new.operations ≡ some e
  pub blobs :
      (digest : String) (row : BlobRow)
      → lookup digest old.immutable_blobs ≡ some row
      → lookup digest new.immutable_blobs ≡ some row
  pub receipts :
      (receipt_ref : String) (row : Owned Receipt)
      → lookup receipt_ref old.authority_receipts ≡ some row
      → lookup receipt_ref new.authority_receipts ≡ some row
  pub claims : (attempt_ref : String) → IsClaimed attempt_ref old → IsClaimed attempt_ref new

pub Extends-refl : (db : Database) → Extends db db
Extends-refl db = record {
  operations = λ l o e h. h;
  blobs = λ d r h. h;
  receipts = λ d r h. h;
  claims = λ a h. h;
}

-- a write to the other tables
pub Extends-same :
    {old new : Database}
    → old.operations ≡ new.operations
    → old.immutable_blobs ≡ new.immutable_blobs
    → old.authority_receipts ≡ new.authority_receipts
    → old.outbox ≡ new.outbox
    → Extends old new
Extends-same o b r x = record {
  operations = λ l i e h. rw (← o) h;
  blobs = λ d row h. rw (← b) h;
  receipts = λ d row h. rw (← r) h;
  claims = λ a (row, found, past). (row, rw (← x) found, past);
}

pub Extends-trans : {a b c : Database} → Extends a b → Extends b c → Extends a c
Extends-trans p q = record {
  operations = λ l o e h. q.operations l o e (p.operations l o e h);
  blobs = λ d r h. q.blobs d r (p.blobs d r h);
  receipts = λ d r h. q.receipts d r (p.receipts d r h);
  claims = λ a h. q.claims a (p.claims a h);
}

pub extends : Preorder Extends
extends = record { stays = Extends-refl; goes_on = λ a b c p q. Extends-trans p q }

-- no table changes
abbrev pub Same : Database → Database → Type 0
Same old new = new ≡ old

pub same : Preorder Same
same = record { stays = λ db. refl; goes_on = λ a b c p q. q ∙ p }

-- what the synchronization of a snapshot leaves alone
pub record Syncs (old new : Database) : Type 0 where
  pub extended : Extends old new
  pub loops : new.loops ≡ old.loops
  pub operations : new.operations ≡ old.operations
  pub events : new.events ≡ old.events

pub syncs : Preorder Syncs
syncs = record {
  stays =
      λ db. record { extended = Extends-refl db; loops = refl; operations = refl; events = refl };
  goes_on = λ a b c p q. record {
    extended = Extends-trans p.extended q.extended;
    loops = q.loops ∙ p.loops;
    operations = q.operations ∙ p.operations;
    events = q.events ∙ p.events;
  };
}

pub Same-Syncs : (old new : Database) → Same old new → Syncs old new
Same-Syncs old new h = subst (Syncs old) (sym h) (syncs.stays old)

pub Syncs-same :
    {old new : Database}
    → old.operations ≡ new.operations
    → old.immutable_blobs ≡ new.immutable_blobs
    → old.authority_receipts ≡ new.authority_receipts
    → old.outbox ≡ new.outbox
    → new.loops ≡ old.loops
    → new.events ≡ old.events
    → Syncs old new
Syncs-same o b r x l e = record {
  extended = Extends-same o b r x;
  loops = l;
  operations = sym o;
  events = e;
}
