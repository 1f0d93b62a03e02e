-- ===== src/Sqlite/Extends/Calls.antt =====
-- Every call on a connection only adds to what is durable.
use loop_skill.Sqlite.Keeps.{Keeps}
use loop_skill.Store.Blobs.{same_bytes}
use loop_skill.Protocol.Validate.{command_digest}
use loop_skill.Store.{conflicts, ApplyResult, Entry}
use loop_skill.Sqlite.Wire.{Host}
use loop_skill.Sqlite.Database.{
  BlobRow, Transaction, busy, corruption, database_error, crash, protocol, raised, returned, Answer,
  Database, Durable, Failure, Recorded,
}
use loop_skill.Protocol.Outcome.{
  Code, Result, err, injected_crash, key_error, ok, rejection, value_error,
}
use loop_skill.Protocol.Envelope.{Command}
use loop_skill.Prelude.{
  eq_iff, lookup-insert, ◌==◌, ◌∙◌, List, [], lookup, sym, ℕ, ◌∷◌, Bool-cases, Option, String,
  arith, inl, inr, none, refl, some, subst, ◌≡◌,
}
use loop_skill.Sqlite.Extends.{Extends, Extends-refl, Extends-trans}
use loop_skill.Sqlite.Extends.Rows.{claim-Keeps}
use loop_skill.Sqlite.Write.Kept.{
  record_rejection-Keeps, run_new-Keeps, record_rejection-Keeps, run_new-Keeps,
}
use loop_skill.Sqlite.Apply.{
  is_conflict, Connection, answer, answer_known, apply, attempt, begin, settle, settle_raised,
  settle_recorded, settle_rejected, settle_returned, with_begun, with_digest, before,
}
use loop_skill.Sqlite.Calls.{
  Call, claim_attempt, finish, in_transaction, put, put_blob, put_row, run, step,
}

-- BEGIN starts from what is durable
pub begin-durable :
    (conn : Connection) (working : Database)
    → begin conn ≡ returned working
    → conn.durable ≡ working
unfolding begin
begin-durable conn working h = ground arith

module _ (host : Host) where
  settle_recorded-Extends :
      (conn : Connection) (code : Code) (r : Database × Answer (Unit {0}))
      → Extends conn.durable r.0
      → Extends conn.durable (settle_recorded host conn code r).0.durable
  unfolding settle_recorded
  settle_recorded-Extends conn code (working, returned u) h = h
  settle_recorded-Extends conn code (working, raised failure) h = Extends-refl conn.durable

  settle_rejected-Extends :
      (conn : Connection) (c : Command) (digest : String) (code : Code) (working : Database)
      → Extends conn.durable working
      → Extends conn.durable (settle_rejected host conn c digest code working).0.durable
  unfolding settle_rejected
  settle_rejected-Extends conn c digest code working h = elim (Bool-cases (is_conflict code)) [
    | inl conflict ↦ rw conflict (Extends-refl conn.durable)
    | inr other ↦ rw other (
        settle_recorded-Extends conn code _
          (Extends-trans h ((record_rejection-Keeps host c digest code).at working)))
  ]

  settle_raised-Extends :
      (conn : Connection) (c : Command) (digest : String) (working : Database) (failure : Failure)
      → Extends conn.durable working
      → Extends conn.durable (settle_raised host conn c digest working failure).0.durable
  unfolding settle_raised
  settle_raised-Extends conn c digest working (protocol (rejection code)) h =
      settle_rejected-Extends conn c digest code working h
  settle_raised-Extends conn c digest working (protocol key_error) h = Extends-refl conn.durable
  settle_raised-Extends conn c digest working (protocol value_error) h = Extends-refl conn.durable
  settle_raised-Extends conn c digest working (protocol (injected_crash b)) h =
      Extends-refl conn.durable
  settle_raised-Extends conn c digest working (crash b) h = Extends-refl conn.durable
  settle_raised-Extends conn c digest working database_error h = Extends-refl conn.durable
  settle_raised-Extends conn c digest working corruption h = Extends-refl conn.durable
  settle_raised-Extends conn c digest working busy h = Extends-refl conn.durable

  settle-Extends :
      (conn : Connection) (c : Command) (digest : String) (f : Option Durable)
      (r : Database × Answer ApplyResult)
      → Extends conn.durable r.0
      → Extends conn.durable (settle host conn c digest f r).0.durable
  unfolding settle settle_returned
  settle-Extends conn c digest f (working, returned result) h = h
  settle-Extends conn c digest f (working, raised failure) h =
      settle_raised-Extends conn c digest working failure h

  answer_known-Extends :
      (conn : Connection) (c : Command) (digest : String) (working : Database)
      (row : Entry Recorded)
      → Extends conn.durable working
      → Extends conn.durable (answer_known host conn c digest working row).0.durable
  unfolding answer_known
  answer_known-Extends conn c digest working row h =
      elim (Bool-cases
        (conflicts host.runtime host.authority host.snapshot_digest row.request_digest c digest)) [
          | inl conflict ↦ rw conflict (Extends-refl conn.durable)
          | inr same ↦ rw same h
        ]

  answer-Extends :
      (conn : Connection) (c : Command) (digest : String) (f : Option Durable) (working : Database)
      (o : Option (Entry Recorded))
      → Extends conn.durable working
      → Extends conn.durable (answer host conn c digest f working o).0.durable
  unfolding answer
  answer-Extends conn c digest f working (some row) h =
      answer_known-Extends conn c digest working row h
  answer-Extends conn c digest f working none h =
      settle-Extends conn c digest f _
        (Extends-trans h ((run_new-Keeps host c digest f).at working))

  attempt-Extends :
      (conn : Connection) (c : Command) (digest : String) (f : Option Durable) (working : Database)
      (a : Answer (Unit {0}))
      → Extends conn.durable working
      → Extends conn.durable (attempt host conn c digest f working a).0.durable
  unfolding attempt
  attempt-Extends conn c digest f working (raised failure) h = Extends-refl conn.durable
  attempt-Extends conn c digest f working (returned u) h =
      answer-Extends conn c digest f working _ h

  with_begun-Extends :
      (conn : Connection) (c : Command) (digest : String) (f : Option Durable) (a : Answer Database)
      → ((working : Database) → a ≡ returned working → Extends conn.durable working)
      → Extends conn.durable (with_begun host conn c digest f a).0.durable
  unfolding with_begun
  with_begun-Extends conn c digest f (raised failure) h = Extends-refl conn.durable
  with_begun-Extends conn c digest f (returned working) h =
      attempt-Extends conn c digest f working _ (h working refl)

  -- a transaction that has begun works on what is durable
  pub before-durable :
      (conn : Connection) (f : Option Durable) (working : Database)
      → before host conn f ≡ returned working
      → conn.durable ≡ working
  unfolding before
  before-durable conn f working h = ground (arith, begin-durable conn working)

  with_digest-Extends :
      (conn : Connection) (c : Command) (f : Option Durable) (m : Result String)
      → Extends conn.durable (with_digest host conn c f m).0.durable
  unfolding with_digest
  with_digest-Extends conn c f (err e) = Extends-refl conn.durable
  with_digest-Extends conn c f (ok digest) =
      with_begun-Extends conn c digest f (before host conn f) (λ working e.
        subst (Extends conn.durable) (before-durable conn f working e) (Extends-refl conn.durable))

  pub apply-Extends :
      (conn : Connection) (c : Command) (f : Option Durable)
      → Extends conn.durable (apply host conn c f).0.durable
  unfolding apply
  apply-Extends conn c f = with_digest-Extends conn c f (command_digest host.runtime c)

finish-Extends :
    {A : Type 0} (conn : Connection) (r : Database × Answer A)
    → Extends conn.durable r.0
    → Extends conn.durable (finish conn r).0.durable
unfolding finish
finish-Extends conn (working, returned a) h = h
finish-Extends conn (working, raised failure) h = Extends-refl conn.durable

in_transaction-Extends :
    {A : Type 0} (conn : Connection) (m : Transaction A) (a : Answer Database)
    → Keeps Extends m
    → ((working : Database) → a ≡ returned working → conn.durable ≡ working)
    → Extends conn.durable (in_transaction conn m a).0.durable
unfolding in_transaction
in_transaction-Extends conn m (raised failure) keep start = Extends-refl conn.durable
in_transaction-Extends conn m (returned working) keep start =
    finish-Extends conn (m working)
      (subst (λ db. Extends db (m working).0) (sym (start working refl)) (keep.at working))

-- What a put leaves alone: a content under another digest, and one that is there.
put_row-Extends :
    (digest : String) (content : List ℕ) (o : Option (List ℕ)) (db : Database)
    → (o ≡ none → lookup digest db.immutable_blobs ≡ none)
    → Extends db (put_row digest content o db).0
unfolding put_row
put_row-Extends digest content none db absent = record {
  operations = λ l o e h. h;
  blobs = λ d row h. elim (Bool-cases (digest == d)) [
    | inl same ↦ absurd (
        let missing : lookup d db.immutable_blobs ≡ none =
          subst (λ k. lookup k db.immutable_blobs ≡ none) ((eq_iff digest d).0 same)
            (absent refl) in
        cc missing)
    | inr other ↦ lookup-insert digest d _ db.immutable_blobs ∙ rw other h
  ];
  receipts = λ d row h. h;
  claims = λ a h. h;
}
put_row-Extends digest content (some stored) db absent =
    elim (Bool-cases (same_bytes stored content)) [
      | inl same ↦ rw same (Extends-refl db)
      | inr other ↦ rw other (Extends-refl db)
    ]

put-Keeps : (host : Host) (content : List ℕ) → Keeps Extends (put host content)
unfolding put
put-Keeps host content = record {
  at = λ db.
      put_row-Extends (host.blob_digest content) content _ db
        (absent (lookup (host.blob_digest content) db.immutable_blobs));
}
  where
    absent :
        (o : Option BlobRow)
        → elim o [ none ↦ none | some row ↦ some row.content ] ≡ none
        → o ≡ none
    absent none e = refl
    absent (some row) e = cc

pub step-Extends :
    (host : Host) (conn : Connection) (call : Call)
    → Extends conn.durable (step host conn call).durable
unfolding step claim_attempt put_blob
step-Extends host conn (Call.apply_command c f) = apply-Extends host conn c f
step-Extends host conn (Call.claim_for a e) =
    in_transaction-Extends conn _ (begin conn) (claim-Keeps a e) (begin-durable conn)
step-Extends host conn (Call.put_content content) =
    in_transaction-Extends conn _ (begin conn) (put-Keeps host content) (begin-durable conn)
step-Extends host conn (Call.set_lock b) = Extends-refl conn.durable
step-Extends host conn Call.reopen = Extends-refl conn.durable

-- Whatever happens to a connection, no operation's recorded answer, no blob and no receipt is ever
-- changed or lost, and an attempt that is no longer READY never becomes READY again.
pub run-Extends :
    (host : Host) (conn : Connection) (calls : List Call)
    → Extends conn.durable (run host conn calls).durable
unfolding run
run-Extends host conn [] = Extends-refl conn.durable
run-Extends host conn (call ∷ calls) =
    Extends-trans (step-Extends host conn call) (run-Extends host (step host conn call) calls)
