-- ===== src/Sqlite/Atomic.antt =====
-- What a call of `apply` of v4_persistence/sqlite_store.py that raises has made durable.
use loop_skill.Sqlite.Extends.Calls.{before-durable}
use loop_skill.Protocol.Validate.{command_digest}
use loop_skill.Store.{conflicts, has_key, find, ApplyResult, Entry}
use loop_skill.Sqlite.Database.{
  busy, position, crash_now, corruption, crash, accepted, database_error, returned, raised,
  rejected, and_then, insert_operation, protocol, ◌>>=◌, Answer, Database, Durable, Failure,
  Recorded,
}
use loop_skill.Protocol.Outcome.{
  Result, err, injected_crash, key_error, ok, value_error, Code, Result-cases, rejection,
}
use loop_skill.Protocol.Envelope.{Command}
use loop_skill.Prelude.{
  eqb, ◌≢◌, subst, ap, Bool-cases, List, Option, Option-cases, String, [], arith, eq_refl, inl, inr,
  none, refl, some, sym, ◌++◌, ◌∙◌, ◌∷◌, ◌≡◌, ◌⊎◌,
}
use loop_skill.Sqlite.Write.{
  Write, operation_row, record_rejection, reduce, run_new, write, write_outcome,
}
use loop_skill.Sqlite.Write.Kept.{reduce-Keeps, write_rest-Keeps}
use loop_skill.Sqlite.Apply.{
  attempt, before, respond, answer_known, settle_returned, answer, apply, settle, settle_raised,
  with_begun, with_digest, settle_recorded, settle_rejected, Connection, is_conflict,
}
use loop_skill.Sqlite.Wire.{outcome_json, Host}

abbrev IsRecorded : Command → Database → Type 0
IsRecorded c db =
    (e : Entry Recorded) × (find c.subject.loop_ref c.operation_id db.operations ≡ some e)

find-append_new :
    (row : Entry Recorded) (es : List (Entry Recorded))
    → find row.loop_ref row.operation_id es ≡ none
    → find row.loop_ref row.operation_id (es ++ (row ∷ [])) ≡ some row
unfolding find
find-append_new row [] h = simp eq_refl
find-append_new row (e ∷ es) h = elim (Bool-cases (has_key row.loop_ref row.operation_id e)) [
  | inl same ↦ absurd (let clash : some e ≡ none = rw same at h in cc clash)
  | inr other ↦ rw other (find-append_new row es (rw other at h))
]

-- the insert of an operation
abbrev pub with_operation : Database → Entry Recorded → Database
with_operation db row = record db { operations = db.operations ++ (row ∷ []) }

pub insert_operation_cases :
    (row : Entry Recorded) (db : Database)
    → ((insert_operation row db ≡ (db, raised database_error)))
      ⊎ ((find row.loop_ref row.operation_id db.operations ≡ none)
          × (insert_operation row db ≡ (with_operation db row, returned tt)))
unfolding insert_operation
insert_operation_cases row db =
    elim (Option-cases (find row.loop_ref row.operation_id db.operations)) [
      | inl absent ↦ inr (absent, rw absent)
      | inr (e, present) ↦ inl (rw present)
    ]

module _ (host : Host) where
  -- the row of the operation is written, or nothing is
  pub write_outcome_cases :
      (c : Command) (digest : String) (outcome : Recorded) (db : Database)
      → ((failure : Failure) × (write_outcome host c digest outcome db ≡ (db, raised failure)))
        ⊎ ((find c.subject.loop_ref c.operation_id db.operations ≡ none)
            × (write_outcome host c digest outcome db
                ≡ (with_operation db (operation_row c digest outcome), returned tt)))
  unfolding write_outcome ◌>>=◌
  write_outcome_cases c digest outcome db =
      elim (Result-cases (host.canonical (outcome_json outcome))) [
        | inl (u, fits) ↦ elim (insert_operation_cases (operation_row c digest outcome) db) [
          | inl taken ↦ inl (database_error, rw (fits, taken))
          | inr (absent, written) ↦ inr (absent, rw (fits, written))
        ]
        | inr (e, refused) ↦ inl (protocol e, rw refused)
      ]

  -- how a failing call of `run_new` leaves the copy: as it was, or with the operation's row
  abbrev IsHalted : Command → Database → Database → Type 0
  IsHalted c old new = (new ≡ old) ⊎ IsRecorded c new

  write-IsHalted :
      (c : Command) (digest : String) (f : Option Durable) (w : Write) (db : Database)
      → (failure : Failure) → (write host c digest f w db).1 ≡ raised failure
      → IsHalted c db (write host c digest f w db).0
  unfolding write ◌>>=◌
  write-IsHalted c digest f w db failure h =
      elim (write_outcome_cases c digest (accepted w.result) db) [
        | inl (x, refused) ↦ rw refused (inl refl)
        | inr (absent, written) ↦ rw written (
            inr (
              operation_row c digest (accepted w.result),
              ((write_rest-Keeps host c f w).at
                    (with_operation db (operation_row c digest (accepted w.result)))).operations
                  c.subject.loop_ref c.operation_id _
                  (find-append_new (operation_row c digest (accepted w.result)) db.operations
                    absent),
            ))
      ]

  after_reduce-IsHalted :
      (c : Command) (digest : String) (f : Option Durable) (db : Database)
      (r : Database × Answer Write) (failure : Failure)
      → r.0 ≡ db
      → (and_then r (write host c digest f)).1 ≡ raised failure
      → IsHalted c db (and_then r (write host c digest f)).0
  after_reduce-IsHalted c digest f db (working, returned w) failure start h =
      subst (λ old. IsHalted c old (write host c digest f w working).0) start
        (write-IsHalted c digest f w working failure h)
  after_reduce-IsHalted c digest f db (working, raised x) failure start h = inl start

  run_new-IsHalted :
      (c : Command) (digest : String) (f : Option Durable) (db : Database) (failure : Failure)
      → (run_new host c digest f db).1 ≡ raised failure
      → IsHalted c db (run_new host c digest f db).0
  unfolding run_new ◌>>=◌
  run_new-IsHalted c digest f db failure h =
      after_reduce-IsHalted c digest f db (reduce host c f db) failure
        ((reduce-Keeps host c f).at db) h

  -- nothing is durable that was not, but the row of a rejection
  abbrev pub OnlyRejects : Connection → Command → Failure → Database → Type 0
  OnlyRejects conn c failure new =
      (new ≡ conn.durable)
      ⊎ ((digest : String) × (code : Code) × (failure ≡ protocol (rejection code))
          × (new ≡ with_operation conn.durable (operation_row c digest (rejected code))))

  settle_rejected-OnlyRejects :
      (conn : Connection) (c : Command) (digest : String) (code : Code) (working : Database)
      (failure : Failure)
      → IsHalted c conn.durable working
      → (settle_rejected host conn c digest code working).1 ≡ raised failure
      → OnlyRejects conn c failure (settle_rejected host conn c digest code working).0.durable
  unfolding settle_rejected settle_recorded record_rejection
  settle_rejected-OnlyRejects conn c digest code working failure halted h =
      elim (Bool-cases (is_conflict code)) [
        | inl conflict ↦ rw conflict (inl refl)
        | inr other ↦ elim (write_outcome_cases c digest (rejected code) working) [
          | inl (x, refused) ↦ rw (other, refused) (inl refl)
          | inr (absent, written) ↦
              rw (other, written) (recorded halted absent (rw (other, written) at h))
        ]
      ]
    where
      recorded :
          IsHalted c conn.durable working
          → find c.subject.loop_ref c.operation_id working.operations ≡ none
          → ◌≡◌ {A = Answer ApplyResult} (raised (protocol (rejection code))) (raised failure)
          → OnlyRejects conn c failure
              (with_operation working (operation_row c digest (rejected code)))
      recorded (inl start) absent same = inr (
        digest,
        code,
        ground arith,
        ap (λ db. with_operation db (operation_row c digest (rejected code))) start,
      )
      recorded (inr (e, present)) absent same =
          absurd (let clash : some e ≡ none = sym present ∙ absent in cc clash)

  settle_raised-OnlyRejects :
      (conn : Connection) (c : Command) (digest : String) (working : Database) (x failure : Failure)
      → IsHalted c conn.durable working
      → (settle_raised host conn c digest working x).1 ≡ raised failure
      → OnlyRejects conn c failure (settle_raised host conn c digest working x).0.durable
  unfolding settle_raised
  settle_raised-OnlyRejects conn c digest working (protocol (rejection code)) failure halted h =
      settle_rejected-OnlyRejects conn c digest code working failure halted h
  settle_raised-OnlyRejects conn c digest working (protocol key_error) failure halted h = inl refl
  settle_raised-OnlyRejects conn c digest working (protocol value_error) failure halted h = inl refl
  settle_raised-OnlyRejects conn c digest working (protocol (injected_crash b)) failure halted h =
      inl refl
  settle_raised-OnlyRejects conn c digest working (crash b) failure halted h = inl refl
  settle_raised-OnlyRejects conn c digest working database_error failure halted h = inl refl
  settle_raised-OnlyRejects conn c digest working corruption failure halted h = inl refl
  settle_raised-OnlyRejects conn c digest working busy failure halted h = inl refl

  settle-OnlyRejects :
      (conn : Connection) (c : Command) (digest : String) (f : Option Durable)
      (r : Database × Answer ApplyResult) (failure : Failure)
      → ((x : Failure) → r.1 ≡ raised x → IsHalted c conn.durable r.0)
      → (settle host conn c digest f r).1 ≡ raised failure
      → failure ≢ crash Durable.after_commit_before_response
      → OnlyRejects conn c failure (settle host conn c digest f r).0.durable
  unfolding settle settle_returned respond
  settle-OnlyRejects conn c digest f (working, returned result) failure halted h live =
      absurd (live (late f h))
    where
      late :
          (f : Option Durable)
          → respond host (crash_now Durable.after_commit_before_response f) result ≡ raised failure
          → failure ≡ crash Durable.after_commit_before_response
      late none h = cc
      late (some b) h = elim (Bool-cases (eqb 8 (position b))) [
        | inl hit ↦
            let e : ◌≡◌ {A = Answer ApplyResult}
                (raised (crash Durable.after_commit_before_response)) (raised failure) =
              rw hit at h in
            ground arith
        | inr miss ↦ absurd (let e : returned result ≡ raised failure = rw miss at h in cc e)
      ]
  settle-OnlyRejects conn c digest f (working, raised x) failure halted h live =
      settle_raised-OnlyRejects conn c digest working x failure (halted x refl) h

  answer-OnlyRejects :
      (conn : Connection) (c : Command) (digest : String) (f : Option Durable)
      (o : Option (Entry Recorded)) (failure : Failure)
      → (answer host conn c digest f conn.durable o).1 ≡ raised failure
      → failure ≢ crash Durable.after_commit_before_response
      → OnlyRejects conn c failure (answer host conn c digest f conn.durable o).0.durable
  unfolding answer answer_known
  answer-OnlyRejects conn c digest f (some row) failure h live =
      elim (Bool-cases
        (conflicts host.runtime host.authority host.snapshot_digest row.request_digest c digest)) [
          | inl conflict ↦ rw conflict (inl refl)
          | inr agree ↦ rw agree (inl refl)
        ]
  answer-OnlyRejects conn c digest f none failure h live =
      settle-OnlyRejects conn c digest f _ failure
        (λ x e. run_new-IsHalted c digest f conn.durable x e) h live

  with_begun-OnlyRejects :
      (conn : Connection) (c : Command) (digest : String) (f : Option Durable) (a : Answer Database)
      (failure : Failure)
      → ((working : Database) → a ≡ returned working → conn.durable ≡ working)
      → (with_begun host conn c digest f a).1 ≡ raised failure
      → failure ≢ crash Durable.after_commit_before_response
      → OnlyRejects conn c failure (with_begun host conn c digest f a).0.durable
  unfolding with_begun attempt
  with_begun-OnlyRejects conn c digest f (raised x) failure start h live = inl refl
  with_begun-OnlyRejects conn c digest f (returned working) failure start h live =
      subst
        (λ db.
          (attempt host conn c digest f db (crash_now Durable.after_begin f)).1 ≡ raised failure
          → OnlyRejects conn c failure
              (attempt host conn c digest f db (crash_now Durable.after_begin f)).0.durable)
        (start working refl) (begun (crash_now Durable.after_begin f)) h
    where
      begun :
          (a : Answer (Unit {0}))
          → (attempt host conn c digest f conn.durable a).1 ≡ raised failure
          → OnlyRejects conn c failure (attempt host conn c digest f conn.durable a).0.durable
      begun (raised x) h = inl refl
      begun (returned u) h = answer-OnlyRejects conn c digest f _ failure h live

  with_digest-OnlyRejects :
      (conn : Connection) (c : Command) (f : Option Durable) (m : Result String) (failure : Failure)
      → (with_digest host conn c f m).1 ≡ raised failure
      → failure ≢ crash Durable.after_commit_before_response
      → OnlyRejects conn c failure (with_digest host conn c f m).0.durable
  unfolding with_digest
  with_digest-OnlyRejects conn c f (err e) failure h live = inl refl
  with_digest-OnlyRejects conn c f (ok digest) failure h live =
      with_begun-OnlyRejects conn c digest f (before host conn f) failure
        (before-durable host conn f) h live

  -- A call that raises anything but the crash after the commit leaves what is durable as it was, or
  -- it raises a rejection and adds one row that records it. That holds at each of the other eight
  -- crash boundaries, after a failure of a statement, and for a row written before the failure.
  pub apply-OnlyRejects :
      (conn : Connection) (c : Command) (f : Option Durable) (failure : Failure)
      → (apply host conn c f).1 ≡ raised failure
      → failure ≢ crash Durable.after_commit_before_response
      → OnlyRejects conn c failure (apply host conn c f).0.durable
  unfolding apply
  apply-OnlyRejects conn c f failure h live =
      with_digest-OnlyRejects conn c f (command_digest host.runtime c) failure h live
