-- ===== src/Sqlite/Refines/Answers.antt =====
-- An answer of the durable store is the answer of the in-memory store.
use loop_skill.Sqlite.Extends.Calls.{before-durable}
use loop_skill.Protocol.Validate.{command_digest}
use loop_skill.Sqlite.Write.Kept.{reduce-Keeps}
use loop_skill.Sqlite.Returns.{returned_injective, rest_returned, bind-returned}
use loop_skill.Sqlite.Wire.{Host}
use loop_skill.Sqlite.Database.{
  rejected, accepted, crash_now, busy, corruption, database_error, crash, protocol, raised, Answer,
  Failure, Recorded, returned, Database, Durable,
}
use loop_skill.Protocol.Outcome.{
  err, idempotency_conflict, injected_crash, key_error, rejection, value_error, Result, ok,
}
use loop_skill.Protocol.Envelope.{Command}
use loop_skill.Prelude.{
  subst, true, Bool-cases, ap, inl, inr, refl, some, sym, ◌∙◌, ◌≢◌, Option, String, none, ◌≡◌,
}
use loop_skill.Sqlite.Refines.{Represents, accepted_part, rejected_part}
use loop_skill.Sqlite.Refines.Commits.{commit-Represents}
use loop_skill.Sqlite.Refines.Reduced.{reduce_returns}
use loop_skill.Sqlite.Refines.Written.{write-IsWritten}
use loop_skill.Sqlite.Apply.{
  is_conflict, Connection, answer, answer_known, apply, attempt, settle, settle_returned,
  settle_raised, settle_rejected, settle_recorded, with_begun, with_digest, before, respond,
}
use loop_skill.Sqlite.Write.{record_rejection, Write, reduce, run_new, write}
use loop_skill.Store.{
  conflicts, apply as memory_apply, with_digest as memory_with_digest, answer_accepted, find, Entry,
  ApplyResult, Store, finish, fresh, known, prepare,
}

-- the in-memory store gives the answer, and both stand for the same
abbrev pub AnswersAs : Database → ApplyResult → Store × Result ApplyResult → Type 0
AnswersAs new r m = (m.1 ≡ ok r) × Represents new m.0

module _ (host : Host) where
  -- the commit of a write
  write_returns :
      (c : Command) (digest : String) (f : Option Durable) (db : Database) (st : Store) (w : Write)
      {r : ApplyResult}
      → Represents db st
      → (reduce host c f db).1 ≡ returned w
      → (write host c digest f w db).1 ≡ returned r
      → AnswersAs (write host c digest f w db).0 r (
          finish host.runtime host.authority host.snapshot_digest st c digest none
            (prepare host.runtime host.authority host.snapshot_digest st c none))
  unfolding finish
  write_returns c digest f db st w old reduced h =
      let (result, written) = write-IsWritten host c digest f w db h in
      let (events, prepared, numbered) =
        reduce_returns host c f db st (old.snapshots c.subject.loop_ref) reduced in
      rw prepared
        (ap ok (sym result), commit-Represents host c digest w events db _ st old written numbered)

  run_new_equation :
      (c : Command) (digest : String) (f : Option Durable) (db : Database) {r : ApplyResult}
      → (run_new host c digest f db).1 ≡ returned r
      → (w : Write) × ((reduce host c f db).1 ≡ returned w)
        × (run_new host c digest f db ≡ write host c digest f w db)
  unfolding run_new
  run_new_equation c digest f db h =
      let (w, reduced, e) = bind-returned (reduce host c f) _ db h in
      (w, reduced, e ∙ ap (write host c digest f w) ((reduce-Keeps host c f).at db))

  -- a new operation that is committed
  run_new_returns :
      (c : Command) (digest : String) (f : Option Durable) (db : Database) (st : Store)
      {r : ApplyResult}
      → Represents db st
      → (run_new host c digest f db).1 ≡ returned r
      → AnswersAs (run_new host c digest f db).0 r (
          finish host.runtime host.authority host.snapshot_digest st c digest none
            (prepare host.runtime host.authority host.snapshot_digest st c none))
  run_new_returns c digest f db st old h =
      let (w, reduced, e) = run_new_equation c digest f db h in
      rw e (write_returns c digest f db st w old reduced (rest_returned h e))

  unrecorded_returns :
      (c : Command) (digest : String) (f : Option Durable) (db : Database) (st : Store)
      {r : ApplyResult}
      → Represents db st
      → none ≡ find c.subject.loop_ref c.operation_id st.rejected
      → (run_new host c digest f db).1 ≡ returned r
      → AnswersAs
          (run_new host c digest f db).0
          r
          (known host.runtime host.authority host.snapshot_digest st c digest none none)
  unfolding known fresh
  unrecorded_returns c digest f db st {r} old absent h =
      subst
        (λ o.
          AnswersAs (run_new host c digest f db).0 r
            (fresh host.runtime host.authority host.snapshot_digest st c digest none o))
        absent (run_new_returns c digest f db st old h)

  settle_raised-ne-returned :
      (conn : Connection) (c : Command) (digest : String) (working : Database) (x : Failure)
      (r : ApplyResult)
      → (settle_raised host conn c digest working x).1 ≢ returned r
  unfolding settle_raised settle_rejected settle_recorded
  settle_raised-ne-returned conn c digest working (protocol (rejection code)) r h =
      elim (Bool-cases (is_conflict code)) [
        | inl conflict ↦
            absurd
              (let e : raised (protocol (rejection code)) ≡ returned r = rw conflict at h in cc e)
        | inr other ↦ recorded (record_rejection host c digest code working) (rw other at h)
      ]
    where
      recorded :
          (m : Database × Answer (Unit {0})) → (settle_recorded host conn code m).1 ≡ returned r → ⊥
      recorded (db, returned u) h = cc
      recorded (db, raised x) h = cc
  settle_raised-ne-returned conn c digest working (protocol key_error) r h = cc
  settle_raised-ne-returned conn c digest working (protocol value_error) r h = cc
  settle_raised-ne-returned conn c digest working (protocol (injected_crash b)) r h = cc
  settle_raised-ne-returned conn c digest working (crash b) r h = cc
  settle_raised-ne-returned conn c digest working database_error r h = cc
  settle_raised-ne-returned conn c digest working corruption r h = cc
  settle_raised-ne-returned conn c digest working busy r h = cc

  settle_returns :
      (conn : Connection) (c : Command) (digest : String) (f : Option Durable)
      (m : Database × Answer ApplyResult) (r : ApplyResult)
      → (settle host conn c digest f m).1 ≡ returned r
      → (m.1 ≡ returned r) × ((settle host conn c digest f m).0.durable ≡ m.0)
  unfolding settle settle_returned respond
  settle_returns conn c digest f (working, returned result) r h = (responds _ h, refl)
    where
      responds :
          (a : Answer (Unit {0}))
          → respond host a result ≡ returned r
          → returned result ≡ returned r
      responds (returned u) h = h
      responds (raised x) h = cc
  settle_returns conn c digest f (working, raised x) r h =
      absurd (settle_raised-ne-returned conn c digest working x r h)

  accepted_found :
      (c : Command) (db : Database) (row : Entry Recorded) (st : Store) (result : ApplyResult)
      → Represents db st
      → find c.subject.loop_ref c.operation_id db.operations ≡ some row
      → row.value ≡ accepted result
      → find c.subject.loop_ref c.operation_id st.accepted
        ≡ some (record {
          loop_ref = row.loop_ref;
          operation_id = row.operation_id;
          request_digest = row.request_digest;
          value = result;
        })
  accepted_found c db row st result old found e =
      sym (old.accepted c.subject.loop_ref c.operation_id) ∙ ap accepted_part found ∙ rw e

  -- the answer from the record of an operation
  known_case :
      (c : Command) (digest : String) (conn : Connection) (row : Entry Recorded) (st : Store)
      (r : ApplyResult) (v : Recorded)
      → row.value ≡ v
      → Represents conn.durable st
      → find c.subject.loop_ref c.operation_id conn.durable.operations ≡ some row
      → (answer_known host conn c digest conn.durable row).1 ≡ returned r
      → AnswersAs (answer_known host conn c digest conn.durable row).0.durable r (
          known host.runtime host.authority host.snapshot_digest st c digest none
            (find c.subject.loop_ref c.operation_id st.accepted))
  unfolding answer_known known answer_accepted
  known_case c digest conn row st r (accepted result) e old found h =
      elim (Bool-cases
        (conflicts host.runtime host.authority host.snapshot_digest row.request_digest c digest)) [
          | inl clash ↦ absurd (
              let raises : raised (protocol (rejection idempotency_conflict)) ≡ returned r =
                rw clash at h in
              cc raises)
          | inr agree ↦
              let same : returned (record result { replayed = true }) ≡ returned r =
                rw (agree, e) at h in
              rw (accepted_found c conn.durable row st result old found e, agree)
                (ap ok (returned_injective same), old)
        ]
  known_case c digest conn row st r (rejected code) e old found h =
      elim (Bool-cases
        (conflicts host.runtime host.authority host.snapshot_digest row.request_digest c digest)) [
          | inl clash ↦ absurd (
              let raises : raised (protocol (rejection idempotency_conflict)) ≡ returned r =
                rw clash at h in
              cc raises)
          | inr agree ↦ absurd (
              let raises : raised (protocol (rejection code)) ≡ returned r = rw (agree, e) at h in
              cc raises)
        ]

  answer_returns :
      (c : Command) (digest : String) (f : Option Durable) (conn : Connection)
      (o : Option (Entry Recorded)) (st : Store) (r : ApplyResult)
      → Represents conn.durable st
      → find c.subject.loop_ref c.operation_id conn.durable.operations ≡ o
      → (answer host conn c digest f conn.durable o).1 ≡ returned r
      → AnswersAs (answer host conn c digest f conn.durable o).0.durable r (
          known host.runtime host.authority host.snapshot_digest st c digest none
            (find c.subject.loop_ref c.operation_id st.accepted))
  unfolding answer
  answer_returns c digest f conn (some row) st r old found h =
      known_case c digest conn row st r row.value refl old found h
  answer_returns c digest f conn none st r old absent h =
      let (settled, durable) =
        settle_returns conn c digest f (run_new host c digest f conn.durable) r h in
      let fresh_accepted : none ≡ find c.subject.loop_ref c.operation_id st.accepted =
        ap accepted_part (sym absent) ∙ old.accepted c.subject.loop_ref c.operation_id in
      let fresh_rejected : none ≡ find c.subject.loop_ref c.operation_id st.rejected =
        ap rejected_part (sym absent) ∙ old.rejected c.subject.loop_ref c.operation_id in
      subst
        (λ db. AnswersAs db r (
          known host.runtime host.authority host.snapshot_digest st c digest none
            (find c.subject.loop_ref c.operation_id st.accepted)))
        (sym durable)
        (subst
          (λ o.
            AnswersAs (run_new host c digest f conn.durable).0 r
              (known host.runtime host.authority host.snapshot_digest st c digest none o))
          fresh_accepted (unrecorded_returns c digest f conn.durable st old fresh_rejected settled))

  with_begun_returns :
      (c : Command) (digest : String) (f : Option Durable) (conn : Connection) (a : Answer Database)
      (st : Store) (r : ApplyResult)
      → ((working : Database) → a ≡ returned working → conn.durable ≡ working)
      → Represents conn.durable st
      → (with_begun host conn c digest f a).1 ≡ returned r
      → AnswersAs (with_begun host conn c digest f a).0.durable r (
          known host.runtime host.authority host.snapshot_digest st c digest none
            (find c.subject.loop_ref c.operation_id st.accepted))
  unfolding with_begun attempt
  with_begun_returns c digest f conn (raised x) st r start old h = cc
  with_begun_returns c digest f conn (returned working) st r start old h =
      subst
        (λ db.
          (attempt host conn c digest f db (crash_now Durable.after_begin f)).1 ≡ returned r
          → AnswersAs (attempt host conn c digest f db (crash_now Durable.after_begin f)).0.durable
              r
              (known host.runtime host.authority host.snapshot_digest st c digest none
                (find c.subject.loop_ref c.operation_id st.accepted)))
        (start working refl) (begun (crash_now Durable.after_begin f)) h
    where
      begun :
          (a : Answer (Unit {0}))
          → (attempt host conn c digest f conn.durable a).1 ≡ returned r
          → AnswersAs (attempt host conn c digest f conn.durable a).0.durable r (
              known host.runtime host.authority host.snapshot_digest st c digest none
                (find c.subject.loop_ref c.operation_id st.accepted))
      begun (raised x) h = cc
      begun (returned u) h = answer_returns c digest f conn _ st r old refl h

  with_digest_returns :
      (c : Command) (f : Option Durable) (conn : Connection) (m : Result String) (st : Store)
      (r : ApplyResult)
      → Represents conn.durable st
      → (with_digest host conn c f m).1 ≡ returned r
      → AnswersAs
          (with_digest host conn c f m).0.durable
          r
          (memory_with_digest host.runtime host.authority host.snapshot_digest st c none m)
  unfolding with_digest memory_with_digest
  with_digest_returns c f conn (err e) st r old h = cc
  with_digest_returns c f conn (ok digest) st r old h =
      with_begun_returns c digest f conn (before host conn f) st r (before-durable host conn f) old
        h

  -- The durable store refines the in-memory store: from a database that holds what a store holds,
  -- a result that `apply` returns, at any fault boundary, is the result that the in-memory store
  -- returns, and afterwards the database holds what that store holds.
  pub apply-AnswersAs :
      (conn : Connection) (c : Command) (f : Option Durable) (st : Store) (r : ApplyResult)
      → Represents conn.durable st
      → (apply host conn c f).1 ≡ returned r
      → AnswersAs
          (apply host conn c f).0.durable
          r
          (memory_apply host.runtime host.authority host.snapshot_digest st c none)
  unfolding apply memory_apply
  apply-AnswersAs conn c f st r old h =
      with_digest_returns c f conn (command_digest host.runtime c) st r old h
