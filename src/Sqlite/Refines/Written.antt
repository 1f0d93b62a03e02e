-- ===== src/Sqlite/Refines/Written.antt =====
-- What the statements of `apply` have written when they return.
use loop_skill.Sqlite.Write.Kept.{sync-Keeps}
use loop_skill.Sqlite.Atomic.{write_outcome_cases, with_operation}
use loop_skill.Store.{find, ApplyResult}
use loop_skill.Protocol.Envelope.{Command}
use loop_skill.Sqlite.Returns.{query-returned, bind-returned, rest_returned, lift-returned}
use loop_skill.Sqlite.Wire.{event_json, Host}
use loop_skill.Sqlite.Database.{
  LoopRow, accepted, ◌>>=◌, Durable, give, Answer, database_error, raised, has_sequence, returned,
  insert_event, Database, EventRow,
}
use loop_skill.Prelude.{
  Option, String, arith, insert, none, ap, append_assoc, append_nil, sym, ◌∙◌, Bool-cases, List, [],
  inl, inr, ◌++◌, ◌∷◌, ◌≡◌,
}
use loop_skill.Sqlite.Write.{
  operation_row, sync, event_rows, write, write_rest, write_snapshot, Write, write_events,
}

insert_event_returns :
    (row : EventRow) (db : Database) {u : Unit {0}}
    → (insert_event row db).1 ≡ returned u
    → insert_event row db ≡ (record db { events = db.events ++ (row ∷ []) }, returned tt)
unfolding insert_event
insert_event_returns row db h =
    elim (Bool-cases (has_sequence row.loop_ref row.event.sequence db.events)) [
      | inl old ↦ absurd (let e : raised database_error ≡ returned tt = rw old at h in cc e)
      | inr new ↦ rw new
    ]

abbrev pub row_of_loop : Write → LoopRow
row_of_loop w = record {
  loop_revision = w.candidate.loop_revision;
  snapshot = w.candidate;
  snapshot_digest = w.result.snapshot_digest;
}

module _ (host : Host) where
  write_events_returns :
      (rows : List EventRow) (db : Database) {u : Unit {0}}
      → (write_events host rows db).1 ≡ returned u
      → (write_events host rows db).0 ≡ record db { events = db.events ++ rows }
  unfolding write_events give
  write_events_returns [] db h = ap (λ es. record db { events = es }) (sym (append_nil db.events))
  write_events_returns (row ∷ rows) db h =
      let (u, fits, e1) = lift-returned (host.canonical (event_json row.event)) _ db h in
      let h1 = rest_returned h e1 in
      let (v, one, e2) = bind-returned (insert_event row) _ db h1 in
      let inserted = insert_event_returns row db one in
      let step =
        e1 ∙ e2 ∙ ap (λ (r : Database × Answer (Unit {0})). write_events host rows r.0) inserted in
      ap (λ (r : Database × Answer (Unit {0})). r.0) step
      ∙ write_events_returns rows (record db { events = db.events ++ (row ∷ []) })
          (rest_returned h step)
      ∙ ap (λ es. record db { events = es }) (append_assoc db.events (row ∷ []) rows)

  -- the rows of the events of a command
  abbrev rows_of : Command → Write → List EventRow
  rows_of c w = event_rows c.subject.loop_ref c.operation_id w.sequenced

  -- the copy before the synchronization
  abbrev unsynchronized : Command → Write → Database → Database
  unsynchronized c w db =
      (write_snapshot host c.subject.loop_ref w (write_events host (rows_of c w) db).0).0

  write_rest_returns :
      (c : Command) (f : Option Durable) (w : Write) (db : Database) {r : ApplyResult}
      → (write_rest host c f w db).1 ≡ returned r
      → ((u : Unit {0}) × ((write_events host (rows_of c w) db).1 ≡ returned u))
        × (write_rest host c f w db
            ≡ ((sync host c w.candidate (unsynchronized c w db)).0, returned w.result))
  unfolding write_rest give
  write_rest_returns c f w db h =
      let (u1, p1, e1) = query-returned _ _ db h in
      let h1 = rest_returned h e1 in
      let (u2, p2, e2) = bind-returned (write_events host (rows_of c w)) _ db h1 in
      let h2 = rest_returned h1 e2 in
      let (u3, p3, e3) = query-returned _ _ (write_events host (rows_of c w) db).0 h2 in
      let h3 = rest_returned h2 e3 in
      let (u4, p4, e4) = bind-returned (write_snapshot host c.subject.loop_ref w) _ _ h3 in
      let h4 = rest_returned h3 e4 in
      let (u5, p5, e5) = query-returned _ _ (unsynchronized c w db) h4 in
      let h5 = rest_returned h4 e5 in
      let (u6, p6, e6) = bind-returned (sync host c w.candidate) _ (unsynchronized c w db) h5 in
      let h6 = rest_returned h5 e6 in
      let (u7, p7, e7) =
        query-returned _ _ (sync host c w.candidate (unsynchronized c w db)).0 h6 in
      let h7 = rest_returned h6 e7 in
      let (u8, p8, e8) =
        query-returned _ _ (sync host c w.candidate (unsynchronized c w db)).0 h7 in
      ((u2, p2), e1 ∙ e2 ∙ e3 ∙ e4 ∙ e5 ∙ e6 ∙ e7 ∙ e8)

  -- what the statements have written
  pub record IsWritten (c : Command) (digest : String) (w : Write) (old new : Database)
      : Type 0 where
    pub absent : find c.subject.loop_ref c.operation_id old.operations ≡ none
    pub operations :
        new.operations ≡ old.operations ++ (operation_row c digest (accepted w.result) ∷ [])
    pub events : new.events ≡ old.events ++ rows_of c w
    pub loops : new.loops ≡ insert c.subject.loop_ref (row_of_loop w) old.loops

  rest-IsWritten :
      (c : Command) (digest : String) (f : Option Durable) (w : Write) (db : Database)
      {r : ApplyResult}
      → find c.subject.loop_ref c.operation_id db.operations ≡ none
      → (write_rest host c f w (with_operation db (operation_row c digest (accepted w.result)))).1
        ≡ returned r
      → (r ≡ w.result)
        × IsWritten c digest w db
            (write_rest host c f w
              (with_operation db (operation_row c digest (accepted w.result)))).0
  unfolding write_snapshot
  rest-IsWritten c digest f w db absent h =
      let row = operation_row c digest (accepted w.result) in
      let ((u, logged), e) = write_rest_returns c f w (with_operation db row) h in
      let written = write_events_returns (rows_of c w) (with_operation db row) logged in
      let synced =
        (sync-Keeps host c w.candidate).at (unsynchronized c w (with_operation db row)) in
      (
        ground (arith, e),
        record {
          absent = absent;
          operations =
              ap (λ (x : Database × Answer ApplyResult). x.0.operations) e
              ∙ synced.operations
              ∙ ap (λ (x : Database). x.operations) written;
          events =
              ap (λ (x : Database × Answer ApplyResult). x.0.events) e
              ∙ synced.events
              ∙ ap (λ (x : Database). x.events) written;
          loops =
              ap (λ (x : Database × Answer ApplyResult). x.0.loops) e
              ∙ synced.loops
              ∙ ap (λ (x : Database). (write_snapshot host c.subject.loop_ref w x).0.loops) written;
        },
      )

  pub write-IsWritten :
      (c : Command) (digest : String) (f : Option Durable) (w : Write) (db : Database)
      {r : ApplyResult}
      → (write host c digest f w db).1 ≡ returned r
      → (r ≡ w.result) × IsWritten c digest w db (write host c digest f w db).0
  unfolding write ◌>>=◌
  write-IsWritten c digest f w db h =
      elim (write_outcome_cases host c digest (accepted w.result) db) [
        | inl (x, refused) ↦
            absurd (let clash : raised x ≡ returned _ = rw refused at h in cc clash)
        | inr (absent, written) ↦
            rw written (rest-IsWritten c digest f w db absent (rw written at h))
      ]
