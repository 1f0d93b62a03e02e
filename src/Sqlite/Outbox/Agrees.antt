-- ===== src/Sqlite/Outbox/Agrees.antt =====
-- After `_sync_outbox` of v4_persistence/sqlite_store.py the outbox has the attempts of the snapshot.
use loop_skill.Sqlite.Database.{
  fail, corruption, raise_when, Failure, give, returned, Answer, Database, OutboxRow, BlobRow,
}
use loop_skill.Prelude.{
  Bool, Keyed-sorted_items, Option-cases, lookup-sorted_items, sorted_items, true, ◌||◌, subst,
  arith, eq_iff, eq_refl, lookup-insert, sym, ◌==◌, ap, Bool-cases, Dict, Keyed, Option, String, [],
  false, inl, inr, insert, lookup, none, refl, some, ◌∙◌, ◌∷◌, ◌≡◌,
}
use loop_skill.Kernel.State.{Attempt, Snapshot}
use loop_skill.Sqlite.Outbox.{
  merged, row_of, sync_attempt, sync_attempts, sync_outbox, unexpected, upsert_attempt,
}
use loop_skill.Sqlite.Wire.{Host, EffectAttempt, attempt_wire}
use loop_skill.Sqlite.Wire.Kept.{attempt_wire-Keeps}
use loop_skill.Sqlite.Returns.{
  returned_injective, bind-returned, lift-returned, query-returned, rest_returned,
}
use loop_skill.Sqlite.Outbox.Synced.{IsSynced, merged-IsSynced, upsert_returns}

raise_when_returns :
    (t : Bool) (failure : Failure) (db : Database) {u : Unit {0}}
    → (raise_when t failure db).1 ≡ returned u
    → (t ≡ false) × (raise_when t failure db ≡ (db, returned tt))
unfolding raise_when give fail
raise_when_returns true failure db h = cc
raise_when_returns false failure db h = (refl, refl)

second_false : (a b : Bool) → (a || b) ≡ false → b ≡ false
second_false true b h = cc
second_false false b h = h

module _ (host : Host) where
  -- `_attempt_wire` returns this on the blobs
  abbrev pub IsWire : Snapshot → String → Attempt → Dict BlobRow → EffectAttempt → Type 0
  IsWire s attempt_ref a blobs wire =
      (db : Database) × (db.immutable_blobs ≡ blobs)
      × ((attempt_wire host s attempt_ref a db).1 ≡ returned wire)

  -- the row of an attempt, given the blobs and the row before
  abbrev pub HasRow :
      String → Snapshot → String → Attempt → Dict BlobRow → Option OutboxRow → Database → Type 0
  HasRow loop_ref s attempt_ref a blobs old db =
      (row : OutboxRow) × (wire : EffectAttempt) × (lookup attempt_ref db.outbox ≡ some row)
      × IsWire s attempt_ref a blobs wire
      × IsSynced loop_ref wire a old row

  -- the rows after a synchronization, from those before
  pub record Mirrors (loop_ref : String) (s : Snapshot) (before after : Database) : Type 0 where
    pub present :
        (attempt_ref : String) (a : Attempt)
        → lookup attempt_ref s.attempts ≡ some a
        → HasRow loop_ref s attempt_ref a before.immutable_blobs
            (lookup attempt_ref before.outbox)
            after
    pub expected :
        (attempt_ref : String) (row : OutboxRow)
        → lookup attempt_ref after.outbox ≡ some row
        → row.loop_ref ≡ loop_ref
        → (a : Attempt) × (lookup attempt_ref s.attempts ≡ some a)

  sync_attempt_returns :
      (loop_ref : String) (s : Snapshot) (attempt_ref : String) (a : Attempt) (db : Database)
      {u : Unit {0}}
      → (sync_attempt host loop_ref s attempt_ref a db).1 ≡ returned u
      → (wire : EffectAttempt) × ((attempt_wire host s attempt_ref a db).1 ≡ returned wire)
        × ((sync_attempt host loop_ref s attempt_ref a db).0.outbox
            ≡ insert attempt_ref
                (merged (lookup attempt_ref db.outbox) (row_of loop_ref wire a))
                db.outbox)
        × ((sync_attempt host loop_ref s attempt_ref a db).0.immutable_blobs ≡ db.immutable_blobs)
  unfolding sync_attempt
  sync_attempt_returns loop_ref s attempt_ref a db h =
      let (wire, made, e1) = bind-returned (attempt_wire host s attempt_ref a) _ db h in
      let h1 = rest_returned h e1 in
      let (v, fits, e2) = lift-returned _ _ (attempt_wire host s attempt_ref a db).0 h1 in
      let h2 = rest_returned h1 e2 in
      let same = (attempt_wire-Keeps host s attempt_ref a).at db in
      let e = e1 ∙ e2 ∙ ap (upsert_attempt attempt_ref (row_of loop_ref wire a)) same in
      let (outbox, blobs) =
        upsert_returns attempt_ref (row_of loop_ref wire a) db (rest_returned h e) in
      (
        wire,
        made,
        ap (λ (x : Database × Answer (Unit {0})). x.0.outbox) e ∙ outbox,
        ap (λ (x : Database × Answer (Unit {0})). x.0.immutable_blobs) e ∙ blobs,
      )

  -- the row of the first attempt, which the other attempts leave
  sync_attempt_other :
      (loop_ref : String) (s : Snapshot) (attempt_ref other : String) (a : Attempt) (db : Database)
      {u : Unit {0}}
      → (sync_attempt host loop_ref s attempt_ref a db).1 ≡ returned u
      → (attempt_ref == other) ≡ false
      → lookup other (sync_attempt host loop_ref s attempt_ref a db).0.outbox
        ≡ lookup other db.outbox
  sync_attempt_other loop_ref s attempt_ref other a db one ne =
      let (wire, _, row, _) = sync_attempt_returns loop_ref s attempt_ref a db one in
      ap (lookup other) row ∙ lookup-insert attempt_ref other _ db.outbox ∙ rw ne refl

  sync_attempts_other :
      (loop_ref : String) (s : Snapshot) (attempts : Dict Attempt) (other : String) (db : Database)
      {u : Unit {0}}
      → lookup other attempts ≡ none
      → (sync_attempts host loop_ref s attempts db).1 ≡ returned u
      → lookup other (sync_attempts host loop_ref s attempts db).0.outbox ≡ lookup other db.outbox
  unfolding sync_attempts lookup give
  sync_attempts_other loop_ref s [] other db absent h = refl
  sync_attempts_other loop_ref s ((attempt_ref, a) ∷ attempts) other db absent h =
      let (u, one, e) = bind-returned (sync_attempt host loop_ref s attempt_ref a) _ db h in
      elim (Bool-cases (attempt_ref == other)) [
        | inl same ↦ absurd (let clash : some a ≡ none = rw same at absent in cc clash)
        | inr ne ↦
            ap (λ (x : Database × Answer (Unit {0})). lookup other x.0.outbox) e
            ∙ sync_attempts_other loop_ref s attempts other _ (rw ne at absent) (rest_returned h e)
            ∙ sync_attempt_other loop_ref s attempt_ref other a db one ne
      ]

  sync_attempts-HasRow :
      (loop_ref : String) (s : Snapshot) (attempts : Dict Attempt) (db : Database) {u : Unit {0}}
      → Keyed attempts
      → (sync_attempts host loop_ref s attempts db).1 ≡ returned u
      → (attempt_ref : String) (a : Attempt) → lookup attempt_ref attempts ≡ some a
      → HasRow loop_ref s attempt_ref a db.immutable_blobs
          (lookup attempt_ref db.outbox)
          (sync_attempts host loop_ref s attempts db).0
  unfolding sync_attempts lookup give
  sync_attempts-HasRow loop_ref s [] db keyed h attempt_ref a found = cc
  sync_attempts-HasRow loop_ref s ((j, b) ∷ attempts) db keyed h attempt_ref a found =
      let (u, one, e) = bind-returned (sync_attempt host loop_ref s j b) _ db h in
      let (wire, made, row, blobs) = sync_attempt_returns loop_ref s j b db one in
      let h1 = rest_returned h e in
      let db1 = (sync_attempt host loop_ref s j b db).0 in
      let db2 = (sync_attempts host loop_ref s attempts db1).0 in
      subst
        (λ (x : Database × Answer (Unit {0})).
          HasRow loop_ref s attempt_ref a db.immutable_blobs (lookup attempt_ref db.outbox) x.0)
        (sym e)
        (elim (Bool-cases (j == attempt_ref)) [
          | inl same ↦
              let b_same : b ≡ a = let f : some b ≡ some a = rw same at found in ground arith in
              subst (λ k. HasRow loop_ref s k a db.immutable_blobs (lookup k db.outbox) db2)
                ((eq_iff j attempt_ref).0 same)
                (subst (λ x. HasRow loop_ref s j x db.immutable_blobs (lookup j db.outbox) db2)
                  b_same
                  (
                    merged (lookup j db.outbox) (row_of loop_ref wire b),
                    wire,
                    sync_attempts_other loop_ref s attempts j db1 keyed.0 h1
                        ∙ ap (lookup j) row
                        ∙ lookup-insert j j _ db.outbox
                        ∙ rw (eq_refl j) refl,
                    (db, refl, made),
                    merged-IsSynced loop_ref wire b (lookup j db.outbox),
                  ))
          | inr ne ↦
              subst (λ o. HasRow loop_ref s attempt_ref a db.immutable_blobs o db2)
                (sync_attempt_other loop_ref s j attempt_ref b db one ne)
                (subst (λ x. HasRow loop_ref s attempt_ref a x (lookup attempt_ref db1.outbox) db2)
                  blobs
                  (sync_attempts-HasRow loop_ref s attempts db1 keyed.1 h1 attempt_ref a
                    (rw ne at found)))
        ])

  unexpected_row :
      (loop_ref : String) (attempts : Dict Attempt) (rows : Dict OutboxRow) (attempt_ref : String)
      (row : OutboxRow)
      → unexpected loop_ref attempts rows ≡ false
      → lookup attempt_ref rows ≡ some row
      → row.loop_ref ≡ loop_ref
      → (a : Attempt) × (lookup attempt_ref attempts ≡ some a)
  unfolding unexpected lookup
  unexpected_row loop_ref attempts [] attempt_ref row clean found own = cc
  unexpected_row loop_ref attempts ((j, r) ∷ rows) attempt_ref row clean found own =
      elim (Bool-cases (j == attempt_ref)) [
        | inl same ↦ elim (Option-cases (lookup attempt_ref attempts)) [
          | inl absent ↦ absurd (ground (arith, eq_iff j attempt_ref, eq_iff r.loop_ref loop_ref))
          | inr present ↦ present
        ]
        | inr ne ↦
            unexpected_row loop_ref attempts rows attempt_ref row (second_false _ _ clean)
              (rw ne at found) own
      ]

  -- When the synchronization of a loop returns, the outbox has a row for each attempt of the
  -- snapshot. The row asks what `_attempt_wire` returns for the attempt on the blobs, and has its
  -- state, revision, budget and, once it is observed or late, its receipt. It keeps the executor and
  -- the loop of the row that the attempt had before, and without one it has no executor and is of
  -- this loop; it is READY only for a committed attempt, without a row before or with a READY one. A
  -- row of this loop is of an attempt of the snapshot.
  pub sync_outbox-Mirrors :
      (loop_ref : String) (s : Snapshot) (db : Database) {u : Unit {0}}
      → Keyed s.attempts
      → (sync_outbox host loop_ref s db).1 ≡ returned u
      → Mirrors loop_ref s db (sync_outbox host loop_ref s db).0
  unfolding sync_outbox
  sync_outbox-Mirrors loop_ref s db keyed h =
      let (u, one, e1) =
        bind-returned (sync_attempts host loop_ref s (sorted_items s.attempts)) _ db h in
      let h1 = rest_returned h e1 in
      let db1 = (sync_attempts host loop_ref s (sorted_items s.attempts) db).0 in
      let (found, p2, e2) = query-returned _ _ db1 h1 in
      let h2 = rest_returned h1 e2 in
      let (clean, end) = raise_when_returns found corruption db1 h2 in
      subst (λ (x : Database × Answer (Unit {0})). Mirrors loop_ref s db x.0) (sym (e1 ∙ e2 ∙ end))
        (record {
          present = λ attempt_ref a at.
              sync_attempts-HasRow loop_ref s (sorted_items s.attempts) db
                (Keyed-sorted_items s.attempts keyed) one attempt_ref a
                (lookup-sorted_items attempt_ref s.attempts keyed ∙ at);
          expected = λ attempt_ref row at own.
              unexpected_row loop_ref s.attempts db1.outbox attempt_ref row
                (returned_injective p2 ∙ clean) at own;
        })
