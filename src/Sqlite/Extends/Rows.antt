-- ===== src/Sqlite/Extends/Rows.antt =====
-- Each statement on a table takes nothing back.
use loop_skill.Sqlite.Keeps.{Keeps}
use loop_skill.Prelude.{
  Bool-cases, List, Option, String, [], arith, eq_iff, false, inl, inr, insert, is_some, lookup,
  lookup-insert, none, refl, some, subst, sym, ◌++◌, ◌==◌, ◌∙◌, ◌∷◌, ◌≡◌,
}
use loop_skill.Sqlite.Database.{
  has_sequence, Database, EventRow, OutboxRow, Recorded, insert_event, insert_operation,
}
use loop_skill.Sqlite.Outbox.{
  claim, claim_row, invocation_of, is_ready, merged, updated_row, upsert_attempt, key_taken,
  started_row, is_claimable,
}
use loop_skill.Sqlite.Extends.{syncs, Syncs, Extends-same, Extends, Extends-refl, IsClaimed}
use loop_skill.Store.{Entry, find, has_key}
use loop_skill.Kernel.State.{AttemptState}

module _ {ℓ} {V : Type ℓ} where
  find-append :
      (loop_ref operation_id : String) (es fs : List (Entry V)) (e : Entry V)
      → find loop_ref operation_id es ≡ some e
      → find loop_ref operation_id (es ++ fs) ≡ some e
  unfolding find
  find-append l o [] fs e h = cc
  find-append l o (d ∷ es) fs e h = elim (Bool-cases (has_key l o d)) [
    | inl same ↦ rw same (rw same at h)
    | inr other ↦ rw other (find-append l o es fs e (rw other at h))
  ]

pub insert_operation-Keeps : (row : Entry Recorded) → Keeps Extends (insert_operation row)
unfolding insert_operation
insert_operation-Keeps row = record {
  at = λ db. elim (Bool-cases (is_some (find row.loop_ref row.operation_id db.operations))) [
    | inl old ↦ rw old (Extends-refl db)
    | inr new ↦ rw new (record {
      operations = λ l o e h. find-append l o db.operations (row ∷ []) e h;
      blobs = λ d r h. h;
      receipts = λ d r h. h;
      claims = λ a h. h;
    })
  ];
}

pub insert_event-Keeps : (row : EventRow) → Keeps Extends (insert_event row)
unfolding insert_event
insert_event-Keeps row = record {
  at = λ db. elim (Bool-cases (has_sequence row.loop_ref row.event.sequence db.events)) [
    | inl old ↦ rw old (Extends-refl db)
    | inr new ↦ rw new (Extends-same refl refl refl refl)
  ];
}

-- A synchronized row is not made READY again.
merged-claimed :
    (old new : OutboxRow)
    → is_ready old.invocation_state ≡ false
    → is_ready (updated_row old new).invocation_state ≡ false
unfolding updated_row
merged-claimed old new h =
    elim new.attempt_state as (λ s. is_ready (invocation_of s old.invocation_state) ≡ false) [
      | AttemptState.committed ↦ h
      | AttemptState.observed ↦ refl
      | AttemptState.unknown ↦ refl
      | AttemptState.unverifiable ↦ refl
    ]

IsClaimed-insert :
    (db : Database) (attempt_ref : String) (new : OutboxRow)
    → ((old : OutboxRow)
        → lookup attempt_ref db.outbox ≡ some old
        → is_ready old.invocation_state ≡ false
        → is_ready new.invocation_state ≡ false)
    → (other : String) → IsClaimed other db
    → IsClaimed other (record db { outbox = insert attempt_ref new db.outbox })
IsClaimed-insert db attempt_ref new keep other (row, found, past) =
    elim (Bool-cases (attempt_ref == other)) [
      | inl same ↦ (
        new,
        lookup-insert attempt_ref other new db.outbox ∙ rw same,
        keep row
            (subst (λ r. lookup r db.outbox ≡ some row) (sym ((eq_iff attempt_ref other).0 same))
              found)
            past,
      )
      | inr ne ↦ (row, lookup-insert attempt_ref other new db.outbox ∙ rw ne found, past)
    ]

outbox-Extends :
    (db : Database) (attempt_ref : String) (new : OutboxRow)
    → ((old : OutboxRow)
        → lookup attempt_ref db.outbox ≡ some old
        → is_ready old.invocation_state ≡ false
        → is_ready new.invocation_state ≡ false)
    → Extends db (record db { outbox = insert attempt_ref new db.outbox })
outbox-Extends db attempt_ref new keep = record {
  operations = λ l o e h. h;
  blobs = λ d r h. h;
  receipts = λ d r h. h;
  claims = IsClaimed-insert db attempt_ref new keep;
}

merged-keeps :
    (o : Option OutboxRow) (new old : OutboxRow)
    → o ≡ some old
    → is_ready old.invocation_state ≡ false
    → is_ready (merged o new).invocation_state ≡ false
merged-keeps none new old e h = cc
merged-keeps (some row) new old e h = merged-claimed row new (ground (arith))

pub upsert_attempt-Keeps :
    (attempt_ref : String) (new : OutboxRow) → Keeps Syncs (upsert_attempt attempt_ref new)
unfolding upsert_attempt
upsert_attempt-Keeps attempt_ref new = record {
  at = λ db. elim (Bool-cases (key_taken attempt_ref new.provider_idempotency_key db.outbox)) [
    | inl taken ↦ rw taken (syncs.stays db)
    | inr free ↦ rw free (record {
      extended =
          outbox-Extends db attempt_ref (merged (lookup attempt_ref db.outbox) new)
            (λ old found h. merged-keeps (lookup attempt_ref db.outbox) new old found h);
      loops = refl;
      operations = refl;
      events = refl;
    })
  ];
}

claim_row-Extends :
    (attempt_ref executor_ref : String) (o : Option OutboxRow) (db : Database)
    → Extends db (claim_row attempt_ref executor_ref o db).0
unfolding claim_row
claim_row-Extends attempt_ref executor_ref none db = Extends-refl db
claim_row-Extends attempt_ref executor_ref (some row) db = elim (Bool-cases (is_claimable row)) [
  | inl free ↦
      rw free (outbox-Extends db attempt_ref (started_row row executor_ref) (λ old found h. refl))
  | inr held ↦ rw held (Extends-refl db)
]

pub claim-Keeps :
    (attempt_ref executor_ref : String) → Keeps Extends (claim attempt_ref executor_ref)
unfolding claim
claim-Keeps attempt_ref executor_ref = record {
  at = λ db. claim_row-Extends attempt_ref executor_ref (lookup attempt_ref db.outbox) db;
}
