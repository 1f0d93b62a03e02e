-- ===== src/Sqlite/Outbox/Synced.antt =====
-- The row that the upsert of `_sync_outbox` (v4_persistence/sqlite_store.py) leaves of an attempt.
use loop_skill.Sqlite.Database.{database_error, raised, returned, Database, OutboxRow}
use loop_skill.Prelude.{
  Bool-cases, Option, String, false, inl, inr, insert, lookup, none, refl, some, ◌≡◌,
}
use loop_skill.Kernel.State.{is_committed, Attempt}
use loop_skill.Sqlite.Outbox.{
  InvocationState, or_empty, invocation_of, key_taken, merged, row_of, updated_row, upsert_attempt,
}
use loop_skill.Sqlite.Wire.{EffectAttempt}

-- the loop that a row has had, or has from now on
abbrev pub owner : String → Option OutboxRow → String
owner loop_ref none = loop_ref
owner loop_ref (some old) = old.loop_ref

abbrev pub prior_state : Option OutboxRow → InvocationState
prior_state none = InvocationState.ready
prior_state (some old) = old.invocation_state

abbrev pub prior_executor : Option OutboxRow → Option String
prior_executor none = none
prior_executor (some old) = old.executor_ref

-- a row asks what the wire form of its attempt asks
pub record IsRequest (wire : EffectAttempt) (row : OutboxRow) : Type 0 where
  pub delivery_ref : row.delivery_ref ≡ or_empty wire.delivery_ref
  pub subject_kind : row.subject_kind ≡ wire.subject_kind
  pub subject_ref : row.subject_ref ≡ wire.subject_ref
  pub target_ref : row.target_ref ≡ wire.target_ref
  pub action : row.action ≡ wire.action
  pub payload : row.payload ≡ wire.payload
  pub key : row.provider_idempotency_key ≡ wire.provider_idempotency_key
  pub digest : row.provider_request_digest ≡ wire.provider_request_digest

-- what a row has of its attempt, and of the row that it had before
pub record IsSynced (loop_ref : String) (wire : EffectAttempt) (a : Attempt)
    (old : Option OutboxRow) (row : OutboxRow) : Type 0 where
  pub asks : IsRequest wire row
  pub state : row.attempt_state ≡ a.state
  pub revision : row.attempt_revision ≡ a.revision
  pub budget : row.automatic_budget_consumed ≡ a.automatic_budget_consumed
  pub invocation : row.invocation_state ≡ invocation_of a.state (prior_state old)
  pub receipt :
      is_committed a.state ≡ false → row.observation_receipt_ref ≡ a.observation_receipt_ref
  pub owned : row.loop_ref ≡ owner loop_ref old
  pub executor : row.executor_ref ≡ prior_executor old

row_of-IsRequest :
    (loop_ref : String) (wire : EffectAttempt) (a : Attempt)
    → IsRequest wire (row_of loop_ref wire a)
unfolding row_of
row_of-IsRequest loop_ref wire a = record {
  delivery_ref = refl;
  subject_kind = refl;
  subject_ref = refl;
  target_ref = refl;
  action = refl;
  payload = refl;
  key = refl;
  digest = refl;
}

pub merged-IsSynced :
    (loop_ref : String) (wire : EffectAttempt) (a : Attempt) (o : Option OutboxRow)
    → IsSynced loop_ref wire a o (merged o (row_of loop_ref wire a))
unfolding row_of updated_row
merged-IsSynced loop_ref wire a none = record {
  asks = row_of-IsRequest loop_ref wire a;
  state = refl;
  revision = refl;
  budget = refl;
  invocation = refl;
  receipt = λ late. refl;
  owned = refl;
  executor = refl;
}
merged-IsSynced loop_ref wire a (some old) = record {
  asks = record {
    delivery_ref = refl;
    subject_kind = refl;
    subject_ref = refl;
    target_ref = refl;
    action = refl;
    payload = refl;
    key = refl;
    digest = refl;
  };
  state = refl;
  revision = refl;
  budget = refl;
  invocation = refl;
  receipt = λ late. rw late refl;
  owned = refl;
  executor = refl;
}

pub upsert_returns :
    (attempt_ref : String) (new : OutboxRow) (db : Database) {u : Unit {0}}
    → (upsert_attempt attempt_ref new db).1 ≡ returned u
    → ((upsert_attempt attempt_ref new db).0.outbox
        ≡ insert attempt_ref (merged (lookup attempt_ref db.outbox) new) db.outbox)
      × ((upsert_attempt attempt_ref new db).0.immutable_blobs ≡ db.immutable_blobs)
unfolding upsert_attempt
upsert_returns attempt_ref new db h =
    elim (Bool-cases (key_taken attempt_ref new.provider_idempotency_key db.outbox)) [
      | inl taken ↦ absurd (let e : raised database_error ≡ returned tt = rw taken at h in cc e)
      | inr free ↦ rw free (refl, refl)
    ]
