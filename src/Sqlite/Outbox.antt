-- ===== src/Sqlite/Outbox.antt =====
-- The outbox of v4_persistence/sqlite_store.py: `_sync_outbox` copies the attempts of a snapshot to
-- it, and `claim_attempt` hands one to an executor.
pub mod Kept
pub mod Synced
pub mod Agrees
use loop_skill.Sqlite.Wire.{EffectAttempt, Host, attempt_wire, payload_json}
use loop_skill.Sqlite.Database.{
  InvocationState, OutboxRow, Transaction, corruption, database_error, give, lift, query,
  raise_when, raised, returned, ◌>>=◌, ◌>>◌,
}
use loop_skill.Prelude.{
  Bool, Dict, Option, String, [], false, if◌then◌else◌, insert, is_some, lookup, none, not,
  sorted_items, some, true, ◌&&◌, ◌==◌, ◌||◌, ◌∷◌,
}
use loop_skill.Kernel.State.{Attempt, AttemptState, Snapshot, is_committed}

abbrev pub or_empty : Option String → String
or_empty none = ""
or_empty (some text) = text

-- the state if it is OBSERVED, UNKNOWN or UNVERIFIABLE, else a default
abbrev pub invocation_of : AttemptState → InvocationState → InvocationState
invocation_of AttemptState.committed pending = pending
invocation_of AttemptState.observed pending = InvocationState.observed
invocation_of AttemptState.unknown pending = InvocationState.unknown
invocation_of AttemptState.unverifiable pending = InvocationState.unverifiable

-- another attempt has the key, which is UNIQUE
unfoldable pub key_taken : String → String → Dict OutboxRow → Bool
key_taken attempt_ref key [] = false
key_taken attempt_ref key ((other, row) ∷ rows) =
    (not (other == attempt_ref) && (row.provider_idempotency_key == key))
    || key_taken attempt_ref key rows

-- the VALUES of the upsert
pub row_of : String → EffectAttempt → Attempt → OutboxRow
row_of loop_ref wire a = record {
  loop_ref = loop_ref;
  delivery_ref = or_empty wire.delivery_ref;
  subject_kind = wire.subject_kind;
  subject_ref = wire.subject_ref;
  target_ref = wire.target_ref;
  action = wire.action;
  payload = wire.payload;
  provider_idempotency_key = wire.provider_idempotency_key;
  provider_request_digest = wire.provider_request_digest;
  automatic_budget_consumed = a.automatic_budget_consumed;
  attempt_revision = a.revision;
  attempt_state = a.state;
  invocation_state = invocation_of a.state InvocationState.ready;
  executor_ref = none;
  observation_receipt_ref = a.observation_receipt_ref;
}

-- `DO UPDATE SET`: the loop and the executor stay, and so do the columns that the CASEs keep
unfoldable pub updated_row : OutboxRow → OutboxRow → OutboxRow
updated_row old new = record new {
  loop_ref = old.loop_ref;
  executor_ref = old.executor_ref;
  invocation_state = invocation_of new.attempt_state old.invocation_state;
  observation_receipt_ref =
      if is_committed new.attempt_state
      then old.observation_receipt_ref
      else new.observation_receipt_ref;
}

abbrev pub merged : Option OutboxRow → OutboxRow → OutboxRow
merged none new = new
merged (some old) new = updated_row old new

-- the upsert of one attempt
unfoldable pub upsert_attempt : String → OutboxRow → Transaction (Unit {0})
unfolding key_taken updated_row
upsert_attempt attempt_ref new db =
    if key_taken attempt_ref new.provider_idempotency_key db.outbox
    then (db, raised database_error)
    else (
      record db {
        outbox = insert attempt_ref (merged (lookup attempt_ref db.outbox) new) db.outbox;
      },
      returned tt,
    )

-- a row of the loop whose attempt the snapshot does not have
unfoldable pub unexpected : String → Dict Attempt → Dict OutboxRow → Bool
unexpected loop_ref attempts [] = false
unexpected loop_ref attempts ((attempt_ref, row) ∷ rows) =
    ((row.loop_ref == loop_ref) && not (is_some (lookup attempt_ref attempts)))
    || unexpected loop_ref attempts rows

module _ (host : Host) where
  unfoldable pub sync_attempt : String → Snapshot → String → Attempt → Transaction (Unit {0})
  unfolding row_of
  sync_attempt loop_ref s attempt_ref a = do
    wire ← attempt_wire host s attempt_ref a
    lift (host.canonical (payload_json wire.payload))
    upsert_attempt attempt_ref (row_of loop_ref wire a)

  unfoldable pub sync_attempts : String → Snapshot → Dict Attempt → Transaction (Unit {0})
  sync_attempts loop_ref s [] = give tt
  sync_attempts loop_ref s ((attempt_ref, a) ∷ attempts) =
      sync_attempt loop_ref s attempt_ref a >> sync_attempts loop_ref s attempts

  -- `_sync_outbox`
  unfoldable pub sync_outbox : String → Snapshot → Transaction (Unit {0})
  unfolding unexpected
  sync_outbox loop_ref s = do
    sync_attempts loop_ref s (sorted_items s.attempts)
    found ← query λ db. returned (unexpected loop_ref s.attempts db.outbox)
    raise_when found corruption
  -- `claim_attempt`, between BEGIN and COMMIT: the row of a ready attempt is started

abbrev pub is_ready : InvocationState → Bool
is_ready InvocationState.ready = true
is_ready _ = false

abbrev pub started_row : OutboxRow → String → OutboxRow
started_row row executor_ref = record row {
  invocation_state = InvocationState.started;
  executor_ref = some executor_ref;
}

abbrev pub is_claimable : OutboxRow → Bool
is_claimable row = is_committed row.attempt_state && is_ready row.invocation_state

unfoldable pub claim_row : String → String → Option OutboxRow → Transaction Bool
claim_row attempt_ref executor_ref none db = (db, raised corruption)
claim_row attempt_ref executor_ref (some row) db =
    if is_claimable row
    then (
      record db { outbox = insert attempt_ref (started_row row executor_ref) db.outbox },
      returned true,
    )
    else (db, returned false)

unfoldable pub claim : String → String → Transaction Bool
claim attempt_ref executor_ref db =
    claim_row attempt_ref executor_ref (lookup attempt_ref db.outbox) db
