-- ===== src/Examples/Durable.antt =====
-- The database of the loop of Examples/Data, with one attempt in its outbox, and its connection.
use loop_skill.Protocol.Outcome.{ok}
use loop_skill.Prelude.{[], false, none, true, ◌∷◌}
use loop_skill.Examples.Data.{context, created, encode, hash, loop, runtime}
use loop_skill.Kernel.State.{AttemptState}
use loop_skill.Sqlite.Apply.{Connection}
use loop_skill.Sqlite.Database.{Database, InvocationState, OutboxRow, Recorded}
use loop_skill.Sqlite.Wire.{Codec, Host}
use loop_skill.Protocol.Value.{Value}

abbrev pub host : Host
host = record {
  runtime = runtime;
  authority = context;
  snapshot_digest = encode;
  canonical = λ column. ok tt;
  blob_digest = λ content. hash;
  plan_digest = λ content. hash;
  decode = λ plan index. Codec.invalid;
  plan_index = λ plan index. Codec.invalid;
  materialize_provider_request = λ plan index request. Codec.invalid;
}

abbrev pub ready_row : OutboxRow
ready_row = record {
  loop_ref = "loop-2";
  delivery_ref = "delivery-1";
  subject_kind = "DeliveryRef";
  subject_ref = "delivery-1";
  target_ref = "host-target-1";
  action = "send";
  payload = Value.null;
  provider_idempotency_key = hash;
  provider_request_digest = hash;
  automatic_budget_consumed = true;
  attempt_revision = 1;
  attempt_state = AttemptState.committed;
  invocation_state = InvocationState.ready;
  executor_ref = none;
  observation_receipt_ref = none;
}

abbrev pub database : Database
database = record {
  loops = ("loop-1", record { loop_revision = 1; snapshot = loop; snapshot_digest = hash }) ∷ [];
  operations =
      record {
        loop_ref = "loop-1";
        operation_id = "op-1";
        request_digest = hash;
        value = Recorded.accepted created.value;
      }
      ∷ [];
  events = [];
  outbox = ("attempt-1", ready_row) ∷ [];
  immutable_blobs = [];
  loop_descriptors = [];
  authority_actors = [];
  authority_grants = [];
  authority_receipts = [];
  authority_trust_roots = [];
}

abbrev pub conn : Connection
conn = record { durable = database; transaction = none; locked = false }

-- the same attempt, as one of a loop whose snapshot does not have it
abbrev pub drifted : Database
drifted = record database { outbox = ("attempt-1", record ready_row { loop_ref = "loop-1" }) ∷ [] }

abbrev pub drifted_conn : Connection
drifted_conn = record conn { durable = drifted }
