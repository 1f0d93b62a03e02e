-- ===== src/Sqlite/Wire.antt =====
-- `_attempt_wire` of v4_persistence/sqlite_store.py: what a provider is asked for an attempt of a
-- snapshot. A content-addressed request is rebuilt from its plan and index in `immutable_blobs`.
pub mod Kept
use loop_skill.Sqlite.Database.{
  Answer, Recorded, protocol, Transaction, corruption, give, lift, query, raise_when, raised,
  returned, ◌>>=◌, ◌>>◌,
}
use loop_skill.Store.{SequencedEvent}
use loop_skill.Protocol.Value.{Value, object_of, str}
use loop_skill.Protocol.Outcome.{Code, rejection, Result, at_key, fetch}
use loop_skill.Protocol.Envelope.{
  ActorRef, AuthorityContext, Grant, Receipt, Runtime, domain_digest,
}
use loop_skill.Prelude.{
  Bool, List, Option, String, [], false, lookup, none, not, some, ℕ, ◌&&◌, ◌==◌, ◌∷◌, get_elem?,
}
use loop_skill.Kernel.State.{Attempt, ProviderRequest, Route, Snapshot}

-- what `validate_plan_index` gives and this file reads
pub record PlanIndex : Type 0 where
  pub ordered_goal_ids : List String
  pub ordered_goal_slice_digests : List String
  pub workspace_binding : String

-- what `canonical_bytes` writes into a column
pub data Column : Type 0 where
  outcome_json : Recorded → Column
  event_json : SequencedEvent → Column
  payload_json : Value → Column
  actor_json : ActorRef → Column
  grant_json : Grant → Column
  receipt_json : Receipt → Column

-- What the codec does: it returns, it raises one of the exceptions that `_attempt_wire` turns into
-- PersistenceCorruption, or it raises a ProtocolRejection, which `_attempt_wire` does not handle.
pub data Codec (A : Type 0) : Type 0 where
  decoded : A → Codec A
  invalid : Codec A
  refused : Code → Codec A

abbrev pub codec_answer : {A : Type 0} → Codec A → Answer A
codec_answer (decoded a) = returned a
codec_answer invalid = raised corruption
codec_answer (refused code) = raised (protocol (rejection code))

-- The authority that a store is opened with, and the code that it calls: the digests of a snapshot
-- and of a blob, the rejection of `canonical_bytes`, and v4_alpha/plan_codec.py on bytes. `decode`
-- parses a plan and its index, and `plan_index` validates the one by the other.
pub record Host : Type 0 where
  pub runtime : Runtime
  pub authority : AuthorityContext
  pub snapshot_digest : Snapshot → Result String
  pub canonical : Column → Result (Unit {0})
  pub blob_digest : List ℕ → String
  pub plan_digest : List ℕ → String
  pub decode : List ℕ → List ℕ → Codec (Unit {0})
  pub plan_index : List ℕ → List ℕ → Codec PlanIndex
  pub materialize_provider_request : List ℕ → PlanIndex → ProviderRequest → Codec Value

pub record EffectAttempt : Type 0 where
  pub attempt_ref : String
  pub loop_ref : String
  pub subject_kind : String
  pub subject_ref : String
  pub delivery_ref : Option String
  pub target_ref : String
  pub provider_idempotency_key : String
  pub provider_request_digest : String
  pub action : String
  pub payload : Value

-- `get_blob`
unfoldable pub get_blob : String → Transaction (Option (List ℕ))
get_blob digest = query λ db.
    returned (elim (lookup digest db.immutable_blobs) [ none ↦ none | some row ↦ some row.content ])

-- a value, or PersistenceCorruption where there is none
abbrev pub or_corruption {ℓ} : {A : Type ℓ} → Option A → Answer A
or_corruption none = raised corruption
or_corruption (some a) = returned a

same_at : Option String → String → Bool
same_at none text = false
same_at (some other) text = other == text

-- the index gives the current Goal as the descriptor has it
describes : PlanIndex → ProviderRequest → Bool
unfolding same_at
describes index d =
    same_at (get_elem? index.ordered_goal_ids d.active_index) d.goal_id
    && same_at (get_elem? index.ordered_goal_slice_digests d.active_index) d.goal_slice_digest
    && (index.workspace_binding == d.workspace_binding)

module _ (host : Host) where
  -- both blobs have the digests of the descriptor
  bound : ProviderRequest → List ℕ → List ℕ → Bool
  bound d plan_raw index_raw =
      (host.plan_digest plan_raw == d.plan_digest)
      && (host.plan_digest index_raw == d.plan_index_digest)

  unfoldable pub materialize : ProviderRequest → String → Transaction Value
  unfolding get_blob describes bound
  materialize d request_digest = do
    plan_blob ← get_blob d.plan_digest
    index_blob ← get_blob d.plan_index_digest
    plan_raw ← query λ db. or_corruption plan_blob
    index_raw ← query λ db. or_corruption index_blob
    query λ db. codec_answer (host.decode plan_raw index_raw)
    raise_when (not (bound d plan_raw index_raw)) corruption
    index ← query λ db. codec_answer (host.plan_index plan_raw index_raw)
    raise_when (not (describes index d)) corruption
    payload ← query λ db. codec_answer (host.materialize_provider_request plan_raw index d)
    digest ← lift (domain_digest host.runtime "loopskill-provider-request-v1\n" payload)
    raise_when (not (digest == request_digest)) corruption
    give payload

  wire_of : Snapshot → String → Attempt → String → String → String → Value → EffectAttempt
  wire_of s attempt_ref a subject_kind subject_ref action payload = record {
    attempt_ref = attempt_ref;
    loop_ref = s.loop_ref;
    subject_kind = subject_kind;
    subject_ref = subject_ref;
    delivery_ref = a.delivery_ref;
    target_ref = a.target_ref;
    provider_idempotency_key = a.provider_idempotency_key;
    provider_request_digest = a.provider_request_digest;
    action = action;
    payload = payload;
  }

  -- the attempt of an external effect
  unfoldable pub effect_wire : Snapshot → String → Attempt → String → Transaction EffectAttempt
  unfolding wire_of
  effect_wire s attempt_ref a effect_ref = do
    action ← lift (at_key a.action)
    descriptor ← lift (at_key a.provider_request)
    payload ← materialize descriptor a.provider_request_digest
    give (wire_of s attempt_ref a "ExternalEffectRef" effect_ref action payload)

  send_payload : Route → Attempt → Value
  send_payload route a =
      object_of (("intent_digest", str route.intent_digest) ∷ ("target_ref", str a.target_ref) ∷ [])

  -- the attempt of a delivery
  unfoldable pub delivery_wire : Snapshot → String → Attempt → Transaction EffectAttempt
  unfolding wire_of send_payload
  delivery_wire s attempt_ref a = do
    delivery_ref ← lift (at_key a.delivery_ref)
    delivery ← lift (fetch delivery_ref s.deliveries)
    route ← lift (fetch delivery.route_ref s.routes)
    give (wire_of s attempt_ref a "DeliveryRef" delivery_ref "send" (send_payload route a))

  unfoldable pub attempt_wire : Snapshot → String → Attempt → Transaction EffectAttempt
  attempt_wire s attempt_ref a = elim a.external_effect_ref [
    | some effect_ref ↦ effect_wire s attempt_ref a effect_ref
    | none ↦ delivery_wire s attempt_ref a
  ]
