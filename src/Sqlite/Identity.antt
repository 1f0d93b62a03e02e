-- ===== src/Sqlite/Identity.antt =====
-- `_sync_loop_identity` and `_sync_receipts` of v4_persistence/sqlite_store.py: the authority under
-- which a loop was created, and the receipts that its commands used, become rows.
pub mod Kept
use loop_skill.Sqlite.Wire.{Host, actor_json, grant_json, receipt_json}
use loop_skill.Sqlite.Database.{
  Answer, Descriptor, Owned, Transaction, TrustKind, TrustRoot, corruption, database_error, give,
  lift, query, raise_when, raised, returned, ◌>>=◌, ◌>>◌,
}
use loop_skill.Protocol.Value.{str}
use loop_skill.Protocol.Outcome.{at_key}
use loop_skill.Protocol.Envelope.{
  ActorRef, Command, Grant, Receipt, ReceiptOutcome, TrustClass, domain_digest, payload_text,
}
use loop_skill.Prelude.{
  Bool, Dict, List, Option, String, [], any, contains, false, if◌then◌else◌, keys, lookup, map,
  none, not, opt_eq, select, sorted_items, some, true, values, ◌&&◌, ◌++◌, ◌==◌, ◌||◌, ◌∷◌,
}

-- `INSERT INTO t(key, …)`, with the primary key
unfoldable pub with_row : {A : Type 0} → String → A → Dict A → Answer (Dict A)
with_row key row table =
    if contains key table then raised database_error else returned (table ++ ((key, row) ∷ []))

set_descriptors : Dict Descriptor → Transaction (Unit {0})
set_descriptors table db = (record db { loop_descriptors = table }, returned tt)

insert_descriptor : String → Descriptor → Transaction (Unit {0})
insert_descriptor loop_ref row = do
  table ← query λ db. with_row loop_ref row db.loop_descriptors
  set_descriptors table

set_actors : Dict (Owned ActorRef) → Transaction (Unit {0})
set_actors table db = (record db { authority_actors = table }, returned tt)

insert_actor : String → Owned ActorRef → Transaction (Unit {0})
insert_actor actor_ref row = do
  table ← query λ db. with_row actor_ref row db.authority_actors
  set_actors table

set_grants : Dict (Owned Grant) → Transaction (Unit {0})
set_grants table db = (record db { authority_grants = table }, returned tt)

insert_grant : String → Owned Grant → Transaction (Unit {0})
insert_grant grant_ref row = do
  table ← query λ db. with_row grant_ref row db.authority_grants
  set_grants table

set_receipts : Dict (Owned Receipt) → Transaction (Unit {0})
set_receipts table db = (record db { authority_receipts = table }, returned tt)

insert_receipt : String → Owned Receipt → Transaction (Unit {0})
insert_receipt receipt_ref row = do
  table ← query λ db. with_row receipt_ref row db.authority_receipts
  set_receipts table

same_kind : TrustKind → TrustKind → Bool
same_kind TrustKind.actor TrustKind.actor = true
same_kind TrustKind.grant TrustKind.grant = true
same_kind TrustKind.receipt TrustKind.receipt = true
same_kind _ _ = false

same_root : TrustRoot → TrustRoot → Bool
unfolding same_kind
same_root a b =
    (a.loop_ref == b.loop_ref)
    && same_kind a.trust_kind b.trust_kind
    && (a.issuer_ref == b.issuer_ref)

insert_root : TrustRoot → Transaction (Unit {0})
unfolding same_root
insert_root row db =
    if any (same_root row) db.authority_trust_roots
    then (db, raised database_error)
    else (record db { authority_trust_roots = db.authority_trust_roots ++ (row ∷ []) }, returned tt)

insert_roots : String → TrustKind → Dict String → Transaction (Unit {0})
insert_roots loop_ref kind [] = give tt
insert_roots loop_ref kind ((issuer_ref, trust) ∷ issuers) =
    insert_root (record {
      loop_ref = loop_ref;
      trust_kind = kind;
      issuer_ref = issuer_ref;
      issuer_trust = trust;
    })
    >> insert_roots loop_ref kind issuers

owned : {A : Type 0} → String → A → Owned A
owned loop_ref a = record { loop_ref = loop_ref; value = a }

same_trust : TrustClass → TrustClass → Bool
same_trust TrustClass.strict TrustClass.strict = true
same_trust TrustClass.cooperative TrustClass.cooperative = true
same_trust (TrustClass.other a) (TrustClass.other b) = a == b
same_trust _ _ = false

same_outcome : ReceiptOutcome → ReceiptOutcome → Bool
same_outcome ReceiptOutcome.observed ReceiptOutcome.observed = true
same_outcome ReceiptOutcome.unknown ReceiptOutcome.unknown = true
same_outcome ReceiptOutcome.unverifiable ReceiptOutcome.unverifiable = true
same_outcome ReceiptOutcome.acknowledged ReceiptOutcome.acknowledged = true
same_outcome (ReceiptOutcome.other a) (ReceiptOutcome.other b) = a == b
same_outcome _ _ = false

-- two receipts with the same canonical bytes
same_receipt : Receipt → Receipt → Bool
unfolding same_trust same_outcome
same_receipt a b =
    (a.receipt_ref == b.receipt_ref)
    && (a.issuer_ref == b.issuer_ref)
    && (a.issuer_trust == b.issuer_trust)
    && same_trust a.trust_class b.trust_class
    && (a.action == b.action)
    && (a.loop_ref == b.loop_ref)
    && (a.subject_ref == b.subject_ref)
    && opt_eq a.attempt_ref b.attempt_ref
    && opt_eq a.target_ref b.target_ref
    && opt_eq a.request_digest b.request_digest
    && opt_eq a.provider_idempotency_key b.provider_idempotency_key
    && opt_eq a.provider_resource_ref b.provider_resource_ref
    && same_outcome a.outcome b.outcome
    && (a.issued_at == b.issued_at)
    && (a.expires_at == b.expires_at)
    && (a.evidence_digest == b.evidence_digest)

-- `sorted(texts)`
sorted_texts : List String → List String
sorted_texts texts = keys (sorted_items (map (λ text. (text, text)) texts))

module _ (host : Host) where
  insert_actors : String → Dict ActorRef → Transaction (Unit {0})
  insert_actors loop_ref [] = give tt
  insert_actors loop_ref ((actor_ref, actor) ∷ actors) = do
    lift (host.canonical (actor_json actor))
    insert_actor actor_ref (owned loop_ref actor)
    insert_actors loop_ref actors

  insert_grants : String → Dict Grant → Transaction (Unit {0})
  insert_grants loop_ref [] = give tt
  insert_grants loop_ref ((grant_ref, grant) ∷ grants) = do
    lift (host.canonical (grant_json grant))
    insert_grant grant_ref (owned loop_ref grant)
    insert_grants loop_ref grants

  -- the loop's own actors and grants, and all trusted issuers
  insert_authority : Command → String → Dict ActorRef → Dict Grant → Transaction (Unit {0})
  insert_authority c loop_ref actors grants = do
    raise_when (not (contains c.actor_ref actors) || not (contains c.authority_grant_ref grants))
        corruption
    insert_actors loop_ref (sorted_items actors)
    insert_grants loop_ref (sorted_items grants)
    insert_roots loop_ref TrustKind.actor (sorted_items host.authority.trusted_actor_issuers)
    insert_roots loop_ref TrustKind.grant (sorted_items host.authority.trusted_grant_issuers)
    insert_roots loop_ref TrustKind.receipt (sorted_items host.authority.trusted_receipt_issuers)

  -- `_sync_loop_identity`
  pub sync_loop_identity : Command → Transaction (Unit {0})
  sync_loop_identity c = do
    objective ← lift (at_key (payload_text c "objective"))
    digest ← lift (domain_digest host.runtime "loopskill-goal-objective-v1\n" (str objective))
    insert_descriptor c.subject.loop_ref
        (record { goal_text = objective; goal_digest = digest; created_at = c.issued_at })
    insert_authority c c.subject.loop_ref
        (select (λ (a : ActorRef). a.loop_namespace == c.subject.loop_ref) host.authority.actors)
        (select (λ (g : Grant). g.loop_scope == c.subject.loop_ref) host.authority.grants)

  -- the receipt of the authority, if it is of the loop
  own_receipt : String → Option Receipt → Answer Receipt
  own_receipt loop_ref none = raised corruption
  own_receipt loop_ref (some r) = if r.loop_ref == loop_ref then returned r else raised corruption

  store_receipt : String → String → Receipt → Option (Owned Receipt) → Transaction (Unit {0})
  store_receipt loop_ref receipt_ref r none = insert_receipt receipt_ref (owned loop_ref r)
  store_receipt loop_ref receipt_ref r (some row) =
      raise_when (not (same_receipt row.value r)) corruption

  pub sync_receipt : String → String → Transaction (Unit {0})
  sync_receipt loop_ref receipt_ref = do
    r ← query λ db. own_receipt loop_ref (lookup receipt_ref host.authority.receipts)
    lift (host.canonical (receipt_json r))
    existing ← query λ db. returned (lookup receipt_ref db.authority_receipts)
    store_receipt loop_ref receipt_ref r existing

  sync_each : String → List String → Transaction (Unit {0})
  sync_each loop_ref [] = give tt
  sync_each loop_ref (receipt_ref ∷ refs) =
      sync_receipt loop_ref receipt_ref >> sync_each loop_ref refs

  -- `_sync_receipts`
  unfoldable pub sync_receipts : Command → Transaction (Unit {0})
  unfolding sorted_texts sync_each
  sync_receipts c = sync_each c.subject.loop_ref (sorted_texts (values c.bindings.receipt_refs))
