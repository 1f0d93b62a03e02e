-- ===== src/Sqlite/Identity/Kept.antt =====
-- `_sync_loop_identity` and `_sync_receipts` take nothing back.
use loop_skill.Sqlite.Keeps.{keeps, Keeps, Keeps-bind, Keeps-lift}
use loop_skill.Sqlite.Extends.{syncs, Syncs, Syncs-same}
use loop_skill.Sqlite.Wire.{Host}
use loop_skill.Protocol.Envelope.{ActorRef, Command, Grant, Receipt}
use loop_skill.Sqlite.Identity.{
  same_root, set_actors, set_descriptors, set_grants, set_receipts, sorted_texts, with_row,
  insert_descriptor, insert_actor, insert_grant, insert_receipt, insert_root, insert_roots,
  insert_actors, insert_grants, insert_authority, sync_loop_identity, store_receipt, sync_receipt,
  sync_each, sync_receipts, owned,
}
use loop_skill.Sqlite.Database.{◌>>=◌, Descriptor, TrustKind, Owned, TrustRoot}
use loop_skill.Prelude.{
  values, Bool-cases, Dict, List, Option, String, [], any, inl, inr, lookup-append, none, refl, ◌∷◌,
  contains, some,
}

set_descriptors-Keeps : (table : Dict Descriptor) → Keeps Syncs (set_descriptors table)
unfolding set_descriptors
set_descriptors-Keeps table = record { at = λ db. Syncs-same refl refl refl refl refl refl }

insert_descriptor-Keeps :
    (loop_ref : String) (row : Descriptor) → Keeps Syncs (insert_descriptor loop_ref row)
unfolding insert_descriptor
insert_descriptor-Keeps loop_ref row = search (keeps, syncs, set_descriptors-Keeps)

set_actors-Keeps : (table : Dict (Owned ActorRef)) → Keeps Syncs (set_actors table)
unfolding set_actors
set_actors-Keeps table = record { at = λ db. Syncs-same refl refl refl refl refl refl }

insert_actor-Keeps :
    (actor_ref : String) (row : Owned ActorRef) → Keeps Syncs (insert_actor actor_ref row)
unfolding insert_actor
insert_actor-Keeps actor_ref row = search (keeps, syncs, set_actors-Keeps)

set_grants-Keeps : (table : Dict (Owned Grant)) → Keeps Syncs (set_grants table)
unfolding set_grants
set_grants-Keeps table = record { at = λ db. Syncs-same refl refl refl refl refl refl }

insert_grant-Keeps :
    (grant_ref : String) (row : Owned Grant) → Keeps Syncs (insert_grant grant_ref row)
unfolding insert_grant
insert_grant-Keeps grant_ref row = search (keeps, syncs, set_grants-Keeps)

insert_receipt-Keeps :
    (receipt_ref : String) (row : Owned Receipt) → Keeps Syncs (insert_receipt receipt_ref row)
unfolding insert_receipt with_row set_receipts ◌>>=◌
insert_receipt-Keeps receipt_ref row = record {
  at = λ db. elim (Bool-cases (contains receipt_ref db.authority_receipts)) [
    | inl old ↦ rw old (syncs.stays db)
    | inr new ↦ rw new (record {
      extended = record {
        operations = λ l o e h. h;
        blobs = λ d r h. h;
        receipts = λ ref r h. lookup-append ref r db.authority_receipts _ h;
        claims = λ a h. h;
      };
      loops = refl;
      operations = refl;
      events = refl;
    })
  ];
}

insert_root-Keeps : (row : TrustRoot) → Keeps Syncs (insert_root row)
unfolding insert_root
insert_root-Keeps row = record {
  at = λ db. elim (Bool-cases (any (same_root row) db.authority_trust_roots)) [
    | inl old ↦ rw old (syncs.stays db)
    | inr new ↦ rw new (Syncs-same refl refl refl refl refl refl)
  ];
}

insert_roots-Keeps :
    (loop_ref : String) (kind : TrustKind) (issuers : Dict String)
    → Keeps Syncs (insert_roots loop_ref kind issuers)
unfolding insert_roots
insert_roots-Keeps loop_ref kind [] = search (keeps, syncs)
insert_roots-Keeps loop_ref kind ((issuer_ref, trust) ∷ issuers) =
    Keeps-bind syncs _ _ (insert_root-Keeps _) (λ u. insert_roots-Keeps loop_ref kind issuers)

module _ (host : Host) where
  insert_actors-Keeps :
      (loop_ref : String) (actors : Dict ActorRef)
      → Keeps Syncs (insert_actors host loop_ref actors)
  unfolding insert_actors
  insert_actors-Keeps loop_ref [] = search (keeps, syncs)
  insert_actors-Keeps loop_ref ((actor_ref, actor) ∷ actors) =
      Keeps-bind syncs _ _ (Keeps-lift syncs _) (λ u.
        Keeps-bind syncs _ _ (insert_actor-Keeps _ _) (λ v. insert_actors-Keeps loop_ref actors))

  insert_grants-Keeps :
      (loop_ref : String) (grants : Dict Grant) → Keeps Syncs (insert_grants host loop_ref grants)
  unfolding insert_grants
  insert_grants-Keeps loop_ref [] = search (keeps, syncs)
  insert_grants-Keeps loop_ref ((grant_ref, grant) ∷ grants) =
      Keeps-bind syncs _ _ (Keeps-lift syncs _) (λ u.
        Keeps-bind syncs _ _ (insert_grant-Keeps _ _) (λ v. insert_grants-Keeps loop_ref grants))

  insert_authority-Keeps :
      (c : Command) (loop_ref : String) (actors : Dict ActorRef) (grants : Dict Grant)
      → Keeps Syncs (insert_authority host c loop_ref actors grants)
  unfolding insert_authority
  insert_authority-Keeps c loop_ref actors grants =
      search (keeps, syncs, insert_actors-Keeps, insert_grants-Keeps, insert_roots-Keeps) depth 9

  pub sync_loop_identity-Keeps : (c : Command) → Keeps Syncs (sync_loop_identity host c)
  unfolding sync_loop_identity
  sync_loop_identity-Keeps c =
      search (keeps, syncs, insert_descriptor-Keeps, insert_authority-Keeps)

  store_receipt-Keeps :
      (loop_ref receipt_ref : String) (r : Receipt) (o : Option (Owned Receipt))
      → Keeps Syncs (store_receipt host loop_ref receipt_ref r o)
  unfolding store_receipt
  store_receipt-Keeps loop_ref receipt_ref r none =
      insert_receipt-Keeps receipt_ref (owned loop_ref r)
  store_receipt-Keeps loop_ref receipt_ref r (some row) = search (keeps, syncs)

  sync_receipt-Keeps :
      (loop_ref receipt_ref : String) → Keeps Syncs (sync_receipt host loop_ref receipt_ref)
  unfolding sync_receipt
  sync_receipt-Keeps loop_ref receipt_ref = search (keeps, syncs, store_receipt-Keeps)

  sync_each-Keeps :
      (loop_ref : String) (refs : List String) → Keeps Syncs (sync_each host loop_ref refs)
  unfolding sync_each
  sync_each-Keeps loop_ref [] = search (keeps, syncs)
  sync_each-Keeps loop_ref (receipt_ref ∷ refs) =
      Keeps-bind syncs _ _ (sync_receipt-Keeps _ _) (λ u. sync_each-Keeps loop_ref refs)

  pub sync_receipts-Keeps : (c : Command) → Keeps Syncs (sync_receipts host c)
  unfolding sync_receipts
  sync_receipts-Keeps c =
      sync_each-Keeps c.subject.loop_ref (sorted_texts (values c.bindings.receipt_refs))
