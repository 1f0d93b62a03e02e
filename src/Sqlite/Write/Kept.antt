-- ===== src/Sqlite/Write/Kept.antt =====
-- The statements of `apply` take nothing back.
use loop_skill.Sqlite.Keeps.{keeps, Keeps, Keeps-bind, Keeps-lift, Keeps-weaken}
use loop_skill.Sqlite.Extends.{
  same, syncs, extends, Extends, Extends-refl, Extends-same, Same, Syncs,
}
use loop_skill.Sqlite.Extends.Rows.{insert_event-Keeps, insert_operation-Keeps}
use loop_skill.Sqlite.Wire.{Host}
use loop_skill.Sqlite.Database.{accepted, rejected, Recorded, Durable, EventRow}
use loop_skill.Protocol.Outcome.{Code}
use loop_skill.Protocol.Envelope.{Command}
use loop_skill.Prelude.{subst, sym, Bool, List, Option, String, [], false, refl, true, ◌∷◌}
use loop_skill.Kernel.State.{Snapshot}
use loop_skill.Sqlite.Write.{
  write_outcome, write_rest, sync_identity_if, Write, record_rejection, reduce, run_new, sync,
  write, write_events, write_snapshot,
}
use loop_skill.Sqlite.Outbox.Kept.{sync_outbox-Keeps}
use loop_skill.Sqlite.Identity.Kept.{sync_loop_identity-Keeps, sync_receipts-Keeps}

module _ (host : Host) where
  pub reduce-Keeps : (c : Command) (f : Option Durable) → Keeps Same (reduce host c f)
  unfolding reduce
  reduce-Keeps c f = search (keeps, same) depth 20

  pub write_outcome-Keeps :
      (c : Command) (digest : String) (outcome : Recorded)
      → Keeps Extends (write_outcome host c digest outcome)
  unfolding write_outcome
  write_outcome-Keeps c digest outcome = search (keeps, extends, insert_operation-Keeps)

  write_events-Keeps : (rows : List EventRow) → Keeps Extends (write_events host rows)
  unfolding write_events
  write_events-Keeps [] = search (keeps, extends)
  write_events-Keeps (row ∷ rows) =
      Keeps-bind extends _ _ (Keeps-lift extends _)
        (λ u. Keeps-bind extends _ _ (insert_event-Keeps row) (λ v. write_events-Keeps rows))

  write_snapshot-Keeps :
      (loop_ref : String) (w : Write) → Keeps Extends (write_snapshot host loop_ref w)
  unfolding write_snapshot
  write_snapshot-Keeps loop_ref w = record { at = λ db. Extends-same refl refl refl refl }

  sync_identity_if-Keeps : (b : Bool) (c : Command) → Keeps Syncs (sync_identity_if host b c)
  unfolding sync_identity_if
  sync_identity_if-Keeps true c = sync_loop_identity-Keeps host c
  sync_identity_if-Keeps false c = search (keeps, syncs)

  pub sync-Keeps : (c : Command) (s : Snapshot) → Keeps Syncs (sync host c s)
  unfolding sync
  sync-Keeps c s =
      search (keeps, syncs, sync_outbox-Keeps, sync_identity_if-Keeps, sync_receipts-Keeps) depth 9

  sync-Extends : (c : Command) (s : Snapshot) → Keeps Extends (sync host c s)
  sync-Extends c s = Keeps-weaken _ (λ a b h. h.extended) (sync-Keeps c s)

  pub write_rest-Keeps :
      (c : Command) (f : Option Durable) (w : Write) → Keeps Extends (write_rest host c f w)
  unfolding write_rest
  write_rest-Keeps c f w =
      search (keeps, extends, write_events-Keeps, write_snapshot-Keeps, sync-Extends) depth 20

  write-Keeps :
      (c : Command) (digest : String) (f : Option Durable) (w : Write)
      → Keeps Extends (write host c digest f w)
  unfolding write
  write-Keeps c digest f w =
      Keeps-bind extends _ _ (write_outcome-Keeps c digest (accepted w.result))
        (λ u. write_rest-Keeps c f w)

  pub run_new-Keeps :
      (c : Command) (digest : String) (f : Option Durable) → Keeps Extends (run_new host c digest f)
  unfolding run_new
  run_new-Keeps c digest f =
      Keeps-bind extends _ _
        (Keeps-weaken _ (λ a b e. subst (Extends a) (sym e) (Extends-refl a)) (reduce-Keeps c f))
        (λ w. write-Keeps c digest f w)

  pub record_rejection-Keeps :
      (c : Command) (digest : String) (code : Code)
      → Keeps Extends (record_rejection host c digest code)
  unfolding record_rejection
  record_rejection-Keeps c digest code = write_outcome-Keeps c digest (rejected code)
