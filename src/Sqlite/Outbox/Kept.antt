-- ===== src/Sqlite/Outbox/Kept.antt =====
-- `_sync_outbox` takes nothing back: an attempt that has been handed out stays so.
use loop_skill.Sqlite.Keeps.{keeps, Keeps, Keeps-bind, Keeps-weaken}
use loop_skill.Sqlite.Extends.{syncs, Same-Syncs, Syncs}
use loop_skill.Sqlite.Extends.Rows.{upsert_attempt-Keeps}
use loop_skill.Sqlite.Wire.{Host}
use loop_skill.Prelude.{Dict, String, [], ◌∷◌}
use loop_skill.Kernel.State.{Attempt, Snapshot}
use loop_skill.Sqlite.Outbox.{sync_attempt, sync_attempts, sync_outbox}
use loop_skill.Sqlite.Wire.Kept.{attempt_wire-Keeps}

module _ (host : Host) where
  sync_attempt-Keeps :
      (loop_ref : String) (s : Snapshot) (attempt_ref : String) (a : Attempt)
      → Keeps Syncs (sync_attempt host loop_ref s attempt_ref a)
  unfolding sync_attempt
  sync_attempt-Keeps loop_ref s attempt_ref a =
      Keeps-bind syncs _ _ (Keeps-weaken _ Same-Syncs (attempt_wire-Keeps host s attempt_ref a))
        (λ wire. search (keeps, syncs, upsert_attempt-Keeps))

  sync_attempts-Keeps :
      (loop_ref : String) (s : Snapshot) (attempts : Dict Attempt)
      → Keeps Syncs (sync_attempts host loop_ref s attempts)
  unfolding sync_attempts
  sync_attempts-Keeps loop_ref s [] = search (keeps, syncs)
  sync_attempts-Keeps loop_ref s ((attempt_ref, a) ∷ attempts) =
      Keeps-bind syncs _ _ (sync_attempt-Keeps loop_ref s attempt_ref a)
        (λ u. sync_attempts-Keeps loop_ref s attempts)

  pub sync_outbox-Keeps :
      (loop_ref : String) (s : Snapshot) → Keeps Syncs (sync_outbox host loop_ref s)
  unfolding sync_outbox
  sync_outbox-Keeps loop_ref s = search (keeps, syncs, sync_attempts-Keeps) depth 9
