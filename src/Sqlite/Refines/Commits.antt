-- ===== src/Sqlite/Refines/Commits.antt =====
-- A commit of the durable store is a commit of the in-memory store.
use loop_skill.Sqlite.Wire.{Host}
use loop_skill.Sqlite.Database.{row_snapshot, accepted, snapshot_of, loop_events, Database}
use loop_skill.Protocol.Envelope.{Command, Event}
use loop_skill.Prelude.{
  arith, none, true, ap, subst, [], append_nil, eq_iff, eq_refl, if◌then◌else◌, some, sym, ◌++◌,
  ◌∙◌, Bool-cases, List, String, inl, inr, length, lookup, lookup-insert, ◌==◌, ◌≡◌,
}
use loop_skill.Sqlite.Refines.{Represents, accepted_part, rejected_part}
use loop_skill.Sqlite.Refines.Tables.{
  loop_events-append, loop_events-event_rows, find-append, find-record_entry,
}
use loop_skill.Sqlite.Refines.Written.{row_of_loop, IsWritten}
use loop_skill.Sqlite.Write.{Write, operation_row}
use loop_skill.Store.{
  events_of, Commit, Store, accepted_entry, commit, find, has_key, sequence_from,
}

module _ (host : Host) (c : Command) (digest : String) (w : Write) (events : List Event) where
  abbrev pub commit_of : Commit
  commit_of = record { candidate = w.candidate; pending = events; result = w.result }

  abbrev pub committed_store : Store → Store
  committed_store st = commit host.runtime host.authority host.snapshot_digest st c digest commit_of

  module _ (db new : Database) (st : Store) (old : Represents db st)
      (written : IsWritten host c digest w db new)
      (numbered : w.sequenced
        ≡ sequence_from (length (loop_events c.subject.loop_ref db.events)) events) where
    snapshots_agree : (l : String) → snapshot_of l new ≡ lookup l (committed_store st).snapshots
    unfolding commit
    snapshots_agree l =
        ap (λ rows. row_snapshot (lookup l rows)) written.loops
        ∙ ap row_snapshot (lookup-insert c.subject.loop_ref l _ db.loops)
        ∙ picked
        ∙ sym (lookup-insert c.subject.loop_ref l w.candidate st.snapshots)
      where
        picked :
            row_snapshot
              (if c.subject.loop_ref == l then some (row_of_loop w) else lookup l db.loops)
            ≡ (if c.subject.loop_ref == l then some w.candidate else lookup l st.snapshots)
        picked = elim (Bool-cases (c.subject.loop_ref == l)) [
          | inl same ↦ rw same
          | inr other ↦ rw other (old.snapshots l)
        ]

    -- the events of a loop after the commit
    new_events :
        (l : String)
        → loop_events l new.events
          ≡ loop_events l db.events ++ (if c.subject.loop_ref == l then w.sequenced else [])
    new_events l =
        ap (loop_events l) written.events
        ∙ loop_events-append l db.events _
        ∙ ap (λ es. loop_events l db.events ++ es)
            (loop_events-event_rows l c.subject.loop_ref c.operation_id w.sequenced)

    own_events :
        loop_events c.subject.loop_ref new.events
        ≡ events_of (committed_store st) c.subject.loop_ref
    unfolding commit
    own_events =
        new_events c.subject.loop_ref
        ∙ rw (lookup-insert, eq_refl c.subject.loop_ref, numbered, old.events c.subject.loop_ref)

    events_agree : (l : String) → loop_events l new.events ≡ events_of (committed_store st) l
    unfolding commit
    events_agree l = elim (Bool-cases (c.subject.loop_ref == l)) [
      | inl same ↦
          subst (λ k. loop_events k new.events ≡ events_of (committed_store st) k)
            ((eq_iff c.subject.loop_ref l).0 same) own_events
      | inr other ↦ new_events l ∙ rw (lookup-insert, other, append_nil) (old.events l)
    ]

    accepted_agree :
        (l o : String)
        → accepted_part (find l o new.operations) ≡ find l o (committed_store st).accepted
    unfolding commit
    accepted_agree l o =
        elim (Bool-cases (has_key l o (operation_row c digest (accepted w.result)))) [
          | inl same ↦ rw (
            written.operations,
            find-append l o (operation_row c digest (accepted w.result)) db.operations
                written.absent,
            same,
            find-record_entry l o (accepted_entry c digest commit_of) st.accepted,
            same,
          )
          | inr other ↦
              rw
                (
                  written.operations,
                  find-append l o (operation_row c digest (accepted w.result)) db.operations
                      written.absent,
                  other,
                  find-record_entry l o (accepted_entry c digest commit_of) st.accepted,
                  other,
                )
                (old.accepted l o)
        ]

    free :
        (l o : String)
        → has_key l o (operation_row c digest (accepted w.result)) ≡ true
        → none ≡ find l o st.rejected
    free l o same = ground (
      arith,
      eq_iff c.subject.loop_ref l,
      eq_iff c.operation_id o,
      ap rejected_part (sym written.absent) ∙ old.rejected c.subject.loop_ref c.operation_id,
    )

    rejected_agree :
        (l o : String)
        → rejected_part (find l o new.operations) ≡ find l o (committed_store st).rejected
    unfolding commit
    rejected_agree l o =
        elim (Bool-cases (has_key l o (operation_row c digest (accepted w.result)))) [
          | inl same ↦
              rw
                (
                  written.operations,
                  find-append l o (operation_row c digest (accepted w.result)) db.operations
                      written.absent,
                  same,
                )
                (free l o same)
          | inr other ↦
              rw
                (
                  written.operations,
                  find-append l o (operation_row c digest (accepted w.result)) db.operations
                      written.absent,
                  other,
                )
                (old.rejected l o)
        ]

    pub commit-Represents : Represents new (committed_store st)
    commit-Represents = record {
      snapshots = snapshots_agree;
      events = events_agree;
      accepted = accepted_agree;
      rejected = rejected_agree;
    }
