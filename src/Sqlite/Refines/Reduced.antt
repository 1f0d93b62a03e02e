-- ===== src/Sqlite/Refines/Reduced.antt =====
-- The reduction of a command in a transaction is that of the in-memory store.
use loop_skill.Kernel.State.{Reduction}
use loop_skill.Sqlite.Wire.{Host}
use loop_skill.Sqlite.Database.{loop_events, returned, snapshot_of, give, Database, Durable}
use loop_skill.Protocol.Outcome.{ok}
use loop_skill.Protocol.Envelope.{Command, Event}
use loop_skill.Prelude.{sym, ap, subst, ◌∙◌, String, arith, List, Option, length, lookup, none, ◌≡◌}
use loop_skill.Sqlite.Write.{result_of, reduce_current, Write, reduce}
use loop_skill.Sqlite.Returns.{returned_injective, lift-returned, query-returned, rest_returned}
use loop_skill.Store.{SequencedEvent, Store, prepare, sequence_from}

module _ (host : Host) where
  -- the checks pass in both stores
  prepare-reduce_current :
      (c : Command) (st : Store) (r : Reduction) (digest : String)
      → reduce_current host c (lookup c.subject.loop_ref st.snapshots) ≡ ok r
      → host.snapshot_digest r.snapshot ≡ ok digest
      → prepare host.runtime host.authority host.snapshot_digest st c none
        ≡ ok (record {
          candidate = r.snapshot;
          pending = r.events;
          result = result_of host c r digest;
        })
  unfolding prepare reduce_current result_of
  prepare-reduce_current c st r digest h d = ground (arith)

  pub reduce_returns :
      (c : Command) (f : Option Durable) (db : Database) (st : Store) {w : Write}
      → snapshot_of c.subject.loop_ref db ≡ lookup c.subject.loop_ref st.snapshots
      → (reduce host c f db).1 ≡ returned w
      → (events : List Event) × (prepare host.runtime host.authority host.snapshot_digest st c none
          ≡ ok (record { candidate = w.candidate; pending = events; result = w.result }))
        × (w.sequenced ≡ sequence_from (length (loop_events c.subject.loop_ref db.events)) events)
  unfolding reduce give
  reduce_returns c f db st same h =
      let (current, p1, e1) = query-returned _ _ db h in
      let h1 = rest_returned h e1 in
      let (r, p2, e2) = lift-returned _ _ db h1 in
      let h2 = rest_returned h1 e2 in
      let (u3, p3, e3) = query-returned _ _ db h2 in
      let h3 = rest_returned h2 e3 in
      let (present, p4, e4) = query-returned _ _ db h3 in
      let h4 = rest_returned h3 e4 in
      let (digest, p5, e5) = lift-returned _ _ db h4 in
      let h5 = rest_returned h4 e5 in
      let current_same = sym (returned_injective p1) ∙ same in
      let drafted = returned_injective h5 in
      (
        r.events,
        subst
            (λ (x : Write).
              prepare host.runtime host.authority host.snapshot_digest st c none
              ≡ ok (record { candidate = x.candidate; pending = r.events; result = x.result }))
            drafted
            (prepare-reduce_current c st r digest
              (subst (λ o. reduce_current host c o ≡ ok r) current_same p2) p5),
        sym (ap (λ (x : Write). x.sequenced) drafted)
            ∙ ap (λ (es : List SequencedEvent). sequence_from (length es) r.events)
                (sym (returned_injective p4)),
      )
