-- ===== src/Store/Integrity/Kept.antt =====
-- The invariant of the store is kept by every call of `apply`.
use loop_skill.Protocol.Validate.{command_digest}
use loop_skill.Kernel.Reduce.Revision.{reduce_command_revision}
use loop_skill.Kernel.Reduce.{reduce_command}
use loop_skill.Store.Integrity.{IsConsistent, IsSequenced}
use loop_skill.Store.{
  accepted_entry, count_loop-record_entry, answer_accepted, answer_rejected, count_loop, events_of,
  find, record_rejection, apply, commit, finish, fresh, known, prepare, revision_of, sequence_from,
  with_digest, ApplyResult, Commit, Entry, SequencedEvent, Store,
}
use loop_skill.Protocol.Outcome.{
  Boundary, Code, Result, err, injected_crash, key_error, ok, rejection, value_error,
}
use loop_skill.Protocol.Envelope.{AuthorityContext, Command, Event, Runtime}
use loop_skill.Prelude.{
  ◌∙◌, subst, Bool-cases, Keyed-insert, List, Option, String, [], ap, arith, eq_iff, eqb→eq, false,
  inl, inr, length, lookup, lookup-insert, none, refl, some, ℕ, ◌++◌, ◌+◌, ◌==◌, ◌∷◌, ◌≡◌,
}
use loop_skill.Kernel.State.{Reduction, Snapshot}

IsSequenced-sequence_from : (n : ℕ) (new : List Event) → IsSequenced n (sequence_from n new)
unfolding sequence_from
IsSequenced-sequence_from n [] = tt
IsSequenced-sequence_from n (e ∷ es) = (refl, IsSequenced-sequence_from (n + 1) es)

IsSequenced-append :
    (n : ℕ) (es fs : List SequencedEvent)
    → IsSequenced n es
    → IsSequenced (n + length es) fs
    → IsSequenced n (es ++ fs)
IsSequenced-append n [] fs h k = subst (λ m. IsSequenced m fs) (omega arith) k
IsSequenced-append n (e ∷ es) fs h k =
    (h.0, IsSequenced-append (n + 1) es fs h.1 (subst (λ m. IsSequenced m fs) (omega arith) k))

module _ (rt : Runtime) (ctx : AuthorityContext) (snapshot_digest : Snapshot → Result String) where
  -- the reduction behind a prepared commit
  pub prepare_reduces :
      (st : Store) (c : Command) (f : Option Boundary) (new : Commit)
      → prepare rt ctx snapshot_digest st c f ≡ ok new
      → (r : Reduction) × (reduce_command rt ctx c (lookup c.subject.loop_ref st.snapshots) ≡ ok r)
        × (new.candidate ≡ r.snapshot)
        × (new.result.loop_revision ≡ r.snapshot.loop_revision)
        × (new.result.replayed ≡ false)
        × (new.pending ≡ r.events)
  unfolding prepare
  prepare_reduces st c f new h = ground arith

  -- what a prepared commit knows of the loop's revision
  pub prepare_revision :
      (st : Store) (c : Command) (f : Option Boundary) (new : Commit)
      → prepare rt ctx snapshot_digest st c f ≡ ok new
      → revision_of (lookup c.subject.loop_ref st.snapshots) ≡ c.expected_loop_revision
  unfolding prepare
  prepare_revision st c f new h = ground (
    arith,
    eqb→eq (revision_of (lookup c.subject.loop_ref st.snapshots)) c.expected_loop_revision,
  )

  pub prepare_advances :
      (st : Store) (c : Command) (f : Option Boundary) (new : Commit)
      → prepare rt ctx snapshot_digest st c f ≡ ok new
      → (new.candidate.loop_revision ≡ c.expected_loop_revision + 1)
        × (new.result.loop_revision ≡ c.expected_loop_revision + 1)
        × (new.result.replayed ≡ false)
  prepare_advances st c f new h =
      let (r, reduced, candidate, revision, plain, pending) = prepare_reduces st c f new h in
      let at : r.snapshot.loop_revision ≡ c.expected_loop_revision + 1 =
        (reduce_command_revision rt ctx c _ r reduced).0 in
      (ap (λ (s : Snapshot). s.loop_revision) candidate ∙ at, revision ∙ at, plain)

  commit-IsSequenced :
      (st : Store) (c : Command) (digest : String) (new : Commit) (j : String)
      → IsConsistent st
      → IsSequenced 0 (events_of (commit rt ctx snapshot_digest st c digest new) j)
  unfolding commit
  commit-IsSequenced st c digest new j h = elim (Bool-cases (c.subject.loop_ref == j)) [
    | inl same ↦
        simp (lookup-insert, same)
          (IsSequenced-append 0 (events_of st c.subject.loop_ref) _ (h.sequenced c.subject.loop_ref)
            (subst
              (λ m.
                IsSequenced m
                  (sequence_from (length (events_of st c.subject.loop_ref)) new.pending))
              (omega arith)
              (IsSequenced-sequence_from (length (events_of st c.subject.loop_ref)) new.pending)))
    | inr other ↦ simp (lookup-insert, other) (h.sequenced j)
  ]

  counted_self :
      (st : Store) (c : Command) (new : Commit) (j : String)
      → revision_of (lookup c.subject.loop_ref st.snapshots) + 1 ≡ new.candidate.loop_revision
      → IsConsistent st
      → c.subject.loop_ref ≡ j
      → new.candidate.loop_revision ≡ count_loop j st.accepted + 1
  counted_self st c new j next h e =
      subst (λ i. new.candidate.loop_revision ≡ count_loop i st.accepted + 1) e
        (omega (arith, h.counted c.subject.loop_ref))

  commit-counted :
      (st : Store) (c : Command) (digest : String) (new : Commit) (j : String)
      → find c.subject.loop_ref c.operation_id st.accepted ≡ none
      → revision_of (lookup c.subject.loop_ref st.snapshots) + 1 ≡ new.candidate.loop_revision
      → IsConsistent st
      → let t = commit rt ctx snapshot_digest st c digest new in
        revision_of (lookup j t.snapshots) ≡ count_loop j t.accepted
  unfolding commit
  commit-counted st c digest new j absent next h = elim (Bool-cases (c.subject.loop_ref == j)) [
    | inl same ↦
        simp
          (
            lookup-insert,
            same,
            count_loop-record_entry j (accepted_entry c digest new) st.accepted absent,
          )
          (counted_self st c new j next h ((eq_iff c.subject.loop_ref j).0 same))
    | inr other ↦
        simp
          (
            lookup-insert,
            other,
            count_loop-record_entry j (accepted_entry c digest new) st.accepted absent,
          )
          (omega (arith, h.counted j))
  ]

  finish-IsConsistent :
      (st : Store) (c : Command) (digest : String) (f : Option Boundary) (p : Result Commit)
      → find c.subject.loop_ref c.operation_id st.accepted ≡ none
      → prepare rt ctx snapshot_digest st c f ≡ p
      → IsConsistent st
      → IsConsistent (finish rt ctx snapshot_digest st c digest f p).0
  unfolding finish record_rejection commit
  finish-IsConsistent st c digest f (ok new) absent e h =
      let (next, _, _) = prepare_advances st c f new e in
      record {
        sequenced = λ j. commit-IsSequenced st c digest new j h;
        counted = λ j.
            commit-counted st c digest new j absent
              (omega (arith, prepare_revision st c f new e, next)) h;
        keyed = Keyed-insert c.subject.loop_ref new.candidate st.snapshots h.keyed;
      }
  finish-IsConsistent st c digest f (err (rejection code)) absent e h = record {
    sequenced = h.sequenced;
    counted = h.counted;
    keyed = h.keyed;
  }
  finish-IsConsistent st c digest f (err key_error) absent e h = h
  finish-IsConsistent st c digest f (err value_error) absent e h = h
  finish-IsConsistent st c digest f (err (injected_crash b)) absent e h = h

  fresh-IsConsistent :
      (st : Store) (c : Command) (digest : String) (f : Option Boundary) (o : Option (Entry Code))
      → find c.subject.loop_ref c.operation_id st.accepted ≡ none
      → IsConsistent st
      → IsConsistent (fresh rt ctx snapshot_digest st c digest f o).0
  unfolding fresh answer_rejected
  fresh-IsConsistent st c digest f (some e) absent h = h
  fresh-IsConsistent st c digest f none absent h = finish-IsConsistent st c digest f _ absent refl h

  known-IsConsistent :
      (st : Store) (c : Command) (digest : String) (f : Option Boundary)
      (o : Option (Entry ApplyResult))
      → find c.subject.loop_ref c.operation_id st.accepted ≡ o
      → IsConsistent st
      → IsConsistent (known rt ctx snapshot_digest st c digest f o).0
  unfolding known answer_accepted
  known-IsConsistent st c digest f (some e) found h = h
  known-IsConsistent st c digest f none found h = fresh-IsConsistent st c digest f _ found h

  with_digest-IsConsistent :
      (st : Store) (c : Command) (f : Option Boundary) (m : Result String)
      → IsConsistent st
      → IsConsistent (with_digest rt ctx snapshot_digest st c f m).0
  unfolding with_digest
  with_digest-IsConsistent st c f (ok digest) h = known-IsConsistent st c digest f _ refl h
  with_digest-IsConsistent st c f (err e) h = h

  -- Every call of `apply`, whether it returns, rejects or crashes at any boundary, keeps the
  -- invariant: in every loop the events are numbered from 1 without a gap, and the revision is the
  -- number of accepted operations.
  pub apply-IsConsistent :
      (st : Store) (c : Command) (f : Option Boundary)
      → IsConsistent st
      → IsConsistent (apply rt ctx snapshot_digest st c f).0
  unfolding apply
  apply-IsConsistent st c f h = with_digest-IsConsistent st c f (command_digest rt c) h
