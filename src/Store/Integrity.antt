-- ===== src/Store/Integrity.antt =====
-- The invariant that `verify_integrity` of v4_alpha/store.py tests, kept by every call of `apply`.
pub mod Kept
pub mod Verify
use loop_skill.Protocol.Validate.{command_digest}
use loop_skill.Kernel.Reduce.{reduce_command}
use loop_skill.Kernel.Reduce.Revision.{reduce_command_revision}
use loop_skill.Store.{
  answer_accepted, answer_rejected, record_rejection, apply, finish, fresh, known, with_digest,
  ApplyResult, Entry, accepted_entry, count_loop-record_entry, count_loop, find, revision_of,
  commit, events_of, prepare, sequence_from, Commit, SequencedEvent, Store,
}
use loop_skill.Protocol.Outcome.{
  Code, err, injected_crash, key_error, rejection, value_error, raise_if, Boundary, Result,
  internal_invariant_violation, ok, ◌>>=◌, ◌>>◌,
}
use loop_skill.Protocol.Envelope.{domain_digest, AuthorityContext, Command, Event, Runtime}
use loop_skill.Prelude.{
  Keyed, eq_iff, some, ◌∙◌, ap, false, subst, eqb→eq, Bool-cases, arith, inl, inr, lookup-insert,
  refl, Bool, Dict, List, Option, String, [], eqb, length, lookup, none, not, true, ℕ, ◌&&◌, ◌++◌,
  ◌+◌, ◌==◌, ◌∷◌, ◌≡◌,
}
use loop_skill.Protocol.Value.{Value}
use loop_skill.Kernel.State.{Reduction, Snapshot}

-- the sequence numbers go on from `n`
abbrev pub IsSequenced : ℕ → List SequencedEvent → Type 0
IsSequenced n [] = Unit
IsSequenced n (e ∷ es) = (e.sequence ≡ n + 1) × IsSequenced (n + 1) es

-- `[event["sequence"] for event in events] == list(range(n + 1, n + 1 + len(events)))`
is_sequenced : ℕ → List SequencedEvent → Bool
is_sequenced n [] = true
is_sequenced n (e ∷ es) = eqb e.sequence (n + 1) && is_sequenced (n + 1) es

-- `snapshot_digest` of v4_alpha/protocol.py, for the dictionary that a snapshot stands for
unfoldable pub digest_of : Runtime → (Snapshot → Value) → Snapshot → Result String
digest_of rt snapshot_value s = domain_digest rt "loopskill-snapshot-v1\n" (snapshot_value s)

check_loops : Runtime → (Snapshot → Value) → Store → Dict Snapshot → Result (Unit {0})
unfolding is_sequenced
check_loops rt snapshot_value st [] = ok tt
check_loops rt snapshot_value st ((loop_ref, s) ∷ rest) = do
  raise_if (not (is_sequenced 0 (events_of st loop_ref))) internal_invariant_violation
  raise_if (not (eqb s.loop_revision (count_loop loop_ref st.accepted)))
      internal_invariant_violation
  digest ← digest_of rt snapshot_value s
  check_loops rt snapshot_value st rest

-- the digests of the blobs
unfoldable pub check_blobs : (List ℕ → String) → Dict (List ℕ) → Result (Unit {0})
check_blobs raw_digest [] = ok tt
check_blobs raw_digest ((digest, content) ∷ rest) =
    raise_if (not (raw_digest content == digest)) internal_invariant_violation
    >> check_blobs raw_digest rest

-- `InMemoryStore.verify_integrity`
pub verify_integrity : Runtime → (Snapshot → Value) → (List ℕ → String) → Store → Result (Unit {0})
unfolding check_loops check_blobs
verify_integrity rt snapshot_value raw_digest st =
    check_blobs raw_digest st.blobs >> check_loops rt snapshot_value st st.snapshots

-- In every loop the events are numbered from 1 and the revision counts the accepted operations;
-- no loop has two snapshots.
pub record IsConsistent (st : Store) : Type 0 where
  pub sequenced : (loop_ref : String) → IsSequenced 0 (events_of st loop_ref)
  pub counted :
      (loop_ref : String)
      → revision_of (lookup loop_ref st.snapshots) ≡ count_loop loop_ref st.accepted
  pub keyed : Keyed st.snapshots
