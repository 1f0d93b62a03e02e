-- ===== src/Store/Honest.antt =====
-- The honesty of the kernel's closures, for every loop of the store.
use loop_skill.Kernel.Closure.Honest.{IsHonest}
use loop_skill.Protocol.Validate.{command_digest}
use loop_skill.Protocol.Outcome.{
  Boundary, Code, Result, err, injected_crash, key_error, ok, rejection, value_error,
}
use loop_skill.Protocol.Envelope.{AuthorityContext, Command, Runtime}
use loop_skill.Prelude.{
  Bool-cases, inl, inr, lookup-insert, ◌==◌, Option, String, lookup, none, refl, some, ◌≡◌,
}
use loop_skill.Kernel.State.{Snapshot}
use loop_skill.Store.Integrity.Kept.{prepare_reduces}
use loop_skill.Store.{
  ApplyResult, Commit, Entry, Store, apply, commit, prepare, finish, fresh, known, with_digest,
  answer_accepted, answer_rejected, record_rejection,
}
use loop_skill.Kernel.Reduce.Honest.{AllHonest, reduce_command-IsHonest}

-- in every loop an execution that claims success has a strict closure assurance
abbrev pub LoopsHonest : Store → Type 0
LoopsHonest st = (j : String) → AllHonest (lookup j st.snapshots)

module _ (rt : Runtime) (ctx : AuthorityContext) (snapshot_digest : Snapshot → Result String) where
  commit-LoopsHonest :
      (st : Store) (c : Command) (digest : String) (f : Option Boundary) (new : Commit)
      → prepare rt ctx snapshot_digest st c f ≡ ok new
      → LoopsHonest st
      → LoopsHonest (commit rt ctx snapshot_digest st c digest new)
  unfolding commit
  commit-LoopsHonest st c digest f new e h j =
      let (r, reduced, candidate, _, _, _) = prepare_reduces rt ctx snapshot_digest st c f new e in
      let honest : IsHonest new.candidate =
        rw candidate (reduce_command-IsHonest rt ctx c _ r reduced (h c.subject.loop_ref)) in
      elim (Bool-cases (c.subject.loop_ref == j)) [
        | inl same ↦ rw (lookup-insert c.subject.loop_ref j new.candidate st.snapshots, same) honest
        | inr other ↦
            rw (lookup-insert c.subject.loop_ref j new.candidate st.snapshots, other) (h j)
      ]

  finish-LoopsHonest :
      (st : Store) (c : Command) (digest : String) (f : Option Boundary) (p : Result Commit)
      → prepare rt ctx snapshot_digest st c f ≡ p
      → LoopsHonest st
      → LoopsHonest (finish rt ctx snapshot_digest st c digest f p).0
  unfolding finish record_rejection
  finish-LoopsHonest st c digest f (ok new) e h = commit-LoopsHonest st c digest f new e h
  finish-LoopsHonest st c digest f (err (rejection code)) e h = h
  finish-LoopsHonest st c digest f (err key_error) e h = h
  finish-LoopsHonest st c digest f (err value_error) e h = h
  finish-LoopsHonest st c digest f (err (injected_crash b)) e h = h

  fresh-LoopsHonest :
      (st : Store) (c : Command) (digest : String) (f : Option Boundary) (o : Option (Entry Code))
      → LoopsHonest st
      → LoopsHonest (fresh rt ctx snapshot_digest st c digest f o).0
  unfolding fresh answer_rejected
  fresh-LoopsHonest st c digest f (some e) h = h
  fresh-LoopsHonest st c digest f none h = finish-LoopsHonest st c digest f _ refl h

  known-LoopsHonest :
      (st : Store) (c : Command) (digest : String) (f : Option Boundary)
      (o : Option (Entry ApplyResult))
      → LoopsHonest st
      → LoopsHonest (known rt ctx snapshot_digest st c digest f o).0
  unfolding known answer_accepted
  known-LoopsHonest st c digest f (some e) h = h
  known-LoopsHonest st c digest f none h = fresh-LoopsHonest st c digest f _ h

  with_digest-LoopsHonest :
      (st : Store) (c : Command) (f : Option Boundary) (m : Result String)
      → LoopsHonest st
      → LoopsHonest (with_digest rt ctx snapshot_digest st c f m).0
  unfolding with_digest
  with_digest-LoopsHonest st c f (ok digest) h = known-LoopsHonest st c digest f _ h
  with_digest-LoopsHonest st c f (err e) h = h

  -- Every call of `apply`, under any fault, keeps this: in every loop of the store, an execution
  -- whose disposition is SUCCEEDED or SUCCEEDED_WITH_LIMITATIONS has a closure assurance of strength
  -- STRICT.
  pub apply-LoopsHonest :
      (st : Store) (c : Command) (f : Option Boundary)
      → LoopsHonest st
      → LoopsHonest (apply rt ctx snapshot_digest st c f).0
  unfolding apply
  apply-LoopsHonest st c f h = with_digest-LoopsHonest st c f (command_digest rt c) h
