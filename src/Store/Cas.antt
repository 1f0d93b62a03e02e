-- ===== src/Store/Cas.antt =====
-- The compare-and-set on a loop's revision, and the crash after the commit.
use loop_skill.Store.Integrity.Kept.{prepare_revision, prepare_advances}
use loop_skill.Store.Replay.{finish_returns, answer_rejected-ne-ok, apply-apply}
use loop_skill.Protocol.Validate.{command_digest}
use loop_skill.Store.Atomic.{SameLoop}
use loop_skill.Store.{
  answer_accepted, prepare, apply, commit, finish, fresh, known, revision_of, with_digest,
  ApplyResult, Commit, Entry, Store,
}
use loop_skill.Protocol.Outcome.{
  Boundary, Code, Result, after_commit_before_response, err, injected_crash, key_error, ok,
  rejection, value_error,
}
use loop_skill.Protocol.Envelope.{AuthorityContext, Command, Runtime}
use loop_skill.Prelude.{
  Bool-cases, Option, String, arith, eq_iff, eq_refl, false, inl, inr, lookup, lookup-insert, none,
  refl, some, sym, true, ◌+◌, ◌==◌, ◌≡◌, ◌≢◌,
}
use loop_skill.Kernel.State.{Snapshot}

module _ (rt : Runtime) (ctx : AuthorityContext) (snapshot_digest : Snapshot → Result String) where
  -- what a first answer of `apply` has done to the loop and to the others
  abbrev pub Advances : Store → Command → ApplyResult → Store → Type 0
  Advances st c r t =
      (revision_of (lookup c.subject.loop_ref st.snapshots) ≡ c.expected_loop_revision)
      × (revision_of (lookup c.subject.loop_ref t.snapshots) ≡ c.expected_loop_revision + 1)
      × (r.loop_revision ≡ c.expected_loop_revision + 1)
      × ((j : String) → j ≢ c.subject.loop_ref → SameLoop rt ctx snapshot_digest j st t)

  commit-SameLoop :
      (st : Store) (c : Command) (digest : String) (new : Commit) (j : String)
      → j ≢ c.subject.loop_ref
      → SameLoop rt ctx snapshot_digest j st (commit rt ctx snapshot_digest st c digest new)
  unfolding commit
  commit-SameLoop st c digest new j other = elim (Bool-cases (c.subject.loop_ref == j)) [
    | inl same ↦ absurd (other (sym ((eq_iff c.subject.loop_ref j).0 same)))
    | inr ne ↦ (simp (lookup-insert, ne), simp (lookup-insert, ne))
  ]

  commit-Advances :
      (st : Store) (c : Command) (digest : String) (f : Option Boundary) (new : Commit)
      (r : ApplyResult)
      → prepare rt ctx snapshot_digest st c f ≡ ok new
      → new.result ≡ r
      → Advances st c r (commit rt ctx snapshot_digest st c digest new)
  unfolding commit
  commit-Advances st c digest f new r e same =
      let (next, revision, plain) = prepare_advances rt ctx snapshot_digest st c f new e in
      (
        prepare_revision rt ctx snapshot_digest st c f new e,
        simp (lookup-insert, eq_refl) next,
        rw (← same) revision,
        λ j other. commit-SameLoop st c digest new j other,
      )

  fresh-Advances :
      (st : Store) (c : Command) (digest : String) (f : Option Boundary) (o : Option (Entry Code))
      (r : ApplyResult)
      → (fresh rt ctx snapshot_digest st c digest f o).1 ≡ ok r
      → Advances st c r (fresh rt ctx snapshot_digest st c digest f o).0
  unfolding fresh
  fresh-Advances st c digest f (some e) r h =
      absurd (answer_rejected-ne-ok rt ctx snapshot_digest st c digest e r h)
  fresh-Advances st c digest f none r h =
      let (new, prepared, done, same) =
        finish_returns rt ctx snapshot_digest st c digest f (prepare rt ctx snapshot_digest st c f)
          r h in
      rw done (commit-Advances st c digest f new r prepared same)

  -- a result that is no replay is a first answer
  known-Advances :
      (st : Store) (c : Command) (digest : String) (f : Option Boundary)
      (o : Option (Entry ApplyResult)) (r : ApplyResult)
      → (known rt ctx snapshot_digest st c digest f o).1 ≡ ok r
      → r.replayed ≡ false
      → Advances st c r (known rt ctx snapshot_digest st c digest f o).0
  unfolding known answer_accepted
  known-Advances st c digest f (some e) r h first = absurd (ground arith)
  known-Advances st c digest f none r h first = fresh-Advances st c digest f _ r h

  with_digest-Advances :
      (st : Store) (c : Command) (f : Option Boundary) (m : Result String) (r : ApplyResult)
      → (with_digest rt ctx snapshot_digest st c f m).1 ≡ ok r
      → r.replayed ≡ false
      → Advances st c r (with_digest rt ctx snapshot_digest st c f m).0
  unfolding with_digest
  with_digest-Advances st c f (ok digest) r h first = known-Advances st c digest f _ r h first
  with_digest-Advances st c f (err e) r h first = absurd (ground arith)

  -- A result that is not a replay is given only to a command that expects the loop's current
  -- revision (0 for a loop that does not exist), and moves that loop to the next revision, which the
  -- result names; the snapshot and the events of every other loop stay as they are.
  pub apply-Advances :
      (st : Store) (c : Command) (f : Option Boundary) (r : ApplyResult)
      → (apply rt ctx snapshot_digest st c f).1 ≡ ok r
      → r.replayed ≡ false
      → Advances st c r (apply rt ctx snapshot_digest st c f).0
  unfolding apply
  apply-Advances st c f r h first = with_digest-Advances st c f (command_digest rt c) r h first

  -- the crash after the commit has the commit of the call without a fault
  finish_after_commit :
      (st : Store) (c : Command) (digest : String) (p : Result Commit)
      → (finish rt ctx snapshot_digest st c digest (some after_commit_before_response) p).0
        ≡ (finish rt ctx snapshot_digest st c digest none p).0
  unfolding finish
  finish_after_commit st c digest (ok new) = refl
  finish_after_commit st c digest (err (rejection code)) = refl
  finish_after_commit st c digest (err key_error) = refl
  finish_after_commit st c digest (err value_error) = refl
  finish_after_commit st c digest (err (injected_crash b)) = refl

  after_commit_store :
      (st : Store) (c : Command)
      → (apply rt ctx snapshot_digest st c (some after_commit_before_response)).0
        ≡ (apply rt ctx snapshot_digest st c none).0
  unfolding apply
  after_commit_store st c = digest_case (command_digest rt c)
    where
      rejected_case :
          (digest : String) (o : Option (Entry Code))
          → (fresh rt ctx snapshot_digest st c digest (some after_commit_before_response) o).0
            ≡ (fresh rt ctx snapshot_digest st c digest none o).0
      rejected_case digest (some e) = unfold fresh in refl
      rejected_case digest none = unfold fresh prepare in finish_after_commit st c digest _

      accepted_case :
          (digest : String) (o : Option (Entry ApplyResult))
          → (known rt ctx snapshot_digest st c digest (some after_commit_before_response) o).0
            ≡ (known rt ctx snapshot_digest st c digest none o).0
      accepted_case digest (some e) = unfold known in refl
      accepted_case digest none = unfold known in rejected_case digest _

      digest_case :
          (m : Result String)
          → (with_digest rt ctx snapshot_digest st c (some after_commit_before_response) m).0
            ≡ (with_digest rt ctx snapshot_digest st c none m).0
      digest_case (ok digest) = unfold with_digest in accepted_case digest _
      digest_case (err e) = unfold with_digest in refl

  -- A crash between the commit and the response loses nothing: where the call without a fault
  -- returns a result, the crashed call leaves the same store, and a retry, under any fault, returns
  -- that result as a replay.
  pub retry_after_crash :
      (st : Store) (c : Command) (g : Option Boundary) (r : ApplyResult)
      → (apply rt ctx snapshot_digest st c none).1 ≡ ok r
      → let crashed = (apply rt ctx snapshot_digest st c (some after_commit_before_response)).0 in
        (crashed ≡ (apply rt ctx snapshot_digest st c none).0)
        × (apply rt ctx snapshot_digest crashed c g ≡ (crashed, ok (record r { replayed = true })))
  retry_after_crash st c g r h = (
    after_commit_store st c,
    rw (after_commit_store st c) (apply-apply rt ctx snapshot_digest st c none g r h),
  )
