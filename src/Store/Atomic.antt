-- ===== src/Store/Atomic.antt =====
-- What `InMemoryStore.apply` writes, and when: nothing or one whole commit, for one revision of one
-- loop.
use loop_skill.Protocol.Validate.{command_digest}
use loop_skill.Store.{
  events_of, find, answer_rejected, answer_accepted, fresh, record_rejection, apply, finish, known,
  with_digest, ApplyResult, Commit, Entry, Store,
}
use loop_skill.Protocol.Outcome.{
  Boundary, Code, Error, Result, after_commit_before_response, after_reduce_before_commit,
  before_reduce, err, injected_crash, key_error, ok, rejection, value_error,
}
use loop_skill.Protocol.Envelope.{AuthorityContext, Command, Runtime}
use loop_skill.Prelude.{lookup, Option, String, arith, none, refl, some, ◌≡◌, ◌≢◌}
use loop_skill.Kernel.State.{Snapshot}

module _ (rt : Runtime) (ctx : AuthorityContext) (snapshot_digest : Snapshot → Result String) where
  -- the parts of the store that only a commit writes
  abbrev pub SameCommits : Store → Store → Type 0
  SameCommits st t =
      (t.snapshots ≡ st.snapshots)
      × (t.events ≡ st.events)
      × (t.accepted ≡ st.accepted)
      × (t.commit_count ≡ st.commit_count)

  finish-SameCommits :
      (st : Store) (c : Command) (digest : String) (f : Option Boundary) (p : Result Commit)
      (e : Error)
      → (finish rt ctx snapshot_digest st c digest f p).1 ≡ err e
      → e ≢ injected_crash after_commit_before_response
      → SameCommits st (finish rt ctx snapshot_digest st c digest f p).0
  unfolding finish record_rejection
  finish-SameCommits st c digest none (ok new) e h live = cc
  finish-SameCommits st c digest (some after_commit_before_response) (ok new) e h live =
      ground arith
  finish-SameCommits st c digest (some before_reduce) (ok new) e h live = cc
  finish-SameCommits st c digest (some after_reduce_before_commit) (ok new) e h live = cc
  finish-SameCommits st c digest f (err (rejection code)) e h live = (refl, refl, refl, refl)
  finish-SameCommits st c digest f (err key_error) e h live = (refl, refl, refl, refl)
  finish-SameCommits st c digest f (err value_error) e h live = (refl, refl, refl, refl)
  finish-SameCommits st c digest f (err (injected_crash b)) e h live = (refl, refl, refl, refl)

  known-SameCommits :
      (st : Store) (c : Command) (f : Option Boundary) (digest : String)
      (o : Option (Entry ApplyResult)) (q : Option (Entry Code)) (e : Error)
      → find c.subject.loop_ref c.operation_id st.rejected ≡ q
      → (known rt ctx snapshot_digest st c digest f o).1 ≡ err e
      → e ≢ injected_crash after_commit_before_response
      → SameCommits st (known rt ctx snapshot_digest st c digest f o).0
  unfolding known fresh answer_accepted answer_rejected
  known-SameCommits st c f digest (some a) q e found h live = (refl, refl, refl, refl)
  known-SameCommits st c f digest none (some a) e found h live = rw found (refl, refl, refl, refl)
  known-SameCommits st c f digest none none e found h live =
      rw found (finish-SameCommits st c digest f _ e (rw found at h) live)

  with_digest-SameCommits :
      (st : Store) (c : Command) (f : Option Boundary) (m : Result String) (e : Error)
      → (with_digest rt ctx snapshot_digest st c f m).1 ≡ err e
      → e ≢ injected_crash after_commit_before_response
      → SameCommits st (with_digest rt ctx snapshot_digest st c f m).0
  unfolding with_digest
  with_digest-SameCommits st c f (err x) e h live = (refl, refl, refl, refl)
  with_digest-SameCommits st c f (ok digest) e h live =
      known-SameCommits st c f digest _ _ e refl h live

  -- A call of `apply` that raises anything but the crash after the commit (a rejection, a crash
  -- before the commit, a missing key) leaves the snapshots, the events, the accepted operations and
  -- the commit count as they were.
  pub apply_error_unchanged :
      (st : Store) (c : Command) (f : Option Boundary) (e : Error)
      → (apply rt ctx snapshot_digest st c f).1 ≡ err e
      → e ≢ injected_crash after_commit_before_response
      → SameCommits st (apply rt ctx snapshot_digest st c f).0
  unfolding apply
  apply_error_unchanged st c f e h live =
      with_digest-SameCommits st c f (command_digest rt c) e h live

  -- the parts of a store that belong to another loop
  abbrev pub SameLoop : String → Store → Store → Type 0
  SameLoop j st t =
      (lookup j t.snapshots ≡ lookup j st.snapshots) × (events_of t j ≡ events_of st j)
