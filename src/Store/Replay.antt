-- ===== src/Store/Replay.antt =====
-- Idempotency of `InMemoryStore.apply`: a command that has been answered is answered again the same
-- way, and nothing is written.
use loop_skill.Protocol.Validate.Digest.{validate_command-digest}
use loop_skill.Protocol.Validate.{command_digest}
use loop_skill.Store.{
  accepted_entry, fresh, find-record_entry_self, known, with_digest, apply, find, commit,
  answer_accepted, answer_rejected, finish, prepare, ApplyResult, Commit, Entry, Store,
}
use loop_skill.Protocol.Outcome.{
  err, injected_crash, key_error, rejection, value_error, Boundary, Code, Result, ok,
}
use loop_skill.Protocol.Envelope.{AuthorityContext, Command, Runtime}
use loop_skill.Prelude.{◌∙◌, ap, eq_refl, none, refl, some, Option, String, arith, true, ◌≡◌, ◌≢◌}
use loop_skill.Kernel.State.{Snapshot}

module _ (rt : Runtime) (ctx : AuthorityContext) (snapshot_digest : Snapshot → Result String) where
  -- a commit is prepared only for a command that carries its digest, and its result is not a replay
  pub prepare-digest :
      (st : Store) (c : Command) (f : Option Boundary) {new : Commit}
      → prepare rt ctx snapshot_digest st c f ≡ ok new
      → command_digest rt c ≡ ok c.request_digest
  unfolding prepare
  prepare-digest st c f h = ground (arith, validate_command-digest rt c)

  -- the second answer to an accepted operation
  answer_again :
      (st : Store) (c : Command) (digest : String) (e : Entry ApplyResult) (r : ApplyResult)
      → (answer_accepted rt ctx snapshot_digest st c digest e).1 ≡ ok r
      → answer_accepted rt ctx snapshot_digest st c digest e
        ≡ (st, ok (record r { replayed = true }))
  unfolding answer_accepted
  answer_again st c digest e r h = ground arith

  pub answer_rejected-ne-ok :
      (st : Store) (c : Command) (digest : String) (e : Entry Code) (r : ApplyResult)
      → (answer_rejected rt ctx snapshot_digest st c digest e).1 ≢ ok r
  unfolding answer_rejected
  answer_rejected-ne-ok st c digest e r h = ground arith

  -- what an operation that returns without a record has committed
  pub finish_returns :
      (st : Store) (c : Command) (digest : String) (f : Option Boundary) (p : Result Commit)
      (r : ApplyResult)
      → (finish rt ctx snapshot_digest st c digest f p).1 ≡ ok r
      → (new : Commit) × (p ≡ ok new)
        × (finish rt ctx snapshot_digest st c digest f p
            ≡ (commit rt ctx snapshot_digest st c digest new, ok r))
        × (new.result ≡ r)
  unfolding finish
  finish_returns st c digest f (ok new) r h = (new, refl, ground arith, ground arith)
  finish_returns st c digest f (err (rejection code)) r h = cc
  finish_returns st c digest f (err key_error) r h = cc
  finish_returns st c digest f (err value_error) r h = cc
  finish_returns st c digest f (err (injected_crash boundary)) r h = cc

  -- an operation whose record is found is answered from the record
  pub answered :
      (st : Store) (c : Command) (g : Option Boundary) (digest : String) (e : Entry ApplyResult)
      → find c.subject.loop_ref c.operation_id st.accepted ≡ some e
      → command_digest rt c ≡ ok digest
      → apply rt ctx snapshot_digest st c g ≡ answer_accepted rt ctx snapshot_digest st c digest e
  unfolding apply with_digest known
  answered st c g digest e found own =
      rw own (ap (λ o. known rt ctx snapshot_digest st c digest g o) found)

  -- after its commit an operation is answered from the record
  replay_commit :
      (st : Store) (c : Command) (g : Option Boundary) (new : Commit)
      → command_digest rt c ≡ ok c.request_digest
      → apply rt ctx snapshot_digest (commit rt ctx snapshot_digest st c c.request_digest new) c g
        ≡ (
          commit rt ctx snapshot_digest st c c.request_digest new,
          ok (record (new.result) { replayed = true }),
        )
  unfolding commit answer_accepted
  replay_commit st c g new own =
      answered (commit rt ctx snapshot_digest st c c.request_digest new) c g c.request_digest
        (accepted_entry c c.request_digest new)
        (find-record_entry_self (accepted_entry c c.request_digest new) st.accepted) own
      ∙ simp eq_refl

  replay_fresh :
      (st : Store) (c : Command) (f g : Option Boundary) (digest : String) (o : Option (Entry Code))
      (r : ApplyResult)
      → command_digest rt c ≡ ok digest
      → (fresh rt ctx snapshot_digest st c digest f o).1 ≡ ok r
      → apply rt ctx snapshot_digest (fresh rt ctx snapshot_digest st c digest f o).0 c g
        ≡ ((fresh rt ctx snapshot_digest st c digest f o).0, ok (record r { replayed = true }))
  unfolding fresh
  replay_fresh st c f g digest (some e) r own h = absurd (answer_rejected-ne-ok st c digest e r h)
  replay_fresh st c f g digest none r own h =
      let (new, prepared, done, same) =
        finish_returns st c digest f (prepare rt ctx snapshot_digest st c f) r h in
      let mine : digest ≡ c.request_digest = cc (own, prepare-digest st c f prepared) in
      rw done (rw mine (replay_commit st c g new (prepare-digest st c f prepared) ∙ rw same refl))

  replay_known :
      (st : Store) (c : Command) (f g : Option Boundary) (digest : String)
      (o : Option (Entry ApplyResult)) (r : ApplyResult)
      → find c.subject.loop_ref c.operation_id st.accepted ≡ o
      → command_digest rt c ≡ ok digest
      → (known rt ctx snapshot_digest st c digest f o).1 ≡ ok r
      → apply rt ctx snapshot_digest (known rt ctx snapshot_digest st c digest f o).0 c g
        ≡ ((known rt ctx snapshot_digest st c digest f o).0, ok (record r { replayed = true }))
  unfolding known answer_accepted
  replay_known st c f g digest (some e) r found own h =
      answered st c g digest e found own ∙ answer_again st c digest e r h
  replay_known st c f g digest none r found own h = replay_fresh st c f g digest _ r own h

  replay_digest :
      (st : Store) (c : Command) (f g : Option Boundary) (m : Result String) (r : ApplyResult)
      → command_digest rt c ≡ m
      → (with_digest rt ctx snapshot_digest st c f m).1 ≡ ok r
      → apply rt ctx snapshot_digest (with_digest rt ctx snapshot_digest st c f m).0 c g
        ≡ ((with_digest rt ctx snapshot_digest st c f m).0, ok (record r { replayed = true }))
  unfolding with_digest
  replay_digest st c f g (ok digest) r own h = replay_known st c f g digest _ r refl own h
  replay_digest st c f g (err e) r own h = cc

  -- Whatever the store, a command that `apply` has answered with a result is answered again with
  -- the same result, marked as a replay, whatever fault is injected, and the second call leaves the
  -- store as it is.
  pub apply-apply :
      (st : Store) (c : Command) (f g : Option Boundary) (r : ApplyResult)
      → (apply rt ctx snapshot_digest st c f).1 ≡ ok r
      → apply rt ctx snapshot_digest (apply rt ctx snapshot_digest st c f).0 c g
        ≡ ((apply rt ctx snapshot_digest st c f).0, ok (record r { replayed = true }))
  unfolding apply
  apply-apply st c f g r h = replay_digest st c f g (command_digest rt c) r refl h
