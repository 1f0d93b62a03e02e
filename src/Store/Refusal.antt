-- ===== src/Store/Refusal.antt =====
-- A rejected operation is rejected again, with the code that was recorded.
use loop_skill.Protocol.Validate.{command_digest}
use loop_skill.Protocol.Outcome.{
  Boundary, Code, Result, err, injected_crash, key_error, ok, rejection, value_error,
}
use loop_skill.Protocol.Envelope.{AuthorityContext, Command, Runtime}
use loop_skill.Prelude.{refl, Option, String, ap, arith, eq_refl, none, some, ◌∙◌, ◌≡◌}
use loop_skill.Kernel.State.{Snapshot}
use loop_skill.Store.{
  ApplyResult, Commit, Entry, Store, answer_accepted, answer_rejected, apply, finish, fresh, known,
  prepare, record_rejection, rejected_entry, with_digest, find, find-record_entry_self,
}
use loop_skill.Store.Replay.{answered}

module _ (rt : Runtime) (ctx : AuthorityContext) (snapshot_digest : Snapshot → Result String) where
  -- an operation whose rejection is found is answered from the record
  refused :
      (st : Store) (c : Command) (g : Option Boundary) (digest : String) (e : Entry Code)
      → find c.subject.loop_ref c.operation_id st.accepted ≡ none
      → find c.subject.loop_ref c.operation_id st.rejected ≡ some e
      → command_digest rt c ≡ ok digest
      → apply rt ctx snapshot_digest st c g ≡ answer_rejected rt ctx snapshot_digest st c digest e
  unfolding apply with_digest known fresh
  refused st c g digest e absent found own = rw own (
      ap (λ o. known rt ctx snapshot_digest st c digest g o) absent
      ∙ ap (λ o. fresh rt ctx snapshot_digest st c digest g o) found)

  finish_refused :
      (st : Store) (c : Command) (f g : Option Boundary) (p : Result Commit) (code : Code)
      → find c.subject.loop_ref c.operation_id st.accepted ≡ none
      → command_digest rt c ≡ ok c.request_digest
      → (finish rt ctx snapshot_digest st c c.request_digest f p).1 ≡ err (rejection code)
      → apply rt ctx snapshot_digest (finish rt ctx snapshot_digest st c c.request_digest f p).0 c g
        ≡ ((finish rt ctx snapshot_digest st c c.request_digest f p).0, err (rejection code))
  unfolding finish record_rejection answer_rejected
  finish_refused st c none g (ok new) code absent own h = absurd (ground arith)
  finish_refused st c (some Boundary.before_reduce) g (ok new) code absent own h =
      absurd (ground arith)
  finish_refused st c (some Boundary.after_reduce_before_commit) g (ok new) code absent own h =
      absurd (ground arith)
  finish_refused st c (some Boundary.after_commit_before_response) g (ok new) code absent own h =
      absurd (ground arith)
  finish_refused st c f g (err (rejection recorded)) code absent own h =
      let same : recorded ≡ code = ground arith in
      rw same (
        refused (record_rejection rt ctx snapshot_digest st c c.request_digest code) c g
          c.request_digest (rejected_entry c c.request_digest code) absent
          (find-record_entry_self (rejected_entry c c.request_digest code) st.rejected) own
        ∙ simp eq_refl)
  finish_refused st c f g (err key_error) code absent own h = absurd (ground arith)
  finish_refused st c f g (err value_error) code absent own h = absurd (ground arith)
  finish_refused st c f g (err (injected_crash b)) code absent own h = absurd (ground arith)

  known_refused :
      (st : Store) (c : Command) (f g : Option Boundary) (o : Option (Entry ApplyResult))
      (q : Option (Entry Code)) (code : Code)
      → find c.subject.loop_ref c.operation_id st.accepted ≡ o
      → find c.subject.loop_ref c.operation_id st.rejected ≡ q
      → command_digest rt c ≡ ok c.request_digest
      → (known rt ctx snapshot_digest st c c.request_digest f o).1 ≡ err (rejection code)
      → apply rt ctx snapshot_digest (known rt ctx snapshot_digest st c c.request_digest f o).0 c g
        ≡ ((known rt ctx snapshot_digest st c c.request_digest f o).0, err (rejection code))
  unfolding known fresh answer_accepted answer_rejected
  known_refused st c f g (some e) q code found noted own h =
      answered rt ctx snapshot_digest st c g c.request_digest e found own ∙ ap (λ x. (st, x)) h
  known_refused st c f g none (some e) code found noted own h =
      rw noted
        (refused st c g c.request_digest e found noted own ∙ ap (λ x. (st, x)) (rw noted at h))
  known_refused st c f g none none code found noted own h = rw noted (
      finish_refused st c f g (prepare rt ctx snapshot_digest st c f) code found own
        (rw noted at h))

  -- a command with its own digest goes on to the records
  entered :
      (st : Store) (c : Command) (f : Option Boundary)
      → command_digest rt c ≡ ok c.request_digest
      → apply rt ctx snapshot_digest st c f
        ≡ known rt ctx snapshot_digest st c c.request_digest f
            (find c.subject.loop_ref c.operation_id st.accepted)
  unfolding apply with_digest
  entered st c f own = rw own refl

  -- A command that carries its own digest and that `apply` has rejected is rejected again with the
  -- same code, whatever fault is injected, and the second call leaves the store as it is.
  pub apply_rejected_again :
      (st : Store) (c : Command) (f g : Option Boundary) (code : Code)
      → command_digest rt c ≡ ok c.request_digest
      → (apply rt ctx snapshot_digest st c f).1 ≡ err (rejection code)
      → apply rt ctx snapshot_digest (apply rt ctx snapshot_digest st c f).0 c g
        ≡ ((apply rt ctx snapshot_digest st c f).0, err (rejection code))
  apply_rejected_again st c f g code own h =
      rw (entered st c f own)
        (known_refused st c f g _ _ code refl refl own (rw (entered st c f own) at h))
