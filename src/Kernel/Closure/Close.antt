-- ===== src/Kernel/Closure/Close.antt =====
-- What the closing of an execution rests on.
use loop_skill.Protocol.Outcome.{
  >>=-eq-ok, Result, at_key-eq-ok, err, fetch, finalization_precondition_failed, invalid_transition,
  ok, raise_if, raise_if-eq-ok,
}
use loop_skill.Protocol.Envelope.{AuthorityContext, Command, Receipt, Runtime}
use loop_skill.Prelude.{
  Bool, String, ap, arith, eq_iff, false, lookup, not, some, sym, true, ◌&&◌, ◌==◌, ◌∙◌, ◌≡◌,
}
use loop_skill.Kernel.State.{Execution, ExecutionState, Finalization, Reduction, Review, Snapshot}
use loop_skill.Kernel.Closure.{
  close_execution, readback_expected, is_success, is_strict_readback, is_open_finalization,
}
use loop_skill.Kernel.Receipts.{receipt_for}
use loop_skill.Kernel.Receipts.Sound.{IsAccepted, receipt_for-IsAccepted}
use loop_skill.Kernel.Subject.{SubjectChain, final_chain, final_chain_digest}

-- the finalization and the receipt of a closed execution
pub record IsClosed (rt : Runtime) (ctx : AuthorityContext) (c : Command) (s t : Snapshot)
    (f : Finalization) (receipt : Receipt) : Type 0 where
  pub found : lookup c.subject.subject_ref s.finalizations ≡ some f
  pub prepared : is_open_finalization f.state ≡ true
  pub accepted : IsAccepted rt ctx c (readback_expected c.subject.subject_ref f) receipt
  pub same_chain :
      (chain : SubjectChain) × (review_ref : String) × (review : Review) × (final_chain s
        ≡ ok (chain, review_ref, review))
      × (final_chain_digest rt chain review_ref review ≡ ok f.subject_chain_digest)
  pub strict_success : is_success f.disposition ≡ true → is_strict_readback receipt ≡ true
  pub terminal : t.execution.state ≡ ExecutionState.terminal
  pub disposition : t.execution.disposition ≡ some f.disposition

abbrev execution_or : Execution → Result Reduction → Execution
execution_or x (ok r) = r.snapshot.execution
execution_or x (err e) = x

not-true : (b : Bool) → not b ≡ false → b ≡ true
not-true b h = ground arith

implied : (a b : Bool) → (a && not b) ≡ false → a ≡ true → b ≡ true
implied a b h e = ground arith

module _ (rt : Runtime) (ctx : AuthorityContext) (c : Command) (s : Snapshot) where
  -- An execution is closed only from a prepared finalization, on a trusted lifecycle readback of it
  -- inside its window, while the chain of records behind the result has the digest that was
  -- finalized; a success needs a strict acknowledged readback. The execution is then TERMINAL with
  -- the disposition of the finalization.
  pub close_execution-IsClosed :
      (r : Reduction)
      → close_execution rt ctx c s ≡ ok r
      → (f : Finalization) × (receipt : Receipt) × IsClosed rt ctx c s r.snapshot f receipt
  unfolding close_execution
  close_execution-IsClosed r h =
      let (f, found, h1) = >>=-eq-ok (fetch c.subject.subject_ref s.finalizations) _ h in
      let (_, open_state, h2) =
        >>=-eq-ok (raise_if (not (is_open_finalization f.state)) invalid_transition) _ h1 in
      let (receipt, received, h3) =
        >>=-eq-ok (receipt_for rt ctx c (readback_expected c.subject.subject_ref f)) _ h2 in
      let ((chain, review_ref, review), chained, h4) = >>=-eq-ok (final_chain s) _ h3 in
      let (digest, digested, h5) = >>=-eq-ok (final_chain_digest rt chain review_ref review) _ h4 in
      let (_, same, h6) =
        >>=-eq-ok
          (raise_if (not (digest == f.subject_chain_digest)) finalization_precondition_failed) _
          h5 in
      let (_, strict, h7) =
        >>=-eq-ok
          (raise_if (is_success f.disposition && not (is_strict_readback receipt))
            finalization_precondition_failed)
          _ h6 in
      let equal : digest ≡ f.subject_chain_digest =
        (eq_iff digest f.subject_chain_digest).0 (not-true _ (raise_if-eq-ok _ _ same)) in
      let ends = sym (ap (execution_or s.execution) h7) in
      (
        f,
        receipt,
        record {
          found = at_key-eq-ok _ found;
          prepared = not-true _ (raise_if-eq-ok _ _ open_state);
          accepted = receipt_for-IsAccepted rt ctx c _ receipt received;
          same_chain = (chain, review_ref, review, chained, digested ∙ ap ok equal);
          strict_success = implied _ _ (raise_if-eq-ok _ _ strict);
          terminal = ap (λ (x : Execution). x.state) ends;
          disposition = ap (λ (x : Execution). x.disposition) ends;
        },
      )
