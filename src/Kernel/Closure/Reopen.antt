-- ===== src/Kernel/Closure/Reopen.antt =====
-- `_prepare_finalization` does not read the state of the execution.
use loop_skill.Kernel.Subject.{final_chain_digest, final_chain-execution, final_chain}
use loop_skill.Protocol.Outcome.{err, Result, at_key, fetch, ◌>>=◌, ok}
use loop_skill.Protocol.Envelope.{binding, AuthorityContext, Command, Runtime}
use loop_skill.Prelude.{◌∙◌, ap, refl, ◌+◌, ◌≡◌}
use loop_skill.Kernel.State.{Execution, ExecutionState, Reduction, Snapshot}
use loop_skill.Kernel.Closure.{
  finalization_disposition-execution, prepare_finalization, finalization_disposition,
}

module _ (rt : Runtime) (ctx : AuthorityContext) (c : Command) where
  -- the execution that a finalization leaves, whatever it was
  abbrev finalizing : Execution → Execution
  finalizing x = record x { revision = x.revision + 1; state = ExecutionState.finalizing }

  abbrev reopen : Execution → Result Reduction → Result Reduction
  reopen x m =
      m >>= λ r. ok (record r { snapshot = record (r.snapshot) { execution = finalizing x } })

  -- a step before the last one does not see the execution
  reopen_bind :
      {A : Type 0} (x : Execution) (m : Result A) (f g : A → Result Reduction)
      → ((a : A) → f a ≡ reopen x (g a))
      → (m >>= f) ≡ reopen x (m >>= g)
  reopen_bind x (ok a) f g h = h a
  reopen_bind x (err e) f g h = refl

  reopened :
      (s : Snapshot) (x : Execution)
      → prepare_finalization rt ctx c (record s { execution = x })
        ≡ reopen x (prepare_finalization rt ctx c s)
  unfolding prepare_finalization
  reopened s x = rw (final_chain-execution s x) (
      reopen_bind x (final_chain s) _ _ (λ p.
        reopen_bind x (fetch (p.0).result_ref s.results) _ _ (λ result.
          rw (finalization_disposition-execution c s x p.0 p.2 result) (
            reopen_bind x (finalization_disposition c s p.0 p.2 result) _ _ (λ d.
              reopen_bind x (binding c.bindings.allocate_refs "new_finalization_ref") _ _ (λ ref.
                reopen_bind x (final_chain_digest rt p.0 p.1 p.2) _ _ (λ digest.
                  reopen_bind x (at_key result.artifact_ref) _ _ (λ artifact_ref. refl))))))))

  -- A finalization that is accepted is accepted as well where the execution has any other state or
  -- disposition, a stopped or a closed one included, and leaves the execution in FINALIZING.
  pub prepare_finalization_reopens :
      (s : Snapshot) (x : Execution) (r : Reduction)
      → prepare_finalization rt ctx c s ≡ ok r
      → (t : Reduction) × (prepare_finalization rt ctx c (record s { execution = x }) ≡ ok t)
        × (t.snapshot.execution.state ≡ ExecutionState.finalizing)
        × (t.snapshot.finalizations ≡ r.snapshot.finalizations)
  prepare_finalization_reopens s x r h = (_, reopened s x ∙ ap (reopen x) h, refl, refl)
