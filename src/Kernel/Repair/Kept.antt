-- ===== src/Kernel/Repair/Kept.antt =====
-- A policy decision leaves the disposition of the execution, the closure assurance and the deliveries.
use loop_skill.Kernel.Subject.{policy_context_digest}
use loop_skill.Kernel.Results.{sole_active}
use loop_skill.Protocol.Value.{str}
use loop_skill.Protocol.Outcome.{
  stale_subject_revision, Result, err, invalid_command, invalid_transition, raise_if, require,
  ◌>>=◌, >>=-eq-ok, ok,
}
use loop_skill.Protocol.Envelope.{
  binding, domain_digest, payload_text, AuthorityContext, Command, Event, Runtime,
}
use loop_skill.Prelude.{
  [], chars, elem, ltb, ◌∷◌, pos, is_empty, leb_ℤ, not, ◌&&◌, ◌||◌, ◌==◌, Bool, Bool-cases, List,
  String, arith, false, inl, inr, is_nil, true, ℕ, ◌≡◌,
}
use loop_skill.Kernel.State.{active_goals, Goal, Policy, Reduction, Snapshot}
use loop_skill.Kernel.Repair.{
  decide, int_binding, needs_repair, plan_repair, carry_out, continue_repair,
  record_policy_decision,
}
use loop_skill.Kernel.Closure.Honest.{SameFrame}

module _ (rt : Runtime) (ctx : AuthorityContext) (c : Command) (s : Snapshot) where
  plan_repair-SameFrame :
      (goal_ref : String) (goal : Goal) (n : ℕ) (r : Snapshot × List Event)
      → plan_repair rt c s goal_ref goal n ≡ ok r
      → SameFrame s r.0
  unfolding plan_repair
  plan_repair-SameFrame goal_ref goal n r h = ((ground arith, ground arith), ground arith)

  carry_out-SameFrame :
      (goal_ref : String) (goal : Goal) (p : Policy) (exhausted : Bool) (recorded : List Event)
      (r : Reduction)
      → carry_out rt c s goal_ref goal p exhausted recorded ≡ ok r
      → SameFrame s r.snapshot
  unfolding carry_out
  carry_out-SameFrame goal_ref goal p true recorded r h =
      ((ground arith, ground arith), ground arith)
  carry_out-SameFrame goal_ref goal p false recorded r h =
      elim (Bool-cases (is_nil c.bindings.allocate_refs)) [
        | inl nil ↦ ((ground arith, ground arith), ground arith)
        | inr more ↦
            let (t, planned, _) =
              >>=-eq-ok (plan_repair rt c s goal_ref goal p.repair_attempts) _ (rw more at h) in
            let kept = plan_repair-SameFrame goal_ref goal p.repair_attempts t planned in
            ((ground arith, ground arith), ground arith)
      ]

  repair_tail :
      (b : Bool) (m : Result String) (f : String → Result Reduction)
      → ((digest : String) (t : Reduction) → f digest ≡ ok t → SameFrame s t.snapshot)
      → (r : Reduction) → (raise_if b invalid_command >>= λ _. m >>= f) ≡ ok r
      → SameFrame s r.snapshot
  repair_tail true m f rest r h = cc
  repair_tail false (ok digest) f rest r h = rest digest r h
  repair_tail false (err e) f rest r h = cc

  continue_repair-SameFrame :
      (fingerprint card_digest : String) (recorded : List Event) (r : Reduction)
      → continue_repair rt c s fingerprint card_digest recorded ≡ ok r
      → SameFrame s r.snapshot
  unfolding continue_repair
  continue_repair-SameFrame fingerprint card_digest recorded r h =
      let ((goal_ref, goal), _, h1) = >>=-eq-ok (sole_active (active_goals s)) _ h in
      let (_, _, h2) =
        >>=-eq-ok (raise_if (not (needs_repair s goal) || is_empty fingerprint) invalid_transition)
          _ h1 in
      let (budget, _, h3) = >>=-eq-ok (int_binding c "repair_budget") _ h2 in
      let (same, _, h4) = >>=-eq-ok (int_binding c "same_failure_budget") _ h3 in
      repair_tail
        (not (leb_ℤ (pos 1) budget && leb_ℤ budget (pos 3))
          || not (leb_ℤ (pos 1) same && leb_ℤ same (pos 2)))
        (domain_digest rt "loopskill-failure-fingerprint-v1\n" (str fingerprint)) _
        (λ digest t e. carry_out-SameFrame goal_ref goal _ _ recorded t e) r h4

  decide-SameFrame :
      (decision fingerprint card : String) (r : Reduction)
      → decide rt c s decision fingerprint card ≡ ok r
      → SameFrame s r.snapshot
  unfolding decide
  decide-SameFrame decision fingerprint card r h =
      elim (Bool-cases (decision == "CONTINUE_REPAIR")) [
        | inl repair ↦ continue_repair-SameFrame fingerprint card _ r (rw repair at h)
        | inr other ↦ let done = rw other at h in ((ground arith, ground arith), ground arith)
      ]

  pub record_policy_decision-SameFrame :
      (r : Reduction) → record_policy_decision rt ctx c s ≡ ok r → SameFrame s r.snapshot
  unfolding record_policy_decision
  record_policy_decision-SameFrame r h =
      let (decision, _, h1) = >>=-eq-ok (require (payload_text c "decision") invalid_command) _ h in
      let (_, _, h2) =
        >>=-eq-ok
          (raise_if (not (elem decision ("CONTINUE_REPAIR" ∷ "WAIT" ∷ "STOP" ∷ [])))
            invalid_command)
          _ h1 in
      let (fingerprint, _, h3) =
        >>=-eq-ok (require (payload_text c "failure_fingerprint") invalid_command) _ h2 in
      let (_, _, h4) = >>=-eq-ok (raise_if (ltb 512 (chars fingerprint)) invalid_command) _ h3 in
      let (context, _, h5) = >>=-eq-ok (binding c.bindings.resolved_refs "context_digest") _ h4 in
      let (card, _, h6) =
        >>=-eq-ok (binding c.bindings.resolved_refs "decision_card_digest") _ h5 in
      let (current, _, h7) = >>=-eq-ok (policy_context_digest rt s) _ h6 in
      let (_, _, h8) =
        >>=-eq-ok (raise_if (not (context == current) || is_empty card) stale_subject_revision) _
          h7 in
      decide-SameFrame decision fingerprint card r h8
