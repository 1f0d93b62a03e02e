-- ===== src/Kernel/Lifecycle/Kept.antt =====
-- A resumed loop has the disposition and the closure assurance that it had.
use loop_skill.Protocol.Outcome.{
  ◌>>=◌, >>=-eq-ok, invalid_command, invalid_transition, ok, raise_if,
}
use loop_skill.Protocol.Envelope.{AuthorityContext, Command, Event, Runtime}
use loop_skill.Prelude.{Bool, List, Option, [], arith, none, not, some, ◌≡◌}
use loop_skill.Kernel.State.{Reduction, Snapshot, WaitKind}
use loop_skill.Kernel.Lifecycle.{
  is_paused, budget_resume, gate_resume, resume_by_kind, resume_loop, stop_loop,
}
use loop_skill.Kernel.Closure.Honest.{SameFrame, IsHonest}

module _ (rt : Runtime) (ctx : AuthorityContext) (c : Command) (s : Snapshot) where
  budget_resume-SameFrame :
      (r : Snapshot × List Event) → budget_resume rt c s ≡ ok r → SameFrame s r.0
  unfolding budget_resume
  budget_resume-SameFrame r h = ((ground arith, ground arith), ground arith)

  gate_resume-SameFrame : (r : Snapshot × List Event) → gate_resume c s ≡ ok r → SameFrame s r.0
  unfolding gate_resume
  gate_resume-SameFrame r h = ((ground arith, ground arith), ground arith)

  plain_resume-SameFrame :
      (b : Bool) (r : Snapshot × List Event)
      → (raise_if b invalid_command >>= λ _. ok (s, [])) ≡ ok r
      → SameFrame s r.0
  plain_resume-SameFrame b r h = ((ground arith, ground arith), ground arith)

  resume_by_kind-SameFrame :
      (kind : Option WaitKind) (r : Snapshot × List Event)
      → resume_by_kind rt c s kind ≡ ok r
      → SameFrame s r.0
  unfolding resume_by_kind
  resume_by_kind-SameFrame (some WaitKind.budget) r h = budget_resume-SameFrame r h
  resume_by_kind-SameFrame (some WaitKind.human) r h = gate_resume-SameFrame r h
  resume_by_kind-SameFrame (some WaitKind.time) r h = gate_resume-SameFrame r h
  resume_by_kind-SameFrame (some WaitKind.blocked) r h = plain_resume-SameFrame _ r h
  resume_by_kind-SameFrame (some WaitKind.failure) r h = plain_resume-SameFrame _ r h
  resume_by_kind-SameFrame (some WaitKind.repair) r h = plain_resume-SameFrame _ r h
  resume_by_kind-SameFrame none r h = plain_resume-SameFrame _ r h

  pub resume_loop-SameFrame :
      (r : Reduction) → resume_loop rt ctx c s ≡ ok r → SameFrame s r.snapshot
  unfolding resume_loop
  resume_loop-SameFrame r h =
      let (_, _, h1) =
        >>=-eq-ok (raise_if (not (is_paused s.execution.state)) invalid_transition) _ h in
      let (t, resumed, h2) = >>=-eq-ok (resume_by_kind rt c s s.execution.wait_kind) _ h1 in
      let kept = resume_by_kind-SameFrame s.execution.wait_kind t resumed in
      ((ground arith, ground arith), ground arith)

  pub stop_loop-IsHonest : (r : Reduction) → stop_loop rt ctx c s ≡ ok r → IsHonest r.snapshot
  unfolding stop_loop
  stop_loop-IsHonest r h e = ground arith

  pub stop_loop-deliveries :
      (r : Reduction) → stop_loop rt ctx c s ≡ ok r → r.snapshot.deliveries ≡ s.deliveries
  unfolding stop_loop
  stop_loop-deliveries r h = ground arith
