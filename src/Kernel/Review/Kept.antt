-- ===== src/Kernel/Review/Kept.antt =====
-- An advance of the plan leaves the disposition of the execution, the closure assurance and the deliveries.
use loop_skill.Protocol.Outcome.{>>=-eq-ok, invalid_transition, ok, require}
use loop_skill.Protocol.Envelope.{binding, AuthorityContext, Command, Event, Runtime}
use loop_skill.Prelude.{Bool-cases, List, Option, String, arith, inl, inr, lookup, none, some, ◌≡◌}
use loop_skill.Kernel.State.{GoalPlan, GoalState, Reduction, Snapshot}
use loop_skill.Kernel.Review.{advanced, goes_on, advance_goal, follow, goal_disposition}
use loop_skill.Kernel.Review.Next.Kept.{next_goal-SameFrame}
use loop_skill.Kernel.Closure.Honest.{SameFrame}

module _ (rt : Runtime) (ctx : AuthorityContext) (c : Command) where
  follow-SameFrame :
      (disposition : GoalState) (s : Snapshot) (plan : Option GoalPlan)
      (r : Snapshot × List Event × Option String)
      → follow rt c disposition s plan ≡ ok r
      → SameFrame s r.0
  unfolding follow
  follow-SameFrame disposition s none r h = ((ground arith, ground arith), ground arith)
  follow-SameFrame disposition s (some plan) r h = elim (Bool-cases (goes_on disposition)) [
    | inl on ↦ next_goal-SameFrame rt c _ s plan r (rw on at h)
    | inr off ↦ let done = rw off at h in ((ground arith, ground arith), ground arith)
  ]

  pub advance_goal-SameFrame :
      (s : Snapshot) (r : Reduction) → advance_goal rt ctx c s ≡ ok r → SameFrame s r.snapshot
  unfolding advance_goal
  advance_goal-SameFrame s r h =
      let (review_ref, _, h1) = >>=-eq-ok (binding c.bindings.resolved_refs "review_ref") _ h in
      let (goal, _, h2) =
        >>=-eq-ok (require (lookup c.subject.subject_ref s.goals) invalid_transition) _ h1 in
      let (review, _, h3) =
        >>=-eq-ok (require (lookup review_ref s.reviews) invalid_transition) _ h2 in
      let (result, _, h4) =
        >>=-eq-ok (require (lookup review.result_ref s.results) invalid_transition) _ h3 in
      let (d, _, h5) = >>=-eq-ok (goal_disposition c s goal result review) _ h4 in
      let (t, followed, h6) = >>=-eq-ok (follow rt c d (advanced c s goal d) s.goal_plan) _ h5 in
      let kept = follow-SameFrame d (advanced c s goal d) s.goal_plan t followed in
      ((ground arith, ground arith), ground arith)
