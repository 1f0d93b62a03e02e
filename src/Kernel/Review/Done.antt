-- ===== src/Kernel/Review/Done.antt =====
-- A Goal advances on its own result: acknowledged, reviewed, and with the outcome and the verdict
-- that its disposition wants.
use loop_skill.Protocol.Outcome.{>>=-eq-ok, invalid_transition, ok, require, require-eq-ok}
use loop_skill.Protocol.Envelope.{binding, AuthorityContext, Command, Event, Runtime}
use loop_skill.Prelude.{
  Bool-cases, List, Option, String, arith, eq_refl, inl, inr, lookup, lookup-insert, none, refl,
  some, ◌+◌, ◌∙◌, ◌≡◌,
}
use loop_skill.Kernel.State.{Goal, GoalPlan, GoalState, LoopResult, Reduction, Review, Snapshot}
use loop_skill.Kernel.Review.{advance_goal, advanced, follow, goal_disposition, goes_on}
use loop_skill.Kernel.Review.Next.Goals.{next_goal-goals}
use loop_skill.Kernel.Review.Earned.{IsEarned, goal_disposition-IsEarned}

module _ (rt : Runtime) (c : Command) (ref : String) (g : Goal) where
  follow-goals :
      (d : GoalState) (s : Snapshot) (plan : Option GoalPlan)
      (r : Snapshot × List Event × Option String)
      → follow rt c d s plan ≡ ok r
      → lookup ref s.goals ≡ some g
      → lookup ref r.0.goals ≡ some g
  unfolding follow
  follow-goals d s none r h found = ground arith
  follow-goals d s (some plan) r h found = elim (Bool-cases (goes_on d)) [
    | inl on ↦ next_goal-goals ref g rt c _ s plan r (rw on at h) found
    | inr off ↦ let done = rw off at h in ground arith
  ]

-- A Goal that an accepted AdvanceGoal moves was ACTIVE. Its review and the result of the review are
-- there: the result is acknowledged, has the report and the artifact of the review, and binds this
-- Goal and no other, by its own reference, its route or its external effect. The outcome of the
-- result and the verdict of the review are those that the new state wants, PASS and PASS for DONE.
-- The Goal afterwards has the new state and the next revision, whatever Goal the plan goes on to.
pub advance_goal-IsEarned :
    (rt : Runtime) (ctx : AuthorityContext) (c : Command) (s : Snapshot) (r : Reduction)
    → advance_goal rt ctx c s ≡ ok r
    → (goal : Goal) × (review_ref : String) × (review : Review) × (result : LoopResult)
      × (d : GoalState) × (lookup c.subject.subject_ref s.goals ≡ some goal)
      × (binding c.bindings.resolved_refs "review_ref" ≡ ok review_ref)
      × (lookup review_ref s.reviews ≡ some review)
      × (lookup review.result_ref s.results ≡ some result)
      × IsEarned s c.subject.subject_ref goal review result d
      × (lookup c.subject.subject_ref r.snapshot.goals
          ≡ some (record goal { revision = goal.revision + 1; state = d }))
unfolding advance_goal
advance_goal-IsEarned rt ctx c s r h =
    let (review_ref, named, h1) = >>=-eq-ok (binding c.bindings.resolved_refs "review_ref") _ h in
    let (goal, g, h2) =
      >>=-eq-ok (require (lookup c.subject.subject_ref s.goals) invalid_transition) _ h1 in
    let (review, v, h3) =
      >>=-eq-ok (require (lookup review_ref s.reviews) invalid_transition) _ h2 in
    let (result, t, h4) =
      >>=-eq-ok (require (lookup review.result_ref s.results) invalid_transition) _ h3 in
    let (d, allowed, h5) = >>=-eq-ok (goal_disposition c s goal result review) _ h4 in
    let (next, followed, h6) = >>=-eq-ok (follow rt c d (advanced c s goal d) s.goal_plan) _ h5 in
    let moved = record goal { revision = goal.revision + 1; state = d } in
    let kept =
      follow-goals rt c c.subject.subject_ref moved d (advanced c s goal d) s.goal_plan next
        followed
        (lookup-insert c.subject.subject_ref c.subject.subject_ref moved s.goals ∙ simp eq_refl) in
    let same : next.0 ≡ r.snapshot = ground arith in
    (
      goal,
      review_ref,
      review,
      result,
      d,
      require-eq-ok _ _ g,
      named,
      require-eq-ok _ _ v,
      require-eq-ok _ _ t,
      goal_disposition-IsEarned s c.subject.subject_ref c goal result review d refl allowed,
      rw same at kept,
    )
