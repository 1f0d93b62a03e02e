-- ===== src/Examples/ReviewRuns.antt =====
-- A Goal advances to DONE on the result and the review of Examples/Finished.
use loop_skill.Kernel.Review.{advance_goal, bound_goals, goal_disposition, is_allowed}
use loop_skill.Kernel.Review.Next.{next_goal}
use loop_skill.Kernel.Review.Done.{advance_goal-IsEarned}
use loop_skill.Kernel.Review.Earned.{IsEarned}
use loop_skill.Kernel.State.{Goal, GoalState, LoopResult, Reduction, Review, Snapshot}
use loop_skill.Prelude.{[], ◌∷◌, ◌+◌, ◌≡◌, String, lookup, refl, some}
use loop_skill.Protocol.Envelope.{binding, Command, CommandType}
use loop_skill.Protocol.Outcome.{Result, err, ok}
use loop_skill.Protocol.Value.{str}
use loop_skill.Examples.Data.{command, context, loop, no_bindings, runtime}
use loop_skill.Examples.Finished.{finished}
use loop_skill.Examples.Pause.{reduced}
use mathlib.Core.Option

abbrev at_review : Snapshot
at_review = record finished { goals = loop.goals }

abbrev advance : Command
advance =
    command CommandType.advance_goal "GoalRef" "goal-1"
      (record no_bindings { resolved_refs = ("review_ref", "review-1") ∷ [] })
      (("disposition", str "DONE") ∷ [])

-- the reduction of a run that returns
abbrev returned : Result Reduction → Reduction
returned (ok r) = r
returned (err e) = reduced

abbrev moved : Reduction
moved = returned (advance_goal runtime context advance at_review)

advanced_ok : advance_goal runtime context advance at_review ≡ ok moved
unfolding advance_goal goal_disposition bound_goals lookup Option.bind is_allowed next_goal
advanced_ok = refl

advance_goal-IsEarned_example :
    (g : Goal) × (review_ref : String) × (v : Review) × (t : LoopResult) × (d : GoalState) × (lookup
        "goal-1" at_review.goals
      ≡ some g)
    × (binding advance.bindings.resolved_refs "review_ref" ≡ ok review_ref)
    × (lookup review_ref at_review.reviews ≡ some v)
    × (lookup v.result_ref at_review.results ≡ some t)
    × IsEarned at_review "goal-1" g v t d
    × (lookup "goal-1" moved.snapshot.goals
        ≡ some (record g { revision = g.revision + 1; state = d }))
advance_goal-IsEarned_example =
    advance_goal-IsEarned runtime context advance at_review moved advanced_ok
