-- ===== src/Kernel/Review/Next/Kept.antt =====
-- The step to the next Goal leaves the disposition of the execution, the closure assurance and the deliveries.
use loop_skill.Protocol.Outcome.{ok}
use loop_skill.Protocol.Envelope.{Command, Event, Runtime}
use loop_skill.Prelude.{List, Option, String, arith, get_elem?, none, some, ◌+◌, ◌≡◌}
use loop_skill.Kernel.State.{GoalPlan, Snapshot}
use loop_skill.Kernel.Review.Next.{activate_next, next_slot, next_goal}
use loop_skill.Kernel.Closure.Honest.{SameFrame}

module _ (rt : Runtime) (c : Command) (prior : String) (s : Snapshot) (plan : GoalPlan) where
  activate_next-SameFrame :
      (goal_id slice_digest : String) (r : Snapshot × List Event × Option String)
      → activate_next rt c prior s plan goal_id slice_digest ≡ ok r
      → SameFrame s r.0
  unfolding activate_next
  activate_next-SameFrame goal_id slice_digest r h = ((ground arith, ground arith), ground arith)

  next_slot-SameFrame :
      (goal_id slice_digest : Option String) (r : Snapshot × List Event × Option String)
      → next_slot rt c prior s plan goal_id slice_digest ≡ ok r
      → SameFrame s r.0
  unfolding next_slot
  next_slot-SameFrame (some i) (some d) r h = activate_next-SameFrame i d r h
  next_slot-SameFrame (some i) none r h = ((ground arith, ground arith), ground arith)
  next_slot-SameFrame none d r h = ((ground arith, ground arith), ground arith)

  pub next_goal-SameFrame :
      (r : Snapshot × List Event × Option String)
      → next_goal rt c prior s plan ≡ ok r
      → SameFrame s r.0
  unfolding next_goal
  next_goal-SameFrame r h =
      next_slot-SameFrame (get_elem? plan.ordered_goal_ids (plan.active_index + 1))
        (get_elem? plan.ordered_goal_slice_digests (plan.active_index + 1)) r (ground arith)
