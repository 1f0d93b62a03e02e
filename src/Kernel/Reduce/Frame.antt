-- ===== src/Kernel/Reduce/Frame.antt =====
-- What the reducers leave as it is: the disposition of the execution, the closure assurance, and,
-- but for those of a delivery, the deliveries.
use loop_skill.Kernel.Roadmap.{revise_goal_plan}
use loop_skill.Kernel.Review.{record_review}
use loop_skill.Kernel.Results.{acknowledge_result, stage_external_result, stage_result}
use loop_skill.Kernel.Lifecycle.{pause_loop}
use loop_skill.Kernel.Effects.{bind_host_resource, observe_external_effect}
use loop_skill.Kernel.Delivery.{begin_delivery, observe_delivery, prepare_route}
use loop_skill.Protocol.Outcome.{ok}
use loop_skill.Protocol.Envelope.{AuthorityContext, Command, Runtime}
use loop_skill.Prelude.{arith, ◌≡◌}
use loop_skill.Kernel.State.{Reduction, Snapshot}
use loop_skill.Kernel.Closure.Honest.{SameClosure, SameFrame}

module _ (rt : Runtime) (ctx : AuthorityContext) (c : Command) where
  pub acknowledge_result-SameFrame :
      (s : Snapshot) (r : Reduction) → acknowledge_result rt ctx c s ≡ ok r → SameFrame s r.snapshot
  unfolding acknowledge_result
  acknowledge_result-SameFrame s r h = ((ground arith, ground arith), ground arith)

  pub stage_result-SameFrame :
      (s : Snapshot) (r : Reduction) → stage_result rt ctx c s ≡ ok r → SameFrame s r.snapshot
  unfolding stage_result
  stage_result-SameFrame s r h = ((ground arith, ground arith), ground arith)

  pub stage_external_result-SameFrame :
      (s : Snapshot) (r : Reduction)
      → stage_external_result rt ctx c s ≡ ok r
      → SameFrame s r.snapshot
  unfolding stage_external_result
  stage_external_result-SameFrame s r h = ((ground arith, ground arith), ground arith)

  pub begin_delivery-SameClosure :
      (s : Snapshot) (r : Reduction) → begin_delivery rt ctx c s ≡ ok r → SameClosure s r.snapshot
  unfolding begin_delivery
  begin_delivery-SameClosure s r h = (ground arith, ground arith)

  pub observe_delivery-SameClosure :
      (s : Snapshot) (r : Reduction) → observe_delivery rt ctx c s ≡ ok r → SameClosure s r.snapshot
  unfolding observe_delivery
  observe_delivery-SameClosure s r h = (ground arith, ground arith)

  pub prepare_route-SameClosure :
      (s : Snapshot) (r : Reduction) → prepare_route rt ctx c s ≡ ok r → SameClosure s r.snapshot
  unfolding prepare_route
  prepare_route-SameClosure s r h = (ground arith, ground arith)

  pub bind_host_resource-SameFrame :
      (s : Snapshot) (r : Reduction) → bind_host_resource rt ctx c s ≡ ok r → SameFrame s r.snapshot
  unfolding bind_host_resource
  bind_host_resource-SameFrame s r h = ((ground arith, ground arith), ground arith)

  pub observe_external_effect-SameFrame :
      (s : Snapshot) (r : Reduction)
      → observe_external_effect rt ctx c s ≡ ok r
      → SameFrame s r.snapshot
  unfolding observe_external_effect
  observe_external_effect-SameFrame s r h = ((ground arith, ground arith), ground arith)

  pub pause_loop-SameFrame :
      (s : Snapshot) (r : Reduction) → pause_loop rt ctx c s ≡ ok r → SameFrame s r.snapshot
  unfolding pause_loop
  pause_loop-SameFrame s r h = ((ground arith, ground arith), ground arith)

  pub record_review-SameFrame :
      (s : Snapshot) (r : Reduction) → record_review rt ctx c s ≡ ok r → SameFrame s r.snapshot
  unfolding record_review
  record_review-SameFrame s r h = ((ground arith, ground arith), ground arith)

  pub revise_goal_plan-SameFrame :
      (s : Snapshot) (r : Reduction) → revise_goal_plan rt ctx c s ≡ ok r → SameFrame s r.snapshot
  unfolding revise_goal_plan
  revise_goal_plan-SameFrame s r h = ((ground arith, ground arith), ground arith)
