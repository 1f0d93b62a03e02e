-- ===== src/Examples/KernelRuns.antt =====
-- The kernel's theorems at the records of Examples/Data and Examples/Finished.
use loop_skill.Kernel.Results.{ArtifactClaim, artifact_assurance, claim_drift, judge_artifact}
use loop_skill.Kernel.Results.Verified.{IsVerifiedBy, judge_artifact-IsVerifiedBy}
use loop_skill.Protocol.Envelope.{is_before, Command, CommandType, AuthorityContext}
use loop_skill.Protocol.Derive.{is_long_digest}
use loop_skill.Kernel.Subject.{chain_value, final_chain_digest, result_chain, final_chain}
use mathlib.Core.Option
use loop_skill.Protocol.Value.{texts?, size_members, validate_value}
use loop_skill.Protocol.Outcome.{Result, err, ok}
use loop_skill.Protocol.Envelope.{
  parse_time, validate_receipt_size, domain_digest, ActorRef, Grant, Receipt, ReceiptOutcome,
}
use loop_skill.Prelude.{
  is_digest, [], ◌∷◌, if◌then◌else◌, leb, ltb, not, ◌&&◌, ◌||◌, insert, chars, is_blank, is_hex,
  strip, lookup, pos, String, false, refl, some, true, ◌+◌, ◌==◌, ◌≡◌,
}
use loop_skill.Kernel.State.{
  is_committed, AttemptState, ExecutionState, Finalization, GoalPlan, Policy, Reduction,
}
use loop_skill.Examples.Data.{
  command, no_bindings, context, hash, loop, pause, paused, plan, readback, runtime,
}
use loop_skill.Examples.Pause.{authority_ok, loop-IsHonest, reduce_ok, reduced}
use loop_skill.Examples.Finished.{
  artifact, close, extension, finalize, finalized, finalizing, finished, finalization, revision,
  stopped, three,
}
use loop_skill.Kernel.Authority.Sound.{IsAuthorized, validate_authority-IsAuthorized}
use loop_skill.Kernel.Closure.{
  subject_state, finalization_disposition, close_execution, prepare_finalization, readback_expected,
}
use loop_skill.Kernel.Closure.Close.{IsClosed, close_execution-IsClosed}
use loop_skill.Kernel.Closure.Honest.{IsHonest}
use loop_skill.Kernel.Closure.Reopen.{prepare_finalization_reopens}
use loop_skill.Kernel.Effects.{observed_state}
use loop_skill.Kernel.Effects.Upgrade.{is_observed_attempt, observed_state_upgrades}
use loop_skill.Kernel.Lifecycle.{invalid_extension, extend_budget}
use loop_skill.Kernel.Lifecycle.Budget.{IsRaised, extend_budget-IsRaised}
use loop_skill.Kernel.Receipts.{matches, check_window, check_receipt, receipt_for}
use loop_skill.Kernel.Receipts.Sound.{IsAccepted, receipt_for-IsAccepted}
use loop_skill.Kernel.Reduce.Honest.{reduce_command-IsHonest}
use loop_skill.Kernel.Repair.{decide_repair, idle_policy}
use loop_skill.Kernel.Repair.Bounded.{decide_repair_bounded}
use loop_skill.Kernel.Roadmap.{invalid_order, revise_goal_plan}
use loop_skill.Kernel.Roadmap.Order.{IsReordered, revise_goal_plan-IsReordered}

-- the reduction of a run that returns
abbrev returned : Result Reduction → Reduction
returned (ok r) = r
returned (err e) = reduced

reduce_command-IsHonest_example : IsHonest paused
reduce_command-IsHonest_example =
    reduce_command-IsHonest runtime context pause (some loop) (record reduced { snapshot = paused })
      reduce_ok loop-IsHonest

validate_authority-IsAuthorized_example :
    (a : ActorRef) × (g : Grant) × IsAuthorized runtime context pause a g
validate_authority-IsAuthorized_example =
    validate_authority-IsAuthorized runtime context pause (some loop) authority_ok

received :
    receipt_for runtime context close (readback_expected "finalization-1" finalization)
    ≡ ok readback
unfolding receipt_for lookup check_receipt validate_receipt_size check_window parse_time is_before
    matches validate_value size_members
received = refl

receipt_for-IsAccepted_example :
    IsAccepted runtime context close (readback_expected "finalization-1" finalization) readback
receipt_for-IsAccepted_example =
    receipt_for-IsAccepted runtime context close (readback_expected "finalization-1" finalization)
      readback received

prepared : prepare_finalization runtime context finalize finished ≡ ok finalized
unfolding prepare_finalization final_chain result_chain lookup finalization_disposition Option.bind
    subject_state final_chain_digest domain_digest validate_value chain_value size_members insert
prepared = refl

prepare_finalization_reopens_example :
    (t : Reduction) × (prepare_finalization runtime context finalize
        (record finished { execution = stopped })
      ≡ ok t)
    × (t.snapshot.execution.state ≡ ExecutionState.finalizing)
    × (t.snapshot.finalizations ≡ finalized.snapshot.finalizations)
prepare_finalization_reopens_example =
    prepare_finalization_reopens runtime context finalize finished stopped finalized prepared

closed :
    close_execution runtime context close finalizing
    ≡ ok (returned (close_execution runtime context close finalizing))
unfolding close_execution lookup receipt_for check_receipt validate_receipt_size validate_value
    size_members check_window parse_time is_before matches final_chain result_chain
    final_chain_digest domain_digest chain_value
closed = refl

close_execution-IsClosed_example :
    (f : Finalization) × (receipt : Receipt) × IsClosed runtime context close finalizing
      (returned (close_execution runtime context close finalizing)).snapshot
      f
      receipt
close_execution-IsClosed_example =
    close_execution-IsClosed runtime context close finalizing
      (returned (close_execution runtime context close finalizing)) closed

abbrev raised : Result (GoalPlan × String) → GoalPlan × String
raised (ok r) = r
raised (err e) = (plan, "")

extended :
    extend_budget runtime extension loop plan
    ≡ ok (raised (extend_budget runtime extension loop plan))
unfolding extend_budget Option.bind lookup invalid_extension is_digest is_hex chars domain_digest
    validate_value size_members
extended = refl

extend_budget-IsRaised_example :
    IsRaised plan.budget ((raised (extend_budget runtime extension loop plan)).0).budget
    × (((raised (extend_budget runtime extension loop plan)).0).plan_digest ≡ plan.plan_digest)
    × (((raised (extend_budget runtime extension loop plan)).0).ordered_goal_ids
        ≡ plan.ordered_goal_ids)
    × (((raised (extend_budget runtime extension loop plan)).0).active_index ≡ plan.active_index)
extend_budget-IsRaised_example =
    extend_budget-IsRaised runtime extension loop plan
      (raised (extend_budget runtime extension loop plan)) extended

revised :
    revise_goal_plan runtime context revision three
    ≡ ok (returned (revise_goal_plan runtime context revision three))
unfolding revise_goal_plan Option.bind lookup texts? invalid_order is_long_digest is_blank strip
    chars domain_digest validate_value
revised = refl

revise_goal_plan-IsReordered_example :
    (old : GoalPlan) × (new : GoalPlan) × (three.goal_plan ≡ some old)
    × ((returned (revise_goal_plan runtime context revision three)).snapshot.goal_plan ≡ some new)
    × ((old.mode == "ADAPTIVE") ≡ true)
    × IsReordered old new
revise_goal_plan-IsReordered_example =
    revise_goal_plan-IsReordered runtime context revision three
      (returned (revise_goal_plan runtime context revision three)) revised

abbrev repaired : Policy
repaired = (decide_repair idle_policy hash hash (pos 3) (pos 2)).0

decided : decide_repair idle_policy hash hash (pos 3) (pos 2) ≡ (repaired, false)
unfolding decide_repair
decided = refl

decide_repair_bounded_example :
    (repaired.repair_attempts ≡ (if false then 0 else 0 + 1))
    × ((false || leb repaired.repair_attempts 3) ≡ true)
    × ((false || ltb repaired.same_failure_count 2) ≡ true)
    × (repaired.decision_revision ≡ 0 + 1)
decide_repair_bounded_example =
    decide_repair_bounded idle_policy hash hash 3 2 repaired false decided

abbrev seen : Receipt
seen = record readback { outcome = ReceiptOutcome.observed }

late : observed_state seen AttemptState.unknown ≡ ok AttemptState.observed
unfolding observed_state
late = refl

observed_state_upgrades_example :
    (is_committed AttemptState.observed ≡ false)
    × ((not true || (true && true)) ≡ true)
    × ((false || is_observed_attempt AttemptState.observed) ≡ true)
observed_state_upgrades_example =
    observed_state_upgrades seen AttemptState.unknown AttemptState.observed late

abbrev claim : ArtifactClaim
claim = record {
  content_digest = hash;
  capture_state = "CAPTURED";
  profile = "tree";
  manifest_digest = hash;
  verification_digest = hash;
  verification_state = "VERIFIED";
}

abbrev verified_context : AuthorityContext
verified_context = record context {
  receipts =
      ("receipt-1", record seen { action = "verify-artifact"; subject_ref = "artifact-1" }) ∷ [];
}

abbrev acknowledge : Command
acknowledge =
    command CommandType.acknowledge_result "ResultRef" "result-1"
      (record no_bindings { receipt_refs = ("receipt", "receipt-1") ∷ [] }) []

judged :
    judge_artifact runtime verified_context acknowledge "artifact-1" claim
    ≡ ok (record artifact { receipt_ref = "receipt-1" })
unfolding judge_artifact receipt_for lookup check_receipt validate_receipt_size check_window
    parse_time is_before matches validate_value size_members claim_drift artifact_assurance
judged = refl

judge_artifact-IsVerifiedBy_example :
    (receipt : Receipt) × IsVerifiedBy runtime verified_context acknowledge "artifact-1" claim
      receipt
judge_artifact-IsVerifiedBy_example =
    judge_artifact-IsVerifiedBy runtime verified_context acknowledge "artifact-1" claim
      (record artifact { receipt_ref = "receipt-1" }) judged refl
