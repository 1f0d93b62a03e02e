-- ===== src/Kernel/Closure/Prepare.antt =====
-- `_prepare_finalization` of v4_alpha/kernel.py, and the tests of a finalization.
use loop_skill.Protocol.Value.{str}
use loop_skill.Protocol.Validate.{Outcome}
use loop_skill.Protocol.Outcome.{
  err, raise_if, Result, at_key, fetch, finalization_precondition_failed, invalid_command, ok,
  rejection, require, ◌>>=◌, ◌>>◌,
}
use loop_skill.Protocol.Envelope.{
  payload_text, binding, event, AuthorityContext, Command, EventType, Runtime,
}
use loop_skill.Prelude.{
  Dict, values, Bool, Option, String, [], all, any, false, if◌then◌else◌, insert, none, not, some,
  true, ◌+◌, ◌==◌, ◌||◌, ◌∷◌,
}
use loop_skill.Kernel.Subject.{
  final_chain_digest, by_effect, by_delivery, final_chain, ChainLink, SubjectChain,
}
use loop_skill.Kernel.State.{
  effects_of, reduction, DeliveryState, Disposition, ExecutionState, FinalizationState, Goal,
  GoalState, LoopResult, Reduction, Review, Snapshot, Strength, Verdict,
}
use mathlib.Core.Option

unfoldable pub disposition? : String → Option Disposition
disposition? s =
    if s == "SUCCEEDED"
    then some Disposition.succeeded
    else if s == "SUCCEEDED_WITH_LIMITATIONS"
    then some Disposition.succeeded_with_limitations
    else if s == "FAILED"
    then some Disposition.failed
    else if s == "LIMITATION"
    then some Disposition.limitation
    else none

unfoldable pub disposition_text : Disposition → String
disposition_text Disposition.succeeded = "SUCCEEDED"
disposition_text Disposition.succeeded_with_limitations = "SUCCEEDED_WITH_LIMITATIONS"
disposition_text Disposition.limitation = "LIMITATION"
disposition_text Disposition.failed = "FAILED"
disposition_text Disposition.stopped = "STOPPED"

-- the Goal states from which nothing is left to do
abbrev pub is_finished : Goal → Bool
is_finished g = elim g.state [ GoalState.pending ↦ false | GoalState.active ↦ false | _ ↦ true ]

abbrev pub is_done : GoalState → Bool
is_done GoalState.done = true
is_done _ = false

abbrev pub is_skipped : GoalState → Bool
is_skipped GoalState.skipped = true
is_skipped _ = false

abbrev pub is_failed : GoalState → Bool
is_failed GoalState.failed = true
is_failed _ = false

abbrev pub is_stopped : GoalState → Bool
is_stopped GoalState.stopped = true
is_stopped _ = false

abbrev pub is_observed_state : DeliveryState → Bool
is_observed_state DeliveryState.observed = true
is_observed_state _ = false

abbrev pub is_pass_outcome : Outcome → Bool
is_pass_outcome Outcome.pass = true
is_pass_outcome _ = false

abbrev pub is_failed_outcome : Outcome → Bool
is_failed_outcome Outcome.failed = true
is_failed_outcome _ = false

abbrev pub is_pass_verdict : Verdict → Bool
is_pass_verdict Verdict.pass = true
is_pass_verdict _ = false

-- the four tests on the disposition
unfoldable pub check_disposition :
    Disposition → Dict Goal → GoalState → Outcome → Verdict → DeliveryState → Result (Unit {0})
check_disposition Disposition.succeeded goals goal outcome verdict subject =
    raise_if
      (not (is_done goal)
        || not (is_pass_outcome outcome)
        || not (is_pass_verdict verdict)
        || not (is_observed_state subject))
      finalization_precondition_failed
check_disposition Disposition.succeeded_with_limitations goals goal outcome verdict subject =
    raise_if
      (not (any (λ (g : Goal). is_skipped g.state) (values goals))
        || not (is_done goal || is_skipped goal)
        || not (is_observed_state subject))
      finalization_precondition_failed
check_disposition Disposition.failed goals goal outcome verdict subject =
    raise_if (not (is_failed goal) || not (is_failed_outcome outcome))
      finalization_precondition_failed
check_disposition Disposition.limitation goals goal outcome verdict subject =
    raise_if (is_failed goal) finalization_precondition_failed
check_disposition Disposition.stopped goals goal outcome verdict subject =
    err (rejection invalid_command)

-- the state of the delivery or of the external effect of the chain
unfoldable pub subject_state : Snapshot → ChainLink → Result DeliveryState
subject_state s (by_delivery delivery_ref delivery_rev route_ref route_rev) = do
  delivery ← fetch delivery_ref s.deliveries
  ok delivery.state
subject_state s (by_effect effect_ref effect_rev resource_ref resource_rev) = do
  effects ← effects_of s
  effect ← fetch effect_ref effects
  ok effect.state

-- the tests of a finalization, up to its disposition
unfoldable pub finalization_disposition :
    Command → Snapshot → SubjectChain → Review → LoopResult → Result Disposition
unfolding disposition? check_disposition
finalization_disposition c s chain review result = do
  goal ← fetch chain.goal_ref s.goals
  raise_if (not (all is_finished (values s.goals))) finalization_precondition_failed
  raise_if (not (is_finished goal) || is_stopped goal.state) finalization_precondition_failed
  subject ← subject_state s chain.link
  disposition ← require (Option.bind (payload_text c "disposition") disposition?) invalid_command
  check_disposition disposition s.goals goal.state result.outcome review.state subject
  ok disposition

unfoldable pub prepare_finalization :
    Runtime → AuthorityContext → Command → Snapshot → Result Reduction
prepare_finalization rt ctx c s = do
  (chain, review_ref, review) ← final_chain s
  result ← fetch chain.result_ref s.results
  disposition ← finalization_disposition c s chain review result
  finalization_ref ← binding c.bindings.allocate_refs "new_finalization_ref"
  chain_digest ← final_chain_digest rt chain review_ref review
  artifact_ref ← at_key result.artifact_ref
  ok (
      reduction
        (record s {
          finalizations =
              insert finalization_ref
                (record {
                  artifact_ref = artifact_ref;
                  assurance_strength = Strength.none_yet;
                  attempt_ref = result.attempt_ref;
                  delivery_ref = result.delivery_ref;
                  disposition = disposition;
                  external_effect_ref = result.external_effect_ref;
                  goal_ref = chain.goal_ref;
                  report_ref = result.report_ref;
                  result_ref = chain.result_ref;
                  review_ref = review_ref;
                  revision = 1;
                  route_ref = result.route_ref;
                  state = FinalizationState.prepared;
                  subject_chain_digest = chain_digest;
                })
                s.finalizations;
          execution = record (s.execution) {
            revision = s.execution.revision + 1;
            state = ExecutionState.finalizing;
          };
        })
        (event EventType.finalization_prepared (("finalization_ref", str finalization_ref) ∷ [])
          ∷ [])
        (("finalization_ref", str finalization_ref) ∷ []))
