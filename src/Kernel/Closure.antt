-- ===== src/Kernel/Closure.antt =====
-- `_prepare_finalization`, `_close_execution` and `_strengthen_closure_assurance` of
-- v4_alpha/kernel.py.
pub mod Reopen
pub mod Close
pub mod Honest
mod Prepare
unfoldable pub use Prepare.*
use loop_skill.Protocol.Value.{str}
use loop_skill.Kernel.Lifecycle.{is_terminal}
use loop_skill.Protocol.Validate.{Outcome}
use loop_skill.Protocol.Outcome.{
  err, raise_if, Result, at_key, fetch, finalization_precondition_failed, invalid_command,
  invalid_transition, ok, rejection, require, ◌>>=◌, ◌>>◌,
}
use loop_skill.Protocol.Envelope.{
  payload_text, binding, is_acknowledged, event, is_strict, AuthorityContext, Command, Event,
  EventType, Receipt, Runtime,
}
use loop_skill.Prelude.{
  Dict, refl, ◌≡◌, values, Bool, List, Option, String, [], all, any, false, if◌then◌else◌, insert,
  none, not, opt_eq, some, true, ◌&&◌, ◌+◌, ◌==◌, ◌||◌, ◌∷◌,
}
use loop_skill.Kernel.Subject.{
  final_chain_digest, by_effect, by_delivery, final_chain, ChainLink, SubjectChain,
}
use loop_skill.Kernel.State.{
  Execution, effects_of, reduction, DeliveryState, Disposition, ExecutionState, Finalization,
  FinalizationState, Goal, GoalState, LoopResult, Reduction, Review, Snapshot, Strength, Verdict,
}
use loop_skill.Kernel.Receipts.{receipt_for, Expected}
use mathlib.Core.Option

abbrev pub is_open_finalization : FinalizationState → Bool
is_open_finalization FinalizationState.prepared = true
is_open_finalization _ = false

abbrev pub is_success : Disposition → Bool
is_success Disposition.succeeded = true
is_success Disposition.succeeded_with_limitations = true
is_success _ = false

abbrev pub is_cooperative_strength : Strength → Bool
is_cooperative_strength Strength.cooperative = true
is_cooperative_strength _ = false

abbrev pub strength_text : Strength → String
strength_text Strength.none_yet = "NONE"
strength_text Strength.local = "LOCAL"
strength_text Strength.cooperative = "COOPERATIVE"
strength_text Strength.strict = "STRICT"

abbrev pub readback_expected : String → Finalization → Expected
readback_expected finalization_ref f = record {
  action = "lifecycle-readback";
  subject_ref = finalization_ref;
  attempt_ref = none;
  target_ref = none;
  request_digest = some f.subject_chain_digest;
}

-- strict and acknowledged
abbrev pub is_strict_readback : Receipt → Bool
is_strict_readback r = is_strict r.trust_class && is_acknowledged r.outcome

close_events : Bool → String → Finalization → List Event
close_events strict finalization_ref f =
    event EventType.execution_finalized (
      ("disposition", str (disposition_text f.disposition))
      ∷ ("finalization_ref", str finalization_ref)
      ∷ [])
    ∷ (if strict
        then event EventType.strict_finalization_acknowledged
            (("finalization_ref", str finalization_ref) ∷ [])
          ∷ []
        else [])

unfoldable pub close_execution : Runtime → AuthorityContext → Command → Snapshot → Result Reduction
unfolding close_events disposition_text
close_execution rt ctx c s = do
  f ← fetch c.subject.subject_ref s.finalizations
  raise_if (not (is_open_finalization f.state)) invalid_transition
  receipt ← receipt_for rt ctx c (readback_expected c.subject.subject_ref f)
  (chain, review_ref, review) ← final_chain s
  current_chain ← final_chain_digest rt chain review_ref review
  raise_if (not (current_chain == f.subject_chain_digest)) finalization_precondition_failed
  raise_if (is_success f.disposition && not (is_strict_readback receipt))
      finalization_precondition_failed
  let strict = is_strict_readback receipt
  let assurance = if strict then Strength.strict else Strength.cooperative
  ok (
      reduction
        (record s {
          finalizations =
              insert c.subject.subject_ref
                (record f {
                  assurance_strength = assurance;
                  revision = f.revision + 1;
                  state = FinalizationState.execution_closed;
                })
                s.finalizations;
          execution = record (s.execution) {
            disposition = some f.disposition;
            revision = s.execution.revision + 1;
            state = ExecutionState.terminal;
          };
          closure_assurance = record {
            finalization_ref = some c.subject.subject_ref;
            receipt_ref = some receipt.receipt_ref;
            revision = 1;
            strength = assurance;
          };
        })
        (close_events strict c.subject.subject_ref f)
        (("assurance", str (strength_text assurance))
          ∷ ("disposition", str (disposition_text f.disposition))
          ∷ []))

pub strengthen_closure_assurance :
    Runtime → AuthorityContext → Command → Snapshot → Result Reduction
unfolding disposition_text
strengthen_closure_assurance rt ctx c s = do
  f ← fetch c.subject.subject_ref s.finalizations
  raise_if
      (not (is_terminal s.execution.state)
        || is_open_finalization f.state
        || not (is_cooperative_strength f.assurance_strength)
        || not (is_cooperative_strength s.closure_assurance.strength)
        || not (opt_eq s.closure_assurance.finalization_ref (some c.subject.subject_ref)))
      invalid_transition
  receipt ← receipt_for rt ctx c (readback_expected c.subject.subject_ref f)
  raise_if (not (is_strict_readback receipt)) finalization_precondition_failed
  ok (
      reduction
        (record s {
          finalizations =
              insert c.subject.subject_ref
                (record f { assurance_strength = Strength.strict; revision = f.revision + 1 })
                s.finalizations;
          closure_assurance = record {
            finalization_ref = some c.subject.subject_ref;
            receipt_ref = some receipt.receipt_ref;
            revision = s.closure_assurance.revision + 1;
            strength = Strength.strict;
          };
        })
        (event EventType.closure_assurance_strengthened
            (("finalization_ref", str c.subject.subject_ref) ∷ ("strength", str "STRICT") ∷ [])
          ∷ event EventType.strict_finalization_acknowledged
              (("finalization_ref", str c.subject.subject_ref) ∷ [])
          ∷ [])
        (("assurance", str "STRICT") ∷ ("disposition", str (disposition_text f.disposition)) ∷ []))

-- the tests of a finalization do not depend on the execution
subject_state-execution :
    (s : Snapshot) (x : Execution) (link : ChainLink)
    → subject_state (record s { execution = x }) link ≡ subject_state s link
unfolding subject_state
subject_state-execution s x (by_delivery delivery_ref delivery_rev route_ref route_rev) = refl
subject_state-execution s x (by_effect effect_ref effect_rev resource_ref resource_rev) = refl

pub finalization_disposition-execution :
    (c : Command) (s : Snapshot) (x : Execution) (chain : SubjectChain) (review : Review)
    (result : LoopResult)
    → finalization_disposition c (record s { execution = x }) chain review result
      ≡ finalization_disposition c s chain review result
unfolding finalization_disposition
finalization_disposition-execution c s x chain review result =
    rw (subject_state-execution s x chain.link) refl
