-- ===== src/Kernel/Review.antt =====
-- `_record_review` and `_advance_goal` of v4_alpha/kernel.py. Of the plan branches of
-- `_advance_goal` this is the one of content-addressed plans, the plans of this storage mode.
pub mod Next
pub mod Kept
pub mod Earned
pub mod Done
use loop_skill.Kernel.Subject.{chain_value, result_chain}
use loop_skill.Protocol.Value.{opt_str, str}
use loop_skill.Kernel.Closure.{is_failed_outcome, is_pass_verdict, is_pass_outcome}
use loop_skill.Protocol.Validate.{Outcome}
use loop_skill.Protocol.Outcome.{
  ok, raise_if, Result, at_key, fetch, invalid_command, invalid_transition, require, ◌>>=◌, ◌>>◌,
}
use loop_skill.Protocol.Envelope.{
  domain_digest, payload_text, binding, event, AuthorityContext, Command, Event, EventType, Runtime,
}
use loop_skill.Prelude.{
  Bool, List, Option, String, [], all, false, if◌then◌else◌, insert, is_nil, lookup, none, not,
  opt_eq, some, true, ◌&&◌, ◌++◌, ◌+◌, ◌==◌, ◌||◌, ◌∷◌,
}
use loop_skill.Kernel.State.{
  effects_of, is_active_goal, reduction, Goal, GoalPlan, GoalState, LoopResult, Reduction,
  ResultState, Review, Snapshot, Verdict,
}
use Next.{next_goal}
use mathlib.Core.Option

verdict? : String → Option Verdict
verdict? s =
    if s == "PASS"
    then some Verdict.pass
    else if s == "REPAIR"
    then some Verdict.repair
    else if s == "LIMITATION"
    then some Verdict.limitation
    else none

abbrev pub is_acknowledged_result : ResultState → Bool
is_acknowledged_result ResultState.acknowledged = true
is_acknowledged_result _ = false

unfoldable pub record_review : Runtime → AuthorityContext → Command → Snapshot → Result Reduction
unfolding verdict?
record_review rt ctx c s = do
  result ← fetch c.subject.subject_ref s.results
  raise_if (not (is_acknowledged_result result.state)) invalid_transition
  verdict ← require (Option.bind (payload_text c "verdict") verdict?) invalid_command
  review_ref ← binding c.bindings.allocate_refs "new_review_ref"
  chain ← result_chain s
  chain_digest ← domain_digest rt "loopskill-subject-chain-v1\n" (chain_value chain [])
  artifact_ref ← at_key result.artifact_ref
  ok (
      reduction
        (record s {
          reviews =
              insert review_ref
                (record {
                  artifact_ref = artifact_ref;
                  report_ref = result.report_ref;
                  result_ref = c.subject.subject_ref;
                  reviewer_actor_ref = c.actor_ref;
                  revision = 1;
                  state = verdict;
                  subject_chain_digest = chain_digest;
                })
                s.reviews;
        })
        (event EventType.review_recorded (("review_ref", str review_ref) ∷ []) ∷ [])
        (("review_ref", str review_ref) ∷ ("verdict", opt_str (payload_text c "verdict")) ∷ []))

-- the Goal of the result's route
route_goal : Snapshot → Option String → Result (List String)
route_goal s none = ok []
route_goal s (some route_ref) = do
  route ← require (lookup route_ref s.routes) invalid_transition
  ok (route.goal_ref ∷ [])

-- the Goal of the result's external effect
effect_goal : Snapshot → Option String → Result (List String)
effect_goal s none = ok []
effect_goal s (some effect_ref) = do
  effects ← effects_of s
  effect ← require (lookup effect_ref effects) invalid_transition
  ok (effect.goal_ref ∷ [])

abbrev own_goal : Option String → List String
own_goal none = []
own_goal (some goal_ref) = goal_ref ∷ []

-- `bound_goal_refs`
unfoldable pub bound_goals : Snapshot → LoopResult → Result (List String)
unfolding route_goal effect_goal
bound_goals s result = do
  by_route ← route_goal s result.route_ref
  by_effect ← effect_goal s result.external_effect_ref
  ok (own_goal result.goal_ref ++ (by_route ++ by_effect))

disposition_state? : String → Option GoalState
disposition_state? s =
    if s == "DONE"
    then some GoalState.done
    else if s == "FAILED"
    then some GoalState.failed
    else if s == "LIMITATION"
    then some GoalState.limitation
    else if s == "SKIPPED"
    then some GoalState.skipped
    else none

abbrev pub is_limitation_verdict : Verdict → Bool
is_limitation_verdict Verdict.limitation = true
is_limitation_verdict _ = false

-- LIMITATION or UNVERIFIABLE; a staged result is never BLOCKED
abbrev pub is_limited_outcome : Outcome → Bool
is_limited_outcome Outcome.limitation = true
is_limited_outcome Outcome.unverifiable = true
is_limited_outcome _ = false

-- the table `allowed`
unfoldable pub is_allowed : GoalState → Goal → LoopResult → Review → Bool
is_allowed GoalState.done goal result review =
    is_pass_outcome result.outcome && is_pass_verdict review.state
is_allowed GoalState.failed goal result review =
    is_failed_outcome result.outcome
    && (is_pass_verdict review.state || is_limitation_verdict review.state)
is_allowed GoalState.limitation goal result review = is_limitation_verdict review.state
is_allowed GoalState.skipped goal result review =
    (goal.requirement == "optional")
    && is_limitation_verdict review.state
    && is_limited_outcome result.outcome
is_allowed _ goal result review = false

-- the disposition of the subject Goal, after the tests on its review and result
unfoldable pub goal_disposition : Command → Snapshot → Goal → LoopResult → Review → Result GoalState
unfolding disposition_state?
goal_disposition c s goal result review = do
  raise_if (not (is_active_goal goal)) invalid_transition
  raise_if
      (not (is_acknowledged_result result.state)
        || not (review.report_ref == result.report_ref)
        || not (opt_eq (some review.artifact_ref) result.artifact_ref))
      invalid_transition
  bound ← bound_goals s result
  raise_if (is_nil bound || not (all (λ r. r == c.subject.subject_ref) bound)) invalid_transition
  disposition ←
      require (Option.bind (payload_text c "disposition") disposition_state?) invalid_transition
  raise_if (not (is_allowed disposition goal result review)) invalid_transition
  ok disposition

goal_state_text : GoalState → String
goal_state_text GoalState.done = "DONE"
goal_state_text GoalState.failed = "FAILED"
goal_state_text GoalState.limitation = "LIMITATION"
goal_state_text GoalState.skipped = "SKIPPED"
goal_state_text _ = ""

-- DONE and SKIPPED go on to the next Goal of the plan
abbrev pub goes_on : GoalState → Bool
goes_on GoalState.done = true
goes_on GoalState.skipped = true
goes_on _ = false

skip_events : GoalState → String → List Event
skip_events GoalState.skipped goal_ref =
    event EventType.goal_skipped (("goal_ref", str goal_ref) ∷ []) ∷ []
skip_events _ goal_ref = []

-- the next Goal of the plan, where there is a plan and the disposition goes on
follow :
    Runtime
    → Command
    → GoalState
    → Snapshot
    → Option GoalPlan
    → Result (Snapshot × List Event × Option String)
follow rt c disposition s none = ok (s, [], none)
follow rt c disposition s (some plan) =
    if goes_on disposition
    then next_goal rt c (goal_state_text disposition) s plan
    else ok (s, [], none)

-- the snapshot with the Goal in its new state
abbrev advanced : Command → Snapshot → Goal → GoalState → Snapshot
advanced c s goal disposition = record s {
  goals =
      insert c.subject.subject_ref
        (record goal { revision = goal.revision + 1; state = disposition }) s.goals;
}

unfoldable pub advance_goal : Runtime → AuthorityContext → Command → Snapshot → Result Reduction
unfolding skip_events follow goal_state_text
advance_goal rt ctx c s = do
  review_ref ← binding c.bindings.resolved_refs "review_ref"
  goal ← require (lookup c.subject.subject_ref s.goals) invalid_transition
  review ← require (lookup review_ref s.reviews) invalid_transition
  result ← require (lookup review.result_ref s.results) invalid_transition
  disposition ← goal_disposition c s goal result review
  (t, events, next_ref) ← follow rt c disposition (advanced c s goal disposition) s.goal_plan
  ok (
      reduction t
        (event EventType.goal_advanced (("goal_ref", str c.subject.subject_ref) ∷ [])
          ∷ (events ++ skip_events disposition c.subject.subject_ref))
        (("goal_state", str (goal_state_text disposition))
          ∷ ("next_goal_ref", opt_str next_ref)
          ∷ []))
