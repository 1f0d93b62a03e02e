-- ===== src/Policy.antt =====
-- codex-loop-prompt-architect/scripts/loop_architect/v4_policy/policy.py: the order of a Standard
-- queue, the disposition of a repair, and the next action of a snapshot. A function that raises
-- PolicyError returns none.
pub mod Queue
pub mod Repeats
pub mod Decision
pub mod Roadmap
use loop_skill.Kernel.Results.{is_staged_result}
use loop_skill.Kernel.Delivery.{is_prepared}
use loop_skill.Kernel.Closure.{is_observed_state, is_cooperative_strength}
use loop_skill.Protocol.Envelope.{CommandType}
use loop_skill.Prelude.{
  map, not, some, values, Bool, List, Option, String, [], all, any, distinct, elem, false,
  if◌then◌else◌, is_blank, is_empty, is_nil, leb, length, none, subset, true, ℕ, ◌&&◌, ◌++◌, ◌+◌,
  ◌==◌, ◌||◌, ◌∷◌,
}
use loop_skill.Kernel.State.{
  effects_or_empty, is_active_goal, Delivery, DeliveryState, ExecutionState, ExternalEffect,
  LoopResult, Review, Snapshot, Verdict,
}

pub record GoalSpec : Type 0 where
  pub goal_id : String
  pub objective : String
  pub depends_on : List String
  pub milestone_id : String

pub record PolicyEnvelope : Type 0 where
  pub allowed_goal_ids : List String
  pub max_goals : ℕ
  pub max_roadmap_revisions : ℕ
  pub max_repair_attempts : ℕ
  pub max_same_failure : ℕ

pub record RepairObservation : Type 0 where
  pub attempt_ref : String
  pub failure_fingerprint : String

-- the identities of Goals, in their order
abbrev pub identifiers : List GoalSpec → List String
identifiers goals = map (λ (g : GoalSpec). g.goal_id) goals

-- one turn of the loop of `_validate_goals`
valid_goal : List String → GoalSpec → Bool
valid_goal known g =
    not (is_empty g.goal_id)
    && not (is_blank g.objective)
    && not (is_empty g.milestone_id)
    && not (elem g.goal_id g.depends_on)
    && subset g.depends_on known

-- `_validate_goals`, which raises unless this holds
unfoldable pub validate_goals : List GoalSpec → PolicyEnvelope → Bool
unfolding valid_goal
validate_goals goals envelope =
    not (is_nil goals)
    && leb (length goals) envelope.max_goals
    && distinct (identifiers goals)
    && subset (identifiers goals) envelope.allowed_goal_ids
    && all (valid_goal (identifiers goals)) goals

-- the loop of `build_standard_queue`, with the identities before
unfoldable pub is_queue : List String → List GoalSpec → Bool
is_queue prior [] = true
is_queue prior (g ∷ goals) = subset g.depends_on prior && is_queue (prior ++ (g.goal_id ∷ [])) goals

unfoldable pub build_standard_queue : List GoalSpec → PolicyEnvelope → Option (List GoalSpec)
build_standard_queue goals envelope =
    if validate_goals goals envelope && is_queue [] goals then some goals else none

pub data Disposition : Type 0 where
  user_decision repair : Disposition

-- `reversed(history)` before a rest
unfoldable pub reversed_onto :
    List RepairObservation → List RepairObservation → List RepairObservation
reversed_onto rest [] = rest
reversed_onto rest (o ∷ history) = reversed_onto (o ∷ rest) history

-- the observations with the current fingerprint, up to the first other one
unfoldable pub same_failures : String → List RepairObservation → ℕ
same_failures current [] = 0
same_failures current (o ∷ history) =
    let more = same_failures current history in
    if o.failure_fingerprint == current then 1 + more else 0

-- the repetition at the end of a history, which is given from its end
unfoldable pub repeats : List RepairObservation → ℕ → Bool
repeats [] max_same = false
repeats (o ∷ history) max_same = leb max_same (same_failures o.failure_fingerprint (o ∷ history))

unfoldable pub repair_disposition : List RepairObservation → PolicyEnvelope → Disposition
repair_disposition history envelope =
    if leb envelope.max_repair_attempts (length history)
      || repeats (reversed_onto [] history) envelope.max_same_failure
    then user_decision
    else repair

pub data ActionKind : Type 0 where
  external_wait terminal user_decision command policy_decision : ActionKind

-- `NextAction`, without the text of its reason
pub record NextAction : Type 0 where
  pub kind : ActionKind
  pub command_type : Option CommandType

abbrev next : ActionKind → CommandType → Option NextAction
next kind command_type = some (record { kind = kind; command_type = some command_type })

-- ATTEMPT_COMMITTED, UNKNOWN or UNVERIFIABLE
abbrev pub is_waiting : DeliveryState → Bool
is_waiting DeliveryState.attempt_committed = true
is_waiting DeliveryState.unknown = true
is_waiting DeliveryState.unverifiable = true
is_waiting _ = false

-- the last of the reviews
abbrev last_review : List Review → Option Review
last_review [] = none
last_review (r ∷ []) = some r
last_review (r ∷ q ∷ reviews) = last_review (q ∷ reviews)

-- after the review
after_review : Snapshot → Verdict → Option NextAction
after_review s Verdict.repair =
    some (record { kind = ActionKind.policy_decision; command_type = none })
after_review s Verdict.pass =
    if any is_active_goal (values s.goals)
    then next ActionKind.command CommandType.advance_goal
    else if is_nil s.finalizations
    then next ActionKind.command CommandType.prepare_finalization
    else none
after_review s Verdict.limitation =
    if any is_active_goal (values s.goals)
    then next ActionKind.user_decision CommandType.prepare_finalization
    else if is_nil s.finalizations
    then next ActionKind.command CommandType.prepare_finalization
    else none

-- from the results on
after_delivery : Snapshot → Option NextAction
unfolding after_review
after_delivery s =
    if is_nil s.results
    then next ActionKind.command CommandType.stage_result
    else if any (λ (r : LoopResult). is_staged_result r.state) (values s.results)
    then next ActionKind.command CommandType.acknowledge_result
    else elim (last_review (values s.reviews)) [
      | none ↦ next ActionKind.policy_decision CommandType.record_review
      | some review ↦ after_review s review.state
    ]

-- from the Host resources on
after_effects : Snapshot → Option NextAction
unfolding after_delivery
after_effects s =
    if is_nil s.host_resources
    then next ActionKind.command CommandType.bind_host_resource
    else if is_nil s.routes
    then next ActionKind.command CommandType.prepare_route
    else if any (λ (d : Delivery). is_prepared d.state) (values s.deliveries)
    then next ActionKind.command CommandType.begin_effect_delivery
    else if any (λ (d : Delivery). is_waiting d.state) (values s.deliveries)
    then next ActionKind.external_wait CommandType.record_effect_observation
    else after_delivery s

-- an active execution, from its external effects on
active_action : Snapshot → Option NextAction
unfolding after_effects
active_action s =
    if any (λ (e : ExternalEffect). is_waiting e.state) (values (effects_or_empty s))
    then next ActionKind.external_wait CommandType.record_external_effect_observation
    else if all (λ (e : ExternalEffect). is_observed_state e.state) (values (effects_or_empty s))
    then after_effects s
    else none

action_of : ExecutionState → Snapshot → Option NextAction
unfolding active_action
action_of ExecutionState.terminal s =
    if is_cooperative_strength s.closure_assurance.strength
    then next ActionKind.external_wait CommandType.strengthen_closure_assurance
    else some (record { kind = ActionKind.terminal; command_type = none })
action_of ExecutionState.paused s = next ActionKind.user_decision CommandType.resume_loop
action_of ExecutionState.finalizing s = next ActionKind.external_wait CommandType.close_execution
action_of ExecutionState.active s = active_action s

unfoldable pub next_action : Snapshot → Option NextAction
unfolding action_of
next_action s = action_of s.execution.state s
