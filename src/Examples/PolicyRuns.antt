-- ===== src/Examples/PolicyRuns.antt =====
-- The policy's theorems at small inputs.
use loop_skill.Protocol.Envelope.{is_before, Moment, domain_digest}
use loop_skill.Prelude.{
  has_prefix, is_blank, List, String, [], none, refl, some, subset, true, ◌∷◌, ◌≡◌,
}
use loop_skill.Policy.{
  is_queue, validate_goals, GoalSpec, PolicyEnvelope, RepairObservation, build_standard_queue,
  identifiers,
}
use loop_skill.Examples.Data.{hash, runtime}
use loop_skill.Protocol.Value.{size_values, size_members, validate_value, Value}
use loop_skill.Policy.Decision.{
  invalid_card, mismatched, context_digest_of, DecisionCard, DecisionResponse,
  apply_decision_response, build_decision_card,
}
use loop_skill.Protocol.Partial.{unless, ◌>>=◌}
use loop_skill.Policy.Decision.Answered.{
  apply_decision_response-IsAnswer, apply_decision_response-build_decision_card, IsAnswer,
}
use loop_skill.Policy.Roadmap.{AdaptiveRoadmap}
use loop_skill.Protocol.Envelope.{Runtime}
use loop_skill.Prelude.{ℕ, ◌==◌, if◌then◌else◌, arith}
use loop_skill.Policy.Queue.{build_standard_queue_ordered}

abbrev first_goal : GoalSpec
first_goal = record { goal_id = "a"; objective = "first"; depends_on = []; milestone_id = "m1" }

abbrev second_goal : GoalSpec
second_goal = record {
  goal_id = "b";
  objective = "second";
  depends_on = "a" ∷ [];
  milestone_id = "m1";
}

abbrev envelope : PolicyEnvelope
envelope = record {
  allowed_goal_ids = "a" ∷ "b" ∷ [];
  max_goals = 16;
  max_roadmap_revisions = 4;
  max_repair_attempts = 3;
  max_same_failure = 2;
}

abbrev both_goals : List GoalSpec
both_goals = first_goal ∷ second_goal ∷ []

queued : build_standard_queue both_goals envelope ≡ some both_goals
unfolding build_standard_queue validate_goals is_blank is_queue
queued = refl

build_standard_queue_ordered_example :
    (both_goals ≡ both_goals)
    × (subset second_goal.depends_on (identifiers (first_goal ∷ [])) ≡ true)
build_standard_queue_ordered_example =
    build_standard_queue_ordered both_goals both_goals envelope (first_goal ∷ []) [] second_goal
      queued refl

abbrev failure : String → RepairObservation
failure fingerprint = record { attempt_ref = "attempt-1"; failure_fingerprint = fingerprint }

abbrev history : List RepairObservation
history = failure "x" ∷ failure "y" ∷ []

abbrev moment : ℕ → Moment
moment n = record { microseconds = n; aware = true }

abbrev clock : Runtime
clock = record runtime {
  fromisoformat =
      λ text. if text == "2026-01-01T00:00:00Z" then some (moment 1) else some (moment 2);
}

abbrev card : DecisionCard
card = record {
  card_ref = "decision-1";
  goal_ref = "goal-1";
  artifact_ref = none;
  options = "WAIT" ∷ "STOP" ∷ [];
  context_digest = hash;
  expires_at = "2026-01-02T00:00:00Z";
  card_digest = hash;
}

carded :
    build_decision_card clock "decision-1" "goal-1" none
      ("WAIT" ∷ "STOP" ∷ [])
      Value.null
      "2026-01-02T00:00:00Z"
    ≡ some card
unfolding build_decision_card unless invalid_card has_prefix ◌>>=◌ context_digest_of domain_digest
    validate_value size_members size_values
carded = refl

abbrev stop_response : DecisionResponse
stop_response = record {
  card_ref = "decision-1";
  selected_option = "STOP";
  context_digest = hash;
  card_digest = hash;
  responded_at = "2026-01-01T00:00:00Z";
}

stops :
    apply_decision_response clock card stop_response Value.null "2026-01-02T00:00:00Z" ≡ some "STOP"
unfolding apply_decision_response is_before ◌>>=◌ context_digest_of domain_digest validate_value
    unless mismatched
stops = refl

apply_decision_response-IsAnswer_example :
    IsAnswer clock
      ("WAIT" ∷ "STOP" ∷ [])
      Value.null
      Value.null
      "2026-01-01T00:00:00Z"
      "2026-01-02T00:00:00Z"
      "2026-01-02T00:00:00Z"
      "STOP"
apply_decision_response-IsAnswer_example =
    apply_decision_response-IsAnswer clock "decision-1" "goal-1" none ("WAIT" ∷ "STOP" ∷ [])
      Value.null Value.null "2026-01-02T00:00:00Z" "2026-01-02T00:00:00Z" card stop_response "STOP"
      carded stops

apply_decision_response-build_decision_card_example :
    apply_decision_response clock card stop_response Value.null "2026-01-02T00:00:00Z" ≡ some "STOP"
apply_decision_response-build_decision_card_example =
    apply_decision_response-build_decision_card clock "decision-1" "goal-1" none
      ("WAIT" ∷ "STOP" ∷ []) Value.null "2026-01-02T00:00:00Z" "2026-01-02T00:00:00Z"
      "2026-01-01T00:00:00Z" "STOP" card (moment 1) (moment 2) (moment 2) carded refl refl refl refl
      refl refl (omega arith) (omega arith)

abbrev roadmap : ℕ → List GoalSpec → AdaptiveRoadmap
roadmap revision goals = record {
  revision = revision;
  active_goal_id = "a";
  goals = goals;
  roadmap_digest = hash;
}
