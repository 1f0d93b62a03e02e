-- ===== src/Examples/Finished.antt =====
-- A loop whose Goal is done, with the records behind its result, and one with a delivery.
use loop_skill.Protocol.Value.{array_of, num, str}
use loop_skill.Protocol.Validate.{Outcome}
use loop_skill.Protocol.Envelope.{event, Command, CommandType, EventType}
use loop_skill.Prelude.{[], none, some, true, ◌∷◌}
use loop_skill.Kernel.State.{
  reduction, Artifact, ArtifactState, Attempt, AttemptState, Delivery, DeliveryState, Disposition,
  Execution, ExecutionState, Finalization, FinalizationState, GoalState, LoopResult, Reduction,
  Report, ReportState, ResultState, Review, Route, Snapshot, Strength, Verdict,
}
use loop_skill.Examples.Data.{command, goal, hash, loop, no_bindings, plan}

abbrev pub delivery : Delivery
delivery = record {
  attempt_ref = some "attempt-1";
  automatic_attempt_budget = 1;
  automatic_attempts_consumed = 1;
  revision = 3;
  route_ref = "route-1";
  state = DeliveryState.observed;
  target_ref = "host-target-1";
}

abbrev pub route : Route
route = record {
  delivery_ref = "delivery-1";
  goal_ref = "goal-1";
  intent_digest = hash;
  revision = 1;
  target_ref = "host-target-1";
}

abbrev pub attempt : Attempt
attempt = record {
  action = none;
  automatic_budget_consumed = true;
  delivery_ref = some "delivery-1";
  executor_actor_ref = "actor-1";
  executor_grant_ref = "grant-1";
  external_effect_ref = none;
  observation_receipt_ref = some "receipt-0";
  ordinal = 1;
  provider_idempotency_key = hash;
  provider_request = none;
  provider_request_digest = hash;
  revision = 2;
  state = AttemptState.observed;
  target_ref = "host-target-1";
}

abbrev pub result : LoopResult
result = record {
  artifact_ref = some "artifact-1";
  attempt_ref = "attempt-1";
  delivery_ref = some "delivery-1";
  external_effect_ref = none;
  goal_ref = none;
  outcome = Outcome.pass;
  report_ref = "report-1";
  revision = 2;
  route_ref = some "route-1";
  source_observation_digest = none;
  state = ResultState.acknowledged;
}

abbrev pub report : Report
report = record {
  author_actor_ref = "actor-1";
  content_digest = hash;
  result_ref = "result-1";
  revision = 2;
  state = ReportState.accepted;
}

abbrev pub artifact : Artifact
artifact = record {
  capture_state = "CAPTURED";
  content_digest = hash;
  manifest_digest = hash;
  profile = "tree";
  receipt_ref = "receipt-0";
  result_ref = "result-1";
  revision = 1;
  state = ArtifactState.verified;
  verification_digest = hash;
  verification_state = "VERIFIED";
}

abbrev pub review : Review
review = record {
  artifact_ref = "artifact-1";
  report_ref = "report-1";
  result_ref = "result-1";
  reviewer_actor_ref = "actor-1";
  revision = 1;
  state = Verdict.pass;
  subject_chain_digest = hash;
}

abbrev pub finished : Snapshot
finished = record loop {
  artifacts = ("artifact-1", artifact) ∷ [];
  attempts = ("attempt-1", attempt) ∷ [];
  current_result_ref = some "result-1";
  deliveries = ("delivery-1", delivery) ∷ [];
  goals = ("goal-1", record goal { state = GoalState.done; revision = 2 }) ∷ [];
  reports = ("report-1", report) ∷ [];
  results = ("result-1", result) ∷ [];
  reviews = ("review-1", review) ∷ [];
  routes = ("route-1", route) ∷ [];
}

abbrev pub finalize : Command
finalize =
    command CommandType.prepare_finalization "LoopRef" "loop-1"
      (record no_bindings { allocate_refs = ("new_finalization_ref", "finalization-1") ∷ [] })
      (("disposition", str "SUCCEEDED") ∷ [])

abbrev pub finalization : Finalization
finalization = record {
  artifact_ref = "artifact-1";
  assurance_strength = Strength.none_yet;
  attempt_ref = "attempt-1";
  delivery_ref = some "delivery-1";
  disposition = Disposition.succeeded;
  external_effect_ref = none;
  goal_ref = "goal-1";
  report_ref = "report-1";
  result_ref = "result-1";
  review_ref = "review-1";
  revision = 1;
  route_ref = some "route-1";
  state = FinalizationState.prepared;
  subject_chain_digest = hash;
}

abbrev pub finalizing : Snapshot
finalizing = record finished {
  finalizations = ("finalization-1", finalization) ∷ [];
  execution = record (loop.execution) { revision = 2; state = ExecutionState.finalizing };
}

abbrev pub finalized : Reduction
finalized =
    reduction finalizing
      (event EventType.finalization_prepared (("finalization_ref", str "finalization-1") ∷ []) ∷ [])
      (("finalization_ref", str "finalization-1") ∷ [])

abbrev pub close : Command
close =
    command CommandType.close_execution "FinalizationRef" "finalization-1"
      (record no_bindings { receipt_refs = ("receipt", "receipt-1") ∷ [] }) []

-- a stopped execution
abbrev pub stopped : Execution
stopped = record {
  disposition = some Disposition.stopped;
  pause_reason_digest = none;
  revision = 5;
  state = ExecutionState.terminal;
  stop_reason_digest = some hash;
  wait_kind = none;
}

-- a delivery whose one attempt has not begun
abbrev pub routed : Snapshot
routed = record loop {
  deliveries =
      (
        "delivery-1",
        record delivery {
          attempt_ref = none;
          automatic_attempts_consumed = 0;
          state = DeliveryState.prepared;
        },
      )
      ∷ [];
  routes = ("route-1", route) ∷ [];
}

abbrev pub begin : Command
begin =
    command CommandType.begin_effect_delivery "DeliveryRef" "delivery-1"
      (record no_bindings {
        allocate_refs = ("new_attempt_ref", "attempt-1") ∷ ("provider_idempotency_key", hash) ∷ [];
      })
      []

abbrev pub extension : Command
extension = command CommandType.resume_loop "LoopRef" "loop-1" no_bindings (
    ("new_max_host_invocations", num 20)
    ∷ ("new_wall_clock_seconds", num 100)
    ∷ ("prior_budget_digest", str hash)
    ∷ ("reason_digest", str hash)
    ∷ [])

abbrev pub revision : Command
revision = command CommandType.revise_goal_plan "LoopRef" "loop-1" no_bindings (
    ("ordered_goal_ids", array_of ("first" ∷ "third" ∷ "second" ∷ []))
    ∷ ("ordered_goal_slice_digests", array_of (hash ∷ hash ∷ hash ∷ []))
    ∷ ("plan_revision", num 1)
    ∷ ("plan_index_digest", str hash)
    ∷ ("reason", str "later")
    ∷ [])

-- a plan of three Goals, the first of them active
abbrev pub three : Snapshot
three = record loop {
  goal_plan = some (record plan {
    goal_count = 3;
    ordered_goal_ids = "first" ∷ "second" ∷ "third" ∷ [];
    ordered_goal_slice_digests = hash ∷ hash ∷ hash ∷ [];
  });
}
