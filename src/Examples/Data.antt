-- ===== src/Examples/Data.antt =====
-- A loop with one active Goal, an actor with a grant for every command, and a fixed runtime.
use loop_skill.Store.{empty_store, ApplyResult, Entry, Store}
use loop_skill.Protocol.Value.{str, Value}
use loop_skill.Protocol.Outcome.{Result, ok}
use loop_skill.Protocol.Envelope.{
  ActorRef, AuthorityContext, Bindings, Command, CommandType, EventType, Grant, Receipt,
  ReceiptOutcome, Runtime, Scope, TrustClass,
}
use loop_skill.Protocol.Derive.{Chain}
use loop_skill.Prelude.{true, pos, Dict, String, [], false, none, some, ◌∷◌}
use loop_skill.Kernel.State.{ExecutionState, Goal, GoalPlan, GoalState, Snapshot, Strength}

abbrev pub hash : String
hash = "aaaaaaaaaaaaaaaaaaaaaaaaaaaaaaaaaaaaaaaaaaaaaaaaaaaaaaaaaaaaaaaa"

abbrev pub runtime : Runtime
runtime = record {
  sha256 = λ domain value. hash;
  canonical_size = λ value. 100;
  fromisoformat = λ text. some (record { microseconds = 5; aware = true });
}

abbrev pub encode : Snapshot → Result String
encode s = ok hash

abbrev pub readback : Receipt
readback = record {
  receipt_ref = "receipt-1";
  issuer_ref = "issuer-1";
  issuer_trust = "root";
  trust_class = TrustClass.strict;
  action = "lifecycle-readback";
  loop_ref = "loop-1";
  subject_ref = "finalization-1";
  attempt_ref = none;
  target_ref = none;
  request_digest = some hash;
  provider_idempotency_key = none;
  provider_resource_ref = none;
  outcome = ReceiptOutcome.acknowledged;
  issued_at = "t";
  expires_at = "t";
  evidence_digest = hash;
}

abbrev pub actor : ActorRef
actor = record {
  actor_ref = "actor-1";
  loop_namespace = "loop-1";
  actor_kind = "MAIN";
  identity_digest = hash;
  issuer_ref = "issuer-1";
  issuer_trust = "root";
}

abbrev pub grant : Grant
grant = record {
  grant_ref = "grant-1";
  actor_ref = "actor-1";
  issuer_actor_ref = "actor-1";
  issuer_trust = "root";
  allowed_commands = "PauseLoop" ∷ "CloseExecution" ∷ [];
  loop_scope = "loop-1";
  subject_kinds = "LoopRef" ∷ "FinalizationRef" ∷ [];
  scope = Scope.exact_subjects [];
  not_before = "t";
  expires_at = "t";
  nonce = "n";
  canonical_digest = hash;
}

abbrev pub context : AuthorityContext
context = record {
  actors = ("actor-1", actor) ∷ [];
  grants = ("grant-1", grant) ∷ [];
  receipts = ("receipt-1", readback) ∷ [];
  trusted_actor_issuers = ("issuer-1", "root") ∷ [];
  trusted_grant_issuers = ("actor-1", "root") ∷ [];
  trusted_receipt_issuers = ("issuer-1", "root") ∷ [];
}

abbrev pub chain : Chain
chain = record {
  artifact_ref = "artifact-1";
  attempt_ref = "attempt-1";
  external_effect_ref = "external-effect-1";
  goal_ref = "goal-1";
  host_resource_ref = "host-target-1";
  report_ref = "report-1";
  result_ref = "result-1";
  review_ref = "review-1";
  provider_key = hash;
  provider_target = "host-target-1";
}

abbrev pub goal : Goal
goal = record {
  chain_refs = chain;
  depends_on = none;
  goal_id = "first";
  goal_slice_digest = hash;
  max_attempts = pos 1;
  objective = some "objective";
  objective_digest = hash;
  order = 0;
  requirement = "required";
  revision = 1;
  state = GoalState.active;
}

abbrev pub plan : GoalPlan
plan = record {
  active_goal_ref = "goal-1";
  active_index = 0;
  authority_digest = hash;
  budget = record {
    max_cost_minor_units = pos 0;
    max_host_invocations = pos 10;
    wall_clock_seconds = pos 100;
  };
  budget_extension = none;
  capacity_contract_version = "loopskill-capacity-v1";
  goal_count = 1;
  max_roadmap_revisions = pos 4;
  mode = "ADAPTIVE";
  ordered_goal_ids = "first" ∷ [];
  ordered_goal_slice_digests = hash ∷ [];
  plan_digest = hash;
  plan_index_digest = hash;
  revision = 0;
  stop_policy_digest = hash;
  workspace_binding = hash;
}

abbrev pub loop : Snapshot
loop = record {
  artifacts = [];
  attempts = [];
  closure_assurance = record {
    finalization_ref = none;
    receipt_ref = none;
    revision = 0;
    strength = Strength.none_yet;
  };
  current_result_ref = none;
  deliveries = [];
  execution = record {
    disposition = none;
    pause_reason_digest = none;
    revision = 1;
    state = ExecutionState.active;
    stop_reason_digest = none;
    wait_kind = none;
  };
  external_effects = none;
  finalizations = [];
  goal_plan = some plan;
  goals = ("goal-1", goal) ∷ [];
  host_resources = [];
  loop_ref = "loop-1";
  loop_revision = 1;
  policy = none;
  reports = [];
  results = [];
  reviews = [];
  routes = [];
  start_authorization = none;
}

abbrev pub no_bindings : Bindings
no_bindings = record { resolved_refs = []; allocate_refs = []; receipt_refs = [] }

-- a command about a subject
abbrev pub command : CommandType → String → String → Bindings → Dict Value → Command
command kind subject_kind subject_ref bindings payload = record {
  operation_id = "op-2";
  command_type = kind;
  protocol_version = "4.2.0";
  actor_ref = "actor-1";
  authority_grant_ref = "grant-1";
  subject = record { loop_ref = "loop-1"; subject_kind = subject_kind; subject_ref = subject_ref };
  expected_loop_revision = 1;
  expected_subject_revisions = [];
  issued_at = "t";
  bindings = bindings;
  payload = payload;
  request_digest = hash;
}

abbrev pub pause : Command
pause = command CommandType.pause_loop "LoopRef" "loop-1" no_bindings (("reason", str "wait") ∷ [])

abbrev pub paused : Snapshot
paused = record loop {
  execution = record {
    disposition = none;
    pause_reason_digest = some hash;
    revision = 2;
    state = ExecutionState.paused;
    stop_reason_digest = none;
    wait_kind = none;
  };
  loop_revision = 2;
}

-- the store of the loop, whose creation is operation `op-1`
abbrev pub created : Entry ApplyResult
created = record {
  loop_ref = "loop-1";
  operation_id = "op-1";
  request_digest = hash;
  value = record {
    operation_id = "op-1";
    loop_ref = "loop-1";
    loop_revision = 1;
    event_types = [];
    response = [];
    snapshot_digest = hash;
    replayed = false;
  };
}

abbrev pub store : Store
store = record empty_store {
  snapshots = ("loop-1", loop) ∷ [];
  accepted = created ∷ [];
  commit_count = 1;
}

abbrev pub paused_result : ApplyResult
paused_result = record {
  operation_id = "op-2";
  loop_ref = "loop-1";
  loop_revision = 2;
  event_types = EventType.loop_paused ∷ [];
  response = ("execution_state", str "PAUSED") ∷ [];
  snapshot_digest = hash;
  replayed = false;
}
