-- ===== src/Kernel/Startup.antt =====
-- `_create_loop` of v4_alpha/kernel.py.
pub mod Effect
pub mod Kept
use loop_skill.Protocol.Derive.{chain_allocations, has_entries, goal_chain, is_long_digest}
use loop_skill.Protocol.Value.{int?, str, text?, strings?, Value}
use loop_skill.Protocol.Outcome.{
  ok, raise_if, Result, err, invalid_command, invalid_transition, rejection, require, ◌>>=◌, ◌>>◌,
}
use loop_skill.Protocol.Envelope.{
  domain_digest, content_storage_mode, binding, event, payload_int, payload_text, AuthorityContext,
  Command, Event, EventType, Runtime,
}
use loop_skill.Prelude.{
  negsuc, not, pos, Bool, List, Option, String, [], all, any, distinct, elem, eqb, eqb_ℤ, false,
  if◌then◌else◌, is_blank, is_some, leb, leb_ℤ, length, lookup, none, opt_eq, some, strip, ℕ, ℤ,
  ◌&&◌, ◌==◌, ◌||◌, ◌∷◌,
}
use loop_skill.Kernel.State.{
  reduction, Budget, ExecutionState, Goal, GoalPlan, GoalState, Reduction, Snapshot, Strength,
}
use Effect.{start_effect}
use mathlib.Core.Option

abbrev payload_strings : Command → String → Option (List String)
payload_strings c name = Option.bind (lookup name c.payload) strings?

-- the Goal plan's one objective, the mode and the budget of revisions
check_objective : Command → String → Result (String × ℤ)
check_objective c objective = do
  objectives ← require (payload_strings c "goal_plan") invalid_command
  mode ← require (payload_text c "execution_mode") invalid_command
  max_revisions ← require (payload_int c "max_roadmap_revisions") invalid_command
  raise_if (not (eqb (length objectives) 1)) invalid_command
  raise_if (any is_blank objectives || not (all (λ o. strip o == strip objective) objectives))
      invalid_command
  raise_if (not (elem mode ("STANDARD" ∷ "ADAPTIVE" ∷ []))) invalid_command
  raise_if (not (leb_ℤ (pos 1) max_revisions && leb_ℤ max_revisions (pos 17))) invalid_command
  raise_if ((mode == "STANDARD") && not (eqb_ℤ max_revisions (pos 1))) invalid_command
  ok (mode, max_revisions)

-- a count or an index of the payload
natural : Option ℤ → Result ℕ
natural none = err (rejection invalid_command)
natural (some (pos n)) = ok n
natural (some (negsuc n)) = err (rejection invalid_command)

abbrev text_or : String → Option Value → Result String
text_or d none = ok d
text_or d (some v) = require (text? v) invalid_command

abbrev int_or : ℤ → Option Value → Result ℤ
int_or d none = ok d
int_or d (some v) = require (int? v) invalid_command

-- the first Goal's identity, which stands first in both lists
check_first : String → String → List String → List String → Bool
check_first goal_id slice_digest (i ∷ is) (d ∷ ds) = (goal_id == i) && (slice_digest == d)
check_first goal_id slice_digest _ _ = false

-- the capacity contract's limits
capacity_drift : String → ℕ → String → ℤ → Bool
capacity_drift version goal_count requirement max_attempts =
    not (elem version ("loopskill-capacity-v1" ∷ "loopskill-capacity-v2" ∷ []))
    || not (leb 1 goal_count)
    || not (leb goal_count (if version == "loopskill-capacity-v2" then 128 else 32))
    || not (elem requirement ("required" ∷ "optional" ∷ []))
    || not (leb_ℤ (pos 1) max_attempts && leb_ℤ max_attempts (pos 3))
    || ((version == "loopskill-capacity-v1")
        && (not (requirement == "required") || not (eqb_ℤ max_attempts (pos 1))))

-- the plan of the payload
check_budget : Command → ℕ → Result Budget
check_budget c goal_count = do
  invocations ← require (payload_int c "max_host_invocations") invalid_command
  wall ← require (payload_int c "wall_clock_seconds") invalid_command
  cost ← require (payload_int c "max_cost_minor_units") invalid_command
  raise_if
      (not (leb_ℤ (pos goal_count) invocations)
        || not (leb_ℤ (pos 1) wall)
        || not (leb_ℤ (pos 0) cost))
      invalid_command
  ok (record {
    max_cost_minor_units = cost;
    max_host_invocations = invocations;
    wall_clock_seconds = wall;
  })

pub record StartPlan : Type 0 where
  pub plan : GoalPlan
  pub goal_id : String
  pub slice_digest : String
  pub requirement : String
  pub max_attempts : ℤ

pub read_plan : Command → String → String → ℤ → Result StartPlan
unfolding natural check_first capacity_drift check_budget is_long_digest
read_plan c goal_ref mode max_revisions = do
  goal_count ← natural (payload_int c "goal_count")
  active_index ← natural (payload_int c "active_index")
  plan_revision ← natural (payload_int c "plan_revision")
  raise_if (not (eqb active_index 0) || not (eqb plan_revision 0)) invalid_command
  goal_id ← require (payload_text c "goal_id") invalid_command
  slice_digest ← require (payload_text c "goal_slice_digest") invalid_command
  ids ← require (payload_strings c "ordered_goal_ids") invalid_command
  digests ← require (payload_strings c "ordered_goal_slice_digests") invalid_command
  raise_if
      (not (eqb (length ids) goal_count)
        || not (eqb (length digests) goal_count)
        || not (distinct ids)
        || not (check_first goal_id slice_digest ids digests))
      invalid_command
  plan_digest ← require (payload_text c "plan_digest") invalid_command
  index_digest ← require (payload_text c "plan_index_digest") invalid_command
  authority_digest ← require (payload_text c "authority_digest") invalid_command
  workspace ← require (payload_text c "workspace_binding") invalid_command
  stop_policy ← require (payload_text c "stop_policy_digest") invalid_command
  raise_if
      (not (
        all (λ d. is_long_digest (some d))
          (plan_digest ∷ index_digest ∷ authority_digest ∷ workspace ∷ stop_policy ∷ digests)))
      invalid_command
  budget ← check_budget c goal_count
  version ← require (payload_text c "capacity_contract_version") invalid_command
  requirement ← text_or "required" (lookup "goal_requirement" c.payload)
  max_attempts ← int_or (pos 1) (lookup "max_attempts" c.payload)
  raise_if (capacity_drift version goal_count requirement max_attempts) invalid_command
  ok (record {
    plan = record {
      active_goal_ref = goal_ref;
      active_index = 0;
      authority_digest = authority_digest;
      budget = budget;
      budget_extension = none;
      capacity_contract_version = version;
      goal_count = goal_count;
      max_roadmap_revisions = max_revisions;
      mode = mode;
      ordered_goal_ids = ids;
      ordered_goal_slice_digests = digests;
      plan_digest = plan_digest;
      plan_index_digest = index_digest;
      revision = 0;
      stop_policy_digest = stop_policy;
      workspace_binding = workspace;
    };
    goal_id = goal_id;
    slice_digest = slice_digest;
    requirement = requirement;
    max_attempts = max_attempts;
  })

-- the snapshot before its startup effect
pub fresh_snapshot : String → String → Goal → GoalPlan → Snapshot
fresh_snapshot loop_ref goal_ref goal plan = record {
  artifacts = [];
  attempts = [];
  closure_assurance = record {
    finalization_ref = none;
    receipt_ref = none;
    revision = 0;
    strength = Strength.none_yet;
  };
  current_result_ref = none;
  deliveries = [];
  execution = record {
    disposition = none;
    pause_reason_digest = none;
    revision = 1;
    state = ExecutionState.active;
    stop_reason_digest = none;
    wait_kind = none;
  };
  external_effects = none;
  finalizations = [];
  goal_plan = some plan;
  goals = (goal_ref, goal) ∷ [];
  host_resources = [];
  loop_ref = loop_ref;
  loop_revision = 0;
  policy = none;
  reports = [];
  results = [];
  reviews = [];
  routes = [];
  start_authorization = none;
}

first_events : String → String → StartPlan → List Event
first_events loop_ref goal_ref start =
    event EventType.loop_created (("loop_ref", str loop_ref) ∷ [])
    ∷ event EventType.goal_registered (("goal_ref", str goal_ref) ∷ [])
    ∷ event EventType.goal_activated (("goal_ref", str goal_ref) ∷ [])
    ∷ event EventType.goal_plan_registered (
        ("mode", str start.plan.mode)
        ∷ ("plan_digest", str start.plan.plan_digest)
        ∷ ("plan_index_digest", str start.plan.plan_index_digest)
        ∷ [])
    ∷ []

-- the new loop, with its first Goal and its startup effect
launch : Runtime → AuthorityContext → Command → String → String → StartPlan → Result Reduction
unfolding first_events
launch rt ctx c goal_ref objective start = do
  objective_digest ← domain_digest rt "loopskill-goal-objective-v1\n" (str objective)
  chain ← goal_chain rt (record {
    loop_ref = c.subject.loop_ref;
    plan_digest = start.plan.plan_digest;
    goal_id = start.goal_id;
    slice_digest = start.slice_digest;
  })
  raise_if
      (not (has_entries (chain_allocations chain) c.bindings.allocate_refs)
        || not (opt_eq (lookup "target_ref" c.bindings.resolved_refs) (some chain.provider_target)))
      invalid_command
  start_effect rt ctx c goal_ref start.plan start.goal_id start.slice_digest (
      reduction
        (fresh_snapshot c.subject.loop_ref goal_ref
          (record {
            chain_refs = chain;
            depends_on = none;
            goal_id = start.goal_id;
            goal_slice_digest = start.slice_digest;
            max_attempts = start.max_attempts;
            objective = some (strip objective);
            objective_digest = objective_digest;
            order = 0;
            requirement = start.requirement;
            revision = 1;
            state = GoalState.active;
          })
          start.plan)
        (first_events c.subject.loop_ref goal_ref start)
        (("goal_ref", str goal_ref) ∷ ("loop_ref", str c.subject.loop_ref) ∷ []))

pub create_loop : Runtime → AuthorityContext → Command → Option Snapshot → Result Reduction
unfolding check_objective launch
create_loop rt ctx c s = do
  raise_if (is_some s || not (eqb c.expected_loop_revision 0)) invalid_transition
  goal_ref ← binding c.bindings.allocate_refs "new_goal_ref"
  objective ← require (payload_text c "objective") invalid_command
  raise_if (is_blank objective) invalid_command
  raise_if (not (opt_eq (payload_text c "storage_mode") (some content_storage_mode)))
      invalid_command
  (mode, max_revisions) ← check_objective c objective
  start ← read_plan c goal_ref mode max_revisions
  launch rt ctx c goal_ref objective start
