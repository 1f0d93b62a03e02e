-- ===== src/Kernel/Lifecycle.antt =====
-- `_pause_loop`, `_resume_loop` and `_stop_loop` of v4_alpha/kernel.py.
pub mod Kept
pub mod Budget
use loop_skill.Kernel.Results.{sole_active}
use loop_skill.Protocol.Value.{null, int, str, text?, object_of, Value}
use loop_skill.Protocol.Outcome.{
  ok, raise_if, Result, invalid_command, invalid_transition, require, stale_subject_revision, ◌>>=◌,
  ◌>>◌,
}
use loop_skill.Protocol.Envelope.{
  domain_digest, event, payload_int, payload_text, AuthorityContext, Command, Event, EventType,
  Runtime,
}
use loop_skill.Prelude.{
  is_digest, keys, not, pos, Bool, Dict, List, Option, String, [], chars, eqb, eqb_ℤ, false,
  if◌then◌else◌, insert, is_blank, is_nil, leb_ℤ, lookup, ltb, none, opt_eq, some, subset, true, ℕ,
  ℤ, ◌&&◌, ◌++◌, ◌+◌, ◌==◌, ◌||◌, ◌∷◌,
}
use loop_skill.Kernel.State.{
  active_goals, reduction, BudgetExtension, Disposition, ExecutionState, GoalPlan, GoalState,
  Reduction, Snapshot, Strength, WaitKind,
}

abbrev pub is_active_execution : ExecutionState → Bool
is_active_execution ExecutionState.active = true
is_active_execution _ = false

abbrev pub is_paused : ExecutionState → Bool
is_paused ExecutionState.paused = true
is_paused _ = false

abbrev pub is_terminal : ExecutionState → Bool
is_terminal ExecutionState.terminal = true
is_terminal _ = false

-- the reason of a pause or a stop
unfoldable pub valid_reason : Command → Result String
valid_reason c = do
  reason ← require (payload_text c "reason") invalid_command
  raise_if (is_blank reason || ltb 512 (chars reason)) invalid_command
  ok reason

wait_kind? : String → Option WaitKind
wait_kind? s =
    if s == "BLOCKED"
    then some WaitKind.blocked
    else if s == "BUDGET"
    then some WaitKind.budget
    else if s == "FAILURE"
    then some WaitKind.failure
    else if s == "HUMAN"
    then some WaitKind.human
    else if s == "REPAIR"
    then some WaitKind.repair
    else if s == "TIME"
    then some WaitKind.time
    else none

-- the payload's wait kind, absent or one of the six
unfoldable pub wait_kind_of : Option Value → Result (Option WaitKind)
unfolding wait_kind?
wait_kind_of none = ok none
wait_kind_of (some null) = ok none
wait_kind_of (some v) = do
  name ← require (text? v) invalid_command
  kind ← require (wait_kind? name) invalid_command
  ok (some kind)

-- `if wait_kind is not None: paused["wait_kind"] = wait_kind`
abbrev replace {ℓ} : {A : Type ℓ} → Option A → Option A → Option A
replace none old = old
replace (some new) old = some new

unfoldable pub pause_events : Option WaitKind → String → List Event
pause_events (some WaitKind.budget) digest =
    event EventType.budget_waiting []
    ∷ event EventType.loop_paused (("reason_digest", str digest) ∷ [])
    ∷ []
pause_events _ digest = event EventType.loop_paused (("reason_digest", str digest) ∷ []) ∷ []

unfoldable pub pause_loop : Runtime → AuthorityContext → Command → Snapshot → Result Reduction
pause_loop rt ctx c s = do
  raise_if (not (is_active_execution s.execution.state)) invalid_transition
  reason ← valid_reason c
  kind ← wait_kind_of (lookup "wait_kind" c.payload)
  digest ← domain_digest rt "loopskill-pause-reason-v1\n" (str reason)
  ok (
      reduction
        (record s {
          execution = record (s.execution) {
            pause_reason_digest = some digest;
            revision = s.execution.revision + 1;
            state = ExecutionState.paused;
            wait_kind = replace kind s.execution.wait_kind;
          };
        })
        (pause_events kind digest) (("execution_state", str "PAUSED") ∷ []))

abbrev pub max_host_invocations : ℤ
max_host_invocations = pos 384

abbrev pub max_wall_clock_seconds : ℤ
max_wall_clock_seconds = pos 2592000

-- the fields of a budget extension, or a rejection
unfoldable pub invalid_extension : ℤ → ℤ → ℤ → ℤ → String → Bool
invalid_extension current_max current_wall new_max new_wall reason_digest =
    not (leb_ℤ current_max new_max)
    || not (leb_ℤ new_max max_host_invocations)
    || not (leb_ℤ current_wall new_wall)
    || not (leb_ℤ new_wall max_wall_clock_seconds)
    || (eqb_ℤ new_max current_max && eqb_ℤ new_wall current_wall)
    || not (is_digest reason_digest)

-- `set(payload) == names`
abbrev pub has_exactly : List String → Dict Value → Bool
has_exactly names payload = subset (keys payload) names && subset names (keys payload)

budget_value : ℤ → ℤ → Value
budget_value max wall =
    object_of (("max_host_invocations", int max) ∷ ("wall_clock_seconds", int wall) ∷ [])

extension_revision : Option BudgetExtension → ℕ
extension_revision none = 0
extension_revision (some e) = e.revision

-- the plan with an extended budget, and the digest of the extension
unfoldable pub extend_budget : Runtime → Command → Snapshot → GoalPlan → Result (GoalPlan × String)
unfolding budget_value extension_revision
extend_budget rt c s plan = do
  new_max ← require (payload_int c "new_max_host_invocations") invalid_command
  new_wall ← require (payload_int c "new_wall_clock_seconds") invalid_command
  reason_digest ← require (payload_text c "reason_digest") invalid_command
  raise_if
      (invalid_extension plan.budget.max_host_invocations plan.budget.wall_clock_seconds new_max
        new_wall reason_digest)
      invalid_command
  prior ←
      domain_digest rt "loopskill-runtime-budget-v1\n"
        (budget_value plan.budget.max_host_invocations plan.budget.wall_clock_seconds)
  raise_if (not (opt_eq (payload_text c "prior_budget_digest") (some prior))) stale_subject_revision
  digest ← domain_digest rt "loopskill-budget-extension-v1\n" (
      object_of (
        ("loop_ref", str s.loop_ref)
        ∷ ("new_max_host_invocations", int new_max)
        ∷ ("new_wall_clock_seconds", int new_wall)
        ∷ ("prior_budget_digest", str prior)
        ∷ ("reason_digest", str reason_digest)
        ∷ []))
  ok (
    record plan {
      budget = record (plan.budget) {
        max_host_invocations = new_max;
        wall_clock_seconds = new_wall;
      };
      budget_extension = some (record {
        extension_digest = digest;
        reason_digest = reason_digest;
        revision = extension_revision plan.budget_extension + 1;
      });
    },
    digest,
  )

budget_resume : Runtime → Command → Snapshot → Result (Snapshot × List Event)
unfolding extend_budget
budget_resume rt c s = do
  raise_if
      (not (
        has_exactly
          ("new_max_host_invocations" ∷ "new_wall_clock_seconds" ∷ "prior_budget_digest"
            ∷ "reason_digest" ∷ [])
          c.payload))
      invalid_command
  plan ← require s.goal_plan invalid_transition
  (extended, digest) ← extend_budget rt c s plan
  ok (
    record s { goal_plan = some extended },
    event EventType.budget_extended (("extension_digest", str digest) ∷ []) ∷ [],
  )

gate_resume : Command → Snapshot → Result (Snapshot × List Event)
gate_resume c s = do
  raise_if (not (has_exactly ("gate_digest" ∷ []) c.payload)) invalid_command
  gate ← require (payload_text c "gate_digest") invalid_command
  raise_if (not (is_digest gate)) invalid_command
  ok (s, event EventType.controller_gate_satisfied (("gate_digest", str gate) ∷ []) ∷ [])

-- what the wait kind asks of a resume
pub resume_by_kind : Runtime → Command → Snapshot → Option WaitKind → Result (Snapshot × List Event)
unfolding budget_resume gate_resume
resume_by_kind rt c s (some WaitKind.budget) = budget_resume rt c s
resume_by_kind rt c s (some WaitKind.human) = gate_resume c s
resume_by_kind rt c s (some WaitKind.time) = gate_resume c s
resume_by_kind rt c s _ = raise_if (not (is_nil c.payload)) invalid_command >> ok (s, [])

pub resume_loop : Runtime → AuthorityContext → Command → Snapshot → Result Reduction
resume_loop rt ctx c s = do
  raise_if (not (is_paused s.execution.state)) invalid_transition
  (t, events) ← resume_by_kind rt c s s.execution.wait_kind
  ok (
      reduction
        (record t {
          execution = record (s.execution) {
            pause_reason_digest = none;
            revision = s.execution.revision + 1;
            state = ExecutionState.active;
            wait_kind = none;
          };
        })
        (events ++ (event EventType.loop_resumed [] ∷ [])) (("execution_state", str "ACTIVE") ∷ []))

pub stop_loop : Runtime → AuthorityContext → Command → Snapshot → Result Reduction
unfolding valid_reason
stop_loop rt ctx c s = do
  raise_if (not (is_active_execution s.execution.state || is_paused s.execution.state))
      invalid_transition
  reason ← valid_reason c
  (goal_ref, goal) ← sole_active (active_goals s)
  digest ← domain_digest rt "loopskill-stop-reason-v1\n" (str reason)
  ok (
      reduction
        (record s {
          goals =
              insert goal_ref
                (record goal { revision = goal.revision + 1; state = GoalState.stopped }) s.goals;
          execution = record (s.execution) {
            disposition = some Disposition.stopped;
            revision = s.execution.revision + 1;
            state = ExecutionState.terminal;
            stop_reason_digest = some digest;
          };
          closure_assurance = record {
            finalization_ref = none;
            receipt_ref = none;
            revision = s.closure_assurance.revision + 1;
            strength = Strength.local;
          };
        })
        (event EventType.goal_advanced (("goal_ref", str goal_ref) ∷ [])
          ∷ event EventType.loop_stopped (("reason_digest", str digest) ∷ [])
          ∷ [])
        (("disposition", str "STOPPED") ∷ ("execution_state", str "TERMINAL") ∷ []))
