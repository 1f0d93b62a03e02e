-- ===== src/Kernel/Repair.antt =====
-- `_record_policy_decision` of v4_alpha/kernel.py.
pub mod Kept
pub mod Bounded
mod Schedule
unfoldable pub use Schedule.*
use loop_skill.Kernel.Subject.{policy_context_digest}
use loop_skill.Kernel.Results.{sole_active}
use loop_skill.Protocol.Value.{object_of, num, boolean, str, Value}
use loop_skill.Protocol.Outcome.{
  raise_if, require, Result, invalid_command, invalid_transition, ok, stale_subject_revision, ◌>>=◌,
  ◌>>◌,
}
use loop_skill.Protocol.Envelope.{
  domain_digest, event, payload_text, binding, AuthorityContext, Command, Event, EventType, Runtime,
}
use loop_skill.Protocol.Derive.{
  artifact_profiles, has_entries, is_long_digest, repair_identity, Chain,
}
use loop_skill.Prelude.{
  keys, not, pos, Bool, Dict, List, Option, String, [], cat, chars, contains, elem, false,
  if◌then◌else◌, insert, is_empty, is_nil, leb_ℤ, length, lookup, ltb, none, opt_eq, parse_int,
  slice_to, some, subset, true, ℕ, ℤ, ◌&&◌, ◌++◌, ◌+◌, ◌==◌, ◌||◌, ◌∷◌,
}
use loop_skill.Kernel.State.{
  effects_of, active_goals, reduction, AttemptState, DeliveryState, ExternalEffect, Goal, GoalPlan,
  Policy, PolicyState, Reduction, Snapshot, Verdict,
}

abbrev pub idle_policy : Policy
idle_policy = record {
  decision_card_digest = none;
  decision_revision = 0;
  goal_ref = none;
  last_decision = none;
  last_failure_digest = none;
  repair_attempts = 0;
  same_failure_count = 0;
  state = PolicyState.idle;
}

-- `snapshot.setdefault("policy", ...)`
abbrev pub policy_of : Option Policy → Policy
policy_of none = idle_policy
policy_of (some p) = p

-- the counters start again where the policy is about another Goal
pub policy_for : Policy → String → Policy
policy_for p goal_ref = if opt_eq p.goal_ref (some goal_ref) then p else record p {
  goal_ref = some goal_ref;
  last_failure_digest = none;
  repair_attempts = 0;
  same_failure_count = 0;
}

-- a binding that `int(...)` reads
pub int_binding : Command → String → Result ℤ
int_binding c name = do
  text ← binding c.bindings.resolved_refs name
  require (parse_int text) invalid_command

same_count : Policy → String → ℕ
same_count p failure_digest =
    if opt_eq p.last_failure_digest (some failure_digest) then p.same_failure_count + 1 else 1

-- what the decision leaves of the repair budget
is_exhausted : ℤ → ℤ → ℕ → ℕ → Bool
is_exhausted repair_budget same_budget attempts same =
    leb_ℤ repair_budget (pos attempts) || leb_ℤ same_budget (pos same)

-- the policy that a decision to repair leaves, before a repair is scheduled
unfoldable pub decide_repair : Policy → String → String → ℤ → ℤ → Policy × Bool
unfolding same_count is_exhausted
decide_repair p card_digest failure_digest repair_budget same_budget =
    let same = same_count p failure_digest in
    let exhausted = is_exhausted repair_budget same_budget p.repair_attempts same in
    let updated = record p {
      decision_card_digest = some card_digest;
      decision_revision = p.decision_revision + 1;
      last_decision = some "CONTINUE_REPAIR";
      last_failure_digest = some failure_digest;
      same_failure_count = same;
      state = if exhausted then PolicyState.exhausted else PolicyState.authorized;
    } in
    (
      if exhausted then updated else record updated { repair_attempts = p.repair_attempts + 1 },
      exhausted,
    )

policy_text : PolicyState → String
policy_text PolicyState.idle = "IDLE"
policy_text PolicyState.authorized = "AUTHORIZED"
policy_text PolicyState.exhausted = "EXHAUSTED"
policy_text PolicyState.repair_scheduled = "REPAIR_SCHEDULED"
policy_text PolicyState.execution_pending = "EXECUTION_PENDING"

repair_response : Policy → Bool → Dict Value
unfolding policy_text
repair_response p exhausted =
    ("decision", str "CONTINUE_REPAIR")
    ∷ ("repair_authorized", boolean (not exhausted))
    ∷ ("repair_state", str (policy_text p.state))
    ∷ []

-- the decision of the policy, carried out
carry_out :
    Runtime → Command → Snapshot → String → Goal → Policy → Bool → List Event → Result Reduction
unfolding plan_repair repair_response
carry_out rt c s goal_ref goal p exhausted recorded =
    if exhausted
    then ok (
        reduction (record s { policy = some p })
          (recorded ++ (event EventType.repair_exhausted [] ∷ [])) (repair_response p exhausted))
    else let authorized =
        recorded
        ++ (event EventType.repair_authorized (("attempt_ordinal", num p.repair_attempts) ∷ [])
            ∷ []) in
      if is_nil c.bindings.allocate_refs
      then ok (reduction (record s { policy = some p }) authorized (repair_response p exhausted))
      else (do
        (t, events) ← plan_repair rt c s goal_ref goal p.repair_attempts
        let scheduled = record p { state = PolicyState.repair_scheduled }
        ok (
            reduction (record t { policy = some scheduled }) (authorized ++ events)
              (repair_response scheduled exhausted)))

abbrev pub is_repair_verdict : Verdict → Bool
is_repair_verdict Verdict.repair = true
is_repair_verdict _ = false

-- the review of the Goal's current chain asks for a repair
needs_repair : Snapshot → Goal → Bool
needs_repair s goal = elim (lookup goal.chain_refs.review_ref s.reviews) [
  | none ↦ false
  | some review ↦ is_repair_verdict review.state
]

continue_repair : Runtime → Command → Snapshot → String → String → List Event → Result Reduction
unfolding needs_repair carry_out
continue_repair rt c s fingerprint card_digest recorded = do
  (goal_ref, goal) ← sole_active (active_goals s)
  raise_if (not (needs_repair s goal) || is_empty fingerprint) invalid_transition
  repair_budget ← int_binding c "repair_budget"
  same_budget ← int_binding c "same_failure_budget"
  raise_if
      (not (leb_ℤ (pos 1) repair_budget && leb_ℤ repair_budget (pos 3))
        || not (leb_ℤ (pos 1) same_budget && leb_ℤ same_budget (pos 2)))
      invalid_command
  failure_digest ← domain_digest rt "loopskill-failure-fingerprint-v1\n" (str fingerprint)
  let (p, exhausted) =
      decide_repair (policy_for (policy_of s.policy) goal_ref) card_digest failure_digest
        repair_budget same_budget
  carry_out rt c s goal_ref goal p exhausted recorded

-- the decision, recorded, and a repair where it asks for one
decide : Runtime → Command → Snapshot → String → String → String → Result Reduction
decide rt c s decision fingerprint card_digest =
    let recorded =
      event EventType.human_decision_recorded
        (("decision", str decision) ∷ ("decision_card_digest", str card_digest) ∷ [])
      ∷ [] in
    if decision == "CONTINUE_REPAIR"
    then continue_repair rt c s fingerprint card_digest recorded
    else (let p = policy_of s.policy in
        ok (
          reduction
            (record s {
              policy = some (record p {
                decision_card_digest = some card_digest;
                decision_revision = p.decision_revision + 1;
                last_decision = some decision;
                state = PolicyState.execution_pending;
              });
            })
            recorded (("decision", str decision) ∷ [])))

pub record_policy_decision : Runtime → AuthorityContext → Command → Snapshot → Result Reduction
unfolding decide
record_policy_decision rt ctx c s = do
  decision ← require (payload_text c "decision") invalid_command
  raise_if (not (elem decision ("CONTINUE_REPAIR" ∷ "WAIT" ∷ "STOP" ∷ []))) invalid_command
  fingerprint ← require (payload_text c "failure_fingerprint") invalid_command
  raise_if (ltb 512 (chars fingerprint)) invalid_command
  context_digest ← binding c.bindings.resolved_refs "context_digest"
  card_digest ← binding c.bindings.resolved_refs "decision_card_digest"
  current ← policy_context_digest rt s
  raise_if (not (context_digest == current) || is_empty card_digest) stale_subject_revision
  decide rt c s decision fingerprint card_digest
