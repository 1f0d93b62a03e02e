-- ===== src/Kernel/Review/Next.antt =====
-- The Goal that follows in a content-addressed plan: its record, its external effect and its attempt.
pub mod Kept
pub mod Goals
use loop_skill.Protocol.Value.{str}
use loop_skill.Protocol.Outcome.{
  raise_if, Result, internal_invariant_violation, invalid_command, invalid_transition, ok, require,
  ◌>>=◌, ◌>>◌,
}
use loop_skill.Protocol.Envelope.{binding, event, Command, Event, EventType, Runtime}
use loop_skill.Protocol.Derive.{
  artifact_profiles, chain_allocations, has_entries, is_long_digest, goal_chain, Chain,
}
use loop_skill.Prelude.{
  pos, not, Bool, Dict, List, Option, String, [], contains, elem, eqb, get_elem?, insert, leb_ℤ,
  length, lookup, ltb, none, parse_int, some, true, ℤ, ◌&&◌, ◌+◌, ◌==◌, ◌||◌, ◌∷◌,
}
use loop_skill.Kernel.State.{
  effects_of, AttemptState, DeliveryState, ExternalEffect, GoalPlan, GoalState, Snapshot,
}

index_drift : String → GoalPlan → Bool
index_drift goal_ref plan =
    not (ltb plan.active_index (length plan.ordered_goal_ids))
    || not (eqb (length plan.ordered_goal_ids) plan.goal_count)
    || not (eqb (length plan.ordered_goal_slice_digests) (length plan.ordered_goal_ids))
    || not (plan.active_goal_ref == goal_ref)

-- a binding with a default
abbrev with_default : Option String → String → String
with_default none d = d
with_default (some s) d = s

pub descriptor_drift : Command → GoalPlan → Chain → String → String → ℤ → Bool
descriptor_drift c plan chain goal_id slice_digest max_attempts =
    let resolved = c.bindings.resolved_refs in
    not (has_entries (chain_allocations chain) c.bindings.allocate_refs)
    || not (
        has_entries
          (("next_goal_id", goal_id)
            ∷ ("next_goal_slice_digest", slice_digest)
            ∷ ("provider_target", chain.provider_target)
            ∷ ("plan_digest", plan.plan_digest)
            ∷ ("plan_index_digest", plan.plan_index_digest)
            ∷ ("workspace_identity_digest", plan.workspace_binding)
            ∷ [])
          resolved)
    || not (
        elem (with_default (lookup "next_goal_requirement" resolved) "required")
          ("required" ∷ "optional" ∷ []))
    || not (leb_ℤ (pos 1) max_attempts && leb_ℤ max_attempts (pos 3))

-- what the bindings give of the next Goal
pub record NextFields : Type 0 where
  pub objective_digest : String
  pub provider_digest : String
  pub baseline : String
  pub profile : String
  pub workspace : String

pub next_fields : Command → Snapshot → Chain → Result NextFields
unfolding is_long_digest
next_fields c s chain = do
  let resolved = c.bindings.resolved_refs
  objective_digest ← binding resolved "next_objective_digest"
  provider_digest ← binding resolved "provider_request_digest"
  raise_if
      (not (is_long_digest (some objective_digest)) || not (is_long_digest (some provider_digest)))
      invalid_command
  baseline ← binding resolved "artifact_baseline_blob_digest"
  profile ← binding resolved "artifact_profile"
  workspace ← binding resolved "workspace_identity_digest"
  raise_if (not (elem profile artifact_profiles)) invalid_command
  raise_if (contains chain.goal_ref s.goals || contains chain.attempt_ref s.attempts)
      invalid_command
  effects ← effects_of s
  raise_if (contains chain.external_effect_ref effects) invalid_command
  ok (record {
    objective_digest = objective_digest;
    provider_digest = provider_digest;
    baseline = baseline;
    profile = profile;
    workspace = workspace;
  })

-- the snapshot with the next Goal active
pub materialize :
    Command
    → String
    → Snapshot
    → GoalPlan
    → Chain
    → String
    → String
    → ℤ
    → NextFields
    → Dict ExternalEffect
    → Snapshot
materialize c prior s plan chain goal_id slice_digest max_attempts fields effects = record s {
  goals =
      insert chain.goal_ref
        (record {
          chain_refs = chain;
          depends_on = some c.subject.subject_ref;
          goal_id = goal_id;
          goal_slice_digest = slice_digest;
          max_attempts = max_attempts;
          objective = none;
          objective_digest = fields.objective_digest;
          order = plan.active_index + 1;
          requirement =
              with_default (lookup "next_goal_requirement" c.bindings.resolved_refs) "required";
          revision = 1;
          state = GoalState.active;
        })
        s.goals;
  external_effects = some (
      insert chain.external_effect_ref
        (record {
          action = "create_task";
          artifact_binding = some (record {
            artifact_baseline_blob_digest = fields.baseline;
            artifact_profile = fields.profile;
            workspace_identity_digest = fields.workspace;
          });
          attempt_ref = chain.attempt_ref;
          goal_ref = chain.goal_ref;
          host_resource_ref = chain.host_resource_ref;
          observation_receipt_ref = none;
          revision = 1;
          state = DeliveryState.attempt_committed;
          target_ref = chain.provider_target;
        })
        effects);
  attempts =
      insert chain.attempt_ref
        (record {
          action = some "create_task";
          automatic_budget_consumed = true;
          delivery_ref = none;
          executor_actor_ref = c.actor_ref;
          executor_grant_ref = c.authority_grant_ref;
          external_effect_ref = some chain.external_effect_ref;
          observation_receipt_ref = none;
          ordinal = plan.active_index + 2;
          provider_idempotency_key = chain.provider_key;
          provider_request = some (record {
            active_index = plan.active_index + 1;
            artifact_digest = fields.baseline;
            goal_id = goal_id;
            goal_slice_digest = slice_digest;
            plan_digest = plan.plan_digest;
            plan_index_digest = plan.plan_index_digest;
            prior_disposition = prior;
            target_ref = chain.provider_target;
            workspace_binding = plan.workspace_binding;
          });
          provider_request_digest = fields.provider_digest;
          revision = 1;
          state = AttemptState.committed;
          target_ref = chain.provider_target;
        })
        s.attempts;
  goal_plan =
      some (record plan { active_goal_ref = chain.goal_ref; active_index = plan.active_index + 1 });
}

next_events : Chain → List Event
next_events chain =
    event EventType.goal_registered (("goal_ref", str chain.goal_ref) ∷ [])
    ∷ event EventType.goal_activated (("goal_ref", str chain.goal_ref) ∷ [])
    ∷ event EventType.external_effect_prepared
        (("external_effect_ref", str chain.external_effect_ref) ∷ [])
    ∷ []

activate_next :
    Runtime
    → Command
    → String
    → Snapshot
    → GoalPlan
    → String
    → String
    → Result (Snapshot × List Event × Option String)
unfolding next_events materialize
activate_next rt c prior s plan goal_id slice_digest = do
  chain ← goal_chain rt (record {
    loop_ref = s.loop_ref;
    plan_digest = plan.plan_digest;
    goal_id = goal_id;
    slice_digest = slice_digest;
  })
  max_attempts ←
      require (parse_int (with_default (lookup "next_max_attempts" c.bindings.resolved_refs) "1"))
        invalid_command
  raise_if (descriptor_drift c plan chain goal_id slice_digest max_attempts) invalid_transition
  fields ← next_fields c s chain
  effects ← effects_of s
  ok (
    materialize c prior s plan chain goal_id slice_digest max_attempts fields effects,
    next_events chain,
    some chain.goal_ref,
  )

-- the step to index + 1, or the plan is at its end
next_slot :
    Runtime
    → Command
    → String
    → Snapshot
    → GoalPlan
    → Option String
    → Option String
    → Result (Snapshot × List Event × Option String)
unfolding activate_next
next_slot rt c prior s plan (some goal_id) (some slice_digest) =
    activate_next rt c prior s plan goal_id slice_digest
next_slot rt c prior s plan _ _ = ok (s, [], none)

unfoldable pub next_goal :
    Runtime
    → Command
    → String
    → Snapshot
    → GoalPlan
    → Result (Snapshot × List Event × Option String)
unfolding index_drift next_slot
next_goal rt c prior s plan = do
  raise_if (index_drift c.subject.subject_ref plan) internal_invariant_violation
  next_slot rt c prior s plan (get_elem? plan.ordered_goal_ids (plan.active_index + 1))
      (get_elem? plan.ordered_goal_slice_digests (plan.active_index + 1))
