-- ===== src/Kernel/Repair/Schedule.antt =====
-- The scheduling of a repair in `_record_policy_decision` of v4_alpha/kernel.py.
use loop_skill.Protocol.Value.{object_of, str}
use loop_skill.Protocol.Outcome.{
  raise_if, require, Result, invalid_command, invalid_transition, ok, ◌>>=◌, ◌>>◌,
}
use loop_skill.Protocol.Envelope.{domain_digest, event, binding, Command, Event, EventType, Runtime}
use loop_skill.Protocol.Derive.{
  artifact_profiles, has_entries, is_long_digest, repair_identity, Chain,
}
use loop_skill.Prelude.{
  keys, not, Bool, Dict, List, String, [], cat, contains, elem, insert, length, lookup, none,
  opt_eq, slice_to, some, subset, true, ℕ, ◌+◌, ◌||◌, ◌∷◌,
}
use loop_skill.Kernel.State.{
  effects_of, AttemptState, DeliveryState, ExternalEffect, Goal, GoalPlan, Snapshot,
}

-- the chain of the n-th repair of a Goal
unfoldable pub repair_chain : String → String → String → Chain
repair_chain goal_ref suffix provider_key = record {
  artifact_ref = cat "artifact-" suffix;
  attempt_ref = cat "attempt-" suffix;
  external_effect_ref = cat "external-effect-" suffix;
  goal_ref = goal_ref;
  host_resource_ref = cat "host-target-" suffix;
  report_ref = cat "report-" suffix;
  result_ref = cat "result-" suffix;
  review_ref = cat "review-" suffix;
  provider_key = provider_key;
  provider_target = cat "host-target-" suffix;
}

unfoldable pub repair_allocations : Chain → Dict String
repair_allocations chain =
    ("new_artifact_ref", chain.artifact_ref)
    ∷ ("new_attempt_ref", chain.attempt_ref)
    ∷ ("new_external_effect_ref", chain.external_effect_ref)
    ∷ ("new_host_resource_ref", chain.host_resource_ref)
    ∷ ("new_report_ref", chain.report_ref)
    ∷ ("new_result_ref", chain.result_ref)
    ∷ ("new_review_ref", chain.review_ref)
    ∷ ("provider_idempotency_key", chain.provider_key)
    ∷ []

-- the bindings, the profile or the attempt do not fit the repair's chain
unfoldable pub repair_drift : Command → Snapshot → GoalPlan → Chain → String → Bool
unfolding is_long_digest
repair_drift c s plan chain profile =
    let resolved = c.bindings.resolved_refs in
    not (is_long_digest (lookup "artifact_baseline_blob_digest" resolved))
    || not (is_long_digest (lookup "provider_request_digest" resolved))
    || not (is_long_digest (lookup "workspace_identity_digest" resolved))
    || not (opt_eq (lookup "target_ref" resolved) (some chain.provider_target))
    || not (opt_eq (lookup "workspace_identity_digest" resolved) (some plan.workspace_binding))
    || not (elem profile artifact_profiles)
    || contains chain.attempt_ref s.attempts

-- the command allocates exactly the references of the chain
unfoldable pub allocation_drift : Command → Chain → Bool
unfolding repair_allocations
allocation_drift c chain =
    let expected = repair_allocations chain in
    not (has_entries expected c.bindings.allocate_refs)
    || not (subset (keys c.bindings.allocate_refs) (keys expected))

-- the snapshot with the repair's effect and attempt
unfoldable pub schedule_repair :
    Command
    → Snapshot
    → GoalPlan
    → String
    → Goal
    → Chain
    → String
    → String
    → String
    → String
    → Dict ExternalEffect
    → Snapshot
schedule_repair c s plan goal_ref goal chain baseline profile workspace digest effects = record s {
  goals = insert goal_ref (record goal { chain_refs = chain }) s.goals;
  external_effects = some (
      insert chain.external_effect_ref
        (record {
          action = "create_task";
          artifact_binding = some (record {
            artifact_baseline_blob_digest = baseline;
            artifact_profile = profile;
            workspace_identity_digest = workspace;
          });
          attempt_ref = chain.attempt_ref;
          goal_ref = goal_ref;
          host_resource_ref = chain.host_resource_ref;
          observation_receipt_ref = none;
          revision = 1;
          state = DeliveryState.attempt_committed;
          target_ref = chain.provider_target;
        })
        effects);
  attempts =
      insert chain.attempt_ref
        (record {
          action = some "create_task";
          automatic_budget_consumed = true;
          delivery_ref = none;
          executor_actor_ref = c.actor_ref;
          executor_grant_ref = c.authority_grant_ref;
          external_effect_ref = some chain.external_effect_ref;
          observation_receipt_ref = none;
          ordinal = length s.attempts + 1;
          provider_idempotency_key = chain.provider_key;
          provider_request = some (record {
            active_index = plan.active_index;
            artifact_digest = baseline;
            goal_id = goal.goal_id;
            goal_slice_digest = goal.goal_slice_digest;
            plan_digest = plan.plan_digest;
            plan_index_digest = plan.plan_index_digest;
            prior_disposition = "REPAIR";
            target_ref = chain.provider_target;
            workspace_binding = plan.workspace_binding;
          });
          provider_request_digest = digest;
          revision = 1;
          state = AttemptState.committed;
          target_ref = chain.provider_target;
        })
        s.attempts;
}

-- the scheduling of repair `ordinal`, where the command allocates references for it
unfoldable pub plan_repair :
    Runtime → Command → Snapshot → String → Goal → ℕ → Result (Snapshot × List Event)
unfolding repair_chain schedule_repair
plan_repair rt c s goal_ref goal ordinal = do
  plan ← require s.goal_plan invalid_transition
  identity ← repair_identity rt s.loop_ref plan.plan_digest goal_ref goal.goal_id ordinal
  provider_key ←
      domain_digest rt "loopskill-provider-idempotency-v1\n"
        (object_of (("repair_chain", str identity) ∷ []))
  let chain = repair_chain goal_ref (slice_to 24 identity) provider_key
  raise_if (allocation_drift c chain) invalid_command
  let resolved = c.bindings.resolved_refs
  baseline ← binding resolved "artifact_baseline_blob_digest"
  profile ← binding resolved "artifact_profile"
  digest ← binding resolved "provider_request_digest"
  workspace ← binding resolved "workspace_identity_digest"
  raise_if (repair_drift c s plan chain profile) invalid_command
  effects ← effects_of s
  raise_if (contains chain.external_effect_ref effects) invalid_command
  ok (
    schedule_repair c s plan goal_ref goal chain baseline profile workspace digest effects,
    event EventType.repair_attempt_scheduled
          (("attempt_ref", str chain.attempt_ref) ∷ ("goal_ref", str goal_ref) ∷ [])
        ∷ [],
  )
