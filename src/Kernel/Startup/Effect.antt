-- ===== src/Kernel/Startup/Effect.antt =====
-- The startup effect of `_create_loop`: the confirmation of the prepared bundle, and the effect and
-- attempt that the confirmation authorizes.
use loop_skill.Protocol.Value.{str}
use loop_skill.Protocol.Derive.{artifact_profiles, is_long_digest}
use loop_skill.Kernel.Receipts.{receipt_for}
use loop_skill.Protocol.Outcome.{
  raise_if, Code, Result, invalid_command, ok, require, user_confirmation_required,
  user_confirmation_stale, ◌>>=◌, ◌>>◌,
}
use loop_skill.Protocol.Envelope.{
  event, is_observed, is_strict, binding, AuthorityContext, Command, EventType, Runtime,
}
use loop_skill.Prelude.{
  ◌&&◌, Bool, Dict, List, Option, String, [], all, any, contains, elem, if◌then◌else◌, insert,
  is_empty, lookup, none, not, some, true, ◌++◌, ◌==◌, ◌||◌, ◌∷◌,
}
use loop_skill.Kernel.State.{
  reduction, ArtifactBinding, AttemptState, DeliveryState, GoalPlan, Reduction, Snapshot,
  StartAuthorization,
}

startup_allocations : List String
startup_allocations =
    "new_attempt_ref" ∷ "new_external_effect_ref" ∷ "new_host_resource_ref"
    ∷ "provider_idempotency_key" ∷ []

startup_resolved : List String
startup_resolved = "provider_action" ∷ "target_ref" ∷ []

artifact_names : List String
artifact_names =
    "artifact_baseline_blob_digest" ∷ "artifact_profile" ∷ "workspace_identity_digest" ∷ []

abbrev meets : List String → Dict String → Bool
meets names given = any (λ n. contains n given) names

abbrev covers : List String → Dict String → Bool
covers names given = all (λ n. contains n given) names

-- a binding that is there and not empty
abbrev filled : Dict String → String → Code → Result String
filled group name code = do
  value ← require (lookup name group) code
  raise_if (is_empty value) code
  ok value

-- the confirmation receipt of the prepared bundle
pub confirm_start : Runtime → AuthorityContext → Command → Result StartAuthorization
confirm_start rt ctx c = do
  let resolved = c.bindings.resolved_refs
  manifest ← filled resolved "prepared_manifest_digest" user_confirmation_required
  boundary ← filled resolved "boundary_digest" user_confirmation_required
  bundle ← filled resolved "prepared_bundle_digest" user_confirmation_required
  confirmation ← receipt_for rt ctx c (record {
    action = "confirm_start";
    subject_ref = c.subject.loop_ref;
    attempt_ref = none;
    target_ref = some boundary;
    request_digest = some manifest;
  })
  raise_if
      (not (is_strict confirmation.trust_class)
        || not (is_observed confirmation.outcome)
        || not (confirmation.evidence_digest == bundle))
      user_confirmation_stale
  ok (record {
    boundary_digest = boundary;
    bundle_digest = bundle;
    manifest_digest = manifest;
    receipt_ref = confirmation.receipt_ref;
  })

-- the artifact binding, all of it or none
pub artifact_binding_of : Command → Result (Option ArtifactBinding)
unfolding artifact_names
artifact_binding_of c =
    let resolved = c.bindings.resolved_refs in
    if meets artifact_names resolved
    then (do
      baseline ← binding resolved "artifact_baseline_blob_digest"
      profile ← binding resolved "artifact_profile"
      workspace ← binding resolved "workspace_identity_digest"
      raise_if (not (elem profile artifact_profiles)) invalid_command
      ok (
          some (record {
            artifact_baseline_blob_digest = baseline;
            artifact_profile = profile;
            workspace_identity_digest = workspace;
          })))
    else ok none

-- `resolved.get("artifact_baseline_blob_digest", "UNBOUND")`
abbrev baseline_or_unbound : Option String → String
baseline_or_unbound none = "UNBOUND"
baseline_or_unbound (some digest) = digest

-- the startup identities
pub record StartIds : Type 0 where
  pub effect_ref : String
  pub attempt_ref : String
  pub resource_ref : String
  pub provider_key : String
  pub action : String
  pub target_ref : String
  pub provider_digest : String

pub start_ids : Command → Result StartIds
unfolding is_long_digest
start_ids c = do
  let allocate = c.bindings.allocate_refs
  let resolved = c.bindings.resolved_refs
  effect_ref ← filled allocate "new_external_effect_ref" invalid_command
  attempt_ref ← filled allocate "new_attempt_ref" invalid_command
  resource_ref ← filled allocate "new_host_resource_ref" invalid_command
  provider_key ← filled allocate "provider_idempotency_key" invalid_command
  action ← filled resolved "provider_action" invalid_command
  target_ref ← filled resolved "target_ref" invalid_command
  provider_digest ← binding resolved "provider_request_digest"
  raise_if (not (is_long_digest (some provider_digest))) invalid_command
  ok (record {
    effect_ref = effect_ref;
    attempt_ref = attempt_ref;
    resource_ref = resource_ref;
    provider_key = provider_key;
    action = action;
    target_ref = target_ref;
    provider_digest = provider_digest;
  })

-- the snapshot with its startup effect and attempt
pub with_start :
    Command
    → String
    → GoalPlan
    → String
    → String
    → StartAuthorization
    → Option ArtifactBinding
    → StartIds
    → Snapshot
    → Snapshot
with_start c goal_ref plan goal_id slice_digest authorization artifact ids s = record s {
  start_authorization = some authorization;
  external_effects = some (
      (
        ids.effect_ref,
        record {
          action = ids.action;
          artifact_binding = artifact;
          attempt_ref = ids.attempt_ref;
          goal_ref = goal_ref;
          host_resource_ref = ids.resource_ref;
          observation_receipt_ref = none;
          revision = 1;
          state = DeliveryState.attempt_committed;
          target_ref = ids.target_ref;
        },
      )
      ∷ []);
  attempts =
      insert ids.attempt_ref
        (record {
          action = some ids.action;
          automatic_budget_consumed = true;
          delivery_ref = none;
          executor_actor_ref = c.actor_ref;
          executor_grant_ref = c.authority_grant_ref;
          external_effect_ref = some ids.effect_ref;
          observation_receipt_ref = none;
          ordinal = 1;
          provider_idempotency_key = ids.provider_key;
          provider_request = some (record {
            active_index = 0;
            artifact_digest =
                baseline_or_unbound
                  (lookup "artifact_baseline_blob_digest" c.bindings.resolved_refs);
            goal_id = goal_id;
            goal_slice_digest = slice_digest;
            plan_digest = plan.plan_digest;
            plan_index_digest = plan.plan_index_digest;
            prior_disposition = "";
            target_ref = ids.target_ref;
            workspace_binding = plan.workspace_binding;
          });
          provider_request_digest = ids.provider_digest;
          revision = 1;
          state = AttemptState.committed;
          target_ref = ids.target_ref;
        })
        s.attempts;
}

-- the command names a startup allocation or binding
pub names_startup : Command → Bool
unfolding startup_allocations startup_resolved
names_startup c =
    meets startup_allocations c.bindings.allocate_refs
    || meets startup_resolved c.bindings.resolved_refs

-- the command names all of them
pub completes_startup : Command → Bool
unfolding startup_allocations startup_resolved
completes_startup c =
    covers startup_allocations c.bindings.allocate_refs
    && covers startup_resolved c.bindings.resolved_refs

unfoldable pub add_start :
    Runtime
    → AuthorityContext
    → Command
    → String
    → GoalPlan
    → String
    → String
    → Reduction
    → Result Reduction
unfolding with_start
add_start rt ctx c goal_ref plan goal_id slice_digest r = do
  raise_if (not (completes_startup c)) invalid_command
  authorization ← confirm_start rt ctx c
  artifact ← artifact_binding_of c
  ids ← start_ids c
  ok (
      reduction
        (with_start c goal_ref plan goal_id slice_digest authorization artifact ids r.snapshot)
        (r.events
          ++ (event EventType.start_authorized (("receipt_ref", str authorization.receipt_ref) ∷ [])
              ∷ event EventType.external_effect_prepared
                  (("external_effect_ref", str ids.effect_ref) ∷ [])
              ∷ []))
        (r.response ++ (("external_effect_ref", str ids.effect_ref) ∷ [])))

unfoldable pub start_effect :
    Runtime
    → AuthorityContext
    → Command
    → String
    → GoalPlan
    → String
    → String
    → Reduction
    → Result Reduction
start_effect rt ctx c goal_ref plan goal_id slice_digest r =
    if names_startup c then add_start rt ctx c goal_ref plan goal_id slice_digest r else ok r
