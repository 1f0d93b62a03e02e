-- ===== src/Kernel/Effects.antt =====
-- `_bind_host_resource` and `_observe_external_effect` of v4_alpha/kernel.py.
pub mod Upgrade
use loop_skill.Protocol.Value.{str}
use loop_skill.Protocol.Outcome.{
  raise_if, Result, at_key, err, fetch, invalid_transition, ok, receipt_identity_mismatch,
  receipt_issuer_untrusted, rejection, ◌>>=◌, ◌>>◌,
}
use loop_skill.Protocol.Envelope.{
  is_cooperative, is_unknown, is_strict, binding, event, is_observed, AuthorityContext, Command,
  Event, EventType, Receipt, Runtime,
}
use loop_skill.Prelude.{
  Dict, List, Option, String, [], if◌then◌else◌, insert, lookup, none, not, opt_eq, some, ◌&&◌, ◌+◌,
  ◌==◌, ◌∷◌,
}
use loop_skill.Kernel.State.{
  observed_resource, attempt_text, delivery_state, is_absent, is_committed, reduction, effects_of,
  is_late, Attempt, AttemptState, ExternalEffect, HostResource, Reduction, Snapshot,
}
use loop_skill.Kernel.Receipts.{receipt_for, Expected}

unfoldable pub bind_host_resource :
    Runtime → AuthorityContext → Command → Snapshot → Result Reduction
bind_host_resource rt ctx c s = do
  target_ref ← binding c.bindings.allocate_refs "new_host_resource_ref"
  receipt ← receipt_for rt ctx c (record {
    action = "bind";
    subject_ref = target_ref;
    attempt_ref = none;
    target_ref = none;
    request_digest = none;
  })
  ok (
      reduction
        (record s {
          host_resources =
              insert target_ref
                (record {
                  provider_resource_ref = none;
                  receipt_ref = receipt.receipt_ref;
                  revision = 1;
                })
                s.host_resources;
        })
        (event EventType.host_resource_bound (("target_ref", str target_ref) ∷ []) ∷ [])
        (("host_resource_ref", str target_ref) ∷ []))

-- the state that a receipt gives an attempt, by the state that it had; `_observe_delivery` has the
-- same tests
unfoldable pub observed_state : Receipt → AttemptState → Result AttemptState
observed_state r prior =
    if is_observed r.outcome && is_strict r.trust_class
    then ok AttemptState.observed
    else if is_unknown r.outcome
    then raise_if (not (is_committed prior)) invalid_transition >> ok AttemptState.unknown
    else if is_cooperative r.trust_class
    then raise_if (not (is_committed prior)) invalid_transition >> ok AttemptState.unverifiable
    else err (rejection receipt_issuer_untrusted)

-- the event of an effect's new state
effect_event : AttemptState → AttemptState → EventType
effect_event prior AttemptState.committed = EventType.external_effect_prepared
effect_event prior AttemptState.observed =
    if is_late prior
    then EventType.late_external_effect_observed
    else EventType.external_effect_observed
effect_event prior AttemptState.unknown = EventType.external_effect_unknown
effect_event prior AttemptState.unverifiable = EventType.external_effect_unverifiable

-- the Host resource that an observed effect binds, and the event of a new one
bind_observed :
    String → Receipt → Option HostResource → Snapshot → Result (Dict HostResource × List Event)
bind_observed resource_ref receipt none s = ok (
  insert resource_ref
      (record {
        provider_resource_ref = receipt.provider_resource_ref;
        receipt_ref = receipt.receipt_ref;
        revision = 1;
      })
      s.host_resources,
  event EventType.host_resource_bound (("target_ref", str resource_ref) ∷ []) ∷ [],
)
bind_observed resource_ref receipt (some existing) s =
    raise_if (not (existing.receipt_ref == receipt.receipt_ref)) receipt_identity_mismatch
    >> ok (s.host_resources, [])

bind_effect : AttemptState → String → Receipt → Snapshot → Result (Dict HostResource × List Event)
unfolding bind_observed
bind_effect AttemptState.observed resource_ref receipt s =
    bind_observed resource_ref receipt (lookup resource_ref s.host_resources) s
bind_effect _ resource_ref receipt s = ok (s.host_resources, [])

-- the receipt that an observation of this effect wants
effect_expected : String → ExternalEffect → Attempt → String → Expected
effect_expected effect_ref effect attempt action = record {
  action = action;
  subject_ref = effect_ref;
  attempt_ref = some effect.attempt_ref;
  target_ref = some attempt.target_ref;
  request_digest = some attempt.provider_request_digest;
}

unfoldable pub observe_external_effect :
    Runtime → AuthorityContext → Command → Snapshot → Result Reduction
unfolding effect_event bind_effect effect_expected
observe_external_effect rt ctx c s = do
  effects ← effects_of s
  effect ← fetch c.subject.subject_ref effects
  attempt ← fetch effect.attempt_ref s.attempts
  action ← at_key attempt.action
  receipt ← receipt_for rt ctx c (effect_expected c.subject.subject_ref effect attempt action)
  raise_if (not (opt_eq receipt.provider_idempotency_key (some attempt.provider_idempotency_key)))
      receipt_identity_mismatch
  raise_if (is_observed receipt.outcome && is_absent receipt.provider_resource_ref)
      receipt_identity_mismatch
  new_state ← observed_state receipt attempt.state
  (resources, bound) ← bind_effect new_state effect.host_resource_ref receipt s
  ok (
      reduction
        (record s {
          host_resources = resources;
          attempts =
              insert effect.attempt_ref
                (record attempt {
                  observation_receipt_ref = some receipt.receipt_ref;
                  revision = attempt.revision + 1;
                  state = new_state;
                })
                s.attempts;
          external_effects = some (
              insert c.subject.subject_ref
                (record effect {
                  observation_receipt_ref = some receipt.receipt_ref;
                  revision = effect.revision + 1;
                  state = delivery_state new_state;
                })
                effects);
        })
        (event (effect_event attempt.state new_state)
            (("external_effect_ref", str c.subject.subject_ref) ∷ [])
          ∷ bound)
        (("external_effect_state", str (attempt_text new_state))
          ∷ ("host_resource_ref", observed_resource new_state effect.host_resource_ref)
          ∷ []))
