-- ===== src/Kernel/Delivery.antt =====
-- `_prepare_route`, `_begin_delivery` and `_observe_delivery` of v4_alpha/kernel.py.
pub mod Consumed
pub mod Once
use loop_skill.Protocol.Value.{str, object_of}
use loop_skill.Kernel.Effects.{observed_state}
use loop_skill.Protocol.Outcome.{
  raise_if, Result, at_key, attempt_already_consumed, fetch, invalid_command, invalid_transition,
  ok, receipt_identity_mismatch, require, ◌>>=◌, ◌>>◌,
}
use loop_skill.Protocol.Envelope.{
  event, payload_text, domain_digest, binding, AuthorityContext, Command, EventType, Runtime,
}
use loop_skill.Prelude.{
  Bool, String, [], eqb, false, if◌then◌else◌, insert, is_blank, none, not, opt_eq, some, true, ◌+◌,
  ◌||◌, ◌∷◌,
}
use loop_skill.Kernel.State.{
  attempt_text, delivery_state, reduction, is_active_goal, is_late, Attempt, AttemptState, Delivery,
  DeliveryState, Reduction, Snapshot,
}
use loop_skill.Kernel.Receipts.{receipt_for, Expected}

unfoldable pub prepare_route : Runtime → AuthorityContext → Command → Snapshot → Result Reduction
prepare_route rt ctx c s = do
  goal_ref ← binding c.bindings.resolved_refs "goal_ref"
  target_ref ← binding c.bindings.resolved_refs "target_ref"
  route_ref ← binding c.bindings.allocate_refs "new_route_ref"
  delivery_ref ← binding c.bindings.allocate_refs "new_delivery_ref"
  goal ← fetch goal_ref s.goals
  raise_if (not (is_active_goal goal)) invalid_transition
  intent ← require (payload_text c "intent") invalid_command
  raise_if (is_blank intent) invalid_command
  intent_digest ← domain_digest rt "loopskill-route-intent-v1\n" (str intent)
  ok (
      reduction
        (record s {
          routes =
              insert route_ref
                (record {
                  delivery_ref = delivery_ref;
                  goal_ref = goal_ref;
                  intent_digest = intent_digest;
                  revision = 1;
                  target_ref = target_ref;
                })
                s.routes;
          deliveries =
              insert delivery_ref
                (record {
                  attempt_ref = none;
                  automatic_attempt_budget = 1;
                  automatic_attempts_consumed = 0;
                  revision = 1;
                  route_ref = route_ref;
                  state = DeliveryState.prepared;
                  target_ref = target_ref;
                })
                s.deliveries;
        })
        (event EventType.route_prepared (("route_ref", str route_ref) ∷ []) ∷ [])
        (("delivery_ref", str delivery_ref) ∷ ("route_ref", str route_ref) ∷ []))

abbrev pub is_prepared : DeliveryState → Bool
is_prepared DeliveryState.prepared = true
is_prepared _ = false

-- `delivery.update(...)` with its one attempt
pub commit_delivery : Delivery → String → Delivery
commit_delivery d attempt_ref = record d {
  attempt_ref = some attempt_ref;
  automatic_attempts_consumed = 1;
  revision = d.revision + 1;
  state = DeliveryState.attempt_committed;
}

unfoldable pub begin_delivery : Runtime → AuthorityContext → Command → Snapshot → Result Reduction
unfolding commit_delivery
begin_delivery rt ctx c s = do
  delivery ← fetch c.subject.subject_ref s.deliveries
  raise_if (not (is_prepared delivery.state) || not (eqb delivery.automatic_attempts_consumed 0))
      attempt_already_consumed
  route ← fetch delivery.route_ref s.routes
  attempt_ref ← binding c.bindings.allocate_refs "new_attempt_ref"
  provider_key ← binding c.bindings.allocate_refs "provider_idempotency_key"
  provider_digest ← domain_digest rt "loopskill-provider-request-v1\n" (
      object_of
        (("intent_digest", str route.intent_digest) ∷ ("target_ref", str route.target_ref) ∷ []))
  ok (
      reduction
        (record s {
          deliveries =
              insert c.subject.subject_ref (commit_delivery delivery attempt_ref) s.deliveries;
          attempts =
              insert attempt_ref
                (record {
                  action = none;
                  automatic_budget_consumed = true;
                  delivery_ref = some c.subject.subject_ref;
                  executor_actor_ref = c.actor_ref;
                  executor_grant_ref = c.authority_grant_ref;
                  external_effect_ref = none;
                  observation_receipt_ref = none;
                  ordinal = 1;
                  provider_idempotency_key = provider_key;
                  provider_request = none;
                  provider_request_digest = provider_digest;
                  revision = 1;
                  state = AttemptState.committed;
                  target_ref = route.target_ref;
                })
                s.attempts;
        })
        (event EventType.delivery_attempt_committed (("attempt_ref", str attempt_ref) ∷ []) ∷ [])
        (("attempt_ref", str attempt_ref)
          ∷ ("provider_idempotency_key", str provider_key)
          ∷ ("provider_request_digest", str provider_digest)
          ∷ []))

-- the event of a delivery's new state
delivery_event : AttemptState → AttemptState → EventType
delivery_event prior AttemptState.committed = EventType.delivery_attempt_committed
delivery_event prior AttemptState.observed =
    if is_late prior then EventType.late_delivery_observed else EventType.delivery_observed
delivery_event prior AttemptState.unknown = EventType.delivery_unknown
delivery_event prior AttemptState.unverifiable = EventType.delivery_unverifiable

-- the receipt that an observation of this delivery wants
pub delivery_expected : String → String → Attempt → Expected
delivery_expected delivery_ref attempt_ref attempt = record {
  action = "send";
  subject_ref = delivery_ref;
  attempt_ref = some attempt_ref;
  target_ref = some attempt.target_ref;
  request_digest = some attempt.provider_request_digest;
}

unfoldable pub observe_delivery : Runtime → AuthorityContext → Command → Snapshot → Result Reduction
unfolding delivery_event delivery_expected
observe_delivery rt ctx c s = do
  attempt ← fetch c.subject.subject_ref s.attempts
  delivery_ref ← at_key attempt.delivery_ref
  delivery ← fetch delivery_ref s.deliveries
  receipt ← receipt_for rt ctx c (delivery_expected delivery_ref c.subject.subject_ref attempt)
  raise_if (not (opt_eq receipt.provider_idempotency_key (some attempt.provider_idempotency_key)))
      receipt_identity_mismatch
  new_state ← observed_state receipt attempt.state
  ok (
      reduction
        (record s {
          attempts =
              insert c.subject.subject_ref
                (record attempt {
                  observation_receipt_ref = some receipt.receipt_ref;
                  revision = attempt.revision + 1;
                  state = new_state;
                })
                s.attempts;
          deliveries =
              insert delivery_ref
                (record delivery {
                  revision = delivery.revision + 1;
                  state = delivery_state new_state;
                })
                s.deliveries;
        })
        (event (delivery_event attempt.state new_state)
            (("attempt_ref", str c.subject.subject_ref) ∷ [])
          ∷ [])
        (("attempt_state", str (attempt_text new_state))
          ∷ ("delivery_state", str (attempt_text new_state))
          ∷ []))
