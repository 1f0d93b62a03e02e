-- ===== src/Kernel/Results.antt =====
-- `_stage_result`, `_stage_external_result` and `_acknowledge_result` of v4_alpha/kernel.py.
pub mod Verified
use loop_skill.Protocol.Value.{object_of, str}
use loop_skill.Kernel.Receipts.{receipt_for}
use loop_skill.Protocol.Validate.{outcome_text, validate_result_payload, Outcome}
use loop_skill.Protocol.Outcome.{
  raise_if, Result, at_key, err, fetch, invalid_command, invalid_transition, ok,
  receipt_identity_mismatch, rejection, ◌>>=◌, ◌>>◌,
}
use loop_skill.Protocol.Envelope.{
  is_unverifiable, is_cooperative, is_observed, binding, domain_digest, event, is_strict,
  AuthorityContext, Command, Event, EventType, Receipt, Runtime,
}
use loop_skill.Prelude.{
  Bool, Dict, List, String, [], chars, elem, eqb, false, if◌then◌else◌, insert, is_hex, none, not,
  some, true, ◌&&◌, ◌++◌, ◌+◌, ◌==◌, ◌||◌, ◌∷◌,
}
use loop_skill.Kernel.State.{
  active_goals, effects_of, reduction, Artifact, ArtifactState, DeliveryState, Goal, LoopResult,
  Reduction, Report, ReportState, ResultState, Snapshot,
}

-- OBSERVED, UNKNOWN or UNVERIFIABLE
abbrev pub is_resolved : DeliveryState → Bool
is_resolved DeliveryState.prepared = false
is_resolved DeliveryState.attempt_committed = false
is_resolved _ = true

report_digest : Runtime → Outcome → String → Result String
report_digest rt outcome summary =
    domain_digest rt "loopskill-report-v1\n"
      (object_of (("outcome", str (outcome_text outcome)) ∷ ("summary", str summary) ∷ []))

-- the result and its report, with `current_result_ref` set where there is a plan
pub add_staged : Snapshot → String → LoopResult → String → Report → Snapshot
add_staged s result_ref result report_ref report = record s {
  results = insert result_ref result s.results;
  reports = insert report_ref report s.reports;
  current_result_ref = elim s.goal_plan [
    | none ↦ s.current_result_ref
    | some plan ↦ some result_ref
  ];
}

staged_reduction : Snapshot → Command → String → LoopResult → String → Reduction
unfolding add_staged
staged_reduction s c result_ref result digest =
    reduction
      (add_staged s result_ref result result.report_ref (record {
        author_actor_ref = c.actor_ref;
        content_digest = digest;
        result_ref = result_ref;
        revision = 1;
        state = ReportState.staged;
      }))
      (event EventType.result_staged (("result_ref", str result_ref) ∷ [])
        ∷ event EventType.report_staged (("report_ref", str result.report_ref) ∷ [])
        ∷ [])
      (("report_ref", str result.report_ref) ∷ ("result_ref", str result_ref) ∷ [])

unfoldable pub stage_result : Runtime → AuthorityContext → Command → Snapshot → Result Reduction
unfolding report_digest staged_reduction
stage_result rt ctx c s = do
  route ← fetch c.subject.subject_ref s.routes
  delivery ← fetch route.delivery_ref s.deliveries
  raise_if (not (is_resolved delivery.state)) invalid_transition
  result_ref ← binding c.bindings.allocate_refs "new_result_ref"
  report_ref ← binding c.bindings.allocate_refs "new_report_ref"
  (outcome, summary) ← validate_result_payload c.payload
  digest ← report_digest rt outcome summary
  attempt_ref ← at_key delivery.attempt_ref
  ok (
      staged_reduction s c result_ref
        (record {
          artifact_ref = none;
          attempt_ref = attempt_ref;
          delivery_ref = some route.delivery_ref;
          external_effect_ref = none;
          goal_ref = none;
          outcome = outcome;
          report_ref = report_ref;
          revision = 1;
          route_ref = some c.subject.subject_ref;
          source_observation_digest = none;
          state = ResultState.staged;
        })
        digest)

-- `active_goals[0]` where there is exactly one
pub sole_active : Dict Goal → Result (String × Goal)
sole_active (e ∷ []) = ok e
sole_active _ = err (rejection invalid_transition)

unfoldable pub stage_external_result :
    Runtime → AuthorityContext → Command → Snapshot → Result Reduction
unfolding report_digest staged_reduction sole_active
stage_external_result rt ctx c s = do
  effects ← effects_of s
  effect ← fetch c.subject.subject_ref effects
  raise_if (not (is_resolved effect.state)) invalid_transition
  result_ref ← binding c.bindings.allocate_refs "new_result_ref"
  report_ref ← binding c.bindings.allocate_refs "new_report_ref"
  source ← binding c.bindings.resolved_refs "source_observation_digest"
  raise_if (not (eqb (chars source) 64) || not (is_hex source)) receipt_identity_mismatch
  (outcome, summary) ← validate_result_payload c.payload
  digest ← report_digest rt outcome summary
  (goal_ref, goal) ← sole_active (active_goals s)
  ok (
      staged_reduction s c result_ref
        (record {
          artifact_ref = none;
          attempt_ref = effect.attempt_ref;
          delivery_ref = none;
          external_effect_ref = some c.subject.subject_ref;
          goal_ref = some goal_ref;
          outcome = outcome;
          report_ref = report_ref;
          revision = 1;
          route_ref = none;
          source_observation_digest = some source;
          state = ResultState.staged;
        })
        digest)

abbrev pub is_staged_result : ResultState → Bool
is_staged_result ResultState.staged = true
is_staged_result _ = false

abbrev pub is_staged_report : ReportState → Bool
is_staged_report ReportState.staged = true
is_staged_report _ = false

-- what a receipt says of the artifact
unfoldable pub artifact_assurance : Receipt → Result ArtifactState
artifact_assurance r =
    if is_strict r.trust_class && is_observed r.outcome
    then ok ArtifactState.verified
    else if is_cooperative r.trust_class && is_unverifiable r.outcome
    then ok ArtifactState.unverifiable
    else err (rejection receipt_identity_mismatch)

abbrev pub is_verified : ArtifactState → Bool
is_verified ArtifactState.verified = true
is_verified _ = false

verification_event : ArtifactState → EventType
verification_event ArtifactState.verified = EventType.artifact_verified
verification_event ArtifactState.unverifiable = EventType.artifact_unverifiable

artifact_events : String → ArtifactState → String → List Event
unfolding verification_event
artifact_events capture_state state artifact_ref =
    let verified =
      event (verification_event state) (("artifact_ref", str artifact_ref) ∷ []) ∷ [] in
    if capture_state == "CAPTURED"
    then event EventType.artifact_captured (("artifact_ref", str artifact_ref) ∷ []) ∷ verified
    else verified

-- what the bindings of an acknowledgement say of its artifact
pub record ArtifactClaim : Type 0 where
  pub content_digest : String
  pub capture_state : String
  pub profile : String
  pub manifest_digest : String
  pub verification_digest : String
  pub verification_state : String

pub read_claim : Command → Result ArtifactClaim
read_claim c = do
  artifact_digest ← binding c.bindings.resolved_refs "artifact_digest"
  capture_state ← binding c.bindings.resolved_refs "capture_state"
  artifact_profile ← binding c.bindings.resolved_refs "artifact_profile"
  manifest_digest ← binding c.bindings.resolved_refs "manifest_digest"
  verification_digest ← binding c.bindings.resolved_refs "verification_digest"
  verification_state ← binding c.bindings.resolved_refs "verification_state"
  ok (record {
    content_digest = artifact_digest;
    capture_state = capture_state;
    profile = artifact_profile;
    manifest_digest = manifest_digest;
    verification_digest = verification_digest;
    verification_state = verification_state;
  })

-- the claim has texts that are no capture or verification state
unfoldable pub claim_drift : ArtifactClaim → Bool
claim_drift claim =
    not (elem claim.capture_state ("CAPTURED" ∷ "UNAVAILABLE" ∷ []))
    || not (elem claim.verification_state ("VERIFIED" ∷ "FAILED" ∷ "UNVERIFIABLE" ∷ []))

-- the artifact of a claim, checked against its receipt
unfoldable pub judge_artifact :
    Runtime → AuthorityContext → Command → String → ArtifactClaim → Result Artifact
judge_artifact rt ctx c artifact_ref claim = do
  receipt ← receipt_for rt ctx c (record {
    action = "verify-artifact";
    subject_ref = artifact_ref;
    attempt_ref = none;
    target_ref = none;
    request_digest = some claim.verification_digest;
  })
  raise_if (not (receipt.evidence_digest == claim.content_digest)) receipt_identity_mismatch
  raise_if (claim_drift claim) invalid_command
  state ← artifact_assurance receipt
  raise_if (is_verified state && not (claim.capture_state == "CAPTURED")) receipt_identity_mismatch
  ok (record {
    capture_state = claim.capture_state;
    content_digest = claim.content_digest;
    manifest_digest = claim.manifest_digest;
    profile = claim.profile;
    receipt_ref = receipt.receipt_ref;
    result_ref = c.subject.subject_ref;
    revision = 1;
    state = state;
    verification_digest = claim.verification_digest;
    verification_state = claim.verification_state;
  })

pub accepted_artifact : Runtime → AuthorityContext → Command → Result (String × Artifact)
accepted_artifact rt ctx c = do
  artifact_ref ← binding c.bindings.allocate_refs "new_artifact_ref"
  claim ← read_claim c
  artifact ← judge_artifact rt ctx c artifact_ref claim
  ok (artifact_ref, artifact)

unfoldable pub acknowledge_result :
    Runtime → AuthorityContext → Command → Snapshot → Result Reduction
unfolding artifact_events
acknowledge_result rt ctx c s = do
  result ← fetch c.subject.subject_ref s.results
  report ← fetch result.report_ref s.reports
  raise_if (not (is_staged_result result.state) || not (is_staged_report report.state))
      invalid_transition
  (artifact_ref, artifact) ← accepted_artifact rt ctx c
  ok (
      reduction
        (record s {
          artifacts = insert artifact_ref artifact s.artifacts;
          reports =
              insert result.report_ref
                (record report { revision = report.revision + 1; state = ReportState.accepted })
                s.reports;
          results =
              insert c.subject.subject_ref
                (record result {
                  artifact_ref = some artifact_ref;
                  revision = result.revision + 1;
                  state = ResultState.acknowledged;
                })
                s.results;
        })
        (artifact_events artifact.capture_state artifact.state artifact_ref
          ++ (event EventType.report_accepted (("report_ref", str result.report_ref) ∷ [])
              ∷ event EventType.result_acknowledged (("result_ref", str c.subject.subject_ref) ∷ [])
              ∷ []))
        (("artifact_ref", str artifact_ref) ∷ ("result_ref", str c.subject.subject_ref) ∷ []))
