-- ===== src/Kernel/Results/Verified.antt =====
-- An artifact is VERIFIED only on a strict receipt of a captured content.
use loop_skill.Protocol.Outcome.{
  >>=-eq-ok, Result, err, invalid_command, ok, raise_if, raise_if-eq-ok, receipt_identity_mismatch,
}
use loop_skill.Protocol.Envelope.{
  is_observed, is_strict, AuthorityContext, Command, Receipt, Runtime,
}
use loop_skill.Prelude.{
  Bool, String, ap, arith, eq_iff, false, none, not, some, sym, true, ◌&&◌, ◌==◌, ◌∙◌, ◌≡◌,
}
use loop_skill.Kernel.State.{Artifact, ArtifactState}
use loop_skill.Kernel.Results.{
  ArtifactClaim, artifact_assurance, claim_drift, is_verified, judge_artifact,
}
use loop_skill.Kernel.Receipts.{receipt_for, Expected}
use loop_skill.Kernel.Receipts.Sound.{IsAccepted, receipt_for-IsAccepted}

abbrev pub verify_expected : String → ArtifactClaim → Expected
verify_expected artifact_ref claim = record {
  action = "verify-artifact";
  subject_ref = artifact_ref;
  attempt_ref = none;
  target_ref = none;
  request_digest = some claim.verification_digest;
}

-- the receipt behind a verified artifact
pub record IsVerifiedBy (rt : Runtime) (ctx : AuthorityContext) (c : Command)
    (artifact_ref : String) (claim : ArtifactClaim) (receipt : Receipt) : Type 0 where
  pub accepted : IsAccepted rt ctx c (verify_expected artifact_ref claim) receipt
  pub strict : (is_strict receipt.trust_class && is_observed receipt.outcome) ≡ true
  pub same_content : receipt.evidence_digest ≡ claim.content_digest
  pub captured : (claim.capture_state == "CAPTURED") ≡ true

assured :
    (r : Receipt)
    → artifact_assurance r ≡ ok ArtifactState.verified
    → (is_strict r.trust_class && is_observed r.outcome) ≡ true
unfolding artifact_assurance
assured r h = ground arith

holds : (b : Bool) → not b ≡ false → b ≡ true
holds b h = ground arith

abbrev artifact_or : Artifact → Result Artifact → Artifact
artifact_or d (ok e) = e
artifact_or d (err e) = d

module _ (rt : Runtime) (ctx : AuthorityContext) (c : Command) where
  -- An artifact that an acknowledgement records as VERIFIED was captured, and a trusted receipt of
  -- its verification, strict and observed, inside its window, has the digest of its content.
  pub judge_artifact-IsVerifiedBy :
      (artifact_ref : String) (claim : ArtifactClaim) (a : Artifact)
      → judge_artifact rt ctx c artifact_ref claim ≡ ok a
      → a.state ≡ ArtifactState.verified
      → (receipt : Receipt) × IsVerifiedBy rt ctx c artifact_ref claim receipt
  unfolding judge_artifact
  judge_artifact-IsVerifiedBy artifact_ref claim a h v =
      let (r, received, h1) =
        >>=-eq-ok (receipt_for rt ctx c (verify_expected artifact_ref claim)) _ h in
      let (_, same, h2) =
        >>=-eq-ok
          (raise_if (not (r.evidence_digest == claim.content_digest)) receipt_identity_mismatch) _
          h1 in
      let (_, _, h3) = >>=-eq-ok (raise_if (claim_drift claim) invalid_command) _ h2 in
      let (state, judged, h4) = >>=-eq-ok (artifact_assurance r) _ h3 in
      let (_, captured, h5) =
        >>=-eq-ok
          (raise_if (is_verified state && not (claim.capture_state == "CAPTURED"))
            receipt_identity_mismatch)
          _ h4 in
      let made : a.state ≡ state = sym (ap (λ (m : Result Artifact). (artifact_or a m).state) h5) in
      let is : state ≡ ArtifactState.verified = sym made ∙ v in
      (
        r,
        record {
          accepted = receipt_for-IsAccepted rt ctx c _ r received;
          strict = assured r (judged ∙ ap ok is);
          same_content =
              (eq_iff r.evidence_digest claim.content_digest).0 (holds _ (raise_if-eq-ok _ _ same));
          captured = holds _ (rw is at (raise_if-eq-ok _ _ captured));
        },
      )
