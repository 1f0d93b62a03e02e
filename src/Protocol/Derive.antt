-- ===== src/Protocol/Derive.antt =====
-- The references and provider identities that a plan determines (v4_alpha/protocol.py:
-- `derive_plan_ref`, `derive_loop_plan_ref`, `goal_chain`).
use loop_skill.Prelude.{
  opt_eq, Bool, List, Option, chars, eqb, false, true, ◌&&◌, ℕ, String, none, some, [], ◌∷◌, ◌==◌,
  cat, slice_to, if◌then◌else◌, Dict, lookup,
}
use loop_skill.Protocol.Outcome.{Result, ok, err, ◌>>=◌, value_error}
use loop_skill.Protocol.Value.{num, object_of, str}
use loop_skill.Protocol.Envelope.{Runtime, domain_digest}

-- _PLAN_REFERENCE_PREFIXES
abbrev pub plan_reference_prefixes : Dict String
plan_reference_prefixes =
    ("ArtifactRef", "artifact-")
    ∷ ("AttemptRef", "attempt-")
    ∷ ("ExternalEffectRef", "external-effect-")
    ∷ ("GoalRef", "goal-")
    ∷ ("HostResourceRef", "host-target-")
    ∷ ("ReportRef", "report-")
    ∷ ("ResultRef", "result-")
    ∷ ("ReviewRef", "review-")
    ∷ []

-- what names a Goal of a plan
pub record PlanSlot : Type 0 where
  pub loop_ref : String
  pub plan_digest : String
  pub goal_id : String
  pub slice_digest : String

-- the prefix and the suffix that it derives
plan_suffix : Runtime → PlanSlot → String → String → Result String
plan_suffix rt slot kind prefix = do
  digest ← domain_digest rt "loopskill-plan-derived-ref-v1\n" (
      object_of (
        ("goal_id", str slot.goal_id)
        ∷ ("goal_slice_digest", str slot.slice_digest)
        ∷ ("loop_ref", str slot.loop_ref)
        ∷ ("plan_digest", str slot.plan_digest)
        ∷ ("reference_kind", str kind)
        ∷ []))
  ok (cat prefix (slice_to 24 digest))

unfoldable pub derive_plan_ref : Runtime → PlanSlot → String → Result String
unfolding plan_suffix
derive_plan_ref rt slot kind = elim (lookup kind plan_reference_prefixes) [
  | none ↦ err value_error
  | some prefix ↦ plan_suffix rt slot kind prefix
]

pub derive_loop_plan_ref : Runtime → String → String → String → Result String
derive_loop_plan_ref rt loop_ref plan_digest kind =
    if kind == "FinalizationRef"
    then (do
      digest ← domain_digest rt "loopskill-plan-loop-ref-v1\n" (
          object_of (
            ("loop_ref", str loop_ref)
            ∷ ("plan_digest", str plan_digest)
            ∷ ("reference_kind", str kind)
            ∷ []))
      ok (cat "finalization-" (slice_to 24 digest)))
    else err value_error

pub record Chain : Type 0 where
  pub artifact_ref : String
  pub attempt_ref : String
  pub external_effect_ref : String
  pub goal_ref : String
  pub host_resource_ref : String
  pub report_ref : String
  pub result_ref : String
  pub review_ref : String
  pub provider_key : String
  pub provider_target : String

-- the identity under the provider's domains
provider_identity : Runtime → PlanSlot → String → String → Result String
provider_identity rt slot domain prefix = do
  digest ← domain_digest rt domain (
      object_of (
        ("goal_id", str slot.goal_id)
        ∷ ("goal_slice_digest", str slot.slice_digest)
        ∷ ("loop_ref", str slot.loop_ref)
        ∷ ("plan_digest", str slot.plan_digest)
        ∷ []))
  ok (cat prefix (slice_to 24 digest))

pub goal_chain : Runtime → PlanSlot → Result Chain
unfolding provider_identity
goal_chain rt slot = do
  artifact ← derive_plan_ref rt slot "ArtifactRef"
  attempt ← derive_plan_ref rt slot "AttemptRef"
  effect ← derive_plan_ref rt slot "ExternalEffectRef"
  goal ← derive_plan_ref rt slot "GoalRef"
  resource ← derive_plan_ref rt slot "HostResourceRef"
  report ← derive_plan_ref rt slot "ReportRef"
  result ← derive_plan_ref rt slot "ResultRef"
  review ← derive_plan_ref rt slot "ReviewRef"
  key ← provider_identity rt slot "loopskill-plan-provider-key-v1\n" "effect-"
  target ← provider_identity rt slot "loopskill-plan-provider-target-v1\n" "codex-bootstrap-"
  ok (record {
    artifact_ref = artifact;
    attempt_ref = attempt;
    external_effect_ref = effect;
    goal_ref = goal;
    host_resource_ref = resource;
    report_ref = report;
    result_ref = result;
    review_ref = review;
    provider_key = key;
    provider_target = target;
  })

-- the identity of the n-th repair of a Goal
pub repair_identity : Runtime → String → String → String → String → ℕ → Result String
repair_identity rt loop_ref plan_digest goal_ref goal_id ordinal =
    domain_digest rt "loopskill-repair-chain-v1\n" (
      object_of (
        ("goal_id", str goal_id)
        ∷ ("goal_ref", str goal_ref)
        ∷ ("loop_ref", str loop_ref)
        ∷ ("plan_digest", str plan_digest)
        ∷ ("repair_ordinal", num ordinal)
        ∷ []))

-- the names under which a Goal's references are allocated
abbrev pub chain_allocations : Chain → Dict String
chain_allocations chain =
    ("new_attempt_ref", chain.attempt_ref)
    ∷ ("new_external_effect_ref", chain.external_effect_ref)
    ∷ ("new_goal_ref", chain.goal_ref)
    ∷ ("new_host_resource_ref", chain.host_resource_ref)
    ∷ ("provider_idempotency_key", chain.provider_key)
    ∷ []

-- `all(given.get(name) == value for name, value in expected.items())`
abbrev pub has_entries : Dict String → Dict String → Bool
has_entries [] given = true
has_entries ((name, value) ∷ expected) given =
    opt_eq (lookup name given) (some value) && has_entries expected given

abbrev pub artifact_profiles : List String
artifact_profiles = "existing_git" ∷ "non_git" ∷ "new_git" ∷ []

-- a text of 64 characters
unfoldable pub is_long_digest : Option String → Bool
is_long_digest none = false
is_long_digest (some s) = eqb (chars s) 64
