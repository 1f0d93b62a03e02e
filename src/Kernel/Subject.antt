-- ===== src/Kernel/Subject.antt =====
-- References and freshness surfaces of v4_alpha/kernel.py: `_kind_for_ref`, `_subject_record`,
-- `validate_references`, `_only_record`, `_result_chain`, `_final_chain` and `policy_context`.
mod Chains
use loop_skill.Protocol.Outcome.{
  rejection, err, stale_subject_revision, foreign_reference, wrong_reference_kind, raise_if,
  require, ok, ◌>>=◌, ◌>>◌, Result,
}
use loop_skill.Protocol.Envelope.{Command}
use loop_skill.Prelude.{
  eqb, is_some, contains, not, opt_eq, lookup, ◌&&◌, ◌||◌, [], has_prefix, if◌then◌else◌, ◌==◌,
  Bool, Dict, none, some, ℕ, ◌∷◌, List, Option, String,
}
use loop_skill.Kernel.State.{
  Artifact, Attempt, Finalization, LoopResult, Report, Review, Delivery, Route, ExternalEffect,
  effects_or_empty, GoalPlan, HostResource, Goal, Snapshot,
}
unfoldable pub use Chains.*
use mathlib.Core.Option

-- _PREFIX_KIND
abbrev pub prefix_kind : List (String × String)
prefix_kind =
    ("loop-", "LoopRef")
    ∷ ("goal-", "GoalRef")
    ∷ ("host-target-", "HostResourceRef")
    ∷ ("external-effect-", "ExternalEffectRef")
    ∷ ("route-", "RouteRef")
    ∷ ("delivery-", "DeliveryRef")
    ∷ ("attempt-", "AttemptRef")
    ∷ ("result-", "ResultRef")
    ∷ ("report-", "ReportRef")
    ∷ ("artifact-", "ArtifactRef")
    ∷ ("review-", "ReviewRef")
    ∷ ("finalization-", "FinalizationRef")
    ∷ []

abbrev first_prefix : List (String × String) → String → Option String
first_prefix [] reference = none
first_prefix ((prefix, kind) ∷ rest) reference =
    if has_prefix prefix reference then some kind else first_prefix rest reference

unfoldable pub kind_for_ref : String → Option String
kind_for_ref reference = first_prefix prefix_kind reference

-- the first of two that is there
abbrev or_else {ℓ} : {A : Type ℓ} → Option A → Option A → Option A
or_else none b = b
or_else (some a) b = some a

-- `_COLLECTIONS`, in its order: the revision of the record with this reference
collections_revision : Snapshot → String → Option ℕ
collections_revision s reference =
    or_else (Option.map (λ (r : Goal). r.revision) (lookup reference s.goals)) (
      or_else (Option.map (λ (r : HostResource). r.revision) (lookup reference s.host_resources)) (
        or_else
          (Option.map (λ (r : ExternalEffect). r.revision) (lookup reference (effects_or_empty s)))
          (or_else (Option.map (λ (r : Route). r.revision) (lookup reference s.routes)) (
            or_else (Option.map (λ (r : Delivery). r.revision) (lookup reference s.deliveries)) (
              or_else (Option.map (λ (r : Attempt). r.revision) (lookup reference s.attempts)) (
                or_else (Option.map (λ (r : LoopResult). r.revision) (lookup reference s.results)) (
                  or_else (Option.map (λ (r : Report). r.revision) (lookup reference s.reports)) (
                    or_else
                      (Option.map (λ (r : Artifact). r.revision) (lookup reference s.artifacts))
                      (or_else
                        (Option.map (λ (r : Review). r.revision) (lookup reference s.reviews))
                        (Option.map (λ (r : Finalization). r.revision)
                          (lookup reference s.finalizations)))))))))))

-- `_subject_record(...).get("revision")`
pub subject_revision : Snapshot → String → Result ℕ
unfolding collections_revision
subject_revision s reference =
    if reference == "execution"
    then ok s.execution.revision
    else if reference == "closure_assurance"
    then ok s.closure_assurance.revision
    else if reference == "goal_plan"
    then require (Option.map (λ (p : GoalPlan). p.revision) s.goal_plan) foreign_reference
    else if reference == s.loop_ref
    then ok s.loop_revision
    else require (collections_revision s reference) foreign_reference

-- `subject_ref in snapshot.get(_COLLECTIONS[kind], {})`
in_collection : Snapshot → String → String → Bool
in_collection s kind reference =
    ((kind == "GoalRef") && contains reference s.goals)
    || ((kind == "HostResourceRef") && contains reference s.host_resources)
    || ((kind == "ExternalEffectRef") && contains reference (effects_or_empty s))
    || ((kind == "RouteRef") && contains reference s.routes)
    || ((kind == "DeliveryRef") && contains reference s.deliveries)
    || ((kind == "AttemptRef") && contains reference s.attempts)
    || ((kind == "ResultRef") && contains reference s.results)
    || ((kind == "ReportRef") && contains reference s.reports)
    || ((kind == "ArtifactRef") && contains reference s.artifacts)
    || ((kind == "ReviewRef") && contains reference s.reviews)
    || ((kind == "FinalizationRef") && contains reference s.finalizations)

-- the loop over `command.expected_subject_revisions`
check_revisions : Snapshot → Dict ℕ → Result (Unit {0})
check_revisions s [] = ok tt
check_revisions s ((reference, expected) ∷ rest) = do
  actual ← subject_revision s reference
  raise_if (not (eqb actual expected)) stale_subject_revision
  check_revisions s rest

-- a binding that names no record of the snapshot
skipped_binding : Command → String → String → Bool
skipped_binding c name reference =
    has_prefix "new_" name
    || (name == "provider_idempotency_key")
    || (name == "receipt")
    || has_prefix "receipt-" reference
    || ((name == "target_ref")
        && opt_eq (some reference) (lookup "new_host_resource_ref" c.bindings.allocate_refs))
    || not (is_some (kind_for_ref reference))
    || (reference == c.subject.loop_ref)

-- the loop over one group of bindings
check_group : Snapshot → Command → Dict String → Result (Unit {0})
unfolding skipped_binding
check_group s c [] = ok tt
check_group s c ((name, reference) ∷ rest) = do
  if skipped_binding c name reference
      then ok tt
      else (do revision ← subject_revision s reference; ok tt)
  check_group s c rest

unfoldable pub check_subject : Option Snapshot → Command → Result (Unit {0})
unfolding in_collection
check_subject s c = do
  kind ← require (kind_for_ref c.subject.subject_ref) wrong_reference_kind
  raise_if (not (kind == c.subject.subject_kind)) wrong_reference_kind
  if c.subject.subject_kind == "LoopRef"
      then raise_if (not (c.subject.subject_ref == c.subject.loop_ref)) foreign_reference
      else elim s [
        | none ↦ err (rejection foreign_reference)
        | some snapshot ↦
            raise_if (not (in_collection snapshot c.subject.subject_kind c.subject.subject_ref))
              foreign_reference
      ]

unfoldable pub check_snapshot : Option Snapshot → Command → Result (Unit {0})
unfolding check_revisions check_group
check_snapshot none c = ok tt
check_snapshot (some s) c = do
  check_revisions s c.expected_subject_revisions
  check_group s c c.bindings.resolved_refs
  check_group s c c.bindings.allocate_refs
  check_group s c c.bindings.receipt_refs

unfoldable pub validate_references : Option Snapshot → Command → Result (Unit {0})
validate_references s c = do check_subject s c; check_snapshot s c
