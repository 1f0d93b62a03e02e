-- ===== src/Kernel/Authority/PlanSelector.antt =====
-- A grant that names its subjects by the plan that they derive from.
use loop_skill.Protocol.Derive.{repair_identity, derive_loop_plan_ref, derive_plan_ref}
use loop_skill.Protocol.Outcome.{
  raise_if, Result, authority_scope_mismatch, err, internal_invariant_violation, invalid_authority,
  ok, require, value_error, ◌>>=◌, ◌>>◌,
}
use loop_skill.Protocol.Envelope.{
  payload_int, content_storage_mode, payload_text, create_loop, Command, CommandType, Runtime,
  Selector,
}
use loop_skill.Prelude.{
  zero, negsuc, not, pos, suc, Bool, Dict, List, Option, String, [], cat, eqb, eqb_ℤ, false,
  if◌then◌else◌, leb, length, lookup, none, opt_eq, slice_to, some, true, ℕ, ℤ, ◌&&◌, ◌+◌, ◌-◌,
  ◌==◌, ◌||◌, ◌∷◌,
}
use loop_skill.Kernel.State.{Goal, GoalPlan, Snapshot}

is_create_loop : CommandType → Bool
is_create_loop create_loop = true
is_create_loop _ = false

is_int : Option ℤ → ℕ → Bool
is_int none n = false
is_int (some z) n = eqb_ℤ z (pos n)

creation_mismatch : Selector → Command → Bool
unfolding is_create_loop is_int
creation_mismatch sel c =
    not (is_create_loop c.command_type)
    || not (opt_eq (payload_text c "storage_mode") (some content_storage_mode))
    || not (opt_eq (payload_text c "plan_digest") (some sel.plan_digest))
    || not (is_int (payload_int c "goal_count") (sel.goal_index_max + 1))
    || not (c.subject.subject_kind == "LoopRef")
    || not (c.subject.subject_ref == c.subject.loop_ref)
    || not sel.include_loop_scope

-- `except ValueError: continue`, else the comparison
same_ref : Result String → String → Result Bool
same_ref (ok expected) reference = ok (reference == expected)
same_ref (err value_error) reference = ok false
same_ref (err e) reference = err e

slot_matches : Runtime → GoalPlan → Selector → Command → ℕ → String → String → Result Bool
unfolding same_ref
slot_matches rt plan sel c index goal_id slice_digest =
    if leb sel.goal_index_min index && leb index sel.goal_index_max
    then same_ref
        (derive_plan_ref rt
          (record {
            loop_ref = c.subject.loop_ref;
            plan_digest = plan.plan_digest;
            goal_id = goal_id;
            slice_digest = slice_digest;
          })
          c.subject.subject_kind)
        c.subject.subject_ref
    else ok false

-- the loop over `enumerate(zip(ids, digests))`, from an index
matches_plan : Runtime → GoalPlan → Selector → Command → ℕ → List String → List String → Result Bool
unfolding slot_matches
matches_plan rt plan sel c index (goal_id ∷ ids) (slice_digest ∷ digests) =
    let rest = matches_plan rt plan sel c (index + 1) ids digests in
    do
      found ← slot_matches rt plan sel c index goal_id slice_digest
      if found then ok true else rest
matches_plan rt plan sel c index _ _ = ok false

-- the prefixes of the references that a repair attempt makes
abbrev pub repair_prefixes : Dict String
repair_prefixes =
    ("ArtifactRef", "artifact-")
    ∷ ("AttemptRef", "attempt-")
    ∷ ("ExternalEffectRef", "external-effect-")
    ∷ ("HostResourceRef", "host-target-")
    ∷ ("ReportRef", "report-")
    ∷ ("ResultRef", "result-")
    ∷ ("ReviewRef", "review-")
    ∷ []

-- `for repair_ordinal in range(ordinal, ordinal + count)`
matches_ordinal : Runtime → GoalPlan → Command → String → String → String → ℕ → ℕ → Result Bool
matches_ordinal rt plan c prefix goal_ref goal_id ordinal zero = ok false
matches_ordinal rt plan c prefix goal_ref goal_id ordinal (suc count) =
    let rest = matches_ordinal rt plan c prefix goal_ref goal_id (ordinal + 1) count in
    do
      identity ← repair_identity rt c.subject.loop_ref plan.plan_digest goal_ref goal_id ordinal
      if c.subject.subject_ref == cat prefix (slice_to 24 identity) then ok true else rest

-- how many ordinals `range(1, max_attempts)` has
repair_count : ℤ → ℕ
repair_count (pos n) = n - 1
repair_count (negsuc n) = 0

matches_repair : Runtime → GoalPlan → Command → String → Dict Goal → Result Bool
unfolding matches_ordinal repair_count
matches_repair rt plan c prefix [] = ok false
matches_repair rt plan c prefix ((goal_ref, goal) ∷ goals) =
    let rest = matches_repair rt plan c prefix goals in
    do
      found ←
          matches_ordinal rt plan c prefix goal_ref goal.goal_id 1 (repair_count goal.max_attempts)
      if found then ok true else rest

repair_subject : Runtime → GoalPlan → Command → Snapshot → Option String → Result Bool
unfolding matches_repair
repair_subject rt plan c s none = ok false
repair_subject rt plan c s (some prefix) = matches_repair rt plan c prefix s.goals

derived_subject : Runtime → GoalPlan → Selector → Command → Snapshot → Result (Unit {0})
unfolding matches_plan repair_subject
derived_subject rt plan sel c s = do
  raise_if
      (not (eqb (length plan.ordered_goal_ids) (length plan.ordered_goal_slice_digests))
        || not (eqb (length plan.ordered_goal_ids) plan.goal_count))
      internal_invariant_violation
  matched ← matches_plan rt plan sel c 0 plan.ordered_goal_ids plan.ordered_goal_slice_digests
  repaired ←
      if not matched && (plan.capacity_contract_version == "loopskill-capacity-v2")
      then repair_subject rt plan c s (lookup c.subject.subject_kind repair_prefixes)
      else ok false
  raise_if (not matched && not repaired) authority_scope_mismatch

selected_subject : Runtime → Selector → Command → Snapshot → GoalPlan → Result (Unit {0})
unfolding derived_subject
selected_subject rt sel c s plan = do
  raise_if
      (not (plan.plan_digest == sel.plan_digest)
        || not (eqb plan.goal_count (sel.goal_index_max + 1)))
      authority_scope_mismatch
  if c.subject.subject_kind == "LoopRef"
      then raise_if
          (not sel.include_loop_scope || not (c.subject.subject_ref == c.subject.loop_ref))
          authority_scope_mismatch
      else if c.subject.subject_kind == "FinalizationRef"
      then (do
        expected ←
            derive_loop_plan_ref rt c.subject.loop_ref plan.plan_digest c.subject.subject_kind
        raise_if (not sel.include_loop_scope || not (c.subject.subject_ref == expected))
            authority_scope_mismatch)
      else derived_subject rt plan sel c s

selector_subject : Runtime → Selector → Command → Option Snapshot → Result (Unit {0})
unfolding creation_mismatch selected_subject
selector_subject rt sel c none = raise_if (creation_mismatch sel c) authority_scope_mismatch
selector_subject rt sel c (some s) = do
  plan ← require s.goal_plan authority_scope_mismatch
  selected_subject rt sel c s plan

pub validate_plan_selector : Runtime → Selector → Command → Option Snapshot → Result (Unit {0})
unfolding selector_subject
validate_plan_selector rt sel c s = do
  raise_if (not (sel.mode == "PLAN_DERIVED_V1") || not (eqb sel.goal_index_min 0)) invalid_authority
  selector_subject rt sel c s
