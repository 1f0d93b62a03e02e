-- ===== src/Plan/Request/Total.antt =====
-- A provider request is materialized for each position of a validated index.
use loop_skill.Plan.Canonicalize.{canonicalize_plan}
use loop_skill.Plan.Canonicalize.Sound.{AllGoals, IsPolicied, canonicalize_plan-IsSound}
use loop_skill.Plan.Checks.{Unicode}
use loop_skill.Plan.Document.{Extension, Plan, PlanGoal}
use loop_skill.Plan.Index.{
  build_plan_index, IndexDocument, by_id, goal_slice_digest, validate_plan_index,
}
use loop_skill.Plan.Index.Sound.{
  EachEntry, EachGoal, by_id_onto-EachEntry, validate_plan_index-IsIndexOf,
  validate_plan_index-build_plan_index,
}
use loop_skill.Plan.Request.{
  extended_fields, materialize_provider_request, request_fields, requirement_values,
}
use loop_skill.Prelude.{
  Dict, List, Option, Option-cases, String, [], any, arith, contains, false, get_elem?, inl, inr,
  lookup, none, not, refl, some, subst, sym, ℕ, ◌++◌, ◌∷◌, ◌<◌, ◌≡◌,
}
use loop_skill.Protocol.Envelope.{Runtime}
use loop_skill.Protocol.Partial.{◌>>=◌}
use loop_skill.Protocol.Value.{Value, Values, cons, object_of, str}

requirement_values_total :
    (requirements : Dict String) (refs : List String)
    → any (λ reference. not (contains reference requirements)) refs ≡ false
    → (vs : Values) × (requirement_values requirements refs ≡ some vs)
unfolding requirement_values ◌>>=◌
requirement_values_total requirements [] known = (_, refl)
requirement_values_total requirements (reference ∷ refs) known =
    elim (Option-cases (lookup reference requirements)) [
      | inl absent ↦ absurd (ground (arith, known, absent))
      | inr (requirement, found) ↦
          let (rest, made) =
            requirement_values_total requirements refs (ground (arith, known, found)) in
          (
            cons (object_of (("requirement_id", str reference) ∷ ("text", str requirement) ∷ []))
                rest,
            rw (found, made) refl,
          )
    ]

extended_fields_total :
    (extension : Option Extension) (g : PlanGoal)
    → IsPolicied extension g
    → (fields : List (String × Value)) × (extended_fields extension g.policy ≡ some fields)
unfolding extended_fields ◌>>=◌
extended_fields_total none g policied = ([], refl)
extended_fields_total (some e) g (p, has_policy, valid) =
    let (requirements, made) =
      requirement_values_total e.requirements p.requirement_refs valid.known in
    elim (Option-cases (extended_fields (some e) g.policy)) [
      | inl absent ↦ absurd (ground (arith, rw (has_policy, made) at absent))
      | inr present ↦ present
    ]

named :
    (P : PlanGoal → Type 0) (goals : List PlanGoal)
    → AllGoals P goals
    → EachGoal (λ k g. P g × (g.goal_id ≡ k)) goals
named P [] each = tt
named P (g ∷ goals) each = ((each.0, refl), named P goals each.1)

-- the Goal under an identity has it
pub by_id_named :
    (P : PlanGoal → Type 0) (goals : List PlanGoal)
    → AllGoals P goals
    → EachEntry (λ k g. P g × (g.goal_id ≡ k)) (by_id goals)
unfolding lookup
by_id_named P goals each = by_id_onto-EachEntry _ [] goals (λ k g found. cc) (named P goals each)

module _ (rt : Runtime) (u : Unicode) where
  -- the request for a position of an index
  pub record IsRequestAt (plan : Plan) (index : IndexDocument) (i : ℕ)
      (target_ref artifact_digest prior_disposition : String) : Type 0 where
    pub goal : PlanGoal
    pub extended : List (String × Value)
    pub indexed : get_elem? index.ordered_goal_ids i ≡ some goal.goal_id
    pub sliced : get_elem? index.ordered_goal_slice_digests i ≡ goal_slice_digest rt goal
    pub requested :
        materialize_provider_request rt u plan index i target_ref artifact_digest prior_disposition
        ≡ some (
            object_of (
              request_fields plan goal target_ref artifact_digest prior_disposition
                index.workspace_binding
              ++ extended))

  request_at :
      (value : Value) (plan : Plan) (index : IndexDocument) (i : ℕ)
      (target_ref artifact_digest prior_disposition : String)
      → canonicalize_plan rt u value ≡ some plan
      → validate_plan_index rt u index plan ≡ some index
      → i < index.goal_count
      → IsRequestAt plan index i target_ref artifact_digest prior_disposition
  unfolding materialize_provider_request ◌>>=◌
  request_at value plan index i target_ref artifact_digest prior_disposition canonical valid below =
      let sound = canonicalize_plan-IsSound rt u value plan canonical in
      let slice = (validate_plan_index-IsIndexOf rt u plan index index valid).1.slices i below in
      let (policied, same) =
        by_id_named (IsPolicied plan.extension) plan.goals sound.policies slice.goal_id slice.goal
          slice.defined in
      let (extended, made) = extended_fields_total plan.extension slice.goal policied in
      record {
        goal = slice.goal;
        extended = extended;
        indexed = subst (λ k. get_elem? index.ordered_goal_ids i ≡ some k) (sym same) slice.indexed;
        sliced = slice.sliced;
        requested = rw (valid, slice.indexed, slice.defined, made) refl;
      }

  -- For a plan that `canonicalize_plan` returned and an index that `build_plan_index` built for it, in
  -- whatever order, `materialize_provider_request` returns a request at each position of the index.
  -- It is about the Goal whose identity and slice digest the index has at that position.
  pub materialize_provider_request_total :
      (value : Value) (plan : Plan) (identity workspace authority : String) (revision : ℕ)
      (ordered : Option (List String)) (index : IndexDocument) (i : ℕ)
      (target_ref artifact_digest prior_disposition : String)
      → canonicalize_plan rt u value ≡ some plan
      → build_plan_index rt u plan identity workspace authority revision ordered ≡ some index
      → i < index.goal_count
      → IsRequestAt plan index i target_ref artifact_digest prior_disposition
  materialize_provider_request_total value plan identity workspace authority revision ordered index
        i target_ref artifact_digest prior_disposition canonical built below =
      let (valid, _, _) =
        validate_plan_index-build_plan_index rt u plan identity workspace authority revision ordered
          index built in
      request_at value plan index i target_ref artifact_digest prior_disposition canonical valid
        below
