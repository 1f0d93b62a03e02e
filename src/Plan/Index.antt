-- ===== src/Plan/Index.antt =====
-- The index of a plan (v4_alpha/plan_codec.py): `build_plan_index` and `validate_plan_index`, with
-- the digests of a plan and of its Goals. An index is a record, so its shape is always the closed one.
pub mod Sound
use loop_skill.Protocol.Outcome.{◌>>◌}
use Prim.Native.Nat.{◌^◌}
use loop_skill.Plan.Canonicalize.{canonicalize_plan, goal_ids}
use loop_skill.Plan.Checks.{Unicode, bounded_text}
use loop_skill.Plan.Document.{Plan, PlanGoal, goal_value, plan_value}
use loop_skill.Prelude.{
  same_texts, is_digest, Bool, Dict, List, Option, String, [], distinct, eqb, false, insert, length,
  lookup, ltb, map, none, not, some, subset, true, ℕ, ◌&&◌, ◌-◌, ◌==◌, ◌||◌, ◌∷◌,
}
use loop_skill.Protocol.Envelope.{Runtime, domain_digest}
use loop_skill.Protocol.Partial.{settled, unless, ◌>>=◌}

pub record IndexDocument : Type 0 where
  pub authority_digest : String
  pub capacity_contract_version : String
  pub goal_count : ℕ
  pub ordered_goal_ids : List String
  pub ordered_goal_slice_digests : List String
  pub plan_digest : String
  pub revision : ℕ
  pub schema : String
  pub workspace_binding : String

abbrev pub index_schema_of : {A : Type 0} → Option A → String
index_schema_of none = "loopskill-plan-index-v1"
index_schema_of (some e) = "loopskill-plan-index-v2"

abbrev pub capacity_of : {A : Type 0} → Option A → String
capacity_of none = "loopskill-capacity-v1"
capacity_of (some e) = "loopskill-capacity-v2"

abbrev pub slice_domain_of : {A : Type 0} → Option A → String
slice_domain_of none = "loopskill-goal-slice-v1\n"
slice_domain_of (some p) = "loopskill-goal-slice-v2\n"

-- `{goal["goal_id"]: goal for goal in goals}`
unfoldable pub by_id_onto : Dict PlanGoal → List PlanGoal → Dict PlanGoal
by_id_onto d [] = d
by_id_onto d (g ∷ goals) = by_id_onto (insert g.goal_id g d) goals

abbrev pub by_id : List PlanGoal → Dict PlanGoal
by_id goals = by_id_onto [] goals

-- `set(ids) == set(goals)`, of the Goals of the plan
unfoldable pub same_goals : List String → List PlanGoal → Bool
same_goals ids goals = subset ids (goal_ids goals) && subset (goal_ids goals) ids

-- the schema, the capacity contract or the lengths are wrong
unfoldable pub misdescribes : IndexDocument → Plan → Bool
misdescribes index plan =
    not (index.schema == index_schema_of plan.extension)
    || not (index.capacity_contract_version == capacity_of plan.extension)
    || not (eqb (length index.ordered_goal_ids) index.goal_count)
    || not (eqb (length index.ordered_goal_slice_digests) index.goal_count)
    || not (distinct index.ordered_goal_ids)
    || not (same_goals index.ordered_goal_ids plan.goals)

-- `_text` and the test of a digest
unfoldable pub digest_text : Unicode → String → Option String
digest_text u s = bounded_text u 64 s >>= λ d. unless (not (is_digest d)) (some d)

abbrev pub order_of : Option (List String) → List PlanGoal → List String
order_of none goals = map (λ (e : String × PlanGoal). e.0) (by_id goals)
order_of (some ids) goals = ids

-- the order is not one of all Goals, each once
unfoldable pub invalid_order : List String → List PlanGoal → Bool
invalid_order order goals =
    not (eqb (length order) (length (by_id goals)))
    || not (distinct order)
    || not (same_goals order goals)

module _ (rt : Runtime) where
  unfoldable pub goal_slice_digest : PlanGoal → Option String
  goal_slice_digest g = settled (domain_digest rt (slice_domain_of g.policy) (goal_value g))

  -- `plan_digest` of the canonical bytes of a plan
  unfoldable pub plan_digest : Plan → Option String
  plan_digest p = settled (domain_digest rt "loopskill-blob-v1\n" (plan_value p))

  -- the slice digests of Goals that are given by their identities
  unfoldable pub slice_digests : Dict PlanGoal → List String → Option (List String)
  slice_digests goals [] = some []
  slice_digests goals (goal_id ∷ ids) = do
    g ← lookup goal_id goals
    digest ← goal_slice_digest g
    digests ← slice_digests goals ids
    some (digest ∷ digests)

module _ (rt : Runtime) (u : Unicode) where
  unfoldable pub validate_plan_index : IndexDocument → Plan → Option IndexDocument
  validate_plan_index index plan = unless (misdescribes index plan) (do
    canonical ← canonicalize_plan rt u (plan_value plan)
    identity ← plan_digest rt canonical
    expected ← slice_digests rt (by_id plan.goals) index.ordered_goal_ids
    workspace ← bounded_text u 256 index.workspace_binding
    own ← digest_text u index.plan_digest
    authority ← digest_text u index.authority_digest
    unless
        (not (index.plan_digest == identity)
          || not (same_texts index.ordered_goal_slice_digests expected)
          || ltb (2 ^ 31 - 1) index.revision)
        (some index))

  unfoldable pub build_plan_index :
      Plan → String → String → String → ℕ → Option (List String) → Option IndexDocument
  build_plan_index plan plan_identity workspace_binding authority_digest revision ordered =
      let order = order_of ordered plan.goals in
      unless (invalid_order order plan.goals || ltb (2 ^ 31 - 1) revision) (do
        authority ← bounded_text u 64 authority_digest
        digests ← slice_digests rt (by_id plan.goals) order
        identity ← bounded_text u 64 plan_identity
        workspace ← bounded_text u 256 workspace_binding
        validate_plan_index
            (record {
              authority_digest = authority;
              capacity_contract_version = capacity_of plan.extension;
              goal_count = length order;
              ordered_goal_ids = order;
              ordered_goal_slice_digests = digests;
              plan_digest = identity;
              revision = revision;
              schema = index_schema_of plan.extension;
              workspace_binding = workspace;
            })
            plan)
