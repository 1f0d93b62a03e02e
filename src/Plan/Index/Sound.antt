-- ===== src/Plan/Index/Sound.antt =====
-- What a validated index says of its plan, position by position.
use Prim.Native.Nat.{suc, zero}
use loop_skill.Plan.Canonicalize.{canonicalize_plan}
use loop_skill.Plan.Checks.{Unicode, bounded_text}
use loop_skill.Plan.Document.{Plan, PlanGoal, plan_value}
use loop_skill.Plan.Index.{
  IndexDocument, build_plan_index, by_id, by_id_onto, digest_text, goal_slice_digest, misdescribes,
  order_of, plan_digest, same_goals, slice_digests, validate_plan_index,
}
use loop_skill.Prelude.{
  same_texts, same_texts→eq, Bool, Bool-cases, Dict, List, Option, String, [], ap, arith, distinct,
  ◌==◌, eq_iff, false, get_elem?, inl, inr, insert, length, lookup, lookup-insert, not, ◌||◌, refl,
  some, subst, sym, true, ℕ, ◌∙◌, ◌∷◌, ◌<◌, ◌≡◌,
}
use loop_skill.Protocol.Envelope.{Runtime}
use loop_skill.Protocol.Partial.{bind_some, some_injective, unless-some}

-- what is known of each entry of a dictionary
abbrev pub EachEntry : (String → PlanGoal → Type 0) → Dict PlanGoal → Type 0
EachEntry P d = (k : String) (g : PlanGoal) → lookup k d ≡ some g → P k g

abbrev pub EachGoal : (String → PlanGoal → Type 0) → List PlanGoal → Type 0
EachGoal P [] = Unit
EachGoal P (g ∷ goals) = P g.goal_id g × EachGoal P goals

pub by_id_onto-EachEntry :
    (P : String → PlanGoal → Type 0) (d : Dict PlanGoal) (goals : List PlanGoal)
    → EachEntry P d
    → EachGoal P goals
    → EachEntry P (by_id_onto d goals)
unfolding by_id_onto
by_id_onto-EachEntry P d [] each holds = each
by_id_onto-EachEntry P d (g ∷ goals) each holds =
    by_id_onto-EachEntry P (insert g.goal_id g d) goals
      (λ k h found. elim (Bool-cases (g.goal_id == k)) [
        | inl same ↦
            let same_goal : g ≡ h =
              some_injective (sym (lookup-insert g.goal_id k g d ∙ rw same refl) ∙ found) in
            subst (λ x. P k x) same_goal (subst (λ j. P j g) ((eq_iff g.goal_id k).0 same) holds.0)
        | inr other ↦ each k h (sym (lookup-insert g.goal_id k g d ∙ rw other refl) ∙ found)
      ])
      holds.1

both_hold : (a b c : Bool) → (not a || not b || c) ≡ false → (a ≡ true) × (b ≡ true)
both_hold true true c h = (refl, refl)
both_hold true false c h = cc
both_hold false b c h = cc

module _ (rt : Runtime) where
  -- one position of an index
  pub record IsSlice (plan : Plan) (index : IndexDocument) (i : ℕ) : Type 0 where
    pub goal_id : String
    pub goal : PlanGoal
    pub indexed : get_elem? index.ordered_goal_ids i ≡ some goal_id
    pub defined : lookup goal_id (by_id plan.goals) ≡ some goal
    pub sliced : get_elem? index.ordered_goal_slice_digests i ≡ goal_slice_digest rt goal

  slice_digests_cons :
      (goals : Dict PlanGoal) (goal_id : String) (ids digests : List String)
      → slice_digests rt goals (goal_id ∷ ids) ≡ some digests
      → (g : PlanGoal) × (digest : String) × (rest : List String) × (lookup goal_id goals ≡ some g)
        × (goal_slice_digest rt g ≡ some digest)
        × (slice_digests rt goals ids ≡ some rest)
        × (digests ≡ digest ∷ rest)
  unfolding slice_digests
  slice_digests_cons goals goal_id ids digests made =
      let (g, found, h1) = bind_some (lookup goal_id goals) _ made in
      let (digest, sliced, h2) = bind_some (goal_slice_digest rt g) _ h1 in
      let (rest, made_rest, h3) = bind_some (slice_digests rt goals ids) _ h2 in
      (g, digest, rest, found, sliced, made_rest, ground (arith, h3))

  slice_digests_at :
      (goals : Dict PlanGoal) (ids digests : List String) (i : ℕ)
      → slice_digests rt goals ids ≡ some digests
      → i < length ids
      → (goal_id : String) × (g : PlanGoal) × (get_elem? ids i ≡ some goal_id)
        × (lookup goal_id goals ≡ some g)
        × (get_elem? digests i ≡ goal_slice_digest rt g)
  slice_digests_at goals [] digests i made below = absurd (omega (arith, below))
  slice_digests_at goals (goal_id ∷ ids) digests zero made below =
      let (g, digest, rest, found, sliced, made_rest, all_of) =
        slice_digests_cons goals goal_id ids digests made in
      (goal_id, g, refl, found, ap (λ ds. get_elem? ds 0) all_of ∙ sym sliced)
  slice_digests_at goals (goal_id ∷ ids) digests (suc i) made below =
      let (g, digest, rest, found, sliced, made_rest, all_of) =
        slice_digests_cons goals goal_id ids digests made in
      let (there, h, indexed, defined, same) =
        slice_digests_at goals ids rest i made_rest (omega (arith, below)) in
      (there, h, indexed, defined, ap (λ ds. get_elem? ds (suc i)) all_of ∙ same)

  -- a validated index: it covers the Goals of the plan, each once, it has their slice digests at
  -- their positions, and its plan digest is that of the canonical plan
  pub record IsIndexOf (u : Unicode) (plan : Plan) (index : IndexDocument) : Type 0 where
    pub covers : same_goals index.ordered_goal_ids plan.goals ≡ true
    pub apart : distinct index.ordered_goal_ids ≡ true
    pub counted : length index.ordered_goal_ids ≡ index.goal_count
    pub slices : (i : ℕ) → i < index.goal_count → IsSlice plan index i
    pub identified :
        (canonical : Plan) × (canonicalize_plan rt u (plan_value plan) ≡ some canonical)
        × (plan_digest rt canonical ≡ some index.plan_digest)

  described :
      (index : IndexDocument) (plan : Plan)
      → misdescribes index plan ≡ false
      → (same_goals index.ordered_goal_ids plan.goals ≡ true)
        × (distinct index.ordered_goal_ids ≡ true)
        × (length index.ordered_goal_ids ≡ index.goal_count)
  unfolding misdescribes
  described index plan h = (ground (arith, h), ground (arith, h), ground (arith, h))

  -- what `validate_plan_index` returns is the index that it was given, and that is an index of its
  -- plan
  validated :
      (u : Unicode) (plan : Plan) (index verified : IndexDocument)
      → validate_plan_index rt u index plan ≡ some verified
      → (verified ≡ index) × IsIndexOf u plan index
  unfolding validate_plan_index
  validated u plan index verified h =
      let (shape, h1) = unless-some (misdescribes index plan) _ h in
      let (canonical, canonicalized, h2) =
        bind_some (canonicalize_plan rt u (plan_value plan)) _ h1 in
      let (identity, digested, h3) = bind_some (plan_digest rt canonical) _ h2 in
      let (expected, slices, h4) =
        bind_some (slice_digests rt (by_id plan.goals) index.ordered_goal_ids) _ h3 in
      let (workspace, _, h5) = bind_some (bounded_text u 256 index.workspace_binding) _ h4 in
      let (own, _, h6) = bind_some (digest_text u index.plan_digest) _ h5 in
      let (authority, _, h7) = bind_some (digest_text u index.authority_digest) _ h6 in
      let (agree, h8) = unless-some _ _ h7 in
      let (own_digest, own_slices) =
        both_hold (index.plan_digest == identity)
          (same_texts index.ordered_goal_slice_digests expected) _ agree in
      let (covers, apart, counted) = described index plan shape in
      let same : index.ordered_goal_slice_digests ≡ expected =
        same_texts→eq index.ordered_goal_slice_digests expected own_slices in
      (
        sym (some_injective h8),
        record {
          covers = covers;
          apart = apart;
          counted = counted;
          slices = λ i below.
              let (goal_id, g, indexed, defined, sliced) =
                slice_digests_at (by_id plan.goals) index.ordered_goal_ids expected i slices
                  (omega (arith, below, counted)) in
              record {
                goal_id = goal_id;
                goal = g;
                indexed = indexed;
                defined = defined;
                sliced = ap (λ ds. get_elem? ds i) same ∙ sliced;
              };
          identified = (
            canonical,
            canonicalized,
            digested ∙ ap some (sym ((eq_iff index.plan_digest identity).0 own_digest)),
          );
        },
      )

  -- An index that `validate_plan_index` accepts is returned as it is. It has each Goal of the plan
  -- once, and at each position the slice digest of the Goal that is there; its plan digest is that of
  -- the canonical plan.
  pub validate_plan_index-IsIndexOf :
      (u : Unicode) (plan : Plan) (index verified : IndexDocument)
      → validate_plan_index rt u index plan ≡ some verified
      → (verified ≡ index) × IsIndexOf u plan verified
  validate_plan_index-IsIndexOf u plan index verified h =
      let (same, sound) = validated u plan index verified h in
      (same, subst (IsIndexOf u plan) (sym same) sound)

  -- An index that `build_plan_index` builds is accepted by `validate_plan_index`, which returns it,
  -- and has the order that was asked for.
  pub validate_plan_index-build_plan_index :
      (u : Unicode) (plan : Plan) (identity workspace authority : String) (revision : ℕ)
      (ordered : Option (List String)) (index : IndexDocument)
      → build_plan_index rt u plan identity workspace authority revision ordered ≡ some index
      → (validate_plan_index rt u index plan ≡ some index)
        × (index.ordered_goal_ids ≡ order_of ordered plan.goals)
        × (index.revision ≡ revision)
  unfolding build_plan_index
  validate_plan_index-build_plan_index u plan identity workspace authority revision ordered index
        h =
      let (valid, h1) = unless-some _ _ h in
      let (authority_text, _, h2) = bind_some (bounded_text u 64 authority) _ h1 in
      let (digests, _, h3) =
        bind_some (slice_digests rt (by_id plan.goals) (order_of ordered plan.goals)) _ h2 in
      let (identity_text, _, h4) = bind_some (bounded_text u 64 identity) _ h3 in
      let (workspace_text, _, h5) = bind_some (bounded_text u 256 workspace) _ h4 in
      let (same, _) = validated u plan _ index h5 in
      (
        subst (λ i. validate_plan_index rt u i plan ≡ some index) (sym same) h5,
        ap (λ (i : IndexDocument). i.ordered_goal_ids) same,
        ap (λ (i : IndexDocument). i.revision) same,
      )
