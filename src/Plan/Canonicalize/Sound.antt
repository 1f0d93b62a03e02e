-- ===== src/Plan/Canonicalize/Sound.antt =====
-- What a plan that `canonicalize_plan` accepts is known to have.
use loop_skill.Plan.Checks.{Unicode, values?, closed, field}
use loop_skill.Plan.Document.{Budget, Extension, GoalPolicy, Plan, PlanGoal, plan_value}
use loop_skill.Plan.Canonicalize.{
  canonicalize_as, canonicalize_plan, canonicalize_plan_v1, canonicalize_plan_v2, finished,
  goal_ids, goals_of, invalid_goals, is_primary, sized, worker_attempts,
}
use loop_skill.Plan.Parts.{at, goal_v1, goal_v2, goals_in, invalid_policy, policy_of}
use loop_skill.Prelude.{
  Bool-cases, Dict, List, Option, String, [], any, ap, leb, ltb, sym, subst, arith, contains,
  distinct, eq_iff, false, inl, inr, length, none, not, refl, some, true, ℕ, ◌&&◌, ◌==◌, ◌∷◌, ◌≡◌,
  ◌≢◌, ◌≤◌,
}
use loop_skill.Protocol.Envelope.{Runtime}
use loop_skill.Protocol.Outcome.{Result, err, ok}
use loop_skill.Protocol.Partial.{
  Ensures, bind-Ensures, bind_some, settled, some-Ensures, unless-Ensures,
}
use loop_skill.Protocol.Value.{
  Members, Value, Values, cons, nil, object, text?, size_values, validate_value,
}

abbrev pub AllGoals : (PlanGoal → Type 0) → List PlanGoal → Type 0
AllGoals P [] = Unit
AllGoals P (g ∷ goals) = P g × AllGoals P goals

-- the policy of a Goal, given the requirements of the plan
pub record IsPolicy (requirements : Dict String) (p : GoalPolicy) : Type 0 where
  pub known : any (λ reference. not (contains reference requirements)) p.requirement_refs ≡ false
  pub needed : p.requirement ≡ "required" → p.on_blocked ≢ "skip"
  pub gated : p.gate ≢ "worker" → p.recovery_policy ≡ "human"

-- a Goal has a policy if the plan has an extension
abbrev pub IsPolicied : Option Extension → PlanGoal → Type 0
IsPolicied none g = g.policy ≡ none
IsPolicied (some e) g = (p : GoalPolicy) × (g.policy ≡ some p) × IsPolicy e.requirements p

abbrev pub most_goals : Option Extension → ℕ
most_goals none = 32
most_goals (some e) = 128

pub record IsSound (p : Plan) : Type 0 where
  pub apart : distinct (goal_ids p.goals) ≡ true
  pub primary : is_primary p.objective p.goals ≡ true
  pub few : length p.goals ≤ most_goals p.extension
  pub funded : worker_attempts p.goals ≤ p.budget.max_host_invocations
  pub policies : AllGoals (IsPolicied p.extension) p.goals
  pub encodes : validate_value (plan_value p) ≡ ok tt

goals_in-Ensures :
    (P : PlanGoal → Type 0) (parse : Value → Option PlanGoal) (vs : Values)
    → ((v : Value) → Ensures P (parse v))
    → Ensures (λ goals. AllGoals P goals × (length goals ≡ size_values vs)) (goals_in parse vs)
unfolding goals_in size_values
goals_in-Ensures P parse nil each = some-Ensures _ [] (tt, refl)
goals_in-Ensures P parse (cons v vs) each = bind-Ensures (parse v) _ λ g e.
    bind-Ensures (goals_in parse vs) _ λ rest e2. some-Ensures _ (g ∷ rest) (
      (each v g e, (goals_in-Ensures P parse vs each rest e2).0),
      ap Prim.Native.Nat.suc (goals_in-Ensures P parse vs each rest e2).1,
    )

goal_v1-Ensures : (u : Unicode) (value : Value) → Ensures (λ g. g.policy ≡ none) (goal_v1 u value)
unfolding goal_v1
goal_v1-Ensures u value = bind-Ensures (closed _ value) _ λ ms _.
    bind-Ensures (at "goal_id" ms _) _ λ goal_id _.
      bind-Ensures (at "acceptance_criteria" ms _) _
        λ criteria _. bind-Ensures (at "objective" ms _) _ λ objective _ g h. ground (arith, h)

invalid_policy-IsPolicy :
    (rt : Runtime) (requirements : Dict String) (p : GoalPolicy)
    → invalid_policy rt requirements p ≡ false
    → IsPolicy requirements p
unfolding invalid_policy
invalid_policy-IsPolicy rt requirements p h = record {
  known = ground (arith, h);
  needed = λ required skip.
      ground (arith, h, eq_iff p.requirement "required", eq_iff p.on_blocked "skip");
  gated = λ other. ground (arith, h, eq_iff p.gate "worker", eq_iff p.recovery_policy "human");
}

policy_of-Ensures :
    (rt : Runtime) (u : Unicode) (requirements : Dict String) (ms : Members)
    → Ensures (IsPolicy requirements) (policy_of rt u requirements ms)
unfolding policy_of
policy_of-Ensures rt u requirements ms = bind-Ensures (at "requirement_refs" ms _) _ λ refs _.
    bind-Ensures (at "requirement" ms _) _ λ requirement _.
      bind-Ensures (at "gate" ms _) _ λ gate _.
        bind-Ensures (at "on_failure" ms _) _ λ on_failure _.
          bind-Ensures (at "on_blocked" ms _) _ λ on_blocked _.
            bind-Ensures (at "recovery_policy" ms _) _ λ recovery _.
              bind-Ensures (at "replay_safety" ms _) _ λ replay _.
                bind-Ensures (at "verifiers" ms _) _ λ verifiers _.
                  bind-Ensures (at "capabilities" ms _) _ λ capabilities _.
                    bind-Ensures (at "max_attempts" ms _) _ λ max_attempts _.
                      unless-Ensures (invalid_policy rt requirements _) _
                        λ valid. some-Ensures _ _ (invalid_policy-IsPolicy rt requirements _ valid)

goal_v2-Ensures :
    (rt : Runtime) (u : Unicode) (e : Extension) (value : Value)
    → Ensures (IsPolicied (some e)) (goal_v2 rt u e.requirements value)
unfolding goal_v2
goal_v2-Ensures rt u e value = bind-Ensures (closed _ value) _ λ ms _.
    bind-Ensures (at "goal_id" ms _) _ λ goal_id _.
      bind-Ensures (policy_of rt u e.requirements ms) _ λ policy made.
        bind-Ensures (at "acceptance_criteria" ms _) _ λ criteria _.
          bind-Ensures (at "objective" ms _) _ λ objective _ g h.
            (policy, ground (arith, h), policy_of-Ensures rt u e.requirements ms policy made)

goals_of-Ensures :
    (rt : Runtime) (u : Unicode) (P : PlanGoal → Type 0) (parse : Value → Option PlanGoal)
    (goal_max : ℕ) (value : Value)
    → ((v : Value) → Ensures P (parse v))
    → Ensures
        (λ goals. AllGoals P goals × (length goals ≤ goal_max))
        (goals_of rt u parse goal_max value)
unfolding goals_of
goals_of-Ensures rt u P parse goal_max value each = bind-Ensures (values? value) _ λ vs _.
    unless-Ensures (not (leb 1 (size_values vs) && leb (size_values vs) goal_max)) _
      λ sized_ok goals h.
        let (policies, size) = goals_in-Ensures P parse vs each goals h in
        (policies, ground (arith, size, sized_ok))

sized-Ensures :
    (rt : Runtime) (u : Unicode) (maximum : ℕ) (p : Plan)
    → Ensures (λ q. (q ≡ p) × (validate_value (plan_value p) ≡ ok tt)) (sized rt u maximum p)
unfolding sized
sized-Ensures rt u maximum p = bind-Ensures (settled (validate_value (plan_value p))) _ λ valid e.
    unless-Ensures (ltb maximum (rt.canonical_size (plan_value p))) _
      λ _. some-Ensures _ p (refl, settled_some (validate_value (plan_value p)) e)
  where
    settled_some : (r : Result (Unit {0})) {v : Unit {0}} → settled r ≡ some v → r ≡ ok tt
    settled_some (ok v) h = refl
    settled_some (err e) h = cc

at-Ensures :
    {A : Type 0} (P : A → Type 0) (k : String) (ms : Members) (check : Value → Option A)
    → ((v : Value) → Ensures P (check v))
    → Ensures P (at k ms check)
unfolding at
at-Ensures P k ms check each = bind-Ensures (field k ms) check λ v _. each v

made-IsSound :
    (p : Plan)
    → invalid_goals p.budget p.objective p.goals ≡ false
    → length p.goals ≤ most_goals p.extension
    → AllGoals (IsPolicied p.extension) p.goals
    → validate_value (plan_value p) ≡ ok tt
    → IsSound p
unfolding invalid_goals
made-IsSound p valid few policies encodes = record {
  apart = ground (arith, valid);
  primary = ground (arith, valid);
  few = few;
  funded = ground (arith, valid);
  policies = policies;
  encodes = encodes;
}

finished-Ensures :
    (rt : Runtime) (u : Unicode) (parse : Value → Option PlanGoal)
    (goal_max objective_max plan_max : ℕ) (ms : Members) (budget : Budget)
    (extension : Option Extension)
    → ((v : Value) → Ensures (IsPolicied extension) (parse v))
    → goal_max ≤ most_goals extension
    → Ensures IsSound (finished rt u parse goal_max objective_max plan_max ms budget extension)
unfolding finished
finished-Ensures rt u parse goal_max objective_max plan_max ms budget extension each limit =
    bind-Ensures (at "source" ms _) _ λ source _.
      bind-Ensures (at "boundaries" ms _) _ λ boundaries _.
        bind-Ensures (at "roadmap_policy" ms _) _ λ roadmap _.
          bind-Ensures (at "goals" ms _) _ λ goals found.
            bind-Ensures (at "objective" ms _) _ λ objective _.
              bind-Ensures (at "completion_evidence" ms _) _ λ completion _.
                bind-Ensures (at "stop_conditions" ms _) _ λ stops _.
                  unless-Ensures (invalid_goals budget objective goals) _ λ valid q h.
                    let (policies, few) =
                      at-Ensures _ "goals" ms _
                        (λ v. goals_of-Ensures rt u (IsPolicied extension) parse goal_max v each)
                        goals found in
                    let (same, encodes) = sized-Ensures rt u plan_max _ q h in
                    subst IsSound (sym same)
                      (made-IsSound _ valid (omega (arith, few, limit)) policies encodes)

canonicalize_plan_v1-Ensures :
    (rt : Runtime) (u : Unicode) (value : Value) → Ensures IsSound (canonicalize_plan_v1 rt u value)
unfolding canonicalize_plan_v1
canonicalize_plan_v1-Ensures rt u value = bind-Ensures (closed _ value) _ λ ms _.
    bind-Ensures (at "budget" ms _) _ λ budget _.
      finished-Ensures rt u _ 32 2048 131072 ms budget none (goal_v1-Ensures u) (omega arith)

canonicalize_plan_v2-Ensures :
    (rt : Runtime) (u : Unicode) (value : Value) → Ensures IsSound (canonicalize_plan_v2 rt u value)
unfolding canonicalize_plan_v2
canonicalize_plan_v2-Ensures rt u value = bind-Ensures (closed _ value) _ λ ms _.
    bind-Ensures (at "budget" ms _) _ λ budget _.
      bind-Ensures (at "requirements" ms _) _ λ requirements _.
        bind-Ensures (at "worker_profile" ms _) _ λ profile _.
          let extension : Extension = record {
            requirements = requirements;
            worker_profile = profile;
          } in
          finished-Ensures rt u _ 128 8192 524288 ms budget (some extension)
            (goal_v2-Ensures rt u extension) (omega arith)

canonicalize_as-Ensures :
    (rt : Runtime) (u : Unicode) (schema : String) (value : Value)
    → Ensures IsSound (canonicalize_as rt u schema value)
unfolding canonicalize_as
canonicalize_as-Ensures rt u schema value = elim (Bool-cases (schema == "loopskill-plan-v1")) [
  | inl first ↦ rw first (canonicalize_plan_v1-Ensures rt u value)
  | inr other ↦ elim (Bool-cases (schema == "loopskill-plan-v2")) [
    | inl second ↦ rw (other, second) (canonicalize_plan_v2-Ensures rt u value)
    | inr neither ↦ λ p h. absurd (ground (arith, other, neither, h))
  ]
]

-- A plan that `canonicalize_plan` accepts has at most 32 Goals in the schema loopskill-plan-v1 and
-- at most 128 in loopskill-plan-v2, with distinct identities, and its objective is that of the first
-- Goal; its host invocations pay for all attempts of the Goals behind the worker gate. In
-- loopskill-plan-v2 each Goal has a policy that names only requirements of the plan, that does not
-- skip a required Goal, and that leaves the recovery of the other gates to a human. The plan passes
-- the limits of the protocol on values.
pub canonicalize_plan-IsSound :
    (rt : Runtime) (u : Unicode) (value : Value) (p : Plan)
    → canonicalize_plan rt u value ≡ some p
    → IsSound p
unfolding canonicalize_plan
canonicalize_plan-IsSound rt u (object ms) p h =
    let (schema, _, h1) = bind_some (field "schema" ms) _ h in
    let (s, _, h2) = bind_some (text? schema) _ h1 in
    canonicalize_as-Ensures rt u s (object ms) p h2
canonicalize_plan-IsSound rt u Value.null p h = cc
canonicalize_plan-IsSound rt u (Value.boolean b) p h = cc
canonicalize_plan-IsSound rt u (Value.int n) p h = cc
canonicalize_plan-IsSound rt u (Value.str t) p h = cc
canonicalize_plan-IsSound rt u (Value.array vs) p h = cc
