-- ===== src/Kernel/Review/Earned.antt =====
-- What the tests of an advance have found of the Goal, its review and its result.
use loop_skill.Protocol.Outcome.{
  >>=-eq-ok, at_key-eq-ok, invalid_transition, ok, raise_if, require, require-eq-ok,
}
use loop_skill.Protocol.Envelope.{Command}
use loop_skill.Protocol.Validate.{Outcome}
use loop_skill.Prelude.{
  Bool-cases, Dict, List, Option, String, all, arith, eq_iff, false, inl, inr, is_nil, lookup, none,
  not, opt_eq, refl, some, true, ◌⊎◌, ◌++◌, ◌==◌, ◌||◌, ◌≡◌, [], ◌∷◌,
}
use loop_skill.Kernel.Closure.{is_pass_verdict}
use loop_skill.Kernel.State.{
  effects_of, is_active_goal, ExternalEffect, Goal, GoalState, LoopResult, ResultState, Review,
  Route, Snapshot, Verdict,
}
use loop_skill.Kernel.Review.{
  is_limited_outcome, bound_goals, effect_goal, goal_disposition, is_acknowledged_result,
  is_allowed, own_goal, route_goal,
}

-- what the outcome of the result and the verdict of the review are for each disposition
pub data Grounds (goal : Goal) : Outcome → Verdict → GoalState → Type 0 where
  to_done : Grounds goal Outcome.pass Verdict.pass GoalState.done
  to_failed : Grounds goal Outcome.failed Verdict.pass GoalState.failed
  to_failed_limited : Grounds goal Outcome.failed Verdict.limitation GoalState.failed
  to_limitation : (o : Outcome) → Grounds goal o Verdict.limitation GoalState.limitation
  to_skipped :
      goal.requirement ≡ "optional"
      → Grounds goal Outcome.limitation Verdict.limitation GoalState.skipped
  to_skipped_unverifiable :
      goal.requirement ≡ "optional"
      → Grounds goal Outcome.unverifiable Verdict.limitation GoalState.skipped

-- the result binds the Goal: by its own reference, its route or its external effect, where it has them
pub record IsOwn (s : Snapshot) (goal_ref : String) (result : LoopResult) : Type 0 where
  pub bound :
      ¬ ((result.goal_ref ≡ none) × (result.route_ref ≡ none) × (result.external_effect_ref ≡ none))
  pub by_goal : (ref : String) → result.goal_ref ≡ some ref → ref ≡ goal_ref
  pub by_route :
      (ref : String)
      → result.route_ref ≡ some ref
      → (route : Route) × (lookup ref s.routes ≡ some route) × (route.goal_ref ≡ goal_ref)
  pub by_effect :
      (ref : String)
      → result.external_effect_ref ≡ some ref
      → (effects : Dict ExternalEffect) × (effect : ExternalEffect) × (s.external_effects
          ≡ some effects)
        × (lookup ref effects ≡ some effect)
        × (effect.goal_ref ≡ goal_ref)

pub record IsEarned (s : Snapshot) (goal_ref : String) (goal : Goal) (review : Review)
    (result : LoopResult) (d : GoalState) : Type 0 where
  pub was_active : goal.state ≡ GoalState.active
  pub acknowledged : result.state ≡ ResultState.acknowledged
  pub same_report : review.report_ref ≡ result.report_ref
  pub same_artifact : result.artifact_ref ≡ some review.artifact_ref
  pub own : IsOwn s goal_ref result
  pub grounds : Grounds goal result.outcome review.state d

limited_cases :
    (o : Outcome)
    → is_limited_outcome o ≡ true
    → (o ≡ Outcome.limitation) ⊎ (o ≡ Outcome.unverifiable)
limited_cases Outcome.limitation h = inl refl
limited_cases Outcome.unverifiable h = inr refl
limited_cases Outcome.pass h = cc
limited_cases Outcome.failed h = cc

-- the table of dispositions
grounds_lem :
    (goal : Goal) (result : LoopResult) (review : Review) (d : GoalState)
    → is_allowed d goal result review ≡ true
    → Grounds goal result.outcome review.state d
unfolding is_allowed
grounds_lem goal result review GoalState.done h =
    let o : result.outcome ≡ Outcome.pass = ground arith in
    let v : review.state ≡ Verdict.pass = ground arith in rw (o, v) Grounds.to_done
grounds_lem goal result review GoalState.failed h =
    let o : result.outcome ≡ Outcome.failed = ground arith in
    elim (Bool-cases (is_pass_verdict review.state)) [
      | inl pass ↦ let v : review.state ≡ Verdict.pass = ground arith in rw (o, v) Grounds.to_failed
      | inr limited ↦
          let v : review.state ≡ Verdict.limitation = ground arith in
          rw (o, v) Grounds.to_failed_limited
    ]
grounds_lem goal result review GoalState.limitation h =
    let v : review.state ≡ Verdict.limitation = ground arith in
    rw v (Grounds.to_limitation result.outcome)
grounds_lem goal result review GoalState.skipped h =
    let v : review.state ≡ Verdict.limitation = ground arith in
    let optional : goal.requirement ≡ "optional" =
      ground (arith, eq_iff goal.requirement "optional") in
    elim (limited_cases result.outcome (ground arith)) [
      | inl o ↦ rw (o, v) (Grounds.to_skipped optional)
      | inr o ↦ rw (o, v) (Grounds.to_skipped_unverifiable optional)
    ]
grounds_lem goal result review GoalState.active h = absurd (ground arith)
grounds_lem goal result review GoalState.stopped h = absurd (ground arith)
grounds_lem goal result review GoalState.pending h = absurd (ground arith)

-- an optional reference that is a given one
opt_eq_lem : (a : String) (o : Option String) → opt_eq (some a) o ≡ true → o ≡ some a
opt_eq_lem a none h = cc
opt_eq_lem a (some b) h = let same : a ≡ b = ground (arith, eq_iff a b) in rw same refl

all-++ :
    (k : String) (xs ys : List String)
    → all (λ r. r == k) (xs ++ ys) ≡ true
    → (all (λ r. r == k) xs ≡ true) × (all (λ r. r == k) ys ≡ true)
all-++ k [] ys h = (refl, h)
all-++ k (x ∷ xs) ys h = let rest = all-++ k xs ys in ground arith

module _ (s : Snapshot) (k : String) where
  own_lem :
      (o : Option String) (ref : String)
      → o ≡ some ref
      → all (λ r. r == k) (own_goal o) ≡ true
      → ref ≡ k
  own_lem o ref e h = let one = rw e at h in ground (arith, eq_iff ref k)

  route_lem :
      (o : Option String) (ref : String) (refs : List String)
      → o ≡ some ref
      → route_goal s o ≡ ok refs
      → all (λ r. r == k) refs ≡ true
      → (route : Route) × (lookup ref s.routes ≡ some route) × (route.goal_ref ≡ k)
  unfolding route_goal
  route_lem o ref refs e h every =
      let (route, found, h1) =
        >>=-eq-ok (require (lookup ref s.routes) invalid_transition) _ (rw e at h) in
      (route, require-eq-ok _ _ found, ground (arith, eq_iff route.goal_ref k))

  effect_lem :
      (o : Option String) (ref : String) (refs : List String)
      → o ≡ some ref
      → effect_goal s o ≡ ok refs
      → all (λ r. r == k) refs ≡ true
      → (effects : Dict ExternalEffect) × (effect : ExternalEffect) × (s.external_effects
          ≡ some effects)
        × (lookup ref effects ≡ some effect)
        × (effect.goal_ref ≡ k)
  unfolding effect_goal
  effect_lem o ref refs e h every =
      let (effects, held, h1) = >>=-eq-ok (effects_of s) _ (rw e at h) in
      let (effect, found, h2) = >>=-eq-ok (require (lookup ref effects) invalid_transition) _ h1 in
      (
        effects,
        effect,
        at_key-eq-ok _ held,
        require-eq-ok _ _ found,
        ground (arith, eq_iff effect.goal_ref k),
      )

  bound_lem :
      (result : LoopResult) (refs : List String)
      → bound_goals s result ≡ ok refs
      → is_nil refs ≡ false
      → all (λ r. r == k) refs ≡ true
      → IsOwn s k result
  unfolding bound_goals route_goal effect_goal
  bound_lem result refs h some_ref every =
      let (routed, r, h1) = >>=-eq-ok (route_goal s result.route_ref) _ h in
      let (made, e, h2) = >>=-eq-ok (effect_goal s result.external_effect_ref) _ h1 in
      let parts : own_goal result.goal_ref ++ (routed ++ made) ≡ refs = ground arith in
      let (own, rest) = all-++ k (own_goal result.goal_ref) (routed ++ made) (rw parts every) in
      let (by_route, by_effect) = all-++ k routed made rest in
      record {
        bound = λ (g, t, f).
            let none_bound : bound_goals s result ≡ ok [] = rw (g, t, f) refl in
            absurd (ground arith);
        by_goal = λ ref x. own_lem result.goal_ref ref x own;
        by_route = λ ref x. route_lem result.route_ref ref routed x r by_route;
        by_effect = λ ref x. effect_lem result.external_effect_ref ref made x e by_effect;
      }

  pub goal_disposition-IsEarned :
      (c : Command) (goal : Goal) (result : LoopResult) (review : Review) (d : GoalState)
      → c.subject.subject_ref ≡ k
      → goal_disposition c s goal result review ≡ ok d
      → IsEarned s k goal review result d
  unfolding goal_disposition
  goal_disposition-IsEarned c goal result review d subject h =
      let (_, active, h1) =
        >>=-eq-ok (raise_if (not (is_active_goal goal)) invalid_transition) _ h in
      let (_, bound, h2) =
        >>=-eq-ok
          (raise_if
            (not (is_acknowledged_result result.state)
              || not (review.report_ref == result.report_ref)
              || not (opt_eq (some review.artifact_ref) result.artifact_ref))
            invalid_transition)
          _ h1 in
      let (refs, of_result, h3) = >>=-eq-ok (bound_goals s result) _ h2 in
      let (_, tested, h4) =
        >>=-eq-ok
          (raise_if (is_nil refs || not (all (λ r. r == c.subject.subject_ref) refs))
            invalid_transition)
          _ h3 in
      let every : all (λ r. r == c.subject.subject_ref) refs ≡ true = ground arith in
      record {
        was_active = ground arith;
        acknowledged = ground arith;
        same_report = ground (arith, eq_iff review.report_ref result.report_ref);
        same_artifact = opt_eq_lem _ _ (ground arith);
        own = bound_lem result refs of_result (ground arith) (rw subject at every);
        grounds = grounds_lem goal result review d (ground arith);
      }
