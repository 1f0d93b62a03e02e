-- ===== src/Kernel/Roadmap/Order.antt =====
-- A revision of the roadmap moves no Goal that has been reached.
use loop_skill.Protocol.Derive.{is_long_digest}
use loop_skill.Protocol.Value.{str, strings?}
use mathlib.Core.Option
use loop_skill.Protocol.Outcome.{
  Result, err, require-eq-ok, raise_if-eq-ok, >>=-eq-ok, invalid_command, invalid_transition, ok,
  raise_if, require,
}
use loop_skill.Protocol.Envelope.{
  domain_digest, payload_text, payload_int, AuthorityContext, Command, Runtime,
}
use loop_skill.Prelude.{
  same_texts→eq, sym, Option, ap, chars, is_blank, ltb, none, strip, pos, eqb_ℤ, leb_ℤ, Bool, List,
  String, arith, distinct, eqb→eq, false, length, lookup, not, refl, some, subset, take, true, ◌&&◌,
  ◌+◌, ◌==◌, ◌||◌, ◌≡◌,
}
use loop_skill.Kernel.State.{GoalPlan, Reduction, Snapshot}
use loop_skill.Kernel.Roadmap.{invalid_order, revise_goal_plan}

first_five :
    (a b p q x d e : Bool)
    → (not a || not b || not p || not q || not x || not d || not e) ≡ false
    → (a ≡ true) × (b ≡ true) × (p ≡ true) × (x ≡ true) × (d ≡ true)
first_five a b p q x d e h = ground arith

-- the new plan keeps what has been reached, and has the same Goals
pub record IsReordered (old new : GoalPlan) : Type 0 where
  pub same_ids :
      take (old.active_index + 1) new.ordered_goal_ids
      ≡ take (old.active_index + 1) old.ordered_goal_ids
  pub same_slices :
      take (old.active_index + 1) new.ordered_goal_slice_digests
      ≡ take (old.active_index + 1) old.ordered_goal_slice_digests
  pub same_length : length new.ordered_goal_ids ≡ length old.ordered_goal_ids
  pub no_new : subset new.ordered_goal_ids old.ordered_goal_ids ≡ true
  pub no_lost : subset old.ordered_goal_ids new.ordered_goal_ids ≡ true
  pub no_double : distinct new.ordered_goal_ids ≡ true
  pub next_revision : new.revision ≡ old.revision + 1
  pub same_index : new.active_index ≡ old.active_index
  pub same_plan : new.plan_digest ≡ old.plan_digest

abbrev plan_of : Result Reduction → Option GoalPlan
plan_of (ok r) = r.snapshot.goal_plan
plan_of (err e) = none

not-false : (b : Bool) → not b ≡ false → b ≡ true
not-false b h = ground arith

both : (a b : Bool) → (a && b) ≡ true → (a ≡ true) × (b ≡ true)
both a b h = ground arith

module _ (rt : Runtime) (ctx : AuthorityContext) (c : Command) (s : Snapshot) where
  valid_lem :
      (plan new : GoalPlan) (ids digests : List String)
      → invalid_order plan ids digests ≡ false
      → new.ordered_goal_ids ≡ ids
      → new.ordered_goal_slice_digests ≡ digests
      → new.revision ≡ plan.revision + 1
      → new.active_index ≡ plan.active_index
      → new.plan_digest ≡ plan.plan_digest
      → IsReordered plan new
  unfolding invalid_order
  valid_lem plan new ids digests h i d n a p =
      let (reached, slices, lengths, sets, single) = first_five _ _ _ _ _ _ _ h in
      let (no_new, no_lost) = both _ _ sets in
      record {
        same_ids = rw i (same_texts→eq _ _ reached);
        same_slices = rw d (same_texts→eq _ _ slices);
        same_length = rw i (eqb→eq _ _ lengths);
        no_new = rw i no_new;
        no_lost = rw i no_lost;
        no_double = rw i single;
        next_revision = n;
        same_index = a;
        same_plan = p;
      }

  -- A roadmap revision that is accepted is of an ADAPTIVE plan, has the same Goals, each once, in
  -- an order that agrees with the old one up to the active Goal, and is the next plan revision.
  pub revise_goal_plan-IsReordered :
      (r : Reduction)
      → revise_goal_plan rt ctx c s ≡ ok r
      → (old : GoalPlan) × (new : GoalPlan) × (s.goal_plan ≡ some old)
        × (r.snapshot.goal_plan ≡ some new)
        × ((old.mode == "ADAPTIVE") ≡ true)
        × IsReordered old new
  unfolding revise_goal_plan
  revise_goal_plan-IsReordered r h =
      let (plan, known, h1) = >>=-eq-ok (require s.goal_plan invalid_transition) _ h in
      let (_, adaptive, h2) =
        >>=-eq-ok (raise_if (not (plan.mode == "ADAPTIVE")) invalid_transition) _ h1 in
      let (ids, _, h3) =
        >>=-eq-ok
          (require (Option.bind (lookup "ordered_goal_ids" c.payload) strings?) invalid_command) _
          h2 in
      let (digests, _, h4) =
        >>=-eq-ok
          (require (Option.bind (lookup "ordered_goal_slice_digests" c.payload) strings?)
            invalid_command)
          _ h3 in
      let (_, valid, h5) =
        >>=-eq-ok (raise_if (invalid_order plan ids digests) invalid_command) _ h4 in
      let (revision, _, h6) =
        >>=-eq-ok (require (payload_int c "plan_revision") invalid_command) _ h5 in
      let (_, _, h7) =
        >>=-eq-ok
          (raise_if
            (not (eqb_ℤ revision (pos (plan.revision + 1)))
              || leb_ℤ plan.max_roadmap_revisions revision)
            invalid_command)
          _ h6 in
      let (index_digest, _, h8) =
        >>=-eq-ok (require (payload_text c "plan_index_digest") invalid_command) _ h7 in
      let (_, _, h9) =
        >>=-eq-ok (raise_if (not (is_long_digest (some index_digest))) invalid_command) _ h8 in
      let (reason, _, h10) = >>=-eq-ok (require (payload_text c "reason") invalid_command) _ h9 in
      let (_, _, h11) =
        >>=-eq-ok (raise_if (is_blank reason || ltb 512 (chars reason)) invalid_command) _ h10 in
      let (_, _, h12) =
        >>=-eq-ok (domain_digest rt "loopskill-roadmap-reason-v1\n" (str (strip reason))) _ h11 in
      (
        plan,
        _,
        require-eq-ok s.goal_plan invalid_transition known,
        sym (ap plan_of h12),
        not-false _ (raise_if-eq-ok _ _ adaptive),
        valid_lem plan _ ids digests (raise_if-eq-ok _ _ valid) refl refl refl refl refl,
      )
