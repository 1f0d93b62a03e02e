-- ===== src/Kernel/Lifecycle/Budget.antt =====
-- A budget extension only raises a budget, up to the limits of the capacity contract.
use loop_skill.Protocol.Outcome.{>>=-eq-ok, invalid_command, ok, raise_if, raise_if-eq-ok, require}
use loop_skill.Protocol.Envelope.{payload_text, payload_int, Command, Runtime}
use loop_skill.Prelude.{
  Bool, String, arith, eqb_ℤ, false, leb_ℤ, not, refl, true, ℤ, ◌&&◌, ◌||◌, ◌≡◌,
}
use loop_skill.Kernel.State.{Budget, GoalPlan, Snapshot}
use loop_skill.Kernel.Lifecycle.{
  extend_budget, invalid_extension, max_host_invocations, max_wall_clock_seconds,
}

all_four :
    (a b x y p q : Bool)
    → (not a || not b || not x || not y || p || q) ≡ false
    → (a ≡ true) × (b ≡ true) × (x ≡ true) × (y ≡ true) × (p ≡ false)
all_four a b x y p q h = ground arith

-- the new limits of a budget, between the old ones and the largest
pub record IsRaised (old new : Budget) : Type 0 where
  pub more_invocations : leb_ℤ old.max_host_invocations new.max_host_invocations ≡ true
  pub capped_invocations : leb_ℤ new.max_host_invocations max_host_invocations ≡ true
  pub more_time : leb_ℤ old.wall_clock_seconds new.wall_clock_seconds ≡ true
  pub capped_time : leb_ℤ new.wall_clock_seconds max_wall_clock_seconds ≡ true
  pub changed :
      (eqb_ℤ new.max_host_invocations old.max_host_invocations
        && eqb_ℤ new.wall_clock_seconds old.wall_clock_seconds)
      ≡ false
  pub same_cost : new.max_cost_minor_units ≡ old.max_cost_minor_units

module _ (rt : Runtime) (c : Command) (s : Snapshot) where
  raised_lem :
      (plan : GoalPlan) (max wall : ℤ) (reason : String)
      → invalid_extension plan.budget.max_host_invocations plan.budget.wall_clock_seconds max wall
          reason
        ≡ false
      → IsRaised plan.budget
          (record (plan.budget) { max_host_invocations = max; wall_clock_seconds = wall })
  unfolding invalid_extension
  raised_lem plan max wall reason h =
      let (a, b, x, y, p) = all_four _ _ _ _ _ _ h in
      record {
        more_invocations = a;
        capped_invocations = b;
        more_time = x;
        capped_time = y;
        changed = p;
        same_cost = refl;
      }

  -- A budget extension that is accepted lowers neither limit, raises at least one of them, stays
  -- within 384 invocations and 2592000 seconds, and leaves the cost, the identity, the order and
  -- the active Goal of the plan as they are.
  pub extend_budget-IsRaised :
      (plan : GoalPlan) (r : GoalPlan × String)
      → extend_budget rt c s plan ≡ ok r
      → IsRaised plan.budget (r.0).budget
        × ((r.0).plan_digest ≡ plan.plan_digest)
        × ((r.0).ordered_goal_ids ≡ plan.ordered_goal_ids)
        × ((r.0).active_index ≡ plan.active_index)
  unfolding extend_budget
  extend_budget-IsRaised plan r h =
      let (max, _, h1) =
        >>=-eq-ok (require (payload_int c "new_max_host_invocations") invalid_command) _ h in
      let (wall, _, h2) =
        >>=-eq-ok (require (payload_int c "new_wall_clock_seconds") invalid_command) _ h1 in
      let (reason, _, h3) =
        >>=-eq-ok (require (payload_text c "reason_digest") invalid_command) _ h2 in
      let (_, valid, h4) =
        >>=-eq-ok
          (raise_if
            (invalid_extension plan.budget.max_host_invocations plan.budget.wall_clock_seconds max
              wall reason)
            invalid_command)
          _ h3 in
      let raised = raised_lem plan max wall reason (raise_if-eq-ok _ _ valid) in
      let made : (r.0).budget
          ≡ record (plan.budget) { max_host_invocations = max; wall_clock_seconds = wall } =
        ground arith in
      (rw made raised, ground arith, ground arith, ground arith)
