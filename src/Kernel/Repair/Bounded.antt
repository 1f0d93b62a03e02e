-- ===== src/Kernel/Repair/Bounded.antt =====
-- The counters of the repair policy stay within the budgets that a decision gives.
use loop_skill.Prelude.{
  if◌then◌else◌, leb, ltb, ◌||◌, pos, Bool, String, arith, false, leb_ℤ, true, ℕ, ◌+◌, ◌<◌, ◌≡◌,
}
use loop_skill.Kernel.State.{Policy}
use loop_skill.Kernel.Repair.{decide_repair, same_count, is_exhausted}

leb_pos : (n m : ℕ) → leb_ℤ (pos n) (pos m) ≡ false → m < n
leb_pos n m h = ground arith

module _ (p : Policy) (card failure : String) (repair_budget same_budget : ℕ) where
  -- A decision to repair that is not exhausted adds one attempt, which stays within the repair
  -- budget, and its count of the same failure stays below its budget; one that is exhausted adds
  -- none. Either is the next decision revision.
  pub decide_repair_bounded :
      (q : Policy) (exhausted : Bool)
      → decide_repair p card failure (pos repair_budget) (pos same_budget) ≡ (q, exhausted)
      → (q.repair_attempts ≡ (if exhausted then p.repair_attempts else p.repair_attempts + 1))
        × ((exhausted || leb q.repair_attempts repair_budget) ≡ true)
        × ((exhausted || ltb q.same_failure_count same_budget) ≡ true)
        × (q.decision_revision ≡ p.decision_revision + 1)
  unfolding decide_repair same_count is_exhausted
  decide_repair_bounded q exhausted h = (ground arith, ground arith, ground arith, ground arith)
