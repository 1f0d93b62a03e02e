-- ===== src/Kernel/Closure/Honest.antt =====
-- Success needs a strict readback, in the closure of the execution and after it.
use loop_skill.Protocol.Outcome.{ok}
use loop_skill.Protocol.Envelope.{AuthorityContext, Command, Runtime}
use loop_skill.Prelude.{Bool, Option, arith, false, none, some, true, ◌≡◌}
use loop_skill.Kernel.State.{Disposition, Reduction, Snapshot, Strength}
use loop_skill.Kernel.Closure.{
  close_execution, strengthen_closure_assurance, is_success, prepare_finalization,
}

-- An execution whose disposition claims success has a strict closure assurance.
abbrev pub claims_success : Option Disposition → Bool
claims_success none = false
claims_success (some d) = is_success d

abbrev pub is_strict_strength : Strength → Bool
is_strict_strength Strength.strict = true
is_strict_strength _ = false

abbrev pub IsHonest : Snapshot → Type 0
IsHonest s =
    claims_success s.execution.disposition ≡ true
    → is_strict_strength s.closure_assurance.strength ≡ true

-- the execution's disposition and the closure assurance are the same in both
abbrev pub SameClosure : Snapshot → Snapshot → Type 0
SameClosure s t =
    (t.execution.disposition ≡ s.execution.disposition)
    × (t.closure_assurance ≡ s.closure_assurance)

-- and so are the deliveries
abbrev pub SameFrame : Snapshot → Snapshot → Type 0
SameFrame s t = SameClosure s t × (t.deliveries ≡ s.deliveries)

pub SameClosure-IsHonest : (s t : Snapshot) → SameClosure s t → IsHonest s → IsHonest t
SameClosure-IsHonest s t (d, a) h e = rw a (h (rw d at e))

module _ (rt : Runtime) (ctx : AuthorityContext) (c : Command) where
  pub close_execution-IsHonest :
      (s : Snapshot) (r : Reduction) → close_execution rt ctx c s ≡ ok r → IsHonest r.snapshot
  unfolding close_execution
  close_execution-IsHonest s r h e = ground arith

  pub strengthen-IsHonest :
      (s : Snapshot) (r : Reduction)
      → strengthen_closure_assurance rt ctx c s ≡ ok r
      → IsHonest r.snapshot
  unfolding strengthen_closure_assurance
  strengthen-IsHonest s r h e = ground arith

  pub prepare_finalization-SameFrame :
      (s : Snapshot) (r : Reduction)
      → prepare_finalization rt ctx c s ≡ ok r
      → SameFrame s r.snapshot
  unfolding prepare_finalization
  prepare_finalization-SameFrame s r h = ((ground arith, ground arith), ground arith)

  pub close_execution-deliveries :
      (s : Snapshot) (r : Reduction)
      → close_execution rt ctx c s ≡ ok r
      → r.snapshot.deliveries ≡ s.deliveries
  unfolding close_execution
  close_execution-deliveries s r h = ground arith

  pub strengthen-deliveries :
      (s : Snapshot) (r : Reduction)
      → strengthen_closure_assurance rt ctx c s ≡ ok r
      → r.snapshot.deliveries ≡ s.deliveries
  unfolding strengthen_closure_assurance
  strengthen-deliveries s r h = ground arith
