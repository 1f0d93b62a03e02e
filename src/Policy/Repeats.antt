-- ===== src/Policy/Repeats.antt =====
-- A repair goes on only within the two budgets of the envelope.
use loop_skill.Prelude.{List, String, [], ◌∷◌, ◌≡◌}
use loop_skill.Policy.{RepairObservation}

-- every observation has this fingerprint
abbrev pub AllSame : String → List RepairObservation → Type 0
AllSame f [] = Unit
AllSame f (o ∷ history) = (o.failure_fingerprint ≡ f) × AllSame f history
