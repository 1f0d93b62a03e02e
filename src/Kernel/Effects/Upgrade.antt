-- ===== src/Kernel/Effects/Upgrade.antt =====
-- An observation never takes back what an attempt has reached.
use loop_skill.Protocol.Outcome.{ok}
use loop_skill.Protocol.Envelope.{is_observed, is_strict, Receipt}
use loop_skill.Prelude.{not, ◌&&◌, ◌||◌, Bool, arith, false, true, ◌≡◌}
use loop_skill.Kernel.State.{is_committed, AttemptState}
use loop_skill.Kernel.Effects.{observed_state}

abbrev pub is_observed_attempt : AttemptState → Bool
is_observed_attempt AttemptState.observed = true
is_observed_attempt _ = false

-- An observation that is accepted never gives COMMITTED back, gives OBSERVED only for a strict
-- receipt of an observed outcome, and gives nothing but OBSERVED to an attempt that had left
-- COMMITTED.
pub observed_state_upgrades :
    (r : Receipt) (prior next : AttemptState)
    → observed_state r prior ≡ ok next
    → (is_committed next ≡ false)
      × ((not (is_observed_attempt next) || (is_strict r.trust_class && is_observed r.outcome))
          ≡ true)
      × ((is_committed prior || is_observed_attempt next) ≡ true)
unfolding observed_state
observed_state_upgrades r prior next h = (ground arith, ground arith, ground arith)
