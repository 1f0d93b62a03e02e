-- ===== src/Sqlite/Wire/Kept.antt =====
-- `_attempt_wire` writes nothing.
use loop_skill.Sqlite.Keeps.{keeps, Keeps}
use loop_skill.Sqlite.Extends.{same, Same}
use loop_skill.Prelude.{String, none, some}
use loop_skill.Kernel.State.{Attempt, ProviderRequest, Snapshot}
use loop_skill.Sqlite.Wire.{Host, attempt_wire, delivery_wire, effect_wire, materialize}

module _ (host : Host) where
  materialize-Keeps :
      (d : ProviderRequest) (request_digest : String)
      → Keeps Same (materialize host d request_digest)
  unfolding materialize
  materialize-Keeps d request_digest = search (keeps, same) depth 24

  effect_wire-Keeps :
      (s : Snapshot) (attempt_ref : String) (a : Attempt) (effect_ref : String)
      → Keeps Same (effect_wire host s attempt_ref a effect_ref)
  unfolding effect_wire
  effect_wire-Keeps s attempt_ref a effect_ref = search (keeps, same, materialize-Keeps) depth 9

  delivery_wire-Keeps :
      (s : Snapshot) (attempt_ref : String) (a : Attempt)
      → Keeps Same (delivery_wire host s attempt_ref a)
  unfolding delivery_wire
  delivery_wire-Keeps s attempt_ref a = search (keeps, same) depth 9

  pub attempt_wire-Keeps :
      (s : Snapshot) (attempt_ref : String) (a : Attempt)
      → Keeps Same (attempt_wire host s attempt_ref a)
  unfolding attempt_wire
  attempt_wire-Keeps s attempt_ref a =
      elim a.external_effect_ref
        as (λ o. Keeps Same (elim o [
          | some effect_ref ↦ effect_wire host s attempt_ref a effect_ref
          | none ↦ delivery_wire host s attempt_ref a
        ])) [
          | some effect_ref ↦ effect_wire-Keeps s attempt_ref a effect_ref
          | none ↦ delivery_wire-Keeps s attempt_ref a
        ]
