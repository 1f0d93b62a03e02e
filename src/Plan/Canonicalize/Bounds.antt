-- ===== src/Plan/Canonicalize/Bounds.antt =====
-- The limits of the protocol on values that hold of an accepted plan besides those of the codec.
use loop_skill.Plan.Canonicalize.{canonicalize_plan}
use loop_skill.Plan.Canonicalize.Sound.{canonicalize_plan-IsSound}
use loop_skill.Plan.Checks.{Unicode, field}
use loop_skill.Plan.Document.{Extension, Plan, plan_value, extension_fields, requirement_members}
use loop_skill.Prelude.{Dict, String, [], ap, subst, arith, length, refl, some, ◌∷◌, ◌≡◌, ◌≤◌}
use loop_skill.Protocol.Envelope.{Runtime}
use loop_skill.Protocol.Outcome.{ok}
use loop_skill.Protocol.Value.{
  Members, Value, end, max_collection_items, max_semantic_string_bytes, member, object,
  size_members, str, too_long, validate_members, validate_value,
}
use Prim.Native.String.{len}

-- the fields of a value that passes pass
field-validate_members :
    (k : String) (ms : Members) (v : Value)
    → validate_members ms ≡ ok tt
    → field k ms ≡ some v
    → validate_value v ≡ ok tt
unfolding field validate_value
field-validate_members k end v valid found = cc
field-validate_members k (member j w ms) v valid found =
    ground (arith, field-validate_members k ms v)

object_passes :
    (ms : Members)
    → validate_value (object ms) ≡ ok tt
    → (size_members ms ≤ max_collection_items) × (validate_members ms ≡ ok tt)
unfolding validate_value
object_passes ms valid = (ground (arith, valid), ground (arith, valid))

field_passes :
    (k : String) (ms : Members) (v : Value)
    → validate_value (object ms) ≡ ok tt
    → field k ms ≡ some v
    → validate_value v ≡ ok tt
field_passes k ms v valid = field-validate_members k ms v (object_passes ms valid).1

str_passes : (s : String) → validate_value (str s) ≡ ok tt → len s ≤ max_semantic_string_bytes
unfolding validate_value too_long
str_passes s valid = ground (arith, valid)

size_members-requirement_members :
    (d : Dict String) → size_members (requirement_members d) ≡ length d
unfolding size_members requirement_members
size_members-requirement_members [] = refl
size_members-requirement_members ((k, requirement) ∷ d) =
    ap Prim.Native.Nat.suc (size_members-requirement_members d)

few_requirements :
    (e : Extension) (p : Plan)
    → p.extension ≡ some e
    → validate_value (plan_value p) ≡ ok tt
    → length e.requirements ≤ max_collection_items
unfolding plan_value field extension_fields
few_requirements e p extended valid =
    let passes =
      field_passes "requirements" _ (object (requirement_members e.requirements))
        (rw extended at valid) refl in
    subst (λ n. n ≤ max_collection_items) (size_members-requirement_members e.requirements)
      (object_passes (requirement_members e.requirements) passes).0

-- An accepted plan has an objective of at most 4096 bytes, the limit of the protocol on a text, and at
-- most 128 requirements, its limit on a collection.
pub canonicalize_plan_protocol_bounds :
    (rt : Runtime) (u : Unicode) (value : Value) (p : Plan)
    → canonicalize_plan rt u value ≡ some p
    → (len p.objective ≤ 4096)
      × ((e : Extension) → p.extension ≡ some e → length e.requirements ≤ 128)
unfolding plan_value field
canonicalize_plan_protocol_bounds rt u value p accepted =
    let encodes = (canonicalize_plan-IsSound rt u value p accepted).encodes in
    (
      str_passes p.objective (field_passes "objective" _ (str p.objective) encodes refl),
      λ e extended. few_requirements e p extended encodes,
    )
