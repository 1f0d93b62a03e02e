-- ===== src/Protocol/Value.antt =====
-- JSON values (v4_alpha/protocol.py: `_validate_value`, `_find_control_injection`). Texts here are
-- valid UTF-8 and there are no floats, so those two rejections of `_validate_value` have no case.
use Prim.Native.Nat.{◌^◌}
use Prim.Native.String.{len}
use loop_skill.Prelude.{
  ℕ, ◌-◌, String, Bool, false, ◌||◌, Option, none, some, List, [], ◌∷◌, ltb, elem, ℤ, pos, negsuc,
}
use loop_skill.Protocol.Outcome.{Result, ok, ◌>>◌, raise_if, resource_limit_exceeded}

mutual
  pub data Value : Type 0 where
    null : Value
    boolean : Bool → Value
    int : ℤ → Value
    str : String → Value
    array : Values → Value
    object : Members → Value

  pub data Values : Type 0 where
    nil : Values
    cons : Value → Values → Values

  pub data Members : Type 0 where
    end : Members
    member : String → Value → Members → Members

abbrev pub max_semantic_string_bytes : ℕ
max_semantic_string_bytes = 4096

abbrev pub max_collection_items : ℕ
max_collection_items = 128

-- CONTROL_FIELDS
abbrev pub control_fields : List String
control_fields =
    "operation_id" ∷ "command_type" ∷ "protocol_version" ∷ "actor_ref" ∷ "authority_grant_ref"
    ∷ "subject" ∷ "expected_loop_revision" ∷ "expected_subject_revisions" ∷ "issued_at"
    ∷ "machine_bindings" ∷ "request_digest" ∷ "handle" ∷ "receipt_ref" ∷ "timestamp" ∷ "version"
    ∷ []

-- the value is an int64
pub outside_int64 : ℤ → Bool
outside_int64 (pos n) = ltb (2 ^ 63 - 1) n
outside_int64 (negsuc n) = ltb (2 ^ 63 - 1) n

unfoldable pub too_long : String → Bool
too_long s = ltb max_semantic_string_bytes (len s)

unfoldable mutual
  pub size_values : Values → ℕ
  size_values nil = 0
  size_values (cons v vs) = Prim.Native.Nat.suc (size_values vs)

unfoldable mutual
  pub size_members : Members → ℕ
  size_members end = 0
  size_members (member k v ms) = Prim.Native.Nat.suc (size_members ms)

unfoldable mutual
  unfolding too_long outside_int64

  pub validate_value : Value → Result (Unit {0})
  validate_value null = ok tt
  validate_value (boolean b) = ok tt
  validate_value (int n) = raise_if (outside_int64 n) resource_limit_exceeded
  validate_value (str s) = raise_if (too_long s) resource_limit_exceeded
  validate_value (array vs) =
      raise_if (ltb max_collection_items (size_values vs)) resource_limit_exceeded
      >> validate_values vs
  validate_value (object ms) =
      raise_if (ltb max_collection_items (size_members ms)) resource_limit_exceeded
      >> validate_members ms

  pub validate_values : Values → Result (Unit {0})
  validate_values nil = ok tt
  validate_values (cons v vs) = validate_value v >> validate_values vs

  pub validate_members : Members → Result (Unit {0})
  validate_members end = ok tt
  validate_members (member k v ms) =
      raise_if (too_long k) resource_limit_exceeded >> validate_value v >> validate_members ms

unfoldable mutual
  -- a control field at any depth, as a key of an object
  pub has_control_field : Value → Bool
  has_control_field null = false
  has_control_field (boolean b) = false
  has_control_field (int n) = false
  has_control_field (str s) = false
  has_control_field (array vs) = values_have_control_field vs
  has_control_field (object ms) = members_have_control_field ms

  pub values_have_control_field : Values → Bool
  values_have_control_field nil = false
  values_have_control_field (cons v vs) = has_control_field v || values_have_control_field vs

  pub members_have_control_field : Members → Bool
  members_have_control_field end = false
  members_have_control_field (member k v ms) =
      elem k control_fields || has_control_field v || members_have_control_field ms

-- how the code reads a value: `isinstance` and the value itself
abbrev pub text? : Value → Option String
text? (str s) = some s
text? _ = none

abbrev pub int? : Value → Option ℤ
int? (int n) = some n
int? _ = none

-- an array of texts
unfoldable pub texts? : Values → Option (List String)
texts? nil = some []
texts? (cons (str s) vs) = elim (texts? vs) [ none ↦ none | some ss ↦ some (s ∷ ss) ]
texts? (cons _ vs) = none

abbrev pub strings? : Value → Option (List String)
strings? (array vs) = texts? vs
strings? _ = none

-- values that the code builds
abbrev pub array_of : List String → Value
array_of ss = array (go ss)
  where
    go : List String → Values
    go [] = nil
    go (s ∷ r) = cons (str s) (go r)

abbrev pub opt_str : Option String → Value
opt_str none = null
opt_str (some s) = str s

abbrev pub num : ℕ → Value
num n = int (pos n)

-- an object of the code from its fields
abbrev pub object_of : List (String × Value) → Value
object_of fields = object (go fields)
  where
    go : List (String × Value) → Members
    go [] = end
    go ((k, v) ∷ r) = member k v (go r)
