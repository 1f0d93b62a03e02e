-- ===== src/Plan/Checks.antt =====
-- The checks of v4_alpha/plan_codec.py on the values of a plan: `_text`, `_string_array`, `_closed`
-- and `_integer`. A function that raises PlanCodecError or ProtocolRejection returns none. Texts are
-- valid UTF-8, and an object has each key once.
use Prim.Native.Char.{code}
use Prim.Native.Nat.{suc, zero}
use Prim.Native.String.{len}
use loop_skill.Prelude.{
  Bool, List, Option, String, [], cat, distinct, elem, eqb, false, has_prefix, if◌then◌else◌,
  is_empty, leb, ltb, none, not, pos, some, strip, subset, ℕ, ◌&&◌, ◌==◌, ◌||◌, ◌∷◌,
}
use loop_skill.Protocol.Partial.{unless, ◌>>=◌}
use loop_skill.Protocol.Value.{
  Members, Value, Values, array, cons, end, member, nil, object, size_values, text?,
}

-- `unicodedata.normalize("NFC", s)` and `s.upper()`
pub record Unicode : Type 0 where
  pub normalize : String → String
  pub upper : String → String

-- `s.replace("\r\n", "\n").replace("\r", "\n")`
unfoldable pub newlines : String → String
newlines String.[] = String.[]
newlines (String.◌∷◌ c s) =
    let rest = newlines s in
    if eqb (code c) 13
    then (if has_prefix "\n" s then rest else cat "\n" rest)
    else String.◌∷◌ c rest

unfoldable pub has_nul : String → Bool
has_nul String.[] = false
has_nul (String.◌∷◌ c s) = eqb (code c) 0 || has_nul s

unfoldable pub normalized : Unicode → String → String
normalized u s = strip (u.normalize (newlines s))

-- `_text` of a text
unfoldable pub bounded_text : Unicode → ℕ → String → Option String
unfolding normalized has_nul newlines
bounded_text u maximum s =
    let clean = normalized u s in
    unless (is_empty clean || has_nul clean || ltb maximum (len clean)) (some clean)

-- `_text`
unfoldable pub text : Unicode → ℕ → Value → Option String
text u maximum value = text? value >>= bounded_text u maximum

-- each item of an array as a text
unfoldable pub texts : Unicode → ℕ → Values → Option (List String)
texts u maximum nil = some []
texts u maximum (cons v vs) = do s ← text u maximum v; ss ← texts u maximum vs; some (s ∷ ss)

abbrev pub values? : Value → Option Values
values? (array vs) = some vs
values? _ = none

unfoldable pub is_sized : ℕ → Bool → ℕ → Bool
is_sized maximum_items allow_empty n = leb n maximum_items && (allow_empty || ltb 0 n)

-- `_string_array`
unfoldable pub string_array : Unicode → ℕ → Bool → ℕ → Value → Option (List String)
unfolding is_sized
string_array u maximum_items allow_empty item_maximum value = do
  vs ← values? value
  unless (not (is_sized maximum_items allow_empty (size_values vs)))
      (do ss ← texts u item_maximum vs; unless (not (distinct ss)) (some ss))

unfoldable mutual
  pub keys : Members → List String
  keys end = []
  keys (member k v ms) = k ∷ keys ms

unfoldable mutual
  pub field : String → Members → Option Value
  field k end = none
  field k (member j v ms) = if j == k then some v else field k ms

-- `_closed`
unfoldable pub closed : List String → Value → Option Members
unfolding keys
closed expected (object ms) =
    unless (not (subset (keys ms) expected && subset expected (keys ms))) (some ms)
closed expected _ = none

-- `_integer`, whose minimum is never negative
unfoldable pub integer : ℕ → ℕ → Value → Option ℕ
integer minimum maximum (Value.int (pos n)) = unless (ltb n minimum || ltb maximum n) (some n)
integer minimum maximum _ = none

abbrev pub boolean? : Value → Option Bool
boolean? (Value.boolean b) = some b
boolean? _ = none

-- a text that is one of those listed
unfoldable pub one_of : List String → Value → Option String
one_of allowed value = text? value >>= λ s. unless (not (elem s allowed)) (some s)

unfoldable pub are_digits : ℕ → String → Bool
are_digits zero s = is_empty s
are_digits (suc n) String.[] = false
are_digits (suc n) (String.◌∷◌ c s) = leb 48 (code c) && leb (code c) 57 && are_digits n s

-- `re.fullmatch` of a letter, given by its code, and three digits
unfoldable pub is_numbered : ℕ → String → Bool
unfolding are_digits
is_numbered letter String.[] = false
is_numbered letter (String.◌∷◌ c s) = eqb (code c) letter && are_digits 3 s
