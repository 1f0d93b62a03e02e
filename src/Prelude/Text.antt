-- ===== src/Prelude/Text.antt =====
-- The string operations of Python that the source uses: emptiness, `strip`, `len`, `startswith`,
-- a slice from the left, `+`, and `==` on an optional text.
use Prim.Native.Nat.{ℕ, zero, suc}
use Prim.Native.Char.{code}
use Prim.Native.String.{String}
use mathlib.Core.Bool.{Bool, true, false, ◌&&◌, ◌||◌}
use mathlib.Core.Option.{Option, none, some}
use text.Mathlib.Text.{◌==◌}
use Prim.Native.Nat.{◌+◌, ◌-◌, ◌*◌}
use loop_skill.Prelude.Int.{ℤ, pos, negsuc}
use loop_skill.Prelude.Tests.{leb, eqb, if◌then◌else◌}

abbrev pub is_empty : String → Bool
is_empty String.[] = true
is_empty (String.◌∷◌ c s) = false

-- `len(s)`: the number of characters
unfoldable pub chars : String → ℕ
chars String.[] = 0
chars (String.◌∷◌ c s) = suc (chars s)

-- `s + t`
unfoldable pub cat : String → String → String
cat String.[] t = t
cat (String.◌∷◌ c s) t = String.◌∷◌ c (cat s t)

-- `s[:n]`
pub slice_to : ℕ → String → String
slice_to zero s = String.[]
slice_to (suc n) String.[] = String.[]
slice_to (suc n) (String.◌∷◌ c s) = String.◌∷◌ c (slice_to n s)

-- `s.startswith(prefix)`, the prefix first
unfoldable pub has_prefix : String → String → Bool
has_prefix String.[] s = true
has_prefix (String.◌∷◌ c p) String.[] = false
has_prefix (String.◌∷◌ c p) (String.◌∷◌ d s) = eqb (code c) (code d) && has_prefix p s

-- the characters that `str.isspace` accepts, which `strip` removes
is_space : ℕ → Bool
is_space c =
    (leb 9 c && leb c 13)
    || (leb 28 c && leb c 32)
    || eqb c 0x85
    || eqb c 0xa0
    || eqb c 0x1680
    || (leb 0x2000 c && leb c 0x200a)
    || eqb c 0x2028
    || eqb c 0x2029
    || eqb c 0x202f
    || eqb c 0x205f
    || eqb c 0x3000

strip_left : String → String
strip_left String.[] = String.[]
strip_left (String.◌∷◌ c s) =
    let rest = strip_left s in if is_space (code c) then rest else String.◌∷◌ c s

strip_right : String → String
strip_right String.[] = String.[]
strip_right (String.◌∷◌ c s) =
    let rest = strip_right s in
    if is_empty rest && is_space (code c) then String.[] else String.◌∷◌ c rest

unfoldable pub strip : String → String
unfolding strip_left strip_right is_space
strip s = strip_right (strip_left s)

-- `not s.strip()`
unfoldable pub is_blank : String → Bool
unfolding strip
is_blank s = is_empty (strip s)

-- every character is one of `0123456789abcdef`
unfoldable pub is_hex : String → Bool
is_hex String.[] = true
is_hex (String.◌∷◌ c s) =
    ((leb 48 (code c) && leb (code c) 57) || (leb 97 (code c) && leb (code c) 102)) && is_hex s

-- `re.fullmatch(r"[0-9a-f]{64}", s)`
unfoldable pub is_digest : String → Bool
is_digest s = eqb (chars s) 64 && is_hex s

-- `x == y` where either may be None
abbrev pub opt_eq : Option String → Option String → Bool
opt_eq none none = true
opt_eq none (some b) = false
opt_eq (some a) none = false
opt_eq (some a) (some b) = a == b

-- the value of decimal digits; Python allows one `_` between two digits
digits_from : ℕ → Bool → String → Option ℕ
digits_from n after_digit String.[] = if after_digit then some n else none
digits_from n after_digit (String.◌∷◌ c s) =
    let skip = digits_from n false s in
    let next = digits_from (n * 10 + (code c - 48)) true s in
    if leb 48 (code c) && leb (code c) 57
    then next
    else if after_digit && eqb (code c) 95
    then skip
    else none

signed : Bool → Option ℕ → Option ℤ
signed minus none = none
signed false (some n) = some (pos n)
signed true (some zero) = some (pos 0)
signed true (some (suc n)) = some (negsuc n)

parse_stripped : String → Option ℤ
unfolding digits_from signed
parse_stripped String.[] = none
parse_stripped (String.◌∷◌ c s) =
    if eqb (code c) 45
    then signed true (digits_from 0 false s)
    else if eqb (code c) 43
    then signed false (digits_from 0 false s)
    else signed false (digits_from 0 false (String.◌∷◌ c s))

-- `int(s)` of a text of ASCII characters, none where it raises ValueError
pub parse_int : String → Option ℤ
unfolding parse_stripped strip
parse_int s = parse_stripped (strip s)
