-- ===== src/Prelude/Numbers.antt =====
-- Go's `strconv` on integers and booleans, and the order of texts.
use Prim.Native.Char.{Char, code}
use Prim.Native.Nat.{ℕ, suc, zero, ◌+◌, ◌-◌, ◌*◌, ◌^◌}
use Prim.Native.String.{String, [], ◌∷◌}
use mathlib.Core.Path.{◌≡◌, refl}
use mathlib.Core.Bool.{Bool, true, false, ◌&&◌, ◌||◌}
use mathlib.Core.Option.{Option, none, some}
use text.Mathlib.Text.{◌==◌}
use mogenius_operator.Prelude.Tests.{if◌then◌else◌, eqb, leb, ltb}

-- The integers over the native numbers.
pub data ℤ : Type 0 where
  pos : ℕ → ℤ
  negsuc : ℕ → ℤ

abbrev pub is_digit : Char → Bool
is_digit c = leb 48 (code c) && leb (code c) 57

-- The digits of a text after the number `n` read so far.
unfoldable pub read_digits : ℕ → String → Option ℕ
read_digits n [] = some n
read_digits n (c ∷ s) =
    let more = read_digits (10 * n + (code c - 48)) s in if is_digit c then more else none

unfoldable pub read_number : String → Option ℕ
unfolding read_digits
read_number [] = none
read_number (c ∷ s) = read_digits 0 (c ∷ s)

-- A magnitude up to 2^63 - 1, and up to 2^63 behind a minus.
abbrev pub non_negative : Option ℕ → Option ℤ
non_negative none = none
non_negative (some n) = if ltb n (2 ^ 63) then some (pos n) else none

abbrev negated : ℕ → ℤ
negated zero = pos zero
negated (suc n) = negsuc n

abbrev non_positive : Option ℕ → Option ℤ
non_positive none = none
non_positive (some n) = if leb n (2 ^ 63) then some (negated n) else none

-- `strconv.ParseInt(s, 10, 64)`, without its error.
unfoldable pub parse_int : String → Option ℤ
unfolding read_number
parse_int [] = none
parse_int (c ∷ s) =
    if eqb (code c) 43
    then non_negative (read_number s)
    else if eqb (code c) 45
    then non_positive (read_number s)
    else non_negative (read_number (c ∷ s))

-- `strconv.ParseBool(s)`, without its error.
unfoldable pub parse_bool : String → Option Bool
parse_bool s =
    if s == "1" || s == "t" || s == "T" || s == "TRUE" || s == "true" || s == "True"
    then some true
    else if s == "0" || s == "f" || s == "F" || s == "FALSE" || s == "false" || s == "False"
    then some false
    else none

-- `a < b` on texts.
unfoldable pub text_less : String → String → Bool
text_less a [] = false
text_less [] (d ∷ b) = true
text_less (c ∷ a) (d ∷ b) =
    if ltb (code c) (code d) then true else if eqb (code c) (code d) then text_less a b else false

parsed : parse_int "-12" ≡ some (negsuc 11)
unfolding parse_int
parsed = refl
