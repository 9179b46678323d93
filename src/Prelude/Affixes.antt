-- ===== src/Prelude/Affixes.antt =====
-- Go's `strings` functions on prefixes and suffixes, and the digits of a number read back.
use Prim.Native.Char.{Char, code}
use Prim.Native.Nat.{ℕ, suc, zero, ◌+◌, ◌-◌, ◌*◌, ◌/◌, ◌%◌, ◌^◌, ◌≤◌, ◌<◌}
use Prim.Native.String.{String, [], ◌∷◌, ◌++◌}
use mathlib.Core.Path.{◌≡◌, refl, sym, ap, ◌∙◌}
use mathlib.Core.Bool.{Bool, true, false}
use mathlib.Core.Logic.{inl, inr}
use mathlib.Core.List.{List}
use mathlib.Core.Option.{Option, none, some, some-injective}
use native.Mathlib.Omega.{arith}
use text.Mathlib.Text.{◌==◌}
use text.Mathlib.TextLemmas.{nil-append, cons-append}
use mogenius_operator.Prelude.Tests.{if◌then◌else◌, eqb, ltb, Bool-cases}
use mogenius_operator.Prelude.Decimal.{decimal, decimal_on, digit}
use mogenius_operator.Prelude.Numbers.{
  pos, read_digits, read_number, is_digit, parse_int, non_negative,
}

-- The text behind a prefix, where there is one.
unfoldable pub strip_prefix : String → String → Option String
strip_prefix [] s = some s
strip_prefix (c ∷ p) [] = none
strip_prefix (c ∷ p) (d ∷ s) =
    let rest = strip_prefix p s in if eqb (code c) (code d) then rest else none

pub strip_prefix-append : (p s : String) → strip_prefix p (p ++ s) ≡ some s
unfolding strip_prefix
strip_prefix-append [] s = ap some (nil-append s)
strip_prefix-append (c ∷ p) s = rw (cons-append c p s) (ground (arith, strip_prefix-append p s))

abbrev digits_then : Option ℕ → String → Option ℕ
digits_then none t = none
digits_then (some n) t = read_digits n t

read_digits-append :
    (n : ℕ) (s t : String) → read_digits n (s ++ t) ≡ digits_then (read_digits n s) t
unfolding read_digits
read_digits-append n [] t = rw (nil-append t) refl
read_digits-append n (c ∷ s) t = rw (cons-append c s t) (elim (Bool-cases (is_digit c)) [
  | inl e ↦ rw e (read_digits-append (10 * n + (code c - 48)) s t)
  | inr e ↦ rw e refl
])

-- A digit, read behind a number.
read_digits-digit : (a n : ℕ) → n < 10 → read_digits a (digit n) ≡ some (10 * a + n)
unfolding read_digits
read_digits-digit a zero h = refl
read_digits-digit a (suc zero) h = refl
read_digits-digit a (suc (suc zero)) h = refl
read_digits-digit a (suc (suc (suc zero))) h = refl
read_digits-digit a (suc (suc (suc (suc zero)))) h = refl
read_digits-digit a (suc (suc (suc (suc (suc zero))))) h = refl
read_digits-digit a (suc (suc (suc (suc (suc (suc zero)))))) h = refl
read_digits-digit a (suc (suc (suc (suc (suc (suc (suc zero))))))) h = refl
read_digits-digit a (suc (suc (suc (suc (suc (suc (suc (suc zero)))))))) h = refl
read_digits-digit a (suc (suc (suc (suc (suc (suc (suc (suc (suc zero))))))))) h = refl
read_digits-digit a (suc (suc (suc (suc (suc (suc (suc (suc (suc (suc n)))))))))) h =
    let absurd : ⊥ = omega (arith, h) in elim absurd [ ]

read_digits-decimal_on : (k n : ℕ) → n ≤ k → read_digits 0 (decimal_on k n) ≡ some n
read_digits-decimal_on zero n h =
    read_digits-digit 0 (n % 10) (omega arith) ∙ ap some (omega (arith, h))
read_digits-decimal_on (suc k) n h = elim (Bool-cases (ltb n 10)) [
  | inl e ↦ rw e (read_digits-digit 0 n (ground arith) ∙ ap some (omega arith))
  | inr e ↦ rw e (
      read_digits-append 0 (decimal_on k (n / 10)) (digit (n % 10))
      ∙ ap (λ o. digits_then o (digit (n % 10))) (read_digits-decimal_on k (n / 10) (ground arith))
      ∙ read_digits-digit (n / 10) (n % 10) (omega arith)
      ∙ ap some (omega arith))
]

-- The text begins with a digit.
abbrev starts_digit : String → Bool
starts_digit [] = false
starts_digit (c ∷ s) = is_digit c

starts_digit-append : (s t : String) → starts_digit s ≡ true → starts_digit (s ++ t) ≡ true
starts_digit-append [] t h = cc h
starts_digit-append (c ∷ s) t h = rw (cons-append c s t) h

starts_digit-digit : (n : ℕ) → n < 10 → starts_digit (digit n) ≡ true
starts_digit-digit zero h = refl
starts_digit-digit (suc zero) h = refl
starts_digit-digit (suc (suc zero)) h = refl
starts_digit-digit (suc (suc (suc zero))) h = refl
starts_digit-digit (suc (suc (suc (suc zero)))) h = refl
starts_digit-digit (suc (suc (suc (suc (suc zero))))) h = refl
starts_digit-digit (suc (suc (suc (suc (suc (suc zero)))))) h = refl
starts_digit-digit (suc (suc (suc (suc (suc (suc (suc zero))))))) h = refl
starts_digit-digit (suc (suc (suc (suc (suc (suc (suc (suc zero)))))))) h = refl
starts_digit-digit (suc (suc (suc (suc (suc (suc (suc (suc (suc zero))))))))) h = refl
starts_digit-digit (suc (suc (suc (suc (suc (suc (suc (suc (suc (suc n)))))))))) h =
    let absurd : ⊥ = omega (arith, h) in elim absurd [ ]

starts_digit-decimal_on : (k n : ℕ) → starts_digit (decimal_on k n) ≡ true
starts_digit-decimal_on zero n = starts_digit-digit (n % 10) (omega arith)
starts_digit-decimal_on (suc k) n = elim (Bool-cases (ltb n 10)) [
  | inl e ↦ rw e (starts_digit-digit n (ground arith))
  | inr e ↦ rw e (
      starts_digit-append (decimal_on k (n / 10)) (digit (n % 10))
        (starts_digit-decimal_on k (n / 10)))
]

read_number-digits : (s : String) → starts_digit s ≡ true → read_number s ≡ read_digits 0 s
unfolding read_number
read_number-digits [] h = cc h
read_number-digits (c ∷ s) h = refl

parse_int-digits :
    (s : String) → starts_digit s ≡ true → parse_int s ≡ non_negative (read_digits 0 s)
unfolding parse_int read_number
parse_int-digits [] h = cc h
parse_int-digits (c ∷ s) h = ground arith

-- The number that `%d` prints is read back.
pub read_number-decimal : (n : ℕ) → read_number (decimal n) ≡ some n
unfolding decimal
read_number-decimal n =
    read_number-digits (decimal n) (starts_digit-decimal_on n n)
    ∙ read_digits-decimal_on n n (omega arith)

pub parse_int-decimal : (n : ℕ) → n < 2 ^ 63 → parse_int (decimal n) ≡ some (pos n)
unfolding decimal
parse_int-decimal n h =
    parse_int-digits (decimal n) (starts_digit-decimal_on n n)
    ∙ ap non_negative (read_digits-decimal_on n n (omega arith))
    ∙ ground arith

pub decimal-injective : (n m : ℕ) → decimal n ≡ decimal m → n ≡ m
decimal-injective n m e =
    some-injective n m (sym (read_number-decimal n) ∙ ap read_number e ∙ read_number-decimal m)

-- `strings.HasSuffix(s, suffix)`
unfoldable pub has_suffix : String → String → Bool
has_suffix suffix [] = suffix == []
has_suffix suffix (c ∷ s) =
    let later = has_suffix suffix s in if suffix == (c ∷ s) then true else later

-- `strings.TrimSuffix(s, suffix)`
unfoldable pub trim_suffix : String → String → String
trim_suffix suffix [] = []
trim_suffix suffix (c ∷ s) =
    let rest = trim_suffix suffix s in if suffix == (c ∷ s) then [] else c ∷ rest

-- `strings.Split(s, sep)` for a separator of one character: the first part, and the others.
unfoldable pub split_parts : Char → String → String × List String
split_parts sep [] = ([], List.[])
split_parts sep (c ∷ s) =
    let (part, rest) = split_parts sep s in
    if eqb (code c) (code sep) then ([], List.◌∷◌ part rest) else (c ∷ part, rest)

unfoldable pub split : Char → String → List String
unfolding split_parts
split sep s = let (part, rest) = split_parts sep s in List.◌∷◌ part rest
