-- ===== src/Prelude/Decimal.antt =====
-- `%d`: a natural number in decimal digits.
use Prim.Native.Nat.{ℕ, zero, suc, ◌/◌, ◌%◌, ◌≤◌}
use Prim.Native.String.{String, ◌++◌}
use mathlib.Core.Path.{◌≡◌, refl, ap}
use mathlib.Core.Logic.{inl, inr}
use native.Mathlib.Omega.{arith}
use mogenius_operator.Prelude.Tests.{eqb, ltb, if◌then◌else◌, Bool-cases}

abbrev pub digit : ℕ → String
digit n =
    if eqb n 0
    then "0"
    else if eqb n 1
    then "1"
    else if eqb n 2
    then "2"
    else if eqb n 3
    then "3"
    else if eqb n 4
    then "4"
    else if eqb n 5
    then "5"
    else if eqb n 6
    then "6"
    else if eqb n 7
    then "7"
    else if eqb n 8
    then "8"
    else "9"

-- The digits, on fuel.
abbrev pub decimal_on : ℕ → ℕ → String
decimal_on zero n = digit (n % 10)
decimal_on (suc k) n =
    let higher = decimal_on k (n / 10) in if ltb n 10 then digit n else higher ++ digit (n % 10)

unfoldable pub decimal : ℕ → String
decimal n = decimal_on n n

-- More fuel than the number changes nothing.
pub decimal_fuel : (k n : ℕ) → n ≤ k → decimal_on (suc k) n ≡ decimal_on k n
decimal_fuel zero n h = ground arith
decimal_fuel (suc k) n h = elim (Bool-cases (ltb n 10)) [
  | inl e ↦ rw e refl
  | inr e ↦ rw e (ap (λ s. s ++ digit (n % 10)) (decimal_fuel k (n / 10) (ground arith)))
]
