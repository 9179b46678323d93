-- ===== src/Agent/RunKey.antt =====
-- src/ai/agents.go: agentRunKeyPattern, the timestamp in the key of a run.
use Prim.Native.Char.{Char, code}
use Prim.Native.String.{[], ◌∷◌}
use mogenius_operator.Prelude.{
  ℕ, ◌+◌, ◌-◌, ◌*◌, ◌^◌, String, Bool, true, false, ◌&&◌, Option, none, some, if◌then◌else◌, eqb,
  leb, ltb, ◌≡◌, refl,
}

abbrev is_digit : Char → Bool
is_digit c = leb 48 (code c) && leb (code c) 57

-- `-f\d+$`, after its first digit.
abbrev digits_end : String → Bool
digits_end [] = true
digits_end (c ∷ s) = is_digit c && digits_end s

abbrev some_digits : String → Bool
some_digits [] = false
some_digits (c ∷ s) = is_digit c && digits_end s

-- `(?:-f\d+)?$`
abbrev finding_end : String → Bool
finding_end [] = true
finding_end (c ∷ []) = false
finding_end (c ∷ d ∷ s) = eqb (code c) 45 && eqb (code d) 102 && some_digits s

-- `\d+`, then the end; the number read so far stands first.
abbrev number_end : ℕ → String → Option ℕ
number_end n [] = some n
number_end n (c ∷ s) =
    let more = number_end (10 * n + (code c - 48)) s in
    if is_digit c then more else if finding_end (c ∷ s) then some n else none

abbrev number_start : String → Option ℕ
number_start [] = none
number_start (c ∷ s) = if is_digit c then number_end (code c - 48) s else none

abbrev after_prefix : String → String → Option String
after_prefix [] s = some s
after_prefix (c ∷ p) [] = none
after_prefix (c ∷ p) (d ∷ s) =
    let rest = after_prefix p s in if eqb (code c) (code d) then rest else none

abbrev number_after : Option String → Option ℕ
number_after none = none
number_after (some s) = number_start s

abbrev or_else : Option ℕ → Option ℕ → Option ℕ
or_else none o = o
or_else (some n) o = some n

-- agentRunKeyPattern, `-run-(\d+)(?:-f\d+)?$`: its leftmost match.
abbrev leftmost : String → Option ℕ
leftmost [] = none
leftmost (c ∷ s) =
    let later = leftmost s in or_else (number_after (after_prefix "-run-" (c ∷ s))) later

-- A number beyond int64 is an error of strconv.ParseInt.
abbrev in_int64 : Option ℕ → Option ℕ
in_int64 none = none
in_int64 (some n) = if ltb n (2 ^ 63) then some n else none

unfoldable pub run_timestamp : String → Option ℕ
run_timestamp key = in_int64 (leftmost key)

parsed : run_timestamp "ai_tasks:Agent:a-run-1:b-run-1700-f2" ≡ some 1700
unfolding run_timestamp
parsed = refl
