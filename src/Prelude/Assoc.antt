-- ===== src/Prelude/Assoc.antt =====
-- Go's `map[string]V` as an association list: a write replaces the entry of its key.
use Prim.Native.String.{String}
use mathlib.Core.Path.{◌≡◌, refl, subst}
use mathlib.Core.Logic.{inl, inr}
use mathlib.Core.Bool.{Bool, true, false}
use mathlib.Core.Option.{Option, none, some, some-injective}
use mathlib.Core.List.{List, [], ◌∷◌}
use native.Mathlib.Omega.{arith}
use text.Mathlib.Text.{◌==◌}
use text.Mathlib.TextEquality.{eq_iff}
use mogenius_operator.Prelude.Tests.{if◌then◌else◌, Bool-cases}
use mogenius_operator.Prelude.Lists.{All}

abbrev pub Assoc {ℓ} : Type ℓ → Type ℓ
Assoc V = List (String × V)

-- `v, ok := m[key]`
unfoldable pub lookup {ℓ} : {V : Type ℓ} → String → Assoc V → Option V
lookup key [] = none
lookup key (entry ∷ rest) =
    let later = lookup key rest in if entry.0 == key then some entry.1 else later

-- `m[key] = value`
unfoldable pub insert {ℓ} : {V : Type ℓ} → String → V → Assoc V → Assoc V
insert key value [] = (key, value) ∷ []
insert key value (entry ∷ rest) =
    let kept = entry ∷ insert key value rest in if entry.0 == key then (key, value) ∷ rest else kept

-- `delete(m, key)`
unfoldable pub remove {ℓ} : {V : Type ℓ} → String → Assoc V → Assoc V
remove key [] = []
remove key (entry ∷ rest) =
    let others = remove key rest in if entry.0 == key then others else entry ∷ others

module _ {ℓ} {V : Type ℓ} (key other : String) where
  pub lookup-insert :
      (value : V) (m : Assoc V)
      → lookup other (insert key value m) ≡ (if key == other then some value else lookup other m)
  unfolding lookup insert
  lookup-insert value [] = refl
  lookup-insert value (entry ∷ rest) =
      ground (
        arith,
        lookup-insert value rest,
        eq_iff entry.0 key,
        eq_iff entry.0 other,
        eq_iff key other,
      )

  pub lookup-remove :
      (m : Assoc V) → lookup other (remove key m) ≡ (if key == other then none else lookup other m)
  unfolding lookup remove
  lookup-remove [] = ground arith
  lookup-remove (entry ∷ rest) =
      ground (arith, eq_iff entry.0 other, lookup-remove rest, eq_iff key other, eq_iff entry.0 key)

-- `m[k]` of a `map[string]bool`: false where the key is missing.
abbrev or_false : Option Bool → Bool
or_false none = false
or_false (some b) = b

unfoldable pub has : String → Assoc Bool → Bool
has k m = or_false (lookup k m)

pub has-insert :
    (k j : String) (m : Assoc Bool) → has j (insert k true m) ≡ (if k == j then true else has j m)
unfolding has
has-insert k j m = ground (arith, lookup-insert k j true m)

module _ {ℓ κ} {V : Type ℓ} (P : String × V → Type κ) where
  -- A write keeps what holds of every entry, when it holds of the new one.
  pub All-insert :
      (key : String) (value : V) (m : Assoc V)
      → P (key, value)
      → All P m
      → All P (insert key value m)
  unfolding insert
  All-insert key value [] p h = (p, tt)
  All-insert key value (entry ∷ rest) p h = elim (Bool-cases (entry.0 == key)) [
    | inl e ↦ rw e (p, h.1)
    | inr e ↦ rw e (h.0, All-insert key value rest p h.1)
  ]

  pub lookup-All :
      (key : String) (value : V) (m : Assoc V)
      → All P m
      → lookup key m ≡ some value
      → P (key, value)
  unfolding lookup
  lookup-All key value [] h e = cc
  lookup-All key value (entry ∷ rest) h e = elim (Bool-cases (entry.0 == key)) [
    | inl q ↦
        let same : entry.1 ≡ value = some-injective entry.1 value (rw q at e) in
        subst (λ (k : String). P (k, value)) ((eq_iff entry.0 key).0 q)
          (subst (λ (v : V). P (entry.0, v)) same h.0)
    | inr q ↦ lookup-All key value rest h.1 (rw q at e)
  ]
