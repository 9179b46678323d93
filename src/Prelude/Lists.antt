-- ===== src/Prelude/Lists.antt =====
-- Lists with lengths in the native numbers, and the loops over slices that the code writes.
use Prim.Native.Nat.{ℕ, zero, suc, ◌+◌, ◌≤◌}
use Prim.Native.String.{String}
use mathlib.Core.Path.{◌≡◌, refl, sym, subst}
use mathlib.Core.Logic.{◌⊎◌, inl, inr}
use mathlib.Core.Bool.{Bool, true, false, ◌||◌}
use mathlib.Core.Option.{Option, none, some, some-injective}
use mathlib.Core.List.{List, [], ◌∷◌, ◌++◌}
use native.Mathlib.Omega.{arith}
use text.Mathlib.Text.{◌==◌}
use text.Mathlib.TextEquality.{eq_iff}
use mogenius_operator.Prelude.Tests.{if◌then◌else◌, Bool-cases}

module _ {ℓ} {A : Type ℓ} where
  abbrev pub length : List A → ℕ
  length [] = 0
  length (_ ∷ xs) = suc (length xs)

  abbrev pub take : ℕ → List A → List A
  take zero xs = []
  take (suc n) [] = []
  take (suc n) (x ∷ xs) = x ∷ take n xs

  abbrev pub drop : ℕ → List A → List A
  drop zero xs = xs
  drop (suc n) [] = []
  drop (suc n) (x ∷ xs) = drop n xs

  -- `append(xs, x)`
  abbrev pub snoc : List A → A → List A
  snoc [] a = a ∷ []
  snoc (x ∷ xs) a = x ∷ snoc xs a

  abbrev pub append : List A → List A → List A
  append [] ys = ys
  append (x ∷ xs) ys = x ∷ append xs ys

  -- `xs[0]`, if there is one
  abbrev pub first : List A → Option A
  first [] = none
  first (x ∷ _) = some x

  -- `len(xs) == 0`
  abbrev pub is_empty : List A → Bool
  is_empty [] = true
  is_empty (_ ∷ _) = false

  -- `for … { if p(x) { filtered = append(filtered, x) } }`
  abbrev pub filter_by : (A → Bool) → List A → List A
  filter_by p [] = []
  filter_by p (x ∷ xs) = let rest = filter_by p xs in if p x then x ∷ rest else rest

  -- `for … { if p(x) { return true } }; return false`
  abbrev pub any : (A → Bool) → List A → Bool
  any p [] = false
  any p (x ∷ xs) = p x || any p xs

  -- `for … { if p(x) { return &x } }; return nil`
  abbrev pub find_first : (A → Bool) → List A → Option A
  find_first p [] = none
  find_first p (x ∷ xs) = let rest = find_first p xs in if p x then some x else rest

  abbrev pub All {κ} : (A → Type κ) → List A → Type κ
  All P [] = Unit
  All P (x ∷ xs) = P x × All P xs

  pub length-append : (xs ys : List A) → length (xs ++ ys) ≡ length xs + length ys
  length-append [] ys = omega arith
  length-append (x ∷ xs) ys = omega (arith, length-append xs ys)

  pub length-filter_by-le : (p : A → Bool) (xs : List A) → length (filter_by p xs) ≤ length xs
  length-filter_by-le p [] = omega arith
  length-filter_by-le p (x ∷ xs) = ground (arith, length-filter_by-le p xs)

module _ {A : Type 0} where
  -- Membership as a type that computes and keeps its witness.
  abbrev pub In : A → List A → Type 0
  In a [] = ⊥
  In a (x ∷ xs) = (a ≡ x) ⊎ In a xs

  pub All-In {κ} : (P : A → Type κ) (xs : List A) → All P xs → (a : A) → In a xs → P a
  All-In P [] h a m = elim m [ ]
  All-In P (x ∷ xs) h a (inl e) = rw e h.0
  All-In P (x ∷ xs) h a (inr m) = All-In P xs h.1 a m

  pub All-append {κ} :
      (P : A → Type κ) (xs ys : List A) → All P xs → All P ys → All P (append xs ys)
  All-append P [] ys h k = k
  All-append P (x ∷ xs) ys h k = (h.0, All-append P xs ys h.1 k)

  pub All-of {κ} : (P : A → Type κ) (xs : List A) → ((a : A) → In a xs → P a) → All P xs
  All-of P [] h = tt
  All-of P (x ∷ xs) h = (h x (inl refl), All-of P xs (λ a m. h a (inr m)))

  kept :
      (p : A → Bool) (x : A) (xs : List A) (a : A)
      → p x ≡ true
      → (In a (filter_by p xs) → In a xs × (p a ≡ true))
      → (a ≡ x) ⊎ In a (filter_by p xs)
      → In a (x ∷ xs) × (p a ≡ true)
  kept p x xs a e ih (inl q) = (inl q, rw q e)
  kept p x xs a e ih (inr i) = let (j, q) = ih i in (inr j, q)

  -- Every kept element passes the test and was in the list.
  pub In-filter_by :
      (p : A → Bool) (xs : List A) (a : A) → In a (filter_by p xs) → In a xs × (p a ≡ true)
  In-filter_by p [] a m = elim m [ ]
  In-filter_by p (x ∷ xs) a m = elim (Bool-cases (p x)) [
    | inl e ↦ kept p x xs a e (In-filter_by p xs a) (rw e at m)
    | inr e ↦ let (i, q) = In-filter_by p xs a (rw e at m) in (inr i, q)
  ]

  -- Every element that passes the test is kept.
  pub filter_by-In :
      (p : A → Bool) (xs : List A) (a : A) → In a xs → p a ≡ true → In a (filter_by p xs)
  filter_by-In p [] a m q = elim m [ ]
  filter_by-In p (x ∷ xs) a (inl e) q = rw (rw e at q) (inl e)
  filter_by-In p (x ∷ xs) a (inr m) q = elim (Bool-cases (p x)) [
    | inl e ↦ rw e (inr (filter_by-In p xs a m q))
    | inr e ↦ rw e (filter_by-In p xs a m q)
  ]

-- The element that a search returns is in the list and passes the test.
pub find_first-eq_some :
    {A : Type 0} (p : A → Bool) (xs : List A) (a : A)
    → find_first p xs ≡ some a
    → In a xs × (p a ≡ true)
find_first-eq_some p [] a h = cc
find_first-eq_some p (x ∷ xs) a h = elim (Bool-cases (p x)) [
  | inl e ↦
      let q : x ≡ a = some-injective x a (rw e at h) in (inl (sym q), subst (λ y. p y ≡ true) q e)
  | inr e ↦ let (i, q) = find_first-eq_some p xs a (rw e at h) in (inr i, q)
]

-- A search that finds nothing has refused every element.
pub find_first-eq_none :
    {A : Type 0} (p : A → Bool) (xs : List A) (a : A)
    → find_first p xs ≡ none
    → In a xs
    → p a ≡ false
find_first-eq_none p [] a h m = elim m [ ]
find_first-eq_none p (x ∷ xs) a h (inl e) = rw e (ground arith)
find_first-eq_none p (x ∷ xs) a h (inr m) = elim (Bool-cases (p x)) [
  | inl e ↦ cc (e, h)
  | inr e ↦ find_first-eq_none p xs a (rw e at h) m
]

pub any-In :
    {A : Type 0} (p : A → Bool) (xs : List A) (a : A) → any p xs ≡ false → In a xs → p a ≡ false
any-In p [] a h m = elim m [ ]
any-In p (x ∷ xs) a h (inl e) = rw e (ground arith)
any-In p (x ∷ xs) a h (inr m) = any-In p xs a (ground arith) m

-- `slices.Contains`
abbrev pub contains : List String → String → Bool
contains [] s = false
contains (x ∷ xs) s = x == s || contains xs s

pub contains→In : (xs : List String) (s : String) → contains xs s ≡ true → In s xs
contains→In [] s h = cc
contains→In (x ∷ xs) s h = elim (Bool-cases (x == s)) [
  | inl e ↦ let q : x ≡ s = (eq_iff x s).0 e in inl (rw q refl)
  | inr e ↦ inr (contains→In xs s (rw e at h))
]

pub In→contains : (xs : List String) (s : String) → In s xs → contains xs s ≡ true
In→contains [] s m = elim m [ ]
In→contains (x ∷ xs) s (inl e) = rw ((eq_iff x s).1 (rw e refl)) refl
In→contains (x ∷ xs) s (inr m) = ground (arith, In→contains xs s m)
