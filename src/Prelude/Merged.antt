-- ===== src/Prelude/Merged.antt =====
-- The first elements of a sort, and those of its sorted parts.
use Prim.Native.Nat.{ℕ, zero, suc, ◌≤◌}
use mathlib.Core.Path.{◌≡◌, refl, sym, ap, ◌∙◌}
use mathlib.Core.Bool.{Bool, true, false}
use mathlib.Core.Logic.{◌⊎◌, inl, inr}
use mathlib.Core.List.{List, [], ◌∷◌}
use native.Mathlib.Omega.{arith}
use mogenius_operator.Prelude.Tests.{if◌then◌else◌, Bool-cases}
use mogenius_operator.Prelude.Lists.{append, take}
use mogenius_operator.Prelude.Slices.{All-take}
use mogenius_operator.Prelude.Sort.{sort, insert_sorted, IsSorted}

-- What is between two elements is above the one or below the other.
abbrev pub Splits : {A : Type 0} → (A → A → Bool) → Type 0
Splits {A = A} less = (y x z : A) → less y x ≡ true → (less y z ≡ true) ⊎ (less z x ≡ true)

module _ {A : Type 0} (less : A → A → Bool) where
  -- The elements of a list, inserted into a sorted one.
  unfoldable insert_all : List A → List A → List A
  insert_all [] l = l
  insert_all (x ∷ xs) l = insert_sorted less x (insert_all xs l)

  sort-append : (xs ys : List A) → sort less (append xs ys) ≡ insert_all xs (sort less ys)
  unfolding sort insert_all
  sort-append [] ys = refl
  sort-append (x ∷ xs) ys = ap (insert_sorted less x) (sort-append xs ys)

  take-take : (k j : ℕ) (xs : List A) → k ≤ j → take k (take j xs) ≡ take k xs
  take-take zero j xs h = refl
  take-take (suc k) zero xs h = let absurd : ⊥ = omega (arith, h) in elim absurd [ ]
  take-take (suc k) (suc j) [] h = refl
  take-take (suc k) (suc j) (x ∷ xs) h =
      ap (λ (l : List A). x ∷ l) (take-take k j xs (omega (arith, h)))

  insert_sorted-take :
      (k : ℕ) (a : A) (l : List A)
      → take k (insert_sorted less a (take k l)) ≡ take k (insert_sorted less a l)
  unfolding insert_sorted
  insert_sorted-take zero a l = refl
  insert_sorted-take (suc k) a [] = refl
  insert_sorted-take (suc k) a (x ∷ xs) = elim (Bool-cases (less x a)) [
    | inl e ↦ rw e (ap (λ (l : List A). x ∷ l) (insert_sorted-take k a xs))
    | inr e ↦ rw e (ap (λ (l : List A). a ∷ l) (take-take k (suc k) (x ∷ xs) (omega arith)))
  ]

  insert_all-take :
      (k : ℕ) (xs l m : List A)
      → take k l ≡ take k m
      → take k (insert_all xs l) ≡ take k (insert_all xs m)
  unfolding insert_all
  insert_all-take k [] l m e = e
  insert_all-take k (x ∷ xs) l m e =
      sym (insert_sorted-take k x (insert_all xs l))
      ∙ ap (λ (n : List A). take k (insert_sorted less x n)) (insert_all-take k xs l m e)
      ∙ insert_sorted-take k x (insert_all xs m)

  insert_all-nil : (xs : List A) → IsSorted less xs → insert_all xs [] ≡ xs
  unfolding insert_all insert_sorted
  insert_all-nil [] h = refl
  insert_all-nil (x ∷ []) h = refl
  insert_all-nil (x ∷ y ∷ xs) h = rw (insert_all-nil (y ∷ xs) h.1) (rw h.0.0 refl)

  module _ (splits : Splits less) where
    -- The insertion of a sorted list is a merge.
    insert_all-cons :
        (x : A) (xs : List A) (y : A) (ys : List A)
        → IsSorted less (x ∷ xs)
        → insert_all (x ∷ xs) (y ∷ ys)
          ≡ (if less y x then y ∷ insert_all (x ∷ xs) ys else x ∷ insert_all xs (y ∷ ys))
    unfolding insert_all insert_sorted
    insert_all-cons x [] y ys h = refl
    insert_all-cons x (z ∷ zs) y ys h =
        rw (insert_all-cons z zs y ys h.1) (elim (Bool-cases (less y x)) [
          | inl e ↦
              rw e (elim (splits y x z e) [ inl f ↦ rw f (rw e refl) | inr f ↦ cc (f, h.0.0) ])
          | inr e ↦ rw e (elim (Bool-cases (less y z)) [
            | inl f ↦ rw f (rw e refl)
            | inr f ↦ rw f (rw h.0.0 refl)
          ])
        ])

    take-IsSorted : (j : ℕ) (xs : List A) → IsSorted less xs → IsSorted less (take j xs)
    take-IsSorted zero xs h = tt
    take-IsSorted (suc j) [] h = tt
    take-IsSorted (suc j) (x ∷ xs) h =
        (All-take (λ y. less y x ≡ false) j xs h.0, take-IsSorted j xs h.1)

    heads :
        (k : ℕ) (y x : A) (p q r t : List A) (b : Bool)
        → take k p ≡ take k q
        → take k r ≡ take k t
        → take (suc k) (if b then y ∷ p else x ∷ r) ≡ take (suc k) (if b then y ∷ q else x ∷ t)
    heads k y x p q r t true e f = ap (λ (l : List A). y ∷ l) e
    heads k y x p q r t false e f = ap (λ (l : List A). x ∷ l) f

    insert_all-prefix :
        (k j : ℕ) (xs l : List A)
        → k ≤ j
        → IsSorted less xs
        → take k (insert_all (take j xs) l) ≡ take k (insert_all xs l)
    unfolding insert_all
    insert_all-prefix zero j xs l h s = refl
    insert_all-prefix (suc k) zero xs l h s = let absurd : ⊥ = omega (arith, h) in elim absurd [ ]
    insert_all-prefix (suc k) (suc j) [] l h s = refl
    insert_all-prefix (suc k) (suc j) (x ∷ xs) [] h s =
        ap (take (suc k))
          (insert_all-nil (take (suc j) (x ∷ xs)) (take-IsSorted (suc j) (x ∷ xs) s))
        ∙ take-take (suc k) (suc j) (x ∷ xs) h
        ∙ sym (ap (take (suc k)) (insert_all-nil (x ∷ xs) s))
    insert_all-prefix (suc k) (suc j) (x ∷ xs) (y ∷ ys) h s =
        ap (take (suc k)) (insert_all-cons x (take j xs) y ys (take-IsSorted (suc j) (x ∷ xs) s))
        ∙ heads k y x (insert_all (take (suc j) (x ∷ xs)) ys) (insert_all (x ∷ xs) ys)
            (insert_all (take j xs) (y ∷ ys)) (insert_all xs (y ∷ ys)) (less y x)
            (insert_all-prefix k (suc j) (x ∷ xs) ys (omega (arith, h)) s)
            (insert_all-prefix k j xs (y ∷ ys) (omega (arith, h)) s.1)
        ∙ sym (ap (take (suc k)) (insert_all-cons x xs y ys s))

    -- Of a sorted part of a list its first `k` elements are enough for the first `k` of the sort.
    pub sort-prefix :
        (k : ℕ) (xs ys zs : List A)
        → IsSorted less xs
        → take k (sort less ys) ≡ take k (sort less zs)
        → take k (sort less (append (take k xs) ys)) ≡ take k (sort less (append xs zs))
    sort-prefix k xs ys zs s e =
        ap (take k) (sort-append (take k xs) ys)
        ∙ insert_all-prefix k k xs (sort less ys) (omega arith) s
        ∙ insert_all-take k xs (sort less ys) (sort less zs) e
        ∙ sym (ap (take k) (sort-append xs zs))
