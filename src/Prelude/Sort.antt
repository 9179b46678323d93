-- ===== src/Prelude/Sort.antt =====
-- `sort.Slice(xs, less)` for a strict order on a key: insertion sort. Elements that compare as
-- equal keep their order here; `sort.Slice` promises no order for them.
use mathlib.Core.Path.{◌≡◌, refl, sym}
use mathlib.Core.Bool.{Bool, true, false}
use mathlib.Core.Option.{some, some-injective}
use mathlib.Core.List.{List, [], ◌∷◌}
use native.Mathlib.Omega.{arith}
use Prim.Native.Nat.{ℕ, suc, ◌≤◌}
use mathlib.Core.Logic.{◌⊎◌, inl, inr}
use mogenius_operator.Prelude.Tests.{if◌then◌else◌, Bool-cases}
use mogenius_operator.Prelude.Lists.{All, All-of, In, first, length}

module _ {ℓ} {A : Type ℓ} (less : A → A → Bool) where
  unfoldable pub insert_sorted : A → List A → List A
  insert_sorted a [] = a ∷ []
  insert_sorted a (x ∷ xs) = if less x a then x ∷ insert_sorted a xs else a ∷ x ∷ xs

  unfoldable pub sort : List A → List A
  unfolding insert_sorted
  sort [] = []
  sort (x ∷ xs) = insert_sorted x (sort xs)

  -- No element stands behind one that it is less than.
  abbrev pub IsSorted : List A → Type ℓ
  IsSorted [] = Unit
  IsSorted (x ∷ xs) = All (λ y. less y x ≡ false) xs × IsSorted xs

  pub length-insert_sorted : (a : A) (xs : List A) → length (insert_sorted a xs) ≡ suc (length xs)
  unfolding insert_sorted
  length-insert_sorted a [] = refl
  length-insert_sorted a (x ∷ xs) = ground (arith, length-insert_sorted a xs)

  pub length-sort : (xs : List A) → length (sort xs) ≡ length xs
  unfolding sort
  length-sort [] = refl
  length-sort (x ∷ xs) = rw length-insert_sorted (ground (arith, length-sort xs))

-- Sorting keeps the elements.
module _ {A : Type 0} (less : A → A → Bool) where
  pub In-insert_sorted :
      (a : A) (xs : List A) (b : A) → In b (insert_sorted less a xs) → (b ≡ a) ⊎ In b xs
  unfolding insert_sorted
  In-insert_sorted a [] b m = m
  In-insert_sorted a (x ∷ xs) b m = elim (Bool-cases (less x a)) [
    | inl e ↦
        let m' : (b ≡ x) ⊎ In b (insert_sorted less a xs) = rw e at m in
        elim m' [
          | inl q ↦ inr (inl q)
          | inr i ↦ elim (In-insert_sorted a xs b i) [ inl q ↦ inl q | inr j ↦ inr (inr j) ]
        ]
    | inr e ↦ rw e at m
  ]

  insert_sorted-In :
      (a : A) (xs : List A) (b : A) → (b ≡ a) ⊎ In b xs → In b (insert_sorted less a xs)
  unfolding insert_sorted
  insert_sorted-In a [] b m = m
  insert_sorted-In a (x ∷ xs) b m = elim (Bool-cases (less x a)) [
    | inl e ↦ rw e (elim m [
      | inl q ↦ inr (insert_sorted-In a xs b (inl q))
      | inr i ↦ elim i [ inl q ↦ inl q | inr j ↦ inr (insert_sorted-In a xs b (inr j)) ]
    ])
    | inr e ↦ rw e m
  ]

  pub In-sort : (xs : List A) (b : A) → In b (sort less xs) → In b xs
  unfolding sort
  In-sort [] b m = m
  In-sort (x ∷ xs) b m = elim (In-insert_sorted x (sort less xs) b m) [
    | inl q ↦ inl q
    | inr i ↦ inr (In-sort xs b i)
  ]

  pub sort-In : (xs : List A) (b : A) → In b xs → In b (sort less xs)
  unfolding sort
  sort-In [] b m = m
  sort-In (x ∷ xs) b (inl q) = insert_sorted-In x (sort less xs) b (inl q)
  sort-In (x ∷ xs) b (inr i) = insert_sorted-In x (sort less xs) b (inr (sort-In xs b i))

  -- Where the order follows a key, the list that `sort` returns has its keys in order.
  module _ (key : A → ℕ) (below : (a b : A) → less a b ≡ true → key a ≤ key b)
      (above : (a b : A) → less a b ≡ false → key b ≤ key a) where
    abbrev pub KeySorted : List A → Type 0
    KeySorted [] = Unit
    KeySorted (x ∷ xs) = ((a : A) → In a xs → key x ≤ key a) × KeySorted xs

    insert_sorted-KeySorted :
        (a : A) (xs : List A) → KeySorted xs → KeySorted (insert_sorted less a xs)
    unfolding insert_sorted
    insert_sorted-KeySorted a [] h = (λ b m. elim m [ ], tt)
    insert_sorted-KeySorted a (x ∷ xs) h = elim (Bool-cases (less x a)) [
      | inl e ↦ rw e (
        λ b m. elim (In-insert_sorted a xs b m) [ inl q ↦ rw q (below x a e) | inr i ↦ h.0 b i ],
        insert_sorted-KeySorted a xs h.1,
      )
      | inr e ↦ rw e (
        λ b m. elim m [ inl q ↦ rw q (above x a e) | inr i ↦ omega (arith, above x a e, h.0 b i) ],
        h,
      )
    ]

    pub sort-KeySorted : (xs : List A) → KeySorted (sort less xs)
    unfolding sort
    sort-KeySorted [] = tt
    sort-KeySorted (x ∷ xs) = insert_sorted-KeySorted x (sort less xs) (sort-KeySorted xs)

    least : (l : List A) (m : A) → KeySorted l → first l ≡ some m → (a : A) → In a l → key m ≤ key a
    least [] m h q a i = elim i [ ]
    least (x ∷ xs) m h q a (inl e) = rw (e, some-injective x m q) (omega arith)
    least (x ∷ xs) m h q a (inr i) = rw (← some-injective x m q) (h.0 a i)

    pub first-sort-least :
        (xs : List A) (m : A) → first (sort less xs) ≡ some m → (a : A) → In a xs → key m ≤ key a
    first-sort-least xs m q a i = least (sort less xs) m (sort-KeySorted xs) q a (sort-In xs a i)

-- The keys of a list are in order.
abbrev pub InOrder : {A : Type 0} → (A → ℕ) → List A → Type 0
InOrder key [] = Unit
InOrder key (x ∷ xs) = All (λ a. key x ≤ key a) xs × InOrder key xs

module _ {A : Type 0} (less : A → A → Bool) (key : A → ℕ)
    (below : (a b : A) → less a b ≡ true → key a ≤ key b)
    (above : (a b : A) → less a b ≡ false → key b ≤ key a) where
  in_order : (xs : List A) → KeySorted less key below above xs → InOrder key xs
  in_order [] h = tt
  in_order (x ∷ xs) h = (All-of (λ a. key x ≤ key a) xs h.0, in_order xs h.1)

  pub sort-InOrder : (xs : List A) → InOrder key (sort less xs)
  sort-InOrder xs = in_order (sort less xs) (sort-KeySorted less key below above xs)

pub first-In : {A : Type 0} (l : List A) (m : A) → first l ≡ some m → In m l
first-In [] m q = cc
first-In (x ∷ xs) m q = inl (sym (some-injective x m q))
