-- ===== src/Prelude/Members.antt =====
-- Membership in the lists that the loops build, and lists without duplicates.
use mathlib.Core.Path.{sym, subst}
use Prim.Native.Nat.{ℕ, zero, suc}
use mathlib.Core.Logic.{◌⊎◌, inl, inr}
use mathlib.Core.Bool.{Bool}
use mogenius_operator.Prelude.Tests.{Bool-cases}
use mogenius_operator.Prelude.Slices.{In-drop}
use mathlib.Core.List.{List, [], ◌∷◌}
use mogenius_operator.Prelude.Lists.{
  take, drop, append, filter_by, In, All, All-In, All-of, In-filter_by,
}
use mogenius_operator.Prelude.Sort.{sort, insert_sorted, In-sort, In-insert_sorted}

module _ {A : Type 0} where
  pub append-In : (xs ys : List A) (a : A) → In a xs ⊎ In a ys → In a (append xs ys)
  append-In [] ys a (inl i) = elim i [ ]
  append-In [] ys a (inr i) = i
  append-In (x ∷ xs) ys a (inl (inl e)) = inl e
  append-In (x ∷ xs) ys a (inl (inr i)) = inr (append-In xs ys a (inl i))
  append-In (x ∷ xs) ys a (inr i) = inr (append-In xs ys a (inr i))

  pub In-append : (xs ys : List A) (a : A) → In a (append xs ys) → In a xs ⊎ In a ys
  In-append [] ys a i = inr i
  In-append (x ∷ xs) ys a (inl e) = inl (inl e)
  In-append (x ∷ xs) ys a (inr i) = elim (In-append xs ys a i) [
    | inl j ↦ inl (inr j)
    | inr j ↦ inr j
  ]

  -- No element stands twice.
  abbrev pub Distinct : List A → Type 0
  Distinct [] = Unit
  Distinct (x ∷ xs) = (In x xs → ⊥) × Distinct xs

  pub Distinct-append :
      (xs : List A) (a : A) → Distinct xs → (In a xs → ⊥) → Distinct (append xs (a ∷ []))
  Distinct-append [] a d n = (λ i. i, tt)
  Distinct-append (x ∷ xs) a d n = (
    λ i. elim (In-append xs (a ∷ []) x i) [
      | inl j ↦ d.0 j
      | inr j ↦ elim j [ inl e ↦ n (inl (sym e)) | inr k ↦ k ]
    ],
    Distinct-append xs a d.1 (λ i. n (inr i)),
  )

  pub Distinct-drop : (k : ℕ) (xs : List A) → Distinct xs → Distinct (drop k xs)
  Distinct-drop zero xs d = d
  Distinct-drop (suc k) [] d = d
  Distinct-drop (suc k) (x ∷ xs) d = Distinct-drop k xs d.1

  -- No element stands before a place and behind it.
  pub before_ne_behind :
      (k : ℕ) (xs : List A) (a : A) → Distinct xs → In a (take k xs) → In a (drop k xs) → ⊥
  before_ne_behind zero xs a d i j = elim i [ ]
  before_ne_behind (suc k) [] a d i j = elim i [ ]
  before_ne_behind (suc k) (x ∷ xs) a d (inl e) j =
      d.0 (In-drop k xs x (subst (λ (y : A). In y (drop k xs)) e j))
  before_ne_behind (suc k) (x ∷ xs) a d (inr i) j = before_ne_behind k xs a d.1 i j

  module _ (less : A → A → Bool) where
    Distinct-insert_sorted :
        (a : A) (xs : List A) → (In a xs → ⊥) → Distinct xs → Distinct (insert_sorted less a xs)
    unfolding insert_sorted
    Distinct-insert_sorted a [] n d = (n, d)
    Distinct-insert_sorted a (x ∷ xs) n d = elim (Bool-cases (less x a)) [
      | inl e ↦ rw e (
        λ i. elim (In-insert_sorted less a xs x i) [ inl q ↦ n (inl (sym q)) | inr j ↦ d.0 j ],
        Distinct-insert_sorted a xs (λ i. n (inr i)) d.1,
      )
      | inr e ↦ rw e (n, d)
    ]

    pub Distinct-sort : (xs : List A) → Distinct xs → Distinct (sort less xs)
    unfolding sort
    Distinct-sort [] d = d
    Distinct-sort (x ∷ xs) d =
        Distinct-insert_sorted x (sort less xs) (λ i. d.0 (In-sort less xs x i))
          (Distinct-sort xs d.1)

module _ {κ} {A : Type 0} (P : A → Type κ) where
  pub All-filter_by : (p : A → Bool) (xs : List A) → All P xs → All P (filter_by p xs)
  All-filter_by p xs h =
      All-of P (filter_by p xs) (λ a i. All-In P xs h a (In-filter_by p xs a i).0)

  pub All-sort : (less : A → A → Bool) (xs : List A) → All P xs → All P (sort less xs)
  All-sort less xs h = All-of P (sort less xs) (λ a i. All-In P xs h a (In-sort less xs a i))
