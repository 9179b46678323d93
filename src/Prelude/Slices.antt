-- ===== src/Prelude/Slices.antt =====
-- Slices of a list: what `take` and `drop` keep.
use Prim.Native.Nat.{ℕ, zero, suc, ◌+◌, ◌-◌, ◌≤◌}
use mathlib.Core.Path.{◌≡◌, refl, sym, ap, ◌∙◌}
use mathlib.Core.Logic.{inl, inr}
use mathlib.Core.List.{List, [], ◌∷◌}
use native.Mathlib.Omega.{arith}
use mogenius_operator.Prelude.Lists.{append, take, drop, length, In, All}

pub suc-add : (a b : ℕ) → suc a + b ≡ suc (a + b)
suc-add a b = omega arith

module _ {A : Type 0} where
  pub take_all : (n : ℕ) (xs : List A) → length xs ≤ n → take n xs ≡ xs
  take_all zero [] h = refl
  take_all zero (x ∷ xs) h = let absurd : ⊥ = omega (arith, h) in elim absurd [ ]
  take_all (suc n) [] h = refl
  take_all (suc n) (x ∷ xs) h = ap (λ (l : List A). x ∷ l) (take_all n xs (omega (arith, h)))

  pub length-drop : (n : ℕ) (xs : List A) → length (drop n xs) ≡ length xs - n
  length-drop zero xs = omega arith
  length-drop (suc n) [] = omega arith
  length-drop (suc n) (x ∷ xs) = omega (arith, length-drop n xs)

  pub drop-nil : (n : ℕ) (xs : List A) → length xs ≤ n → drop n xs ≡ []
  drop-nil zero [] h = refl
  drop-nil zero (x ∷ xs) h = let absurd : ⊥ = omega (arith, h) in elim absurd [ ]
  drop-nil (suc n) [] h = refl
  drop-nil (suc n) (x ∷ xs) h = drop-nil n xs (omega (arith, h))

  pub take-nil : (n : ℕ) → Path (List A) (take n []) []
  take-nil zero = refl
  take-nil (suc n) = refl

  pub drop_nil_lem : (n : ℕ) → Path (List A) (drop n []) []
  drop_nil_lem zero = refl
  drop_nil_lem (suc n) = refl

  pub take-add : (a b : ℕ) (xs : List A) → take (a + b) xs ≡ append (take a xs) (take b (drop a xs))
  take-add zero b xs = ap (λ (n : ℕ). take n xs) (omega arith)
  take-add (suc a) b [] = take-nil (suc a + b) ∙ sym (take-nil b)
  take-add (suc a) b (x ∷ xs) =
      ap (λ (n : ℕ). take n (x ∷ xs)) (suc-add a b) ∙ ap (λ (l : List A). x ∷ l) (take-add a b xs)

  pub drop-add : (a b : ℕ) (xs : List A) → drop (a + b) xs ≡ drop b (drop a xs)
  drop-add zero b xs = ap (λ (n : ℕ). drop n xs) (omega arith)
  drop-add (suc a) b [] = drop_nil_lem (suc a + b) ∙ sym (drop_nil_lem b)
  drop-add (suc a) b (x ∷ xs) = ap (λ (n : ℕ). drop n (x ∷ xs)) (suc-add a b) ∙ drop-add a b xs

  pub append-take : (n : ℕ) (xs : List A) → append (take n xs) (drop n xs) ≡ xs
  append-take zero xs = refl
  append-take (suc n) [] = refl
  append-take (suc n) (x ∷ xs) = ap (λ (l : List A). x ∷ l) (append-take n xs)

  pub In-take : (n : ℕ) (xs : List A) (a : A) → In a (take n xs) → In a xs
  In-take zero xs a i = elim i [ ]
  In-take (suc n) [] a i = elim i [ ]
  In-take (suc n) (x ∷ xs) a (inl e) = inl e
  In-take (suc n) (x ∷ xs) a (inr i) = inr (In-take n xs a i)

  pub In-drop : (n : ℕ) (xs : List A) (a : A) → In a (drop n xs) → In a xs
  In-drop zero xs a i = i
  In-drop (suc n) [] a i = elim i [ ]
  In-drop (suc n) (x ∷ xs) a i = inr (In-drop n xs a i)

module _ {κ} {A : Type 0} (P : A → Type κ) where
  pub All-take : (n : ℕ) (xs : List A) → All P xs → All P (take n xs)
  All-take zero xs h = tt
  All-take (suc n) [] h = tt
  All-take (suc n) (x ∷ xs) h = (h.0, All-take n xs h.1)

  pub All-drop : (n : ℕ) (xs : List A) → All P xs → All P (drop n xs)
  All-drop zero xs h = h
  All-drop (suc n) [] h = tt
  All-drop (suc n) (x ∷ xs) h = All-drop n xs h.1
