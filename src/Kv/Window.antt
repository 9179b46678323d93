-- ===== src/Kv/Window.antt =====
-- The window of a page (src/valkeyclient/valkeyclient.go: GetObjectsByPrefixWithSizeAndNs).
use mogenius_operator.Prelude.{
  ℕ, ◌+◌, ◌-◌, ◌≤◌, List, ◌≡◌, refl, sym, ap, ◌∙◌, arith, append, take, drop, length, leb, inl, inr,
  Bool-cases, In, All, subst,
}
use mogenius_operator.Prelude.Slices.{
  take_all, length-drop, drop-nil, take-nil, take-add, drop-add, In-take, In-drop, All-take,
  All-drop,
}
use mogenius_operator.Kv.Pages.{window}

module _ {A : Type 0} where
  -- The window is the slice from the offset on, cut at the limit.
  pub window_lem : (o l : ℕ) (xs : List A) → window o l xs ≡ take l (drop o xs)
  unfolding window
  window_lem o l xs = elim (Bool-cases (leb (length xs) o)) [
    | inl e ↦ rw e (sym (ap (take l) (drop-nil o xs (ground arith)) ∙ take-nil l))
    | inr e ↦ rw e (elim (Bool-cases (leb (o + l) (length xs))) [
      | inl f ↦ rw f (ap (λ (n : ℕ). take n (drop o xs)) (omega arith))
      | inr f ↦ rw f (
          take_all (length xs - o) (drop o xs) (omega (arith, length-drop o xs))
          ∙ sym (take_all l (drop o xs) (ground (arith, length-drop o xs))))
    ])
  ]

  -- The windows of two adjacent pages make up the window of both.
  pub window-add :
      (o a b : ℕ) (xs : List A) → window o (a + b) xs ≡ append (window o a xs) (window (o + a) b xs)
  window-add o a b xs =
      window_lem o (a + b) xs
      ∙ take-add a b (drop o xs)
      ∙ rw (window_lem o a xs, window_lem (o + a) b xs, drop-add o a xs) refl

  -- The first window holds everything where the limit is not below the length.
  pub whole_window : (l : ℕ) (xs : List A) → length xs ≤ l → window 0 l xs ≡ xs
  whole_window l xs h = window_lem 0 l xs ∙ take_all l xs h

  pub In-window : (o l : ℕ) (xs : List A) (a : A) → In a (window o l xs) → In a xs
  In-window o l xs a i =
      In-drop o xs a
        (In-take l (drop o xs) a (subst (λ (ys : List A). In a ys) (window_lem o l xs) i))

pub All-window {κ} :
    {A : Type 0} (P : A → Type κ) (o l : ℕ) (xs : List A) → All P xs → All P (window o l xs)
All-window P o l xs h = rw (window_lem o l xs) (All-take P l (drop o xs) (All-drop P o xs h))
