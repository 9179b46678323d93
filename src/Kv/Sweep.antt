-- ===== src/Kv/Sweep.antt =====
-- Which numbered entries a sweep deletes (src/valkeyclient/valkeyclient.go,
-- SetObjectWithAutoincrementLimit).
use mogenius_operator.Prelude.{
  ℕ, zero, suc, ◌-◌, ◌≤◌, List, [], ◌∷◌, ◌≡◌, ◌∙◌, arith, leb, length, take, drop, All, In, ◌⊎◌,
  Bool-cases, inl, inr, String, refl, sym, ap, ◌==◌, subst,
}
use mogenius_operator.Prelude.Sort.{sort, InOrder, sort-InOrder, length-sort, In-sort}
use mogenius_operator.Prelude.Slices.{length-drop, All-drop, In-drop, In-take}
use mogenius_operator.Prelude.Members.{Distinct, Distinct-drop, Distinct-sort, before_ne_behind}
use mogenius_operator.Prelude.Numbers.{ℤ, pos, negsuc}
use mogenius_operator.Kv.Append.{
  counter_key, with_number, numerics, extract_number, Numbered, lower_number, surplus,
}

-- In an ordered list what stands before a place is at most what stands behind.
below_rest :
    (k : ℕ) (xs : List Numbered) (x : Numbered)
    → InOrder (λ (e : Numbered). e.n) xs
    → In x (take k xs)
    → All (λ (e : Numbered). x.n ≤ e.n) (drop k xs)
below_rest zero xs x h m = elim m [ ]
below_rest (suc k) [] x h m = elim m [ ]
below_rest (suc k) (y ∷ xs) x h (inl e) = rw e (All-drop (λ (z : Numbered). y.n ≤ z.n) k xs h.0)
below_rest (suc k) (y ∷ xs) x h (inr m) = below_rest k xs x h.1 m

-- The entries that a sweep leaves, which are as many as the limit, each numbered at least as high
-- as the deleted one.
pub record Newer (limit : ℕ) (numbers : List Numbered) (x : Numbered) : Type 0 where
  pub left : List Numbered
  pub found : (e : Numbered) → In e left → In e numbers
  pub full : length left ≡ limit
  pub newer : All (λ (e : Numbered). x.n ≤ e.n) left
  pub distinct : Distinct numbers → Distinct left
  pub unswept : Distinct numbers → (e : Numbered) → In e left → In e (surplus limit numbers) → ⊥

-- An entry that a sweep deletes has a number that is not above those of as many entries as the limit
-- allows, which the sweep leaves.
pub surplus-Newer :
    (limit : ℕ) (numbers : List Numbered) (x : Numbered)
    → In x (surplus limit numbers)
    → Newer limit numbers x
unfolding surplus
surplus-Newer limit numbers x m = elim (Bool-cases (leb (length numbers) limit)) [
  | inl e ↦ let none_ : ⊥ = rw e at m in elim none_ [ ]
  | inr e ↦
      let sorted = sort lower_number numbers in
      let k = length numbers - limit in
      record {
        left = drop k sorted;
        found = λ y i. In-sort lower_number numbers y (In-drop k sorted y i);
        full = length-drop k sorted ∙ ground (arith, e, length-sort lower_number numbers);
        newer =
            below_rest k sorted x
              (sort-InOrder lower_number (λ (y : Numbered). y.n) (λ a b h. ground arith)
                (λ a b h. ground arith) numbers)
              (rw e at m);
        distinct = λ d. Distinct-drop k sorted (Distinct-sort lower_number numbers d);
        unswept = λ d y i j.
            before_ne_behind k sorted y (Distinct-sort lower_number numbers d) (rw e at j) i;
      }
]

pub surplus-In :
    (limit : ℕ) (numbers : List Numbered) (x : Numbered)
    → In x (surplus limit numbers)
    → In x numbers
unfolding surplus
surplus-In limit numbers x i = elim (Bool-cases (leb (length numbers) limit)) [
  | inl e ↦ let none_ : ⊥ = rw e at i in elim none_ [ ]
  | inr e ↦
      In-sort lower_number numbers x
        (In-take (length numbers - limit) (sort lower_number numbers) x (rw e at i))
]

-- The numbered entries of a scan: each has its key among those scanned, and the number in it.
module _ (base_key : String) where
  with_number-In :
      (k : String) (z : ℤ) (rest : List Numbered) (y : Numbered)
      → In y (with_number k z rest)
      → ((y.key ≡ k) × (z ≡ pos y.n)) ⊎ In y rest
  with_number-In k (pos zero) rest y i = inr i
  with_number-In k (pos (suc n)) rest y (inl e) =
      inl (ap (λ (x : Numbered). x.key) e, sym (ap (λ (x : Numbered). pos x.n) e))
  with_number-In k (pos (suc n)) rest y (inr i) = inr i
  with_number-In k (negsuc n) rest y i = inr i

  pub numerics-In :
      (keys : List String) (y : Numbered)
      → In y (numerics base_key keys)
      → In y.key keys × (extract_number y.key base_key ≡ pos y.n)
  unfolding numerics
  numerics-In [] y i = elim i [ ]
  numerics-In (k ∷ keys) y i = elim (Bool-cases (k == counter_key base_key)) [
    | inl e ↦ let (j, q) = numerics-In keys y (rw e at i) in (inr j, q)
    | inr e ↦
        elim (with_number-In k (extract_number k base_key) (numerics base_key keys) y (rw e at i)) [
          | inl (p, q) ↦ (inl p, ap (λ (x : String). extract_number x base_key) p ∙ q)
          | inr j ↦ let (l, q) = numerics-In keys y j in (inr l, q)
        ]
  ]

  with_number-Distinct :
      (k : String) (z : ℤ) (rest : List Numbered)
      → ((y : Numbered) → In y rest → y.key ≡ k → ⊥)
      → Distinct rest
      → Distinct (with_number k z rest)
  with_number-Distinct k (pos zero) rest n d = d
  with_number-Distinct k (pos (suc m)) rest n d = (λ i. n (record { key = k; n = suc m }) i refl, d)
  with_number-Distinct k (negsuc m) rest n d = d

  pub numerics-Distinct : (keys : List String) → Distinct keys → Distinct (numerics base_key keys)
  unfolding numerics
  numerics-Distinct [] d = tt
  numerics-Distinct (k ∷ keys) d = elim (Bool-cases (k == counter_key base_key)) [
    | inl e ↦ rw e (numerics-Distinct keys d.1)
    | inr e ↦ rw e (
        with_number-Distinct k (extract_number k base_key) (numerics base_key keys)
          (λ y i p. d.0 (subst (λ (x : String). In x keys) p (numerics-In keys y i).0))
          (numerics-Distinct keys d.1))
  ]
