-- ===== src/Search/Ranked.antt =====
-- The order of the members of a page (src/store/store.go: sortRankedMembers).
use Prim.Native.Char.{code}
use Prim.Native.String.{[], ◌∷◌}
use mogenius_operator.Prelude.{
  ℕ, String, Bool, true, false, not, ◌≡◌, refl, sym, ap, ◌∙◌, arith, ◌⊎◌, ◌==◌, if◌then◌else◌, eqb,
  ltb, Bool-cases, inl, inr, eq_iff,
}
use mogenius_operator.Prelude.Merged.{Splits}
use mogenius_operator.Prelude.Numbers.{text_less}
use mogenius_operator.Search.Merge.{precedes, ranked_less}

ltb-splits : (a b c : ℕ) → ltb a b ≡ true → (ltb a c ≡ true) ⊎ (ltb c b ≡ true)
ltb-splits a b c h = elim (Bool-cases (ltb a c)) [
  | inl e ↦ inl e
  | inr e ↦ inr (ground (arith, h, e))
]

text_less-Splits : Splits text_less
unfolding text_less
text_less-Splits a [] c h = cc h
text_less-Splits [] (d ∷ b) [] h = inr refl
text_less-Splits [] (d ∷ b) (e ∷ c) h = inl refl
text_less-Splits (x ∷ a) (d ∷ b) [] h = inr refl
text_less-Splits (x ∷ a) (d ∷ b) (e ∷ c) h = elim (Bool-cases (ltb (code x) (code e))) [
  | inl p ↦ inl (rw p refl)
  | inr p ↦ elim (Bool-cases (ltb (code e) (code d))) [
    | inl q ↦ inr (rw q refl)
    | inr q ↦ elim (Bool-cases (ltb (code x) (code d))) [
      | inl u ↦ let absurd : ⊥ = ground (arith, p, q, u) in elim absurd [ ]
      | inr u ↦ elim (Bool-cases (eqb (code x) (code d))) [
        | inl v ↦
            let xe : eqb (code x) (code e) ≡ true = ground (arith, p, q, u, v) in
            let ed : eqb (code e) (code d) ≡ true = ground (arith, p, q, u, v) in
            let rest : text_less a b ≡ true = rw u at rw v at h in
            elim (text_less-Splits a b c rest) [
              | inl w ↦ inl (rw p (rw xe w))
              | inr w ↦ inr (rw q (rw ed w))
            ]
        | inr v ↦ let absurd : false ≡ true = rw u at rw v at h in cc absurd
      ]
    ]
  ]
]

irreflexive : (a : String) → text_less a a ≡ false
unfolding text_less
irreflexive [] = refl
irreflexive (c ∷ a) = elim (Bool-cases (ltb (code c) (code c))) [
  | inl e ↦ let absurd : ⊥ = ground (arith, e) in elim absurd [ ]
  | inr e ↦ rw e (elim (Bool-cases (eqb (code c) (code c))) [
    | inl f ↦ rw f (irreflexive a)
    | inr f ↦ rw f refl
  ])
]

precedes-Splits : (desc : Bool) → Splits (precedes desc)
precedes-Splits true y x z h = elim (text_less-Splits x y z h) [ inl e ↦ inr e | inr e ↦ inl e ]
precedes-Splits false y x z h = text_less-Splits y x z h

precedes_self : (desc : Bool) (a : String) → precedes desc a a ≡ false
precedes_self true a = irreflexive a
precedes_self false a = irreflexive a

-- The test of equal names changes nothing.
unequal :
    (desc : Bool) (a b : String) → (if a == b then false else precedes desc a b) ≡ precedes desc a b
unequal desc a b = elim (Bool-cases (a == b)) [
  | inl e ↦
      rw e (
        sym (precedes_self desc b)
        ∙ ap (λ (s : String). precedes desc s b) (sym ((eq_iff a b).0 e)))
  | inr e ↦ rw e refl
]

-- Scores in a direction, and names where they are equal.
abbrev by_score : Bool → ℕ → String → ℕ → String → Bool
by_score desc m a n b = if eqb m n then precedes desc a b else if desc then ltb n m else ltb m n

beyond :
    (desc : Bool) (m n o : ℕ) (a b : String)
    → by_score desc m a n b ≡ true
    → eqb m o ≡ false
    → (if desc then ltb o m else ltb m o) ≡ false
    → (if desc then ltb n o else ltb o n) ≡ true
beyond true m n o a b h p u = elim (Bool-cases (eqb m n)) [
  | inl e ↦ ground (arith, e, p, u)
  | inr e ↦ let below : ltb n m ≡ true = rw e at h in ground (arith, below, p, u)
]
beyond false m n o a b h p u = elim (Bool-cases (eqb m n)) [
  | inl e ↦ ground (arith, e, p, u)
  | inr e ↦ let below : ltb m n ≡ true = rw e at h in ground (arith, below, p, u)
]

outside :
    (desc : Bool) (m n o : ℕ) (a b : String)
    → by_score desc m a n b ≡ true
    → eqb m o ≡ false
    → (if desc then ltb o m else ltb m o) ≡ false
    → eqb o n ≡ false
outside true m n o a b h p u =
    let after : ltb n o ≡ true = beyond true m n o a b h p u in ground (arith, after)
outside false m n o a b h p u =
    let after : ltb o n ≡ true = beyond false m n o a b h p u in ground (arith, after)

by_score-splits :
    (desc : Bool) (m n o : ℕ) (a b c : String)
    → by_score desc m a n b ≡ true
    → (by_score desc m a o c ≡ true) ⊎ (by_score desc o c n b ≡ true)
by_score-splits true m n o a b c h = elim (Bool-cases (eqb m o)) [
  | inl p ↦ elim (Bool-cases (eqb o n)) [
    | inl q ↦
        let mn : eqb m n ≡ true = ground (arith, p, q) in
        let names : precedes true a b ≡ true = rw mn at h in
        elim (precedes-Splits true a b c names) [ inl u ↦ inl (rw p u) | inr u ↦ inr (rw q u) ]
    | inr q ↦
        let mn : eqb m n ≡ false = ground (arith, p, q) in
        let below : ltb n m ≡ true = rw mn at h in
        let after : ltb n o ≡ true = ground (arith, p, below) in inr (rw q after)
  ]
  | inr p ↦ elim (Bool-cases (ltb o m)) [
    | inl u ↦ inl (rw p u)
    | inr u ↦
        let apart : eqb o n ≡ false = outside true m n o a b h p u in
        let after : ltb n o ≡ true = beyond true m n o a b h p u in inr (rw apart after)
  ]
]
by_score-splits false m n o a b c h = elim (Bool-cases (eqb m o)) [
  | inl p ↦ elim (Bool-cases (eqb o n)) [
    | inl q ↦
        let mn : eqb m n ≡ true = ground (arith, p, q) in
        let names : precedes false a b ≡ true = rw mn at h in
        elim (precedes-Splits false a b c names) [ inl u ↦ inl (rw p u) | inr u ↦ inr (rw q u) ]
    | inr q ↦
        let mn : eqb m n ≡ false = ground (arith, p, q) in
        let below : ltb m n ≡ true = rw mn at h in
        let after : ltb o n ≡ true = ground (arith, p, below) in inr (rw q after)
  ]
  | inr p ↦ elim (Bool-cases (ltb m o)) [
    | inl u ↦ inl (rw p u)
    | inr u ↦
        let apart : eqb o n ≡ false = outside false m n o a b h p u in
        let after : ltb o n ≡ true = beyond false m n o a b h p u in inr (rw apart after)
  ]
]

-- What is between two members is above the one or below the other.
pub ranked_less-Splits :
    (use_name_sort : Bool) (sort_order : String) → Splits (ranked_less use_name_sort sort_order)
unfolding ranked_less
ranked_less-Splits true order y x z h =
    let desc = order == "desc" in
    elim (precedes-Splits desc y.member x.member z.member
      (sym (unequal desc y.member x.member) ∙ h)) [
        | inl e ↦ inl (unequal desc y.member z.member ∙ e)
        | inr e ↦ inr (unequal desc z.member x.member ∙ e)
      ]
ranked_less-Splits false order y x z h =
    by_score-splits (not (order == "asc")) y.score x.score z.score y.member x.member z.member h
