-- ===== src/Kv/Batches.antt =====
-- The fuel of the key's stripping (src/valkeyclient/valkeyclient.go: createKey).
use Prim.Native.String.{[], ◌∷◌}
use mogenius_operator.Prelude.{
  List, ℕ, zero, suc, ◌≤◌, ◌<◌, String, true, false, ◌≡◌, ◌≢◌, refl, arith, ◌==◌, Bool-cases, inl,
  inr, eq_iff, subst,
}
use mogenius_operator.Prelude.Affixes.{has_suffix, trim_suffix}
use mogenius_operator.Prelude.Text.{join}
use mogenius_operator.Kv.Pages.{create_key, strip_wildcards, size}

-- Taking off a suffix makes a text shorter.
size-trim_suffix : (p s : String) → p ≢ [] → has_suffix p s ≡ true → size (trim_suffix p s) < size s
unfolding has_suffix trim_suffix size
size-trim_suffix p [] n h = elim (n ((eq_iff p []).0 h)) [ ]
size-trim_suffix p (c ∷ s) n h = elim (Bool-cases (p == (c ∷ s))) [
  | inl e ↦ rw e (omega arith)
  | inr e ↦ rw e (omega (arith, size-trim_suffix p s n (rw e at h)))
]

has_suffix-shorter : (s : String) → has_suffix ":*:*" s ≡ true → has_suffix ":*" s ≡ true
unfolding has_suffix
has_suffix-shorter [] h = cc h
has_suffix-shorter (c ∷ s) h = elim (Bool-cases (":*:*" == (c ∷ s))) [
  | inl e ↦ subst (λ (t : String). has_suffix ":*" t ≡ true) ((eq_iff ":*:*" (c ∷ s)).0 e) refl
  | inr e ↦ elim (Bool-cases (":*" == (c ∷ s))) [
    | inl f ↦ rw f refl
    | inr f ↦ rw f (has_suffix-shorter s (rw e at h))
  ]
]

stripped :
    (fuel : ℕ) (key : String)
    → size key ≤ fuel
    → has_suffix ":*:*" (strip_wildcards fuel key) ≡ false
unfolding strip_wildcards has_suffix size
stripped zero [] h = refl
stripped zero (c ∷ s) h = let absurd : ⊥ = omega (arith, h) in elim absurd [ ]
stripped (suc fuel) key h = elim (Bool-cases (has_suffix ":*:*" key)) [
  | inl e ↦ rw e (
      stripped fuel (trim_suffix ":*" key)
        (omega (arith, h, size-trim_suffix ":*" key (λ q. cc q) (has_suffix-shorter key e))))
  | inr e ↦ rw e e
]

-- A key that createKey builds does not end in ":*:*": the loop has run to its end.
pub create_key-stripped : (parts : List String) → has_suffix ":*:*" (create_key parts) ≡ false
unfolding create_key
create_key-stripped parts = stripped (size (join ":" parts)) (join ":" parts) (omega arith)
