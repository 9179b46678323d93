-- ===== src/Prelude/Text.antt =====
-- Go's `strings` functions that the code uses, on native texts: Cut, SplitN and Join with a
-- separator of one character, Contains of an element, HasPrefix.
use Prim.Native.Char.{Char, code}
use Prim.Native.Nat.{ℕ, zero, suc}
use Prim.Native.String.{String, [], ◌∷◌, ◌++◌}
use mathlib.Core.Path.{◌≡◌, refl, sym, ap, ◌∙◌}
use mathlib.Core.Bool.{Bool, true, false, not, ◌&&◌, ◌||◌, and-false}
use mathlib.Core.Logic.{inl, inr}
use mathlib.Core.Option.{Option, none, some}
use mathlib.Core.List.{List}
use native.Mathlib.Omega.{arith}
use text.Mathlib.Text.{◌==◌}
use text.Mathlib.TextEquality.{Char-path, eq_iff}
use text.Mathlib.TextLemmas.{nil-append, cons-append}
use mogenius_operator.Prelude.Tests.{if◌then◌else◌, eqb, leb, Bool-cases}

abbrev put_front : Char → Option (String × String) → Option (String × String)
put_front c none = none
put_front c (some (before, after)) = some (c ∷ before, after)

-- `strings.Cut(s, sep)`: the text before and after the first separator, if there is one.
unfoldable pub cut : Char → String → Option (String × String)
cut sep [] = none
cut sep (c ∷ s) =
    let rest = put_front c (cut sep s) in if eqb (code c) (code sep) then some ([], s) else rest

-- `strings.SplitN(s, sep, n)`
abbrev split_rest : (String → List String) → String → Option (String × String) → List String
split_rest go s none = List.◌∷◌ s List.[]
split_rest go s (some (before, after)) = List.◌∷◌ before (go after)

unfoldable pub split_n : ℕ → Char → String → List String
unfolding cut
split_n zero sep s = List.[]
split_n (suc zero) sep s = List.◌∷◌ s List.[]
split_n (suc (suc n)) sep s = split_rest (split_n (suc n) sep) s (cut sep s)

-- `strings.Join(parts, sep)`
unfoldable pub join : Char → List String → String
join sep List.[] = []
join sep (List.◌∷◌ s List.[]) = s
join sep (List.◌∷◌ s (List.◌∷◌ t rest)) = s ++ (sep ∷ join sep (List.◌∷◌ t rest))

put_front-eq_some :
    (c : Char) (o : Option (String × String)) (a b : String)
    → put_front c o ≡ some (a, b)
    → (a' : String) × (a ≡ c ∷ a') × (o ≡ some (a', b))
put_front-eq_some c none a b h = cc
put_front-eq_some c (some (before, after)) a b h = (before, cc, cc)

eqb→Char : (c d : Char) → eqb (code c) (code d) ≡ true → c ≡ d
eqb→Char c d h = Char-path c d (ground arith)

pub cut-append : (sep : Char) (s a b : String) → cut sep s ≡ some (a, b) → a ++ (sep ∷ b) ≡ s
unfolding cut
cut-append sep [] a b h = cc
cut-append sep (c ∷ s) a b h = elim (Bool-cases (eqb (code c) (code sep))) [
  | inl e ↦
      let same : Path (Option (String × String)) (some ([], s)) (some (a, b)) = rw e at h in
      let p : a ≡ [] = cc same in
      let q : b ≡ s = cc same in
      rw (p, q) (nil-append (sep ∷ s) ∙ ap (λ x. x ∷ s) (sym (eqb→Char c sep e)))
  | inr e ↦
      let (a', p, q) = put_front-eq_some c (cut sep s) a b (rw e at h) in
      rw p (cons-append c a' (sep ∷ b) ∙ ap (λ x. c ∷ x) (cut-append sep s a' b q))
]

split_rest-cons :
    (go : String → List String) (s : String) (o : Option (String × String))
    → (x : String) × (xs : List String) × (split_rest go s o ≡ List.◌∷◌ x xs)
split_rest-cons go s none = (s, List.[], refl)
split_rest-cons go s (some (before, after)) = (before, go after, refl)

split_n-cons :
    (n : ℕ) (sep : Char) (s : String)
    → (x : String) × (xs : List String) × (split_n (suc n) sep s ≡ List.◌∷◌ x xs)
unfolding split_n
split_n-cons zero sep s = (s, List.[], refl)
split_n-cons (suc n) sep s = split_rest-cons (split_n (suc n) sep) s (cut sep s)

join-cons :
    (sep : Char) (s : String) (l : List String) (x : String) (xs : List String)
    → l ≡ List.◌∷◌ x xs
    → join sep (List.◌∷◌ s l) ≡ s ++ (sep ∷ join sep l)
unfolding join
join-cons sep s l x xs e = rw e refl

join-split_rest :
    (go : String → List String) (sep : Char) (s : String) (o : Option (String × String))
    → cut sep s ≡ o
    → ((t : String) → (x : String) × (xs : List String) × (go t ≡ List.◌∷◌ x xs))
    → ((t : String) → join sep (go t) ≡ t)
    → join sep (split_rest go s o) ≡ s
unfolding join
join-split_rest go sep s none e c ih = refl
join-split_rest go sep s (some (before, after)) e c ih =
    let (x, xs, q) = c after in
    join-cons sep before (go after) x xs q
    ∙ ap (λ (t : String). before ++ (sep ∷ t)) (ih after)
    ∙ cut-append sep s before after e

-- Splitting never loses text: the parts, joined, are the text again.
pub join-split_n : (n : ℕ) (sep : Char) (s : String) → join sep (split_n (suc n) sep s) ≡ s
unfolding split_n join
join-split_n zero sep s = refl
join-split_n (suc n) sep s =
    join-split_rest (split_n (suc n) sep) sep s (cut sep s) refl (split_n-cons n sep)
      (join-split_n n sep)

-- `strings.HasPrefix(s, prefix)`
unfoldable pub has_prefix : String → String → Bool
has_prefix [] s = true
has_prefix (c ∷ p) [] = false
has_prefix (c ∷ p) (d ∷ s) = eqb (code c) (code d) && has_prefix p s

-- The texts differ at a place that both have.
unfoldable pub mismatch : String → String → Bool
mismatch [] q = false
mismatch (c ∷ p) [] = false
mismatch (c ∷ p) (d ∷ q) = not (eqb (code c) (code d)) || mismatch p q

pub has_prefix-mismatch : (p q s : String) → mismatch p q ≡ true → has_prefix p (q ++ s) ≡ false
unfolding has_prefix mismatch
has_prefix-mismatch [] q s h = cc
has_prefix-mismatch (c ∷ p) [] s h = cc
has_prefix-mismatch (c ∷ p) (d ∷ q) s h =
    rw (cons-append d q s) (ground (arith, has_prefix-mismatch p q s))

pub has_prefix-append : (p q s : String) → has_prefix p q ≡ true → has_prefix p (q ++ s) ≡ true
unfolding has_prefix
has_prefix-append [] q s h = refl
has_prefix-append (c ∷ p) [] s h = cc h
has_prefix-append (c ∷ p) (d ∷ q) s h =
    rw (cons-append d q s) (ground (arith, has_prefix-append p q s))

-- Two keys, one of them of another bucket.
pub ne_of_prefix :
    (p k j : String) → has_prefix p k ≡ true → has_prefix p j ≡ false → (j == k) ≡ false
ne_of_prefix p k j h g = elim (Bool-cases (j == k)) [
  | inl e ↦ cc (h, g, ap (has_prefix p) ((eq_iff j k).0 e))
  | inr e ↦ e
]

-- `unicode.IsSpace`
unfoldable pub is_space : Char → Bool
is_space c =
    let n = code c in
    leb 9 n && leb n 13
    || eqb n 32
    || eqb n 0x85
    || eqb n 0xa0
    || eqb n 0x1680
    || leb 0x2000 n && leb n 0x200a
    || eqb n 0x2028
    || eqb n 0x2029
    || eqb n 0x202f
    || eqb n 0x205f
    || eqb n 0x3000

abbrev is_nil : String → Bool
is_nil [] = true
is_nil (_ ∷ _) = false

unfoldable pub trim_left : String → String
unfolding is_space
trim_left [] = []
trim_left (c ∷ s) = let rest = trim_left s in if is_space c then rest else c ∷ s

unfoldable pub trim_right : String → String
unfolding is_space
trim_right [] = []
trim_right (c ∷ s) = let rest = trim_right s in if is_nil rest && is_space c then [] else c ∷ rest

-- `strings.TrimSpace`
unfoldable pub trim_space : String → String
unfolding trim_left trim_right
trim_space s = trim_right (trim_left s)

-- `strings.TrimSuffix(s, "/")`
unfoldable pub trim_slash : String → String
trim_slash [] = []
trim_slash (c ∷ s) = let rest = trim_slash s in if is_nil s && eqb (code c) 47 then [] else c ∷ rest

trim_right_twice : (s : String) → trim_right (trim_right s) ≡ trim_right s
unfolding trim_right
trim_right_twice [] = refl
trim_right_twice (c ∷ s) = elim (Bool-cases (is_nil (trim_right s) && is_space c)) [
  | inl e ↦ rw e refl
  | inr e ↦ rw e (rw (trim_right_twice s) (rw e refl))
]

trim_left-trim_right :
    (s : String) → trim_left (trim_right (trim_left s)) ≡ trim_right (trim_left s)
unfolding trim_left trim_right
trim_left-trim_right [] = refl
trim_left-trim_right (c ∷ s) = elim (Bool-cases (is_space c)) [
  | inl e ↦ rw e (trim_left-trim_right s)
  | inr e ↦ rw e (rw (e, and-false (is_nil (trim_right s))) (rw e refl))
]

pub trim_space_twice : (s : String) → trim_space (trim_space s) ≡ trim_space s
unfolding trim_space
trim_space_twice s = ap trim_right (trim_left-trim_right s) ∙ trim_right_twice (trim_left s)

-- A switch takes the case of one literal only.
pub switch_ne : (s a b : String) → (a == b) ≡ false → (s == a) ≡ true → (s == b) ≡ false
switch_ne s a b d e = rw ((eq_iff s a).0 e) d
