-- ===== src/Kv/Deleted.antt =====
-- Deletion in batches against deletion one by one (src/valkeyclient/valkeyclient.go: deleteKeys).
use mogenius_operator.Prelude.{
  ℕ, zero, suc, ◌+◌, ◌≤◌, String, Bool, true, false, List, [], ◌∷◌, ◌≡◌, refl, sym, ap, ◌∙◌, arith,
  append, take, drop, length, subst, Bool-cases, inl, inr,
}
use mogenius_operator.Prelude.Slices.{append-take, length-drop}
use mogenius_operator.Kv.Scan.{
  Deleted, chunks, count_deleted, after_batch, delete_chunks, delete_keys,
}

-- The count over two lists, one after the other: the second counts where the first has no error.
abbrev then_count : ℕ × Bool → ℕ × Bool → ℕ × Bool
then_count (n, true) later = (n, true)
then_count (n, false) (m, failed) = (n + m, failed)

-- One deletion, before the others.
abbrev one_more : Bool → ℕ × Bool → ℕ × Bool
one_more true later = (0, true)
one_more false (n, failed) = (suc n, failed)

one_more-then :
    (b : Bool) (r s : ℕ × Bool) → one_more b (then_count r s) ≡ then_count (one_more b r) s
one_more-then true r s = refl
one_more-then false (n, true) s = refl
one_more-then false (n, false) (m, failed) = ap (λ (k : ℕ). (k, failed)) (omega arith)

module _ (fails : String → Bool) where
  count_deleted-cons :
      (key : String) (keys : List String)
      → count_deleted fails (key ∷ keys) ≡ one_more (fails key) (count_deleted fails keys)
  unfolding count_deleted
  count_deleted-cons key keys = elim (Bool-cases (fails key)) [
    | inl e ↦ rw e refl
    | inr e ↦ rw e refl
  ]

  count_deleted-append :
      (xs ys : List String)
      → count_deleted fails (append xs ys)
        ≡ then_count (count_deleted fails xs) (count_deleted fails ys)
  unfolding count_deleted
  count_deleted-append [] ys = ap (λ (k : ℕ). (k, (count_deleted fails ys).1)) (omega arith)
  count_deleted-append (x ∷ xs) ys =
      count_deleted-cons x (append xs ys)
      ∙ ap (one_more (fails x)) (count_deleted-append xs ys)
      ∙ one_more-then (fails x) (count_deleted fails xs) (count_deleted fails ys)
      ∙ ap (λ (r : ℕ × Bool). then_count r (count_deleted fails ys)) (sym (count_deleted-cons x xs))

  -- The count and the error are those of the keys one by one; the keys sent are the first of them,
  -- all where there is no error.
  pub record OneByOne (keys : List String) (d : Deleted) : Type 0 where
    pub counts : (d.deleted, d.failed) ≡ count_deleted fails keys
    pub unsent : List String
    pub sent_first : append d.sent unsent ≡ keys
    pub sends_all : d.failed ≡ false → d.sent ≡ keys

  append-assoc_lem : (xs ys zs : List String) → append (append xs ys) zs ≡ append xs (append ys zs)
  append-assoc_lem [] ys zs = refl
  append-assoc_lem (x ∷ xs) ys zs = ap (λ (l : List String). x ∷ l) (append-assoc_lem xs ys zs)

  batch-OneByOne :
      (first rest : List String) (d : Deleted) (r : ℕ × Bool)
      → count_deleted fails first ≡ r
      → OneByOne rest d
      → OneByOne (append first rest) (after_batch first r d)
  batch-OneByOne first rest d (n, true) e h = record {
    counts = sym (count_deleted-append first rest ∙ rw e refl);
    unsent = rest;
    sent_first = refl;
    sends_all = λ q. cc q;
  }
  batch-OneByOne first rest d (n, false) e h = record {
    counts =
        ap (then_count (n, false)) h.counts ∙ sym (count_deleted-append first rest ∙ rw e refl);
    unsent = h.unsent;
    sent_first = append-assoc_lem first d.sent h.unsent ∙ ap (append first) h.sent_first;
    sends_all = λ q. ap (append first) (h.sends_all q);
  }

  nothing_left : OneByOne [] (record { sent = []; deleted = 0; failed = false })
  unfolding count_deleted
  nothing_left = record { counts = refl; unsent = []; sent_first = refl; sends_all = λ q. refl }

  -- The batches of a size that is not zero make up the keys.
  chunks-OneByOne :
      (fuel size : ℕ) (keys : List String)
      → length keys ≤ fuel
      → OneByOne keys (delete_chunks fails (chunks fuel (suc size) keys))
  unfolding chunks delete_chunks
  chunks-OneByOne zero size [] l = nothing_left
  chunks-OneByOne zero size (x ∷ xs) l = let absurd : ⊥ = omega (arith, l) in elim absurd [ ]
  chunks-OneByOne (suc fuel) size [] l = nothing_left
  chunks-OneByOne (suc fuel) size (x ∷ xs) l =
      let first = x ∷ take size xs in
      let rest = drop size xs in
      let later = chunks-OneByOne fuel size rest (omega (arith, l, length-drop size xs)) in
      let whole : append first rest ≡ x ∷ xs =
        ap (λ (l : List String). x ∷ l) (append-take size xs) in
      subst
        (λ (keys : List String). OneByOne keys (
          after_batch first (count_deleted fails first)
            (delete_chunks fails (chunks fuel (suc size) rest))))
        whole
        (batch-OneByOne first rest (delete_chunks fails (chunks fuel (suc size) rest))
          (count_deleted fails first) refl later)

  -- The batches of 500 make up all keys: deleteKeys returns the count and the error that a deletion
  -- of the keys one by one gives, which ends at the first error. What it has sent is the first of
  -- the keys, and all of them where there is no error.
  pub delete_keys-OneByOne : (keys : List String) → OneByOne keys (delete_keys fails keys)
  unfolding delete_keys
  delete_keys-OneByOne keys = chunks-OneByOne (length keys) 499 keys (omega arith)
