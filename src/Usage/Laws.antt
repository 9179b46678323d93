-- ===== src/Usage/Laws.antt =====
-- What the snapshot of a day holds (aggregateTokenUsage, src/ai/aimanager.go).
use mogenius_operator.Prelude.{
  ℕ, ◌+◌, String, Bool, false, ◌&&◌, List, [], ◌∷◌, ◌==◌, ◌≡◌, arith, if◌then◌else◌, eq_iff,
  Bool-cases, inl, inr,
}
use mogenius_operator.Prelude.Assoc.{Assoc, lookup, insert, lookup-insert}
use mogenius_operator.Usage.{
  UsedToken, TokenUsageSnapshot, counts, book, book_model, used_of, aggregate_from,
  aggregate_token_usage, no_usage,
}

-- The tokens of the entries that a test selects.
unfoldable pub tokens_where : (UsedToken → Bool) → List UsedToken → ℕ
tokens_where p [] = 0
tokens_where p (e ∷ entries) =
    let rest = tokens_where p entries in if p e then e.tokens_used + rest else rest

-- An entry of the day, and one of the day booked on a model.
abbrev pub is_of_model : ℕ → String → UsedToken → Bool
is_of_model start_of_day m e = counts start_of_day e && e.model_ref == m

used-insert :
    (k m : String) (n : ℕ) (per_model : Assoc ℕ)
    → used_of m (insert k n per_model) ≡ (if k == m then n else used_of m per_model)
unfolding used_of
used-insert k m n per_model = ground (arith, lookup-insert k m n per_model)

used-book :
    (m : String) (e : UsedToken) (per_model : Assoc ℕ)
    → (m == "") ≡ false
    → used_of m (book_model e per_model)
      ≡ (if e.model_ref == m then used_of m per_model + e.tokens_used else used_of m per_model)
used-book m e per_model h = ground (
  arith,
  used-insert e.model_ref m (used_of e.model_ref per_model + e.tokens_used) per_model,
  eq_iff e.model_ref m,
  eq_iff e.model_ref "",
  eq_iff m "",
)

used-aggregate_from :
    (start_of_day : ℕ) (m : String) (s : TokenUsageSnapshot) (entries : List UsedToken)
    → (m == "") ≡ false
    → used_of m (aggregate_from start_of_day s entries).per_model
      ≡ used_of m s.per_model + tokens_where (is_of_model start_of_day m) entries
unfolding aggregate_from tokens_where
used-aggregate_from d m s [] h = omega arith
used-aggregate_from d m s (e ∷ entries) h = elim (Bool-cases (counts d e)) [
  | inl c ↦
      ground (arith, used-aggregate_from d m (book e s) entries h, used-book m e s.per_model h)
  | inr c ↦ ground (arith, used-aggregate_from d m s entries h)
]

total-aggregate_from :
    (start_of_day : ℕ) (s : TokenUsageSnapshot) (entries : List UsedToken)
    → (aggregate_from start_of_day s entries).total_tokens
      ≡ s.total_tokens + tokens_where (counts start_of_day) entries
unfolding aggregate_from tokens_where
total-aggregate_from d s [] = omega arith
total-aggregate_from d s (e ∷ entries) = elim (Bool-cases (counts d e)) [
  | inl c ↦ ground (arith, total-aggregate_from d (book e s) entries)
  | inr c ↦ ground (arith, total-aggregate_from d s entries)
]

-- The snapshot holds the day's sums: in total the tokens of every entry that counts, and for each
-- model (of a name that is not empty) those of the entries that are booked on it.
pub aggregate_sums :
    (start_of_day : ℕ) (m : String) (entries : List UsedToken)
    → (m == "") ≡ false
    → ((aggregate_token_usage entries start_of_day).total_tokens
        ≡ tokens_where (counts start_of_day) entries)
      × (used_of m (aggregate_token_usage entries start_of_day).per_model
          ≡ tokens_where (is_of_model start_of_day m) entries)
unfolding aggregate_token_usage used_of lookup
aggregate_sums d m entries h = (
  omega (arith, total-aggregate_from d no_usage entries),
  omega (arith, used-aggregate_from d m no_usage entries h),
)
