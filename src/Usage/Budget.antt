-- ===== src/Usage/Budget.antt =====
-- The budget check of a model, and what the reset of its usage does to it (src/ai/aimanager.go,
-- isModelBudgetExceeded and resetTodayTokenUsage).
use mogenius_operator.Prelude.{
  ℕ, ◌+◌, String, Bool, true, false, not, ◌&&◌, ◌||◌, none, some, [], ◌∷◌, ◌==◌, ◌≡◌, ◌⊎◌, refl,
  arith, eq_iff, ◌∙◌, leb, inl, inr,
}
use mogenius_operator.Prelude.Assoc.{Assoc, lookup, insert}
use mogenius_operator.Model.Resolve.{ResolvedModelConfig}
use mogenius_operator.Usage.{
  UsedToken, Ledger, Moment, load_token_usage_entries, today_usage_snapshot,
  is_model_budget_exceeded, is_reset, reset_entries, reset_today_token_usage,
  reset_token_usage_for_model, invalidate_usage_snapshot, add_token_usage,
}
use mogenius_operator.Usage.Laws.{tokens_where, is_of_model, aggregate_sums}

-- What the store holds for a model today, as far as its entries can be read.
abbrev pub usage_today : Moment → String → Assoc UsedToken → ℕ
usage_today at m entries =
    tokens_where (is_of_model at.start_of_day m) (load_token_usage_entries at.get_fails entries)

-- With no cached snapshot the check refuses exactly when the model has a limit, and the store
-- cannot be listed or the day's entries of the model reach it.
pub budget_exceeded_iff :
    (at : Moment) (rc : ResolvedModelConfig) (l : Ledger)
    → l.snapshot ≡ none
    → (rc.model_cr_name == "") ≡ false
    → (is_model_budget_exceeded at (some rc) l).0 ≡ (
        not (leb rc.daily_token_limit 0)
        && (at.list_fails || leb rc.daily_token_limit (usage_today at rc.model_cr_name l.entries)))
unfolding is_model_budget_exceeded today_usage_snapshot
budget_exceeded_iff at rc l h n = ground (
  arith,
  aggregate_sums at.start_of_day rc.model_cr_name (load_token_usage_entries at.get_fails l.entries)
      n,
)

-- An entry that the reset of its model has gone over counts nothing.
zeroed :
    (d : ℕ) (m : String) (e : UsedToken)
    → (m == "") ≡ false
    → is_reset d m e ≡ false
    → is_of_model d m e ≡ true
    → e.tokens_used ≡ 0
zeroed d m e n r i = ground arith

reset_entries-own :
    (at : Moment) (get_fails : String → Bool) (m : String) (entries : Assoc UsedToken)
    → (m == "") ≡ false
    → (reset_entries at m entries).1.0 ≡ true
    → tokens_where
        (is_of_model at.start_of_day m)
        (load_token_usage_entries get_fails (reset_entries at m entries).1.1)
      ≡ 0
unfolding reset_entries load_token_usage_entries tokens_where
reset_entries-own at g m [] n h = refl
reset_entries-own at g m (e ∷ entries) n h =
    ground (arith, reset_entries-own at g m entries n, zeroed at.start_of_day m e.1 n)

reset_entries-other :
    (at : Moment) (get_fails : String → Bool) (m other : String) (entries : Assoc UsedToken)
    → (m == "") ≡ false
    → (other == m) ≡ false
    → tokens_where
        (is_of_model at.start_of_day other)
        (load_token_usage_entries get_fails (reset_entries at m entries).1.1)
      ≡ tokens_where
          (is_of_model at.start_of_day other)
          (load_token_usage_entries get_fails entries)
unfolding reset_entries load_token_usage_entries tokens_where
reset_entries-other at g m other [] n h = refl
reset_entries-other at g m other (e ∷ entries) n h = ground (
  arith,
  reset_entries-other at g m other entries n h,
  eq_iff e.1.model_ref m,
  eq_iff e.1.model_ref other,
  eq_iff other m,
)

reset_complete :
    (at : Moment) (m : String) (l : Ledger) (n : ℕ)
    → (reset_token_usage_for_model at m l).0 ≡ some n
    → (m == "") ≡ false
      × ((reset_entries at m l.entries).1.0 ≡ true)
      × ((reset_token_usage_for_model at m l).1.snapshot ≡ none)
      × ((reset_token_usage_for_model at m l).1.entries ≡ (reset_entries at m l.entries).1.1)
unfolding reset_token_usage_for_model reset_today_token_usage invalidate_usage_snapshot
reset_complete at m l n h = ground arith

-- A completed reset of a model's usage frees its budget: the check of that model, on the same day
-- and on a store that can be listed, lets it run, whatever limit it has above none.
pub reset_frees_budget :
    (at later : Moment) (rc : ResolvedModelConfig) (l : Ledger) (n : ℕ)
    → (reset_token_usage_for_model at rc.model_cr_name l).0 ≡ some n
    → later.start_of_day ≡ at.start_of_day
    → later.list_fails ≡ false
    → (is_model_budget_exceeded later
        (some rc)
        (reset_token_usage_for_model at rc.model_cr_name l).1).0
      ≡ false
reset_frees_budget at later rc l n h day lists =
    let m = rc.model_cr_name in
    let (named, complete, dropped, left) = reset_complete at m l n h in
    let free : usage_today later m (reset_token_usage_for_model at m l).1.entries ≡ 0 =
      rw left (rw day (reset_entries-own at later.get_fails m l.entries named complete)) in
    budget_exceeded_iff later rc (reset_token_usage_for_model at m l).1 dropped named
    ∙ ground (arith, free)

reset_left :
    (at : Moment) (m : String) (l : Ledger)
    → ((reset_token_usage_for_model at m l).1.entries ≡ l.entries)
      ⊎ ((reset_token_usage_for_model at m l).1.entries ≡ (reset_entries at m l.entries).1.1)
unfolding reset_token_usage_for_model reset_today_token_usage invalidate_usage_snapshot
reset_left at m l = ground arith

-- The reset of a model's usage, completed or not, leaves what every other model has used today.
pub reset_spares_others :
    (at later : Moment) (m other : String) (l : Ledger)
    → (m == "") ≡ false
    → (other == m) ≡ false
    → later.start_of_day ≡ at.start_of_day
    → usage_today later other (reset_token_usage_for_model at m l).1.entries
      ≡ usage_today later other l.entries
reset_spares_others at later m other l n h day = elim (reset_left at m l) [
  | inl e ↦ rw e refl
  | inr e ↦ rw e (rw day (reset_entries-other at later.get_fails m other l.entries n h))
]

load-insert :
    (p : UsedToken → Bool) (get_fails : String → Bool) (key : String) (e : UsedToken)
    (entries : Assoc UsedToken)
    → lookup key entries ≡ none
    → get_fails key ≡ false
    → p e ≡ true
    → tokens_where p (load_token_usage_entries get_fails (insert key e entries))
      ≡ tokens_where p (load_token_usage_entries get_fails entries) + e.tokens_used
unfolding insert lookup load_token_usage_entries tokens_where
load-insert p g key e [] h r q = ground arith
load-insert p g key e (x ∷ entries) h r q =
    ground (arith, load-insert p g key e entries (ground (arith)) r q, eq_iff x.0 key)

-- A run's usage counts at once: after addTokenUsage under a fresh key the next budget check of the
-- model sees the tokens that were used before and those of the run.
pub booked_usage_counts :
    (at : Moment) (rc : ResolvedModelConfig) (key model entry_key : String) (tokens ms : ℕ)
    (l : Ledger)
    → lookup key l.entries ≡ none
    → at.get_fails key ≡ false
    → at.set_fails key ≡ false
    → at.list_fails ≡ false
    → leb at.start_of_day at.now ≡ true
    → (rc.model_cr_name == "") ≡ false
    → (is_model_budget_exceeded at
        (some rc)
        (add_token_usage at key tokens model ms entry_key rc.model_cr_name l).1).0
      ≡ (not (leb rc.daily_token_limit 0)
          && leb rc.daily_token_limit (usage_today at rc.model_cr_name l.entries + tokens))
unfolding add_token_usage invalidate_usage_snapshot
booked_usage_counts at rc key model entry_key tokens ms l fresh reads saves lists day named =
    let entry : UsedToken = record {
      timestamp = at.now;
      tokens_used = tokens;
      is_ignored = false;
      key = entry_key;
      model = model;
      time_used_in_ms = ms;
      model_ref = rc.model_cr_name;
    } in
    rw saves (
      budget_exceeded_iff at rc (record l { entries = insert key entry l.entries; snapshot = none })
        refl named
      ∙ ground (
        arith,
        load-insert (is_of_model at.start_of_day rc.model_cr_name) at.get_fails key entry l.entries
            fresh reads (ground (arith, eq_iff rc.model_cr_name rc.model_cr_name)),
      ))
