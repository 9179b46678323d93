-- ===== src/Usage/Examples.antt =====
-- The properties of the usage ledger at a concrete day.
use mogenius_operator.Prelude.{
  ℕ, ◌+◌, String, false, not, ◌&&◌, ◌||◌, none, some, [], ◌∷◌, ◌≡◌, refl, leb,
}
use mogenius_operator.Prelude.Assoc.{lookup}
use mogenius_operator.Model.Examples.{config_b}
use mogenius_operator.Usage.{
  UsedToken, Ledger, Moment, is_model_budget_exceeded, reset_token_usage_for_model,
  reset_today_token_usage, reset_entries, add_token_usage,
}
use mogenius_operator.Usage.Budget.{
  usage_today, budget_exceeded_iff, reset_frees_budget, booked_usage_counts,
}

abbrev used : ℕ → ℕ → String → UsedToken
used timestamp tokens model_ref = record {
  timestamp = timestamp;
  tokens_used = tokens;
  is_ignored = false;
  key = "run";
  model = "gpt-5";
  time_used_in_ms = 9;
  model_ref = model_ref;
}

abbrev pub noon : Moment
noon = record {
  now = 1500;
  start_of_day = 1000;
  list_fails = false;
  get_fails = λ k. false;
  set_fails = λ k. false;
}

abbrev pub ledger : Ledger
ledger = record {
  entries = ("t1", used 900 70 "b") ∷ ("t2", used 1100 400_000 "b") ∷ ("t3", used 1200 30 "a") ∷ [];
  snapshot = none;
  snapshot_time = 0;
}

budget_exceeded_iff_example : (is_model_budget_exceeded noon (some config_b) ledger).0 ≡ (
    not (leb config_b.daily_token_limit 0)
    && (noon.list_fails || leb config_b.daily_token_limit (usage_today noon "b" ledger.entries)))
budget_exceeded_iff_example = budget_exceeded_iff noon config_b ledger refl refl

reset_b : (reset_token_usage_for_model noon "b" ledger).0 ≡ some 400_000
unfolding reset_token_usage_for_model reset_today_token_usage reset_entries
reset_b = refl

reset_frees_budget_example :
    (is_model_budget_exceeded noon
      (some config_b)
      (reset_token_usage_for_model noon "b" ledger).1).0
    ≡ false
reset_frees_budget_example = reset_frees_budget noon noon config_b ledger 400_000 reset_b refl refl

fresh : lookup "t4" ledger.entries ≡ none
unfolding lookup
fresh = refl

booked_usage_counts_example :
    (is_model_budget_exceeded noon
      (some config_b)
      (add_token_usage noon "t4" 12 "gpt-5" 8 "run" "b" ledger).1).0
    ≡ (not (leb config_b.daily_token_limit 0)
        && leb config_b.daily_token_limit (usage_today noon "b" ledger.entries + 12))
booked_usage_counts_example =
    booked_usage_counts noon config_b "t4" "gpt-5" "run" 12 8 ledger fresh refl refl refl refl refl
