-- ===== src/Usage.antt =====
-- src/ai/aimanager.go: the ledger of token usage, the snapshot of a day, the budget of a model and
-- the reset of its usage. Token counts are natural numbers; a day's sums stay far below 2 ^ 63.
pub mod Laws
pub mod Budget
pub mod Examples
use Prim.Native.String.{◌++◌}
use mogenius_operator.Prelude.{
  ℕ, ◌+◌, ◌-◌, String, Bool, true, false, not, ◌&&◌, ◌||◌, Option, none, some, List, [], ◌∷◌, ◌==◌,
  eqb, ltb, leb, if◌then◌else◌,
}
use mogenius_operator.Prelude.Assoc.{Assoc, lookup, insert}
use mogenius_operator.Prelude.Decimal.{decimal}
use mogenius_operator.Model.Resolve.{ResolvedModelConfig}

-- Times are in seconds.
pub record UsedToken : Type 0 where
  pub timestamp : ℕ
  pub tokens_used : ℕ
  pub is_ignored : Bool
  pub key : String
  pub model : String
  pub time_used_in_ms : ℕ
  pub model_ref : String

pub record TokenUsageSnapshot : Type 0 where
  pub total_tokens : ℕ
  pub total_runs : ℕ
  pub per_model : Assoc ℕ

abbrev pub no_usage : TokenUsageSnapshot
no_usage = record { total_tokens = 0; total_runs = 0; per_model = [] }

-- The stored entries and the cached snapshot of the manager.
pub record Ledger : Type 0 where
  pub entries : Assoc UsedToken
  pub snapshot : Option TokenUsageSnapshot
  pub snapshot_time : ℕ

-- The time of a call, the start of its day, and which calls of the client fail.
pub record Moment : Type 0 where
  pub now : ℕ
  pub start_of_day : ℕ
  pub list_fails : Bool
  pub get_fails : String → Bool
  pub set_fails : String → Bool

-- `m[k]` of a `map[string]int64`
abbrev or_zero : Option ℕ → ℕ
or_zero none = 0
or_zero (some n) = n

unfoldable pub used_of : String → Assoc ℕ → ℕ
used_of m per_model = or_zero (lookup m per_model)

-- `entry.Timestamp.Unix() < startOfDay || entry.IsIgnored` skips an entry.
abbrev pub counts : ℕ → UsedToken → Bool
counts start_of_day e = not (ltb e.timestamp start_of_day || e.is_ignored)

abbrev pub book_model : UsedToken → Assoc ℕ → Assoc ℕ
book_model e per_model =
    if e.model_ref == ""
    then per_model
    else insert e.model_ref (used_of e.model_ref per_model + e.tokens_used) per_model

abbrev pub book : UsedToken → TokenUsageSnapshot → TokenUsageSnapshot
book e s = record {
  total_tokens = s.total_tokens + e.tokens_used;
  total_runs = s.total_runs + 1;
  per_model = book_model e s.per_model;
}

unfoldable pub aggregate_from : ℕ → TokenUsageSnapshot → List UsedToken → TokenUsageSnapshot
aggregate_from start_of_day s [] = s
aggregate_from start_of_day s (e ∷ entries) =
    aggregate_from start_of_day (if counts start_of_day e then book e s else s) entries

unfoldable pub aggregate_token_usage : List UsedToken → ℕ → TokenUsageSnapshot
unfolding aggregate_from
aggregate_token_usage entries start_of_day = aggregate_from start_of_day no_usage entries

-- loadTokenUsageEntries: an entry whose read fails is skipped.
unfoldable pub load_token_usage_entries : (String → Bool) → Assoc UsedToken → List UsedToken
load_token_usage_entries get_fails [] = []
load_token_usage_entries get_fails (entry ∷ rest) =
    let later = load_token_usage_entries get_fails rest in
    if get_fails entry.0 then later else entry.1 ∷ later

abbrev pub usage_snapshot_ttl : ℕ
usage_snapshot_ttl = 30

abbrev fresh : Moment → Ledger → Option TokenUsageSnapshot → Option TokenUsageSnapshot
fresh at l none = none
fresh at l (some s) = if ltb (at.now - l.snapshot_time) usage_snapshot_ttl then some s else none

abbrev rebuild : Moment → Ledger → Option TokenUsageSnapshot → Option TokenUsageSnapshot × Ledger
rebuild at l (some s) = (some s, l)
rebuild at l none =
    if at.list_fails
    then (none, l)
    else (let s =
          aggregate_token_usage (load_token_usage_entries at.get_fails l.entries) at.start_of_day in
        (some s, record l { snapshot = some s; snapshot_time = at.now }))

-- `none` is the error of the list.
unfoldable pub today_usage_snapshot : Moment → Ledger → Option TokenUsageSnapshot × Ledger
today_usage_snapshot at l = rebuild at l (fresh at l l.snapshot)

unfoldable pub invalidate_usage_snapshot : Ledger → Ledger
invalidate_usage_snapshot l = record l { snapshot = none }

-- An error of the snapshot counts as exceeded.
abbrev pub over_limit : ResolvedModelConfig → Option TokenUsageSnapshot → Bool
over_limit rc none = true
over_limit rc (some s) = leb rc.daily_token_limit (used_of rc.model_cr_name s.per_model)

unfoldable pub is_model_budget_exceeded :
    Moment → Option ResolvedModelConfig → Ledger → Bool × Ledger
unfolding today_usage_snapshot
is_model_budget_exceeded at none l = (false, l)
is_model_budget_exceeded at (some rc) l =
    if leb rc.daily_token_limit 0
    then (false, l)
    else (let (snapshot, l) = today_usage_snapshot at l in (over_limit rc snapshot, l))

unfoldable pub model_budget_exceeded_message : ResolvedModelConfig → ℕ → String
unfolding decimal
model_budget_exceeded_message rc used =
    "Daily token limit of AI model \""
    ++ rc.model_cr_name
    ++ "\" reached ("
    ++ decimal used
    ++ " of "
    ++ decimal rc.daily_token_limit
    ++ " tokens used today). Runs resume after midnight, or reset the usage via the model settings (annotation "
    ++ "mogenius.com/reset-usage-at"
    ++ ")."

abbrev used_now : ResolvedModelConfig → Option TokenUsageSnapshot → ℕ
used_now rc none = 0
used_now rc (some s) = used_of rc.model_cr_name s.per_model

unfoldable pub model_budget_error : Moment → ResolvedModelConfig → Ledger → String × Ledger
unfolding today_usage_snapshot model_budget_exceeded_message
model_budget_error at rc l =
    let (snapshot, l) = today_usage_snapshot at l in
    (model_budget_exceeded_message rc (used_now rc snapshot), l)

-- addTokenUsage; the key is fresh (the time in nanoseconds and a random suffix).
unfoldable pub add_token_usage :
    Moment → String → ℕ → String → ℕ → String → String → Ledger → Bool × Ledger
unfolding invalidate_usage_snapshot
add_token_usage at key tokens model time_used_in_ms entry_key model_ref l =
    if at.set_fails key then (false, l) else (
      true,
      invalidate_usage_snapshot (record l {
        entries =
            insert key
              (record {
                timestamp = at.now;
                tokens_used = tokens;
                is_ignored = false;
                key = entry_key;
                model = model;
                time_used_in_ms = time_used_in_ms;
                model_ref = model_ref;
              })
              l.entries;
      }),
    )

-- The two `continue`s of resetTodayTokenUsage.
abbrev pub is_reset : ℕ → String → UsedToken → Bool
is_reset start_of_day model_ref e =
    not (ltb e.timestamp start_of_day || eqb e.tokens_used 0)
    && not (not (model_ref == "") && not (e.model_ref == model_ref))

-- The loop: the tokens cleared, whether it ran to its end, and the entries that it leaves.
unfoldable pub reset_entries : Moment → String → Assoc UsedToken → ℕ × (Bool × Assoc UsedToken)
reset_entries at model_ref [] = (0, (true, []))
reset_entries at model_ref (entry ∷ rest) =
    let later = reset_entries at model_ref rest in
    let (cleared, (complete, left)) = later in
    if at.get_fails entry.0
    then (0, (false, entry ∷ rest))
    else if not (is_reset at.start_of_day model_ref entry.1)
    then (cleared, (complete, entry ∷ left))
    else if at.set_fails entry.0
    then (entry.1.tokens_used, (false, entry ∷ rest))
    else (
      entry.1.tokens_used + cleared,
      (complete, (entry.0, record entry.1 { tokens_used = 0 }) ∷ left),
    )

abbrev after_reset : Ledger → ℕ × (Bool × Assoc UsedToken) → Option ℕ × Ledger
after_reset l (cleared, (true, left)) =
    (some cleared, invalidate_usage_snapshot (record l { entries = left }))
after_reset l (cleared, (false, left)) = (none, record l { entries = left })

unfoldable pub reset_today_token_usage : Moment → String → Ledger → Option ℕ × Ledger
unfolding reset_entries invalidate_usage_snapshot
reset_today_token_usage at model_ref l =
    if at.list_fails then (none, l) else after_reset l (reset_entries at model_ref l.entries)

unfoldable pub reset_token_usage_for_model : Moment → String → Ledger → Option ℕ × Ledger
unfolding reset_today_token_usage
reset_token_usage_for_model at name l =
    if name == "" then (none, l) else reset_today_token_usage at name l
