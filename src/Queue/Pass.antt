-- ===== src/Queue/Pass.antt =====
-- src/ai/aimanager.go: processAiTaskQueue, one pass over the queue. The texts of errors hold texts
-- of the store's and of Kubernetes' clients, and are a parameter.
use Prim.Native.String.{◌++◌}
use mogenius_operator.Prelude.{
  ℕ, ◌+◌, String, Bool, true, false, ◌&&◌, ◌||◌, Option, none, some, List, [], ◌∷◌, if◌then◌else◌,
  ltb, leb, snoc,
}
use mogenius_operator.Prelude.Decimal.{decimal}
use mogenius_operator.Prelude.Sort.{sort}
use mogenius_operator.Access.{ToolContext}
use mogenius_operator.Task.{
  AiTask, max_ai_task_retries, is_pending, is_failed, in_progress, failed, ignored,
}
use mogenius_operator.Task.Store.{
  Faults, World, Result, ok, err, ignore, get_task_by_key, create_or_update_ai_task,
  notify_task_changed,
}
use mogenius_operator.Model.{ModelError, Outcome, done, error}
use mogenius_operator.Model.Resolve.{
  Cluster, ResolvedModelConfig, AgentBudget, resolve_model_config,
}
use mogenius_operator.Usage.{Ledger, Moment, is_model_budget_exceeded, model_budget_error}
use mogenius_operator.Agent.{Agent, AgentError, AgentSpec, Attempt, View, given, refused}
use mogenius_operator.Agent.Context.{build_agent_task_context}

pub record Texts : Type 0 where
  pub agent_error : AgentError → String
  pub model_error : ModelError → String

-- A run that the pass has started, with what its goroutine is given.
pub record Run : Type 0 where
  pub task : AiTask
  pub key : String
  pub config : ResolvedModelConfig
  pub agent : Agent
  pub context : ToolContext

-- The state that the queue works on: the tasks, the ledger of usage, the error of the status, and
-- the runs that were started.
pub record Manager : Type 0 where
  pub world : World
  pub ledger : Ledger
  pub error : String
  pub started : List Run

-- Everything that a pass reads and that it does not change.
pub record Setting : Type 0 where
  pub faults : Faults
  pub texts : Texts
  pub at : Moment
  pub view : View
  pub cluster : Cluster

pub record Entry : Type 0 where
  pub key : String
  pub task : AiTask

abbrev pub is_eligible : AiTask → Bool
is_eligible t = is_pending t.state || is_failed t.state && ltb t.retries max_ai_task_retries

abbrev pub select_read : String → Result (Option AiTask) → List Entry → List Entry
select_read key (err e) later = later
select_read key (ok none) later = later
select_read key (ok (some t)) later =
    if is_eligible t then record { key = key; task = t } ∷ later else later

unfoldable pub select : Faults → List String → World → List Entry
select f [] w = []
select f (key ∷ keys) w = select_read key (get_task_by_key f key w) (select f keys w)

-- Oldest first; the order of equal times is not specified by sort.Slice.
unfoldable pub load_pending_tasks : Faults → List String → World → List Entry
unfolding select
load_pending_tasks f keys w =
    sort (λ a b. ltb a.task.created_at b.task.created_at) (select f keys w)

abbrev pub save : Faults → AiTask → String → Manager → Manager
save f t key m = record m { world = ignore (create_or_update_ai_task f t key m.world) }

abbrev pub task_failure_error_prefix : String
task_failure_error_prefix = "AI task failed"

unfoldable pub giving_up : ℕ → String → String
unfolding decimal
giving_up retries text = "giving up after " ++ decimal retries ++ " failed attempts: " ++ text

unfoldable pub failed_after : ℕ → String → String
unfolding decimal
failed_after retries text =
    task_failure_error_prefix ++ " after " ++ decimal retries ++ " attempts: " ++ text

-- The run's model cannot be resolved: retried, then ignored.
unfoldable pub unresolved : Setting → Entry → String → Manager → Manager
unfolding giving_up failed_after
unresolved s entry text m =
    let retries = entry.task.retries + 1 in
    if leb max_ai_task_retries retries
    then save s.faults
        (record entry.task { state = ignored; retries = retries; error = giving_up retries text })
        entry.key (record m { error = failed_after retries text })
    else save s.faults (record entry.task { state = failed; retries = retries; error = text })
        entry.key m

-- The model's budget is exhausted: no retry is counted.
unfoldable pub over_budget : Setting → Entry → String × Ledger → Manager → Manager
over_budget s entry (text, ledger) m =
    save s.faults (record entry.task { state = failed; error = text }) entry.key
      (record m { ledger = ledger })

-- The test of the read before the start.
abbrev pub still_open : Result (Option AiTask) → Bool
still_open (err e) = false
still_open (ok none) = false
still_open (ok (some t)) = is_pending t.state || is_failed t.state

abbrev pub launch :
    Entry → ResolvedModelConfig → Agent → ToolContext → Result AiTask × World → Manager → Manager
launch entry rc a tc (err e, w) m = record m { world = w }
launch entry rc a tc (ok t, w) m = record m {
  world = notify_task_changed t w;
  started =
      snoc m.started (record { task = t; key = entry.key; config = rc; agent = a; context = tc });
}

unfoldable pub start_run :
    Setting → Entry → ResolvedModelConfig → Agent → ToolContext → Manager → Manager
start_run s entry rc a tc m =
    if still_open (get_task_by_key s.faults entry.key m.world)
    then launch entry rc a tc
        (create_or_update_ai_task s.faults (record entry.task { state = in_progress; error = "" })
          entry.key m.world)
        m
    else m

abbrev pub budgeted :
    Setting → Entry → ResolvedModelConfig → Agent → ToolContext → Bool × Ledger → Manager → Manager
budgeted s entry rc a tc (true, ledger) m =
    over_budget s entry (model_budget_error s.at rc ledger) m
budgeted s entry rc a tc (false, ledger) m =
    start_run s entry rc a tc (record m { ledger = ledger })

abbrev pub budget_of : AgentSpec → AgentBudget
budget_of spec = record {
  model_ref = spec.model_ref;
  max_tool_calls = spec.max_tool_calls;
  max_tokens_per_run = spec.max_tokens_per_run;
}

abbrev pub configured :
    Setting → Entry → Agent → ToolContext → Outcome ResolvedModelConfig → Manager → Manager
configured s entry a tc (error e) m = unresolved s entry (s.texts.model_error e) m
configured s entry a tc (done rc) m =
    budgeted s entry rc a tc (is_model_budget_exceeded s.at (some rc) m.ledger) m

abbrev pub in_context : Setting → Entry → Attempt (Agent × ToolContext) → Manager → Manager
in_context s entry (refused e) m =
    save s.faults (record entry.task { state = ignored; error = s.texts.agent_error e }) entry.key m
in_context s entry (given (a, tc)) m =
    configured s entry a tc (resolve_model_config s.cluster (some (budget_of a.spec))) m

unfoldable pub process_entry : Setting → Entry → Manager → Manager
process_entry s entry m = in_context s entry (build_agent_task_context s.view entry.task) m

-- The loop. `meanwhile` is what users and other replicas do to the store before the entry of a key.
unfoldable pub process_entries : Setting → (String → World → World) → List Entry → Manager → Manager
unfolding process_entry
process_entries s meanwhile [] m = m
process_entries s meanwhile (entry ∷ entries) m =
    process_entries s meanwhile entries
      (process_entry s entry (record m { world = meanwhile entry.key m.world }))

-- `none` is a failure of the scan.
unfoldable pub process_ai_task_queue :
    Setting → (String → World → World) → Option (List String) → Manager → Manager
unfolding process_entries load_pending_tasks
process_ai_task_queue s meanwhile none m = m
process_ai_task_queue s meanwhile (some keys) m =
    process_entries s meanwhile (load_pending_tasks s.faults keys m.world) m
