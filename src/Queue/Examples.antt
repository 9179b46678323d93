-- ===== src/Queue/Examples.antt =====
-- The properties of the queue at a concrete store.
use mogenius_operator.Prelude.{
  Bool, true, false, ◌&&◌, none, some, [], ◌∷◌, ◌≡◌, ◌⊎◌, refl, contains, if◌then◌else◌,
}
use mogenius_operator.Prelude.Assoc.{lookup, insert}
use mogenius_operator.Prelude.Sort.{sort}
use mogenius_operator.Prelude.Text.{has_prefix}
use mogenius_operator.Task.{Workload, pending, in_progress, completed}
use mogenius_operator.Task.Store.{text, get_task_by_key, parse_item, task_cancel_key}
use mogenius_operator.Task.Examples.{new_task, reliable, run_key, world_with}
use mogenius_operator.Model.{
  no_own_namespace, error, done, validate_ai_model_spec, parse_sdk_type, validate_for_sdk,
}
use mogenius_operator.Model.Resolve.{
  ResolvedModelConfig, resolve_model_config, resolve_ai_model, get_ai_model,
  resolve_api_key_from_ref, apply_agent_budget_overrides, secret_key,
}
use mogenius_operator.Model.Examples.{cluster, config_b}
use mogenius_operator.Usage.{
  is_model_budget_exceeded, today_usage_snapshot, aggregate_token_usage, aggregate_from,
  load_token_usage_entries, used_of,
}
use mogenius_operator.Usage.Examples.{noon, ledger}
use mogenius_operator.Agent.Context.{context_for_agent}
use mogenius_operator.Agent.Examples.{janitor, view, waiting, waiting_context}
use mogenius_operator.Queue.Startup.{reset_in_progress_tasks_on_startup, cleanup_orphaned_tasks}
use mogenius_operator.Queue.Settled.{state_of, map_state, is_running, startup_settles}
use mogenius_operator.Queue.Orphans.{is_orphan, cleanup_deletes_orphans}
use mogenius_operator.Queue.Pass.{
  Manager, Setting, Entry, Run, process_entry, budget_of, load_pending_tasks, select,
}
use mogenius_operator.Queue.Started.{Started, process_entry_starts}
use mogenius_operator.Task.Examples.{ada}
use mogenius_operator.Task.Api.{cancel_task}
use mogenius_operator.Queue.Retries.{Undone, over_budget_resurrects}
use mogenius_operator.Queue.Run.{
  PromptResult, broken, context_canceled, end_run, task_cancel_reason,
}
use mogenius_operator.Queue.Ended.{Ended, end_run-Ended}

startup_settles_example :
    (state_of (
        lookup run_key
          (reset_in_progress_tasks_on_startup reliable
            (some (run_key ∷ []))
            (world_with in_progress)).1.db)
      ≡ map_state (state_of (lookup run_key (world_with in_progress).db)))
    × (is_running (
          state_of (
            lookup run_key
              (reset_in_progress_tasks_on_startup reliable
                (some (run_key ∷ []))
                (world_with in_progress)).1.db))
        ≡ false)
unfolding has_prefix
startup_settles_example =
    startup_settles reliable (run_key ∷ []) run_key (world_with in_progress) refl refl refl refl

gone : Workload → Bool
gone w = false

cleanup_deletes_orphans_example :
    lookup run_key
      (cleanup_orphaned_tasks gone reliable (some (run_key ∷ [])) (world_with completed)).db
    ≡ (if contains (run_key ∷ []) run_key
          && is_orphan gone (lookup run_key (world_with completed).db)
        then none
        else lookup run_key (world_with completed).db)
cleanup_deletes_orphans_example =
    cleanup_deletes_orphans gone reliable (run_key ∷ []) run_key (world_with completed) refl refl

abbrev setting : Setting
setting = record {
  faults = reliable;
  texts = record { agent_error = λ e. "agent"; model_error = λ e. "no model" };
  at = noon;
  view = view;
  cluster = cluster;
}

abbrev manager : Manager
manager = record { world = world_with pending; ledger = ledger; error = ""; started = [] }

abbrev entry : Entry
entry = record { key = run_key; task = waiting }

run_key-IsTaskKey : has_prefix "ai_tasks:" run_key ≡ true
unfolding has_prefix
run_key-IsTaskKey = refl

-- Nothing has been used of the budget.
abbrev unused : Manager
unused = record manager { ledger = record ledger { entries = [] } }

process_entry_starts_example :
    ((process_entry setting entry unused).started ≡ unused.started)
    ⊎ Started setting entry unused (process_entry setting entry unused)
process_entry_starts_example = process_entry_starts setting entry unused run_key-IsTaskKey

abbrev config_of_janitor : ResolvedModelConfig
config_of_janitor = record config_b { max_tool_calls = 20 }

janitor_runs_on_b :
    resolve_model_config cluster (some (budget_of janitor.spec)) ≡ done config_of_janitor
unfolding resolve_model_config resolve_ai_model get_ai_model resolve_api_key_from_ref
    apply_agent_budget_overrides validate_ai_model_spec parse_sdk_type validate_for_sdk secret_key
    lookup
janitor_runs_on_b = refl

b_is_exhausted : (is_model_budget_exceeded noon (some config_of_janitor) ledger).0 ≡ true
unfolding is_model_budget_exceeded today_usage_snapshot aggregate_token_usage aggregate_from
    load_token_usage_entries used_of lookup insert
b_is_exhausted = refl

over_budget_resurrects_example :
    Undone
      (lookup run_key (cancel_task reliable run_key ada manager.world).1.db)
      (lookup run_key
        (process_entry setting entry
          (record manager { world = (cancel_task reliable run_key ada manager.world).1 })).world.db)
      0
unfolding lookup
over_budget_resurrects_example =
    over_budget_resurrects setting entry manager janitor (context_for_agent janitor ("dev" ∷ []))
      config_of_janitor reliable ada run_key-IsTaskKey refl refl refl refl refl refl waiting_context
      janitor_runs_on_b b_is_exhausted

abbrev modelless : Setting
modelless = record setting { cluster = record cluster { own_namespace = none } }

no_model :
    resolve_model_config modelless.cluster (some (budget_of janitor.spec)) ≡ error no_own_namespace
unfolding resolve_model_config get_ai_model
no_model = refl

selects : load_pending_tasks reliable (run_key ∷ []) (world_with pending) ≡ entry ∷ []
unfolding load_pending_tasks select get_task_by_key parse_item lookup sort
selects = refl

abbrev run : Run
run = record {
  task = new_task run_key in_progress;
  key = run_key;
  config = config_of_janitor;
  agent = janitor;
  context = context_for_agent janitor ("dev" ∷ []);
}

abbrev stopped : PromptResult
stopped = record {
  tokens_used = 40;
  time_used_in_ms = 7;
  model_used = "gpt-5";
  end = broken context_canceled "context canceled";
}

end_run-Ended_example : Ended false 0 (
    lookup run_key
      (end_run reliable (λ name. some []) noon "t9" false run stopped run.task manager).world.db)
end_run-Ended_example =
    end_run-Ended reliable (λ name. some []) noon "t9" false run stopped run.task manager
      run_key-IsTaskKey refl

abbrev asked : Manager
asked = record manager {
  world = record (world_with in_progress) {
    db =
        ("ai_task_cancel:ai_tasks:Agent:dev:janitor-run-100", text "canceled by ada@example.com")
        ∷ [];
  };
}

the_reason : task_cancel_reason reliable run.task.id asked.world ≡ "canceled by ada@example.com"
unfolding task_cancel_reason task_cancel_key lookup
the_reason = refl
