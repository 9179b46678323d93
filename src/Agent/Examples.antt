-- ===== src/Agent/Examples.antt =====
-- The properties of agents at a concrete agent.
use mogenius_operator.Prelude.{
  ◌++◌, List, true, false, not, ◌&&◌, ◌||◌, none, some, [], ◌∷◌, ◌==◌, ◌≡◌, refl, any, contains,
}
use mogenius_operator.Prelude.Assoc.{insert, lookup}
use mogenius_operator.Prelude.Sort.{sort}
use mogenius_operator.Prelude.Text.{has_prefix}
use mogenius_operator.Task.{AiTask, proposed, pending}
use mogenius_operator.Task.Store.{task, create_or_update_ai_task, put}
use mogenius_operator.Task.Examples.{new_task, reliable, run_key, world_with}
use mogenius_operator.Agent.{
  Agent, View, given, get_agent, resolve_agent_scope, add_scope_entries, add_workspace_names,
  map_keys,
}
use mogenius_operator.Agent.Runs.{
  Board, create_agent_run_task, run_in_scope, enqueue_agent_run, has_open_agent_run,
  agent_run_key_prefix, run_task,
}
use mogenius_operator.Agent.Prompt.{build_agent_run_prompt}
use mogenius_operator.Prelude.Decimal.{decimal}
use mogenius_operator.Agent.Triggers.{ChangedObject}
use mogenius_operator.Agent.Context.{
  context_for_agent, build_agent_task_context, context_of_agent, context_in_scope,
}
use mogenius_operator.Agent.{fetch_enabled_agents}
use mogenius_operator.Agent.Cache.{
  Step, System, enters, reads_store, changes, returns, invalidates, steps, step, begin_fetch,
  end_fetch, invalidate_agent_cache,
}
use mogenius_operator.Agent.Fresh.{Current, cache-Current}
use mogenius_operator.Agent.Scope.{entry_covers, resource_names, scope_iff_covered}
use mogenius_operator.Agent.History.{open_agent_task_states, prune_agent_runs_to_limit}
use mogenius_operator.Agent.Pruned.{prune_keeps_open}
use mogenius_operator.Agent.Laws.{Queued, created_run-Queued}
use mogenius_operator.Agent.Confined.{Confined, task_context-Confined}

abbrev pub janitor : Agent
janitor = record {
  name = "janitor";
  spec = record {
    instruction = "Look for leftovers.";
    enabled = true;
    scope = record { workspace_ref = ""; namespaces = "dev" ∷ [] };
    triggers = record {
      cron = "";
      on_change = some (record { kinds = []; on = []; min_interval = 60 });
    };
    model_ref = "b";
    max_tool_calls = none;
    max_tokens_per_run = none;
    tools = record { builtin = none; mcp_server_refs = [] };
  };
}

abbrev pub view : View
view = record {
  own_namespace = some "mogenius";
  agents = janitor ∷ [];
  list_fails = false;
  get_fails = λ name. false;
  known_namespaces = "dev" ∷ "prod" ∷ [];
  workspaces = λ name. none;
}

scope_iff_covered_example : contains (resolve_agent_scope view janitor) "prod" ≡ (
    not ("prod" == "")
    && (any (entry_covers view "prod") ("dev" ∷ []) || any (resource_names "prod") []))
scope_iff_covered_example = scope_iff_covered view janitor "prod"

abbrev board : Board
board = record { world = world_with proposed; last_agent_run = []; last_cron_run = [] }

abbrev obj : ChangedObject
obj = record { kind = "Job"; namespace = "dev"; manifest = "kind: Job" }

prune_keeps_open_example :
    lookup run_key
      (prune_agent_runs_to_limit reliable
        (λ name. some (run_key ∷ []))
        "janitor"
        (world_with proposed)).db
    ≡ some (task (new_task run_key proposed))
unfolding lookup has_prefix open_agent_task_states
prune_keeps_open_example =
    prune_keeps_open reliable (λ name. some (run_key ∷ [])) "janitor" run_key
      (new_task run_key proposed) (world_with proposed) refl refl refl

the_scope : resolve_agent_scope view janitor ≡ "dev" ∷ []
unfolding resolve_agent_scope sort add_scope_entries add_workspace_names map_keys insert
the_scope = refl

abbrev pub waiting : AiTask
waiting = new_task run_key pending

pub waiting_context :
    build_agent_task_context view waiting ≡ given (janitor, context_for_agent janitor ("dev" ∷ []))
unfolding build_agent_task_context context_of_agent context_in_scope get_agent resolve_agent_scope
    sort add_scope_entries add_workspace_names map_keys insert
waiting_context = refl

task_context-Confined_example :
    Confined view waiting janitor (context_for_agent janitor ("dev" ∷ [])) "prod"
task_context-Confined_example =
    task_context-Confined view waiting janitor (context_for_agent janitor ("dev" ∷ [])) "prod"
      waiting_context

abbrev new_run : AiTask
new_run =
    run_task "ai_tasks:Agent:dev:janitor-run-200" janitor ("dev" ∷ []) "manual" none
      (build_agent_run_prompt janitor ("dev" ∷ [])) 200

abbrev queued_board : Board
queued_board = record board {
  world = (create_or_update_ai_task reliable new_run new_run.id board.world).1;
  last_agent_run = ("janitor", 900) ∷ [];
}

created :
    create_agent_run_task reliable (some []) 900 view janitor "manual" none board
    ≡ (given new_run, queued_board)
unfolding create_agent_run_task run_in_scope enqueue_agent_run has_open_agent_run
    agent_run_key_prefix resolve_agent_scope sort add_scope_entries add_workspace_names map_keys
    insert create_or_update_ai_task put decimal
created = refl

created_run-Queued_example :
    Queued reliable
      (some [])
      900
      janitor
      (resolve_agent_scope view janitor)
      board
      new_run
      queued_board
created_run-Queued_example =
    created_run-Queued reliable (some []) 900 view janitor "manual" none board new_run queued_board
      created

-- A change and its event come between the read of the store and the return of the refresh.
abbrev overtaken : List Step
overtaken = enters 1 ∷ reads_store ∷ changes (record view { agents = [] }) ∷ []

abbrev later : List Step
later = returns 2 ∷ enters 3 ∷ reads_store ∷ returns 4 ∷ []

abbrev cold : System
cold = record {
  cache = record { fetching = false; is_valid = false; time = 0; cached = []; generation = 0 };
  view = view;
  flight = none;
}

the_overtaken_list_is_dropped :
    (steps (overtaken ++ (invalidates ∷ returns 2 ∷ [])) cold).cache.is_valid ≡ false
unfolding steps step begin_fetch end_fetch invalidate_agent_cache fetch_enabled_agents
the_overtaken_list_is_dropped = refl

cache-Current_example : Current (steps later (step invalidates (steps overtaken cold)))
cache-Current_example = cache-Current overtaken later cold refl (tt, (tt, (tt, (tt, tt))))
