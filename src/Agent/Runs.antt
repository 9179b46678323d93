-- ===== src/Agent/Runs.antt =====
-- src/ai/agents.go: the keys of an agent's runs, who sees a run, and how a run is queued.
use Prim.Native.String.{◌++◌}
use mogenius_operator.Prelude.{
  ℕ, String, Bool, true, false, not, Option, none, some, List, [], ◌∷◌, ◌==◌, if◌then◌else◌,
  is_empty, any, contains,
}
use mogenius_operator.Prelude.Assoc.{Assoc, insert, has}
use mogenius_operator.Prelude.Decimal.{decimal}
use mogenius_operator.Prelude.Text.{split_n, join, has_prefix}
use mogenius_operator.Access.{User}
use mogenius_operator.Task.{
  AiTask, AiTaskState, Workload, AiFilter, pending, in_progress, cancelling,
}
use mogenius_operator.Task.Store.{
  Faults, World, Result, ok, err, get_task_by_key, create_or_update_ai_task,
}
use mogenius_operator.Agent.{
  Agent, Attempt, View, given, refused, no_scope_namespaces, open_runs_unknown, has_open_run,
  not_created, disabled, get_agent, resolve_agent_scope,
}
use mogenius_operator.Agent.Prompt.{build_agent_run_prompt, build_agent_event_prompt}

unfoldable pub agent_run_key_prefix : String → String → String
agent_run_key_prefix namespace agent_name =
    "ai_tasks:Agent:" ++ namespace ++ ":" ++ agent_name ++ "-run-"

unfoldable pub is_agent_task_id : String → Bool
unfolding has_prefix
is_agent_task_id id = has_prefix "ai_tasks:Agent:" id

-- On the parts of `strings.SplitN(key, ":", 4)`.
unfoldable pub rehome_parts : String → String → List String → String
unfolding join
rehome_parts key namespace (bucket ∷ kind ∷ old ∷ rest ∷ []) =
    if not (kind == "Agent") then key else join ":" (bucket ∷ kind ∷ namespace ∷ rest ∷ [])
rehome_parts key namespace _ = key

unfoldable pub agent_task_key_for_namespace : String → String → String
unfolding rehome_parts split_n
agent_task_key_for_namespace key namespace =
    if namespace == "" then key else rehome_parts key namespace (split_n 4 ":" key)

unfoldable pub visible_by_key : Assoc Bool → List String → Bool
visible_by_key namespaces (bucket ∷ kind ∷ namespace ∷ rest ∷ []) = has namespace namespaces
visible_by_key namespaces _ = false

unfoldable pub agent_task_visible_in_namespaces : AiTask → Assoc Bool → Bool
unfolding visible_by_key split_n
agent_task_visible_in_namespaces t namespaces =
    if t.scope_all_namespaces
    then true
    else if not (is_empty t.scope_namespaces)
    then any (λ ns. has ns namespaces) t.scope_namespaces
    else visible_by_key namespaces (split_n 4 ":" t.id)

abbrev pub is_open : AiTaskState → Bool
is_open pending = true
is_open in_progress = true
is_open cancelling = true
is_open _ = false

abbrev pub reads_open : Result (Option AiTask) → Bool
reads_open (ok (some t)) = is_open t.state
reads_open (ok none) = false
reads_open (err e) = false

-- `keys` is the scan of an agent's runs, whose failure is `none`.
unfoldable pub has_open_agent_run : Faults → Option (List String) → World → Option Bool
has_open_agent_run f none w = none
has_open_agent_run f (some keys) w = some (any (λ key. reads_open (get_task_by_key f key w)) keys)

-- The tasks of the manager and its memory of each agent's last runs, in nanoseconds.
pub record Board : Type 0 where
  pub world : World
  pub last_agent_run : Assoc ℕ
  pub last_cron_run : Assoc ℕ

abbrev pub no_workload : Workload
no_workload = record {
  kind = "";
  plural = "";
  api_version = "";
  namespaced = false;
  namespace = "";
  resource_name = "";
}

abbrev no_filter : AiFilter
no_filter = record {
  id = "";
  name = "";
  description = "";
  kind = "";
  contains = [];
  excludes = [];
  prompt = "";
  for = none;
  is_active = false;
}

-- The literal of enqueueAgentRun; a field that it leaves out has its zero value.
abbrev pub run_task : String → Agent → List String → String → Option User → String → ℕ → AiTask
run_task key a namespaces trigger user prompt timestamp = record {
  id = key;
  prompt = prompt;
  response = none;
  state = pending;
  controller = none;
  tokens_used = 0;
  retries = 0;
  current_activity = "";
  run_id = "";
  model = "";
  time_used_in_ms = 0;
  created_at = timestamp;
  updated_at = timestamp;
  referencing_resource = no_workload;
  triggered_by = no_filter;
  read_by_users = [];
  error = "";
  agent_ref = a.name;
  trigger = trigger;
  triggered_by_user = user;
  scope_namespaces = namespaces;
  scope_all_namespaces = contains a.spec.scope.namespaces "*";
  base_resource_version = "";
  approval = none;
  execution_result = "";
}

abbrev pub after_create : ℕ → Agent → Board → Result AiTask × World → Attempt AiTask × Board
after_create at a b (err e, w) = (refused (not_created a.name), record b { world = w })
after_create at a b (ok t, w) =
    (given t, record b { world = w; last_agent_run = insert a.name at b.last_agent_run })

abbrev pub with_open :
    Option Bool → String → Board → Attempt AiTask × Board → Attempt AiTask × Board
with_open none name b go = (refused (open_runs_unknown name), b)
with_open (some true) name b go = (refused (has_open_run name), b)
with_open (some false) name b go = go

-- The callers pass a namespace list that is not empty, of which `namespace` is the first.
unfoldable pub enqueue_agent_run :
    Faults
    → Option (List String)
    → ℕ
    → Agent
    → String
    → List String
    → String
    → Option User
    → String
    → Board
    → Attempt AiTask × Board
unfolding agent_run_key_prefix has_open_agent_run
enqueue_agent_run f keys at a namespace namespaces trigger user prompt b =
    let key = agent_run_key_prefix namespace a.name ++ decimal b.world.now in
    let task = run_task key a namespaces trigger user prompt b.world.now in
    with_open (has_open_agent_run f keys b.world) a.name b
      (after_create at a b (create_or_update_ai_task f task key b.world))

-- createAgentRunTask, on the resolved scope
unfoldable pub run_in_scope :
    Faults
    → Option (List String)
    → ℕ
    → Agent
    → List String
    → String
    → Option User
    → Board
    → Attempt AiTask × Board
run_in_scope f keys at a [] trigger user b = (refused (no_scope_namespaces a.name), b)
run_in_scope f keys at a (ns ∷ rest) trigger user b =
    enqueue_agent_run f keys at a ns (ns ∷ rest) trigger user (build_agent_run_prompt a (ns ∷ rest))
      b

unfoldable pub create_agent_run_task :
    Faults
    → Option (List String)
    → ℕ
    → View
    → Agent
    → String
    → Option User
    → Board
    → Attempt AiTask × Board
unfolding run_in_scope
create_agent_run_task f keys at v a trigger user b =
    run_in_scope f keys at a (resolve_agent_scope v a) trigger user b

-- createAgentEventTask, on the resolved scope
unfoldable pub event_in_scope :
    Faults
    → Option (List String)
    → ℕ
    → Agent
    → List String
    → String
    → String
    → Board
    → Attempt AiTask × Board
event_in_scope f keys at a [] manifest change_type b = (refused (no_scope_namespaces a.name), b)
event_in_scope f keys at a (ns ∷ rest) manifest change_type b =
    enqueue_agent_run f keys at a ns (ns ∷ rest) "event" none
      (build_agent_event_prompt a (ns ∷ rest) manifest change_type) b

unfoldable pub create_agent_event_task :
    Faults
    → Option (List String)
    → ℕ
    → View
    → Agent
    → String
    → String
    → Board
    → Attempt AiTask × Board
unfolding event_in_scope
create_agent_event_task f keys at v a manifest change_type b =
    event_in_scope f keys at a (resolve_agent_scope v a) manifest change_type b

abbrev trigger_found :
    Faults
    → Option (List String)
    → ℕ
    → View
    → Option User
    → Attempt Agent
    → Board
    → Attempt AiTask × Board
trigger_found f keys at v user (refused e) b = (refused e, b)
trigger_found f keys at v user (given a) b =
    if not a.spec.enabled
    then (refused (disabled a.name), b)
    else create_agent_run_task f keys at v a "manual" user b

unfoldable pub trigger_agent :
    Faults → Option (List String) → ℕ → View → String → Option User → Board → Attempt AiTask × Board
trigger_agent f keys at v name user b = trigger_found f keys at v user (get_agent v name) b
