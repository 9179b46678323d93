-- ===== src/Task/Examples.antt =====
-- The properties of the task operations at concrete stores, and runs of the code on them.
use mogenius_operator.Prelude.{String, false, none, some, [], ◌∷◌, ◌≡◌, refl}
use mogenius_operator.Prelude.Text.{has_prefix}
use mogenius_operator.Prelude.Assoc.{lookup, insert}
use mogenius_operator.Access.{User, zero_user}
use mogenius_operator.Task.{AiTask, AiTaskState, AiFilter, Workload, in_progress, cancelling}
use mogenius_operator.Task.Store.{
  Faults, World, task, task_cancel_key, put, create_or_update_ai_task, latest_task_namespaces,
  put_latest, latest_namespace_task_key, get_task_by_key,
}
use mogenius_operator.Task.Api.{cancel_task}
use mogenius_operator.Task.Machine.{cancel, run_call, Follows, run_call-Follows}

abbrev pub no_workload : Workload
no_workload = record {
  kind = "";
  plural = "";
  api_version = "";
  namespaced = false;
  namespace = "";
  resource_name = "";
}

abbrev pub no_filter : AiFilter
no_filter = record {
  id = "";
  name = "";
  description = "";
  kind = "";
  contains = [];
  excludes = [];
  prompt = "";
  for = none;
  is_active = false;
}

abbrev pub new_task : String → AiTaskState → AiTask
new_task id s = record {
  id = id;
  prompt = "look around";
  response = none;
  state = s;
  controller = none;
  tokens_used = 0;
  retries = 0;
  current_activity = "";
  run_id = "";
  model = "";
  time_used_in_ms = 0;
  created_at = 100;
  updated_at = 100;
  referencing_resource = no_workload;
  triggered_by = no_filter;
  read_by_users = [];
  error = "";
  agent_ref = "janitor";
  trigger = "manual";
  triggered_by_user = none;
  scope_namespaces = "dev" ∷ [];
  scope_all_namespaces = false;
  base_resource_version = "";
  approval = none;
  execution_result = "";
}

abbrev pub reliable : Faults
reliable = record { get_fails = λ k. false; set_fails = λ k. false; delete_fails = λ k. false }

abbrev pub ada : User
ada = record zero_user { email = "ada@example.com" }

abbrev pub run_key : String
run_key = "ai_tasks:Agent:dev:janitor-run-100"

abbrev pub world_with : AiTaskState → World
world_with s = record {
  db = (run_key, task (new_task run_key s)) ∷ [];
  now = 200;
  kicked = false;
  run_cancels = run_key ∷ [];
  aborted = [];
  pending_approvals = [];
  events = [];
}

cancel_running :
    (lookup run_key (cancel_task reliable run_key ada (world_with in_progress)).1.db
      ≡ some (
          task (record (new_task run_key cancelling) {
            error = "canceled by ada@example.com";
            updated_at = 200;
          })))
    × ((cancel_task reliable run_key ada (world_with in_progress)).1.aborted ≡ run_key ∷ [])
unfolding cancel_task create_or_update_ai_task put lookup insert put_latest latest_task_namespaces
    latest_namespace_task_key get_task_by_key task_cancel_key
cancel_running = (refl, refl)

run_call-Follows_example :
    Follows
      (new_task run_key in_progress)
      (lookup run_key (run_call reliable run_key (cancel ada) (world_with in_progress)).1.db)
unfolding lookup has_prefix
run_call-Follows_example =
    run_call-Follows reliable run_key run_key (cancel ada) (world_with in_progress)
      (new_task run_key in_progress) refl refl refl
