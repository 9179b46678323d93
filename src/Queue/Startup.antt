-- ===== src/Queue/Startup.antt =====
-- src/ai/aimanager.go: resetInProgressTasksOnStartup and cleanupOrphanedTasks, the passes over all
-- stored tasks. The keys come from a scan of the store, whose failure is `none`.
use mogenius_operator.Prelude.{
  String, Bool, true, false, not, Option, none, some, List, [], ◌∷◌, ◌==◌, if◌then◌else◌,
}
use mogenius_operator.Task.{
  AiTask, AiTaskState, Workload, is_executing, pending, in_progress, cancelling, canceled,
  execution_failed, completed, failed, rejected, executed,
}
use mogenius_operator.Task.Store.{
  Faults, World, Result, ok, err, ignore, drop_key, get_task_by_key, create_or_update_ai_task,
  send_ai_delete_event, task_cancel_key,
}

abbrev pub is_in_progress : AiTaskState → Bool
is_in_progress in_progress = true
is_in_progress _ = false

abbrev pub is_cancelling : AiTaskState → Bool
is_cancelling cancelling = true
is_cancelling _ = false

unfoldable pub clear_task_cancel_request : Faults → String → World → World
clear_task_cancel_request f id w = ignore (drop_key f (task_cancel_key id) w)

-- The three ifs of the loop's body; none of the states that they write is tested by a later one.
unfoldable pub reset_task : Faults → String → AiTask → World → World
unfolding clear_task_cancel_request
reset_task f key t w =
    if is_in_progress t.state
    then ignore (
        create_or_update_ai_task f (record t { state = pending; error = ""; current_activity = "" })
          key w)
    else if is_cancelling t.state
    then ignore (
        create_or_update_ai_task f
          (record t {
            state = canceled;
            current_activity = "";
            error = if t.error == "" then "canceled by user" else t.error;
          })
          key (clear_task_cancel_request f t.id w))
    else if is_executing t.state
    then ignore (
        create_or_update_ai_task f
          (record t {
            state = execution_failed;
            error =
                "operator restarted during execution; verify the target resource state manually";
          })
          key w)
    else w

-- An item that cannot be read, or is no task, is skipped.
abbrev pub on_task : (AiTask → World → World) → Result (Option AiTask) → World → World
on_task body (ok (some t)) w = body t w
on_task body (ok none) w = w
on_task body (err e) w = w

unfoldable pub reset_key : Faults → String → World → World
reset_key f key w = on_task (reset_task f key) (get_task_by_key f key w) w

unfoldable pub reset_keys : Faults → List String → World → World
reset_keys f [] w = w
reset_keys f (key ∷ keys) w = reset_keys f keys (reset_key f key w)

-- The result says whether the scan worked.
unfoldable pub reset_in_progress_tasks_on_startup :
    Faults → Option (List String) → World → Bool × World
unfolding reset_keys
reset_in_progress_tasks_on_startup f none w = (false, w)
reset_in_progress_tasks_on_startup f (some keys) w = (true, reset_keys f keys w)

-- The states that cleanupOrphanedTasks looks at.
abbrev pub is_settled : AiTaskState → Bool
is_settled completed = true
is_settled failed = true
is_settled rejected = true
is_settled executed = true
is_settled execution_failed = true
is_settled _ = false

abbrev delete_orphan : String → Result (Unit {0}) × World → World
delete_orphan key (err e, w) = w
delete_orphan key (ok u, w) = send_ai_delete_event key w

-- `exists` says whether the resource store (src/store) finds a resource.
unfoldable pub cleanup_task : (Workload → Bool) → Faults → String → AiTask → World → World
cleanup_task exists f key t w =
    if not (is_settled t.state)
    then w
    else if t.referencing_resource.resource_name == ""
    then w
    else if exists t.referencing_resource
    then w
    else delete_orphan key (drop_key f key w)

unfoldable pub cleanup_keys : (Workload → Bool) → Faults → List String → World → World
unfolding cleanup_task
cleanup_keys exists f [] w = w
cleanup_keys exists f (key ∷ keys) w =
    cleanup_keys exists f keys (on_task (cleanup_task exists f key) (get_task_by_key f key w) w)

unfoldable pub cleanup_orphaned_tasks :
    (Workload → Bool) → Faults → Option (List String) → World → World
unfolding cleanup_keys
cleanup_orphaned_tasks exists f none w = w
cleanup_orphaned_tasks exists f (some keys) w = cleanup_keys exists f keys w
