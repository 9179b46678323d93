-- ===== src/Queue/Orphans.antt =====
-- The cleanup of tasks whose resource is gone (src/ai/aimanager.go, cleanupOrphanedTasks).
use mogenius_operator.Prelude.{
  Bool, true, false, String, Bool, false, not, ◌&&◌, Option, none, some, List, [], ◌∷◌, ◌==◌,
  if◌then◌else◌, ◌≡◌, refl, arith, eq_iff, contains,
}
use mogenius_operator.Prelude.Assoc.{lookup}
use mogenius_operator.Task.{
  AiTask, AiTaskState, Workload, completed, failed, rejected, executed, execution_failed,
}
use mogenius_operator.Task.Store.{
  Faults, World, Item, task, text, Result, ok, err, drop_key, get_task_by_key, send_ai_delete_event,
}
use mogenius_operator.Task.Laws.{lookup-drop_key}
use mogenius_operator.Queue.Startup.{
  on_task, is_settled, cleanup_task, cleanup_keys, cleanup_orphaned_tasks,
}
use mogenius_operator.Queue.Settled.{Read, Read-lookup}

-- The states in which a task of a resource that has gone is deleted; canceled, ignored and solved
-- tasks are kept, and failed ones go also where they would be tried again.
abbrev pub goes_with_resource : AiTaskState → Bool
goes_with_resource completed = true
goes_with_resource failed = true
goes_with_resource rejected = true
goes_with_resource executed = true
goes_with_resource execution_failed = true
goes_with_resource _ = false

settled_lem : (s : AiTaskState) → is_settled s ≡ goes_with_resource s
settled_lem completed = refl
settled_lem failed = refl
settled_lem rejected = refl
settled_lem executed = refl
settled_lem execution_failed = refl
settled_lem _ = refl

-- A task in such a state that names a resource which is no longer there.
abbrev pub is_orphan : (Workload → Bool) → Option Item → Bool
is_orphan exists (some (task t)) =
    goes_with_resource t.state
    && not (t.referencing_resource.resource_name == "")
    && not (exists t.referencing_resource)
is_orphan exists (some (text s)) = false
is_orphan exists none = false

module _ (exists : Workload → Bool) (f : Faults) where
  lookup-cleanup_task :
      (key j : String) (t : AiTask) (w : World)
      → f.delete_fails j ≡ false
      → lookup key w.db ≡ some (task t)
      → lookup j (cleanup_task exists f key t w).db
        ≡ (if key == j && is_orphan exists (lookup j w.db) then none else lookup j w.db)
  unfolding cleanup_task send_ai_delete_event drop_key
  lookup-cleanup_task key j t w d l =
      ground (arith, lookup-drop_key f key j w, eq_iff key j, settled_lem t.state, l)

  lookup-on_task :
      (key j : String) (w : World) (r : Result (Option AiTask))
      → f.delete_fails j ≡ false
      → f.get_fails j ≡ false
      → Read f key w r
      → lookup j (on_task (cleanup_task exists f key) r w).db
        ≡ (if key == j && is_orphan exists (lookup j w.db) then none else lookup j w.db)
  lookup-on_task key j w (ok (some t)) d g read = lookup-cleanup_task key j t w d read
  lookup-on_task key j w (ok none) d g read = ground (arith, eq_iff key j)
  lookup-on_task key j w (err e) d g read = ground (arith, eq_iff key j)

  lookup-cleanup_keys :
      (keys : List String) (j : String) (w : World)
      → f.delete_fails j ≡ false
      → f.get_fails j ≡ false
      → lookup j (cleanup_keys exists f keys w).db
        ≡ (if contains keys j && is_orphan exists (lookup j w.db) then none else lookup j w.db)
  unfolding cleanup_keys
  lookup-cleanup_keys [] j w d g = refl
  lookup-cleanup_keys (key ∷ keys) j w d g =
      let read = get_task_by_key f key w in
      ground (
        arith,
        lookup-on_task key j w read d g (Read-lookup f key w),
        lookup-cleanup_keys keys j (on_task (cleanup_task exists f key) read w) d g,
      )

-- The cleanup deletes, of the keys that its scan found, exactly the completed, failed, rejected,
-- executed and execution-failed tasks that name a resource which the store no longer has, wherever
-- the reads and deletes of that key work; it changes no other entry.
pub cleanup_deletes_orphans :
    (exists : Workload → Bool) (f : Faults) (keys : List String) (j : String) (w : World)
    → f.delete_fails j ≡ false
    → f.get_fails j ≡ false
    → lookup j (cleanup_orphaned_tasks exists f (some keys) w).db
      ≡ (if contains keys j && is_orphan exists (lookup j w.db) then none else lookup j w.db)
unfolding cleanup_orphaned_tasks
cleanup_deletes_orphans exists f keys j w d g = lookup-cleanup_keys exists f keys j w d g
