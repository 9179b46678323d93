-- ===== src/Task/Laws.antt =====
-- How the operations on tasks change the store (src/ai/aimanager.go, createOrUpdateAiTask).
use mogenius_operator.Prelude.{
  String, true, false, not, ◌&&◌, none, some, List, [], ◌∷◌, ◌==◌, ◌≡◌, refl, if◌then◌else◌, arith,
  ◌∙◌, Bool-cases, inl, inr,
}
use mogenius_operator.Prelude.Assoc.{lookup, insert, lookup-insert, lookup-remove}
use mogenius_operator.Prelude.Text.{has_prefix, mismatch, has_prefix-mismatch, ne_of_prefix}
use mogenius_operator.Task.{AiTask}
use mogenius_operator.Task.Store.{
  Faults, World, Item, task, ok, err, ignore, put, put_latest, drop_key, create_or_update_ai_task,
  kick, latest_task_key, latest_namespace_task_key, latest_task_namespaces, store_failed,
  task_cancel_key,
}
use mogenius_operator.Task.Api.{load_task, run_steps_key}

-- A key of the task bucket, "ai_tasks:…".
abbrev pub IsTaskKey : String → Type 0
IsTaskKey key = has_prefix "ai_tasks:" key ≡ true

-- Keys of the other buckets are no keys of tasks.
pub latest-ne-task : (key : String) → IsTaskKey key → (latest_task_key == key) ≡ false
unfolding has_prefix
latest-ne-task key h = ne_of_prefix "ai_tasks:" key latest_task_key h refl

pub latest_namespace-ne-task :
    (key ns : String) → IsTaskKey key → (latest_namespace_task_key ns == key) ≡ false
unfolding latest_namespace_task_key mismatch
latest_namespace-ne-task key ns h =
    ne_of_prefix "ai_tasks:" key (latest_namespace_task_key ns) h
      (has_prefix-mismatch "ai_tasks:" "ai_tasks_latest:latest-namespace-task:" ns refl)

pub cancel-ne-task : (key id : String) → IsTaskKey key → (task_cancel_key id == key) ≡ false
unfolding task_cancel_key mismatch
cancel-ne-task key id h =
    ne_of_prefix "ai_tasks:" key (task_cancel_key id) h
      (has_prefix-mismatch "ai_tasks:" "ai_task_cancel:" id refl)

-- The read of a task key goes through every write of a "latest" pointer.
pub lookup-put_other :
    (f : Faults) (k j : String) (i : Item) (w : World)
    → (k == j) ≡ false
    → lookup j (ignore (put f k i w)).db ≡ lookup j w.db
unfolding put
lookup-put_other f k j i w h = ground (arith, lookup-insert k j i w.db)

lookup-put_latest :
    (f : Faults) (t : AiTask) (nss : List String) (key : String) (w : World)
    → IsTaskKey key
    → lookup key (put_latest f t nss w).db ≡ lookup key w.db
unfolding put_latest
lookup-put_latest f t [] key w h = refl
lookup-put_latest f t (ns ∷ nss) key w h =
    lookup-put_latest f t nss key (ignore (put f (latest_namespace_task_key ns) (task t) w)) h
    ∙ lookup-put_other f (latest_namespace_task_key ns) key (task t) w
        (latest_namespace-ne-task key ns h)

lookup-pointers :
    (f : Faults) (t : AiTask) (nss : List String) (j : String) (w : World)
    → IsTaskKey j
    → lookup j (put_latest f t nss (ignore (put f latest_task_key (task t) (kick t.state w)))).db
      ≡ lookup j w.db
lookup-pointers f t nss j w h =
    lookup-put_latest f t nss j (ignore (put f latest_task_key (task t) (kick t.state w))) h
    ∙ lookup-put_other f latest_task_key j (task t) (kick t.state w) (latest-ne-task j h)

pub put_fails :
    (f : Faults) (k : String) (i : Item) (w : World)
    → f.set_fails k ≡ true
    → put f k i w ≡ (err (store_failed k), w)
unfolding put
put_fails f k i w h = rw h

pub put_works :
    (f : Faults) (k : String) (i : Item) (w : World)
    → f.set_fails k ≡ false
    → put f k i w ≡ (ok tt, record w { db = insert k i w.db })
unfolding put
put_works f k i w h = rw h

-- What a save does to the entry of a task key.
pub lookup-save :
    (f : Faults) (t : AiTask) (key j : String) (w : World)
    → IsTaskKey j
    → lookup j (create_or_update_ai_task f t key w).1.db ≡ (
        if not (f.set_fails key) && key == j
        then some (task (record t { updated_at = w.now }))
        else lookup j w.db)
unfolding create_or_update_ai_task
lookup-save f t key j w h =
    let s = record t { updated_at = w.now } in
    elim (Bool-cases (f.set_fails key)) [
      | inl e ↦ rw (put_fails f key (task s) w e) (rw e refl)
      | inr e ↦ rw (put_works f key (task s) w e) (
          lookup-pointers f s (latest_task_namespaces s key) j
            (record w { db = insert key (task s) w.db }) h
          ∙ rw e (lookup-insert key j (task s) w.db))
    ]

-- The result of a save, and what it leaves alone on an error.
pub save_result :
    (f : Faults) (t : AiTask) (key : String) (w : World)
    → create_or_update_ai_task f t key w ≡ (
        if f.set_fails key
        then (err (store_failed key), w)
        else (ok (record t { updated_at = w.now }), (create_or_update_ai_task f t key w).1))
unfolding create_or_update_ai_task
save_result f t key w =
    let s = record t { updated_at = w.now } in
    elim (Bool-cases (f.set_fails key)) [
      | inl e ↦ rw (put_fails f key (task s) w e) (rw e refl)
      | inr e ↦ rw (put_works f key (task s) w e) (rw e refl)
    ]

-- What a delete does to an entry.
pub lookup-drop_key :
    (f : Faults) (k j : String) (w : World)
    → lookup j (ignore (drop_key f k w)).db
      ≡ (if not (f.delete_fails k) && k == j then none else lookup j w.db)
unfolding drop_key
lookup-drop_key f k j w = ground (arith, lookup-remove k j w.db)

pub steps-ne-task : (key id : String) → IsTaskKey key → (run_steps_key id == key) ≡ false
unfolding run_steps_key mismatch
steps-ne-task key id h =
    ne_of_prefix "ai_tasks:" key (run_steps_key id) h
      (has_prefix-mismatch "ai_tasks:" "ai_run_steps:" id refl)

pub load_task-lookup :
    (f : Faults) (id : String) (w : World) (t : AiTask)
    → load_task f id w ≡ ok t
    → lookup id w.db ≡ some (task t)
unfolding load_task
load_task-lookup f id w t h = ground arith

pub lookup-steps_dropped :
    (f : Faults) (id j : String) (w : World)
    → IsTaskKey j
    → lookup j (ignore (drop_key f (run_steps_key id) w)).db ≡ lookup j w.db
lookup-steps_dropped f id j w h =
    lookup-drop_key f (run_steps_key id) j w ∙ ground (arith, steps-ne-task j id h)
