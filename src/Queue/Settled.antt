-- ===== src/Queue/Settled.antt =====
-- What the passes over all stored tasks leave (src/ai/aimanager.go).
use mogenius_operator.Prelude.{
  String, Bool, true, false, ◌||◌, Option, none, some, List, [], ◌∷◌, ◌==◌, if◌then◌else◌, ◌≡◌, ◌⊎◌,
  refl, arith, eq_iff, contains, Bool-cases, inl, inr,
}
use mogenius_operator.Prelude.Assoc.{lookup}
use mogenius_operator.Task.{
  AiTask, AiTaskState, is_executing, pending, in_progress, cancelling, canceled, executing,
  execution_failed,
}
use mogenius_operator.Task.Store.{
  Faults, World, Item, task, text, Result, ok, err, get_task_by_key, parse_item,
  create_or_update_ai_task, task_cancel_key,
}
use mogenius_operator.Task.Laws.{IsTaskKey, lookup-save, lookup-drop_key, cancel-ne-task}
use mogenius_operator.Queue.Startup.{
  is_in_progress, is_cancelling, clear_task_cancel_request, reset_task, on_task, reset_key,
  reset_keys, reset_in_progress_tasks_on_startup,
}

-- The state of a stored task.
abbrev pub state_of : Option Item → Option AiTaskState
state_of (some (task t)) = some t.state
state_of (some (text s)) = none
state_of none = none

-- What a restart makes of a state: an interrupted run waits again, a cancel is final, and an
-- interrupted execution is never repeated.
abbrev pub after_restart : AiTaskState → AiTaskState
after_restart in_progress = pending
after_restart cancelling = canceled
after_restart executing = execution_failed
after_restart s = s

abbrev pub map_state : Option AiTaskState → Option AiTaskState
map_state none = none
map_state (some s) = some (after_restart s)

abbrev pub is_running : Option AiTaskState → Bool
is_running none = false
is_running (some s) = is_in_progress s || is_cancelling s || is_executing s

saved_state :
    (f : Faults) (t : AiTask) (key j : String) (w : World)
    → IsTaskKey j
    → f.set_fails j ≡ false
    → state_of (lookup j (create_or_update_ai_task f t key w).1.db)
      ≡ (if key == j then some t.state else state_of (lookup j w.db))
saved_state f t key j w h s = elim (Bool-cases (key == j)) [
  | inl e ↦ ground (arith, lookup-save f t key j w h, eq_iff key j)
  | inr e ↦ ground (arith, lookup-save f t key j w h)
]

marker_cleared :
    (f : Faults) (id j : String) (w : World)
    → IsTaskKey j
    → state_of (lookup j (clear_task_cancel_request f id w).db) ≡ state_of (lookup j w.db)
unfolding clear_task_cancel_request
marker_cleared f id j w h =
    ground (arith, lookup-drop_key f (task_cancel_key id) j w, cancel-ne-task j id h)

-- One task of the pass: its own entry settles, every other one stays.
reset_task_state :
    (f : Faults) (key j : String) (t : AiTask) (w : World)
    → IsTaskKey j
    → f.set_fails j ≡ false
    → lookup key w.db ≡ some (task t)
    → state_of (lookup j (reset_task f key t w).db)
      ≡ (if key == j then map_state (state_of (lookup j w.db)) else state_of (lookup j w.db))
unfolding reset_task
reset_task_state f key j t w h s l =
    let waiting = record t { state = pending; error = ""; current_activity = "" } in
    let final = record t {
      state = canceled;
      current_activity = "";
      error = if t.error == "" then "canceled by user" else t.error;
    } in
    let unsure = record t {
      state = execution_failed;
      error = "operator restarted during execution; verify the target resource state manually";
    } in
    ground (
      arith,
      saved_state f waiting key j w h s,
      saved_state f final key j (clear_task_cancel_request f t.id w) h s,
      saved_state f unsure key j w h s,
      marker_cleared f t.id j w h,
      eq_iff key j,
    )

-- What a read says of the store.
abbrev pub Read : Faults → String → World → Result (Option AiTask) → Type 0
Read f key w (ok (some t)) = lookup key w.db ≡ some (task t)
Read f key w (ok none) = state_of (lookup key w.db) ≡ none
Read f key w (err e) = (f.get_fails key ≡ true) ⊎ (state_of (lookup key w.db) ≡ none)

Read-item :
    (f : Faults) (key : String) (w : World) (o : Option Item)
    → lookup key w.db ≡ o
    → f.get_fails key ≡ false
    → Read f key w (parse_item key o)
unfolding parse_item
Read-item f key w none l g = rw l refl
Read-item f key w (some (task t)) l g = l
Read-item f key w (some (text s)) l g = elim (Bool-cases (s == "")) [
  | inl e ↦ rw e (rw l refl)
  | inr e ↦ rw e (inr (rw l refl))
]

pub Read-lookup : (f : Faults) (key : String) (w : World) → Read f key w (get_task_by_key f key w)
unfolding get_task_by_key
Read-lookup f key w = elim (Bool-cases (f.get_fails key)) [
  | inl e ↦ rw e (inl e)
  | inr e ↦ rw e (Read-item f key w (lookup key w.db) refl e)
]

on_task_state :
    (f : Faults) (key j : String) (w : World) (r : Result (Option AiTask))
    → IsTaskKey j
    → f.set_fails j ≡ false
    → f.get_fails j ≡ false
    → Read f key w r
    → state_of (lookup j (on_task (reset_task f key) r w).db)
      ≡ (if key == j then map_state (state_of (lookup j w.db)) else state_of (lookup j w.db))
on_task_state f key j w (ok (some t)) h s g read = reset_task_state f key j t w h s read
on_task_state f key j w (ok none) h s g read = ground (arith, eq_iff key j)
on_task_state f key j w (err e) h s g read = ground (arith, eq_iff key j)

settles_once : (o : Option AiTaskState) → map_state (map_state o) ≡ map_state o
settles_once none = refl
settles_once (some s) = ground arith

not_running : (o : Option AiTaskState) → is_running (map_state o) ≡ false
not_running none = refl
not_running (some s) = ground arith

reset_keys_state :
    (f : Faults) (keys : List String) (j : String) (w : World)
    → IsTaskKey j
    → f.set_fails j ≡ false
    → f.get_fails j ≡ false
    → state_of (lookup j (reset_keys f keys w).db)
      ≡ (if contains keys j then map_state (state_of (lookup j w.db)) else state_of (lookup j w.db))
unfolding reset_keys reset_key
reset_keys_state f [] j w h s g = refl
reset_keys_state f (key ∷ keys) j w h s g =
    let step = on_task_state f key j w (get_task_by_key f key w) h s g (Read-lookup f key w) in
    let rest = reset_keys_state f keys j (reset_key f key w) h s g in
    ground (arith, step, rest, settles_once (state_of (lookup j w.db)))

-- The startup pass settles every task that its scan found, as far as the store answers for it: an
-- interrupted run waits again, a cancel is final, an interrupted execution has failed and is not
-- repeated, each other state stays, and no task is left in a state that waits for a run.
pub startup_settles :
    (f : Faults) (keys : List String) (j : String) (w : World)
    → IsTaskKey j
    → contains keys j ≡ true
    → f.set_fails j ≡ false
    → f.get_fails j ≡ false
    → (state_of (lookup j (reset_in_progress_tasks_on_startup f (some keys) w).1.db)
        ≡ map_state (state_of (lookup j w.db)))
      × (is_running (state_of (lookup j (reset_in_progress_tasks_on_startup f (some keys) w).1.db))
          ≡ false)
unfolding reset_in_progress_tasks_on_startup
startup_settles f keys j w h i s g =
    let settled = reset_keys_state f keys j w h s g in
    (ground (arith, settled), ground (arith, settled, not_running (state_of (lookup j w.db))))
