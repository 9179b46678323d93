-- ===== src/Task/Api.antt =====
-- The user-facing operations on tasks: UpdateTaskState and UpdateTaskReadState
-- (src/ai/aimanager_api.go), CancelTask (aimanager_cancel.go), ApproveTask and RejectTask
-- (aimanager_execute.go), DeleteTask (aimanager_delete.go).
use Prim.Native.String.{◌++◌}
use mogenius_operator.Prelude.{
  String, Bool, true, false, not, Option, none, some, List, [], ◌∷◌, ◌==◌, if◌then◌else◌, contains,
  snoc,
}
use mogenius_operator.Prelude.Assoc.{lookup, insert}
use mogenius_operator.Access.{User}
use mogenius_operator.Task.{
  AiTask, AiTaskState, ReadBy, ApprovalRecord, is_executing, pending, in_progress, cancelling,
  canceled, ignored, solved, proposed, executed, rejected, executing,
}
use mogenius_operator.Task.Store.{
  Faults, World, text, Result, ok, err, continue, ignore, put, drop_key, not_found, wrong_state,
  unattributed, not_settable, get_task_by_key, create_or_update_ai_task, notify_task_changed,
  send_ai_delete_event, task_cancel_key, ApprovalSignal,
}

-- genericStateTransitions
unfoldable pub is_settable : AiTaskState → Bool
is_settable pending = true
is_settable ignored = true
is_settable solved = true
is_settable _ = false

-- `if task == nil { return …not found }`
abbrev pub found : String → Option AiTask → Result AiTask
found id none = err (not_found id)
found id (some t) = ok t

abbrev pub flatten_found : String → Result (Option AiTask) → Result AiTask
flatten_found id (err e) = err e
flatten_found id (ok o) = found id o

unfoldable pub load_task : Faults → String → World → Result AiTask
unfolding get_task_by_key
load_task f id w = flatten_found id (get_task_by_key f id w)

-- The rest of a handler once its task is loaded; an error leaves the world alone.
abbrev pub with_task {ℓ} :
    {A : Type ℓ} → Result AiTask → (AiTask → World → Result A × World) → World → Result A × World
with_task (ok t) k w = k t w
with_task (err e) k w = (err e, w)

abbrev pub set_state : Faults → String → AiTaskState → AiTask → World → Result AiTask × World
set_state f id s t w =
    if is_executing t.state
    then (err (wrong_state id t.state), w)
    else create_or_update_ai_task f (record t { state = s }) id w

unfoldable pub update_task_state : Faults → String → AiTaskState → World → Result AiTask × World
unfolding is_settable load_task
update_task_state f id s w =
    if not (is_settable s)
    then (err (not_settable s), w)
    else with_task (load_task f id w) (set_state f id s) w

-- userSeesTaskForTheFirstTime, for a user that is no nil pointer
unfoldable pub sees_for_the_first_time : User → List ReadBy → Bool
sees_for_the_first_time user [] = true
sees_for_the_first_time user (r ∷ rest) =
    let later = sees_for_the_first_time user rest in
    if r.user.email == user.email then false else later

abbrev mark_read : Faults → String → User → AiTask → World → Result AiTask × World
mark_read f id user t w =
    if sees_for_the_first_time user t.read_by_users
    then create_or_update_ai_task f
        (record t {
          read_by_users = snoc t.read_by_users (record { user = user; read_at = w.now });
        })
        id w
    else (ok t, w)

unfoldable pub update_task_read_state : Faults → String → User → World → Result AiTask × World
unfolding load_task sees_for_the_first_time
update_task_read_state f id user w =
    if user.email == ""
    then (err unattributed, w)
    else with_task (load_task f id w) (mark_read f id user) w

unfoldable pub canceled_by_message : User → String
canceled_by_message user =
    if user.email == "" then "canceled by user" else "canceled by " ++ user.email

-- cancelLocalRun
unfoldable pub cancel_local_run : String → World → World
cancel_local_run id w =
    if contains w.run_cancels id then record w { aborted = id ∷ w.aborted } else w

-- A save, then the notification, then what the handler does last.
abbrev pub saved : (World → World) → Result AiTask × World → Result AiTask × World
saved last (err e, w) = (err e, w)
saved last (ok t, w) = (ok t, last (notify_task_changed t w))

abbrev pub mark_cancelling : Faults → String → User → AiTask → World → Result AiTask × World
mark_cancelling f id user t w = saved (cancel_local_run id) (
    create_or_update_ai_task f (record t { state = cancelling; error = canceled_by_message user })
      id w)

-- The switch of CancelTask.
unfoldable pub cancel_in :
    AiTaskState → Faults → String → User → AiTask → World → Result AiTask × World
unfolding canceled_by_message cancel_local_run notify_task_changed
cancel_in pending f id user t w =
    saved (λ v. v)
      (create_or_update_ai_task f (record t { state = canceled; error = canceled_by_message user })
        id w)
cancel_in in_progress f id user t w =
    continue (put f (task_cancel_key id) (text (canceled_by_message user)) w)
      (λ u v. mark_cancelling f id user t v)
cancel_in cancelling f id user t w = (ok t, w)
cancel_in s f id user t w = (err (wrong_state id s), w)

unfoldable pub cancel_task : Faults → String → User → World → Result AiTask × World
unfolding cancel_in load_task
cancel_task f id user w = with_task (load_task f id w) (λ t v. cancel_in t.state f id user t v) w

-- signalApproval: no waiting run, no effect.
abbrev pub push_signal : ApprovalSignal → String → World → Option (List ApprovalSignal) → World
push_signal s id w none = w
push_signal s id w (some queue) = record w {
  pending_approvals = insert id (snoc queue s) w.pending_approvals;
}

unfoldable pub signal_approval : String → ApprovalSignal → World → World
signal_approval id s w = push_signal s id w (lookup id w.pending_approvals)

abbrev pub is_proposed : AiTaskState → Bool
is_proposed proposed = true
is_proposed _ = false

unfoldable pub decide_task :
    Faults
    → String
    → User
    → AiTaskState
    → ApprovalRecord
    → ApprovalSignal
    → AiTask
    → World
    → Result AiTask × World
unfolding signal_approval notify_task_changed
decide_task f id user s decision signal t w =
    if not (is_proposed t.state)
    then (err (wrong_state id t.state), w)
    else if user.email == ""
    then (err unattributed, w)
    else saved (signal_approval id signal)
        (create_or_update_ai_task f (record t { state = s; approval = some decision }) id w)

unfoldable pub approve_task : Faults → String → User → World → Result AiTask × World
unfolding decide_task load_task
approve_task f id user w =
    with_task (load_task f id w)
      (decide_task f id user executed
        (record { user = user; at = w.now; rejected = false; reason = "" })
        (record { approver = user; rejection = none }))
      w

unfoldable pub rejection_message : User → String → String
rejection_message user reason =
    if reason == ""
    then "rejected by " ++ user.email
    else "rejected by " ++ user.email ++ ": " ++ reason

unfoldable pub reject_task : Faults → String → User → String → World → Result AiTask × World
unfolding decide_task load_task
reject_task f id user reason w =
    with_task (load_task f id w)
      (decide_task f id user rejected
        (record { user = user; at = w.now; rejected = true; reason = reason })
        (record { approver = user; rejection = some (rejection_message user reason) }))
      w

-- runStepsKey (src/ai/runsteps.go)
unfoldable pub run_steps_key : String → String
run_steps_key run_id = "ai_run_steps:" ++ run_id

abbrev pub erase_task : Faults → String → AiTask → World → Result AiTask × World
erase_task f id t w =
    continue (drop_key f id w)
      (λ u v. (ok t, send_ai_delete_event id (ignore (drop_key f (run_steps_key id) v))))

unfoldable pub delete_in : AiTaskState → Faults → String → AiTask → World → Result AiTask × World
unfolding send_ai_delete_event
delete_in in_progress f id t w = (err (wrong_state id t.state), w)
delete_in executing f id t w = (err (wrong_state id t.state), w)
delete_in cancelling f id t w = (err (wrong_state id t.state), w)
delete_in s f id t w = erase_task f id t w

unfoldable pub delete_task : Faults → String → World → Result AiTask × World
unfolding delete_in load_task
delete_task f id w = with_task (load_task f id w) (λ t v. delete_in t.state f id t v) w
