-- ===== src/Approval/Laws.antt =====
-- What ends the wait for a decision (src/ai/agents.go, CreateApprovalRequest).
use mogenius_operator.Prelude.{
  String, false, none, some, List, [], ◌∷◌, ◌==◌, ◌≡◌, refl, ◌∙◌, ap, arith, eq_refl,
}
use mogenius_operator.Prelude.Assoc.{lookup}
use mogenius_operator.Access.{User}
use mogenius_operator.Task.{AiTask, is_executing, solved, executed, in_progress, proposed}
use mogenius_operator.Task.Store.{
  ApprovalSignal, Faults, World, task, Result, ok, err, create_or_update_ai_task,
  notify_task_changed,
}
use mogenius_operator.Task.Api.{update_task_state, load_task, is_settable, signal_approval}
use mogenius_operator.Task.Laws.{IsTaskKey, lookup-save}
use mogenius_operator.Task.Machine.{run_call, set_to, approve}
use mogenius_operator.Approval.{
  Happening, approved, user_call, tick, receive, decide, poll_task, wait_for_decision, leave,
  approver_of, reset_to_in_progress, resumed,
}
use mogenius_operator.Approval.Signals.{reads, save_keeps, approval_accepted, signaled}

set_solved :
    (f : Faults) (id : String) (w : World) (t : AiTask)
    → IsTaskKey id
    → lookup id w.db ≡ some (task t)
    → f.get_fails id ≡ false
    → f.set_fails id ≡ false
    → is_executing t.state ≡ false
    → lookup id (run_call f id (set_to solved) w).1.db
      ≡ some (task (record t { state = solved; updated_at = w.now }))
unfolding run_call update_task_state load_task is_settable
set_solved f id w t k l g s e =
    rw (reads f id w t l g)
      (rw e (lookup-save f (record t { state = solved }) id id w k ∙ ground (arith, eq_refl id, s)))

polls_solved :
    (f : Faults) (id : String) (w : World) (t : AiTask) (hs : List Happening)
    → lookup id w.db ≡ some (task t)
    → f.get_fails id ≡ false
    → t.state ≡ solved
    → (wait_for_decision f id (tick ∷ hs) w).0 ≡ approved (approver_of t.approval)
unfolding wait_for_decision decide poll_task
polls_solved f id w t hs l g e = rw (reads f id w t l g) (rw e refl)

-- A proposal that somebody marks as solved, instead of deciding it, is taken for an approval by the
-- next poll of the waiting run: the call goes ahead with the approver of the task's approval
-- record, or, where there is no record, with the zero user.
pub solved_counts_as_approval :
    (f g : Faults) (id : String) (w : World) (t : AiTask) (hs : List Happening)
    → IsTaskKey id
    → lookup id w.db ≡ some (task t)
    → is_executing t.state ≡ false
    → f.get_fails id ≡ false
    → g.get_fails id ≡ false
    → g.set_fails id ≡ false
    → (wait_for_decision f id (user_call g (set_to solved) ∷ tick ∷ hs) w).0
      ≡ approved (approver_of t.approval)
unfolding wait_for_decision decide
solved_counts_as_approval f g id w t hs k l e reads_f reads_g saves =
    polls_solved f id (run_call g id (set_to solved) w).1
      (record t { state = solved; updated_at = w.now }) hs (set_solved g id w t k l reads_g saves e)
      reads_f refl

resumed_db :
    (t : AiTask) (r : Result AiTask × World) (id : String)
    → lookup id (resumed t r).db ≡ lookup id r.1.db
unfolding notify_task_changed
resumed_db t (err e, w) id = refl
resumed_db t (ok x, w) id = refl

resumes :
    (f : Faults) (id : String) (w : World) (t : AiTask)
    → IsTaskKey id
    → lookup id w.db ≡ some (task t)
    → f.get_fails id ≡ false
    → f.set_fails id ≡ false
    → lookup id (reset_to_in_progress f id w).db
      ≡ some (task (record t { state = in_progress; response = none; updated_at = w.now }))
unfolding reset_to_in_progress
resumes f id w t k l g s =
    let next = record t { state = in_progress; response = none } in
    rw (reads f id w t l g) (
      resumed_db next (create_or_update_ai_task f next id w) id
      ∙ lookup-save f next id id w k
      ∙ ground (arith, eq_refl id, s))

receives :
    (f : Faults) (id : String) (w : World) (s : ApprovalSignal) (hs : List Happening)
    → lookup id w.pending_approvals ≡ some (s ∷ [])
    → s.rejection ≡ none
    → (wait_for_decision f id (receive ∷ hs) w).0 ≡ approved s.approver
unfolding wait_for_decision decide
receives f id w s hs l r = rw l (rw r refl)

polls_executed :
    (f : Faults) (id : String) (w : World) (t : AiTask) (hs : List Happening)
    → lookup id w.db ≡ some (task t)
    → f.get_fails id ≡ false
    → t.state ≡ executed
    → (wait_for_decision f id (tick ∷ hs) w).0 ≡ approved (approver_of t.approval)
unfolding wait_for_decision decide poll_task
polls_executed f id w t hs l g e = rw (reads f id w t l g) (rw e refl)

-- A user's approval of a proposed task reaches the run that waits for it, as the approval of that
-- user, on both paths: by the signal on the same replica, and by the next poll of the store.
pub approval_reaches_run :
    (f g : Faults) (id : String) (w : World) (t : AiTask) (user : User) (hs : List Happening)
    → IsTaskKey id
    → lookup id w.db ≡ some (task t)
    → t.state ≡ proposed
    → (user.email == "") ≡ false
    → f.get_fails id ≡ false
    → g.get_fails id ≡ false
    → g.set_fails id ≡ false
    → lookup id w.pending_approvals ≡ some []
    → ((wait_for_decision f id (user_call g (approve user) ∷ receive ∷ hs) w).0 ≡ approved user)
      × ((wait_for_decision f id (user_call g (approve user) ∷ tick ∷ hs) w).0 ≡ approved user)
unfolding wait_for_decision decide notify_task_changed
approval_reaches_run f g id w t user hs k l p e reads_f reads_g saves channel =
    let next = record t {
      state = executed;
      approval = some (record { user = user; at = w.now; rejected = false; reason = "" });
    } in
    let kept = (create_or_update_ai_task g next id w).1 in
    let told = notify_task_changed (record next { updated_at = w.now }) kept in
    let signal : ApprovalSignal = record { approver = user; rejection = none } in
    let (sent, same) =
      signaled id signal told (ap (lookup id) (save_keeps g next id w) ∙ channel) in
    let stored : lookup id (signal_approval id signal told).db
        ≡ some (task (record next { updated_at = w.now })) =
      rw same (lookup-save g next id id w k ∙ ground (arith, eq_refl id, saves)) in
    let accepted = approval_accepted g id w t user l p e reads_g saves in
    (
      rw accepted (receives f id (signal_approval id signal told) signal hs sent refl),
      rw accepted (
          polls_executed f id (signal_approval id signal told) (record next { updated_at = w.now })
            hs stored reads_f refl),
    )

left_db :
    (f : Faults) (id : String) (user : User) (w : World)
    → (leave f id (approved user) w).1.db ≡ (reset_to_in_progress f id w).db
left_db f id user w = refl

-- A run whose approval a poll finds goes on: its task is in progress again, without the pending
-- call, and keeps its record of the approval.
pub approved_run_resumes :
    (f : Faults) (id : String) (w : World) (t : AiTask) (hs : List Happening)
    → IsTaskKey id
    → lookup id w.db ≡ some (task t)
    → t.state ≡ executed
    → f.get_fails id ≡ false
    → f.set_fails id ≡ false
    → lookup id (wait_for_decision f id (tick ∷ hs) w).1.db
      ≡ some (task (record t { state = in_progress; response = none; updated_at = w.now }))
unfolding wait_for_decision decide poll_task
approved_run_resumes f id w t hs k l e g s =
    rw (reads f id w t l g) (rw e (resumes f id w t k l g s))
