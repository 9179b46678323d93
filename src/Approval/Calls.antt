-- ===== src/Approval/Calls.antt =====
-- What users' calls leave for the poll and the channel of a waiting run (src/ai/aimanager_api.go,
-- aimanager_cancel.go, aimanager_execute.go, aimanager_delete.go).
use mogenius_operator.Prelude.{
  String, Bool, true, false, not, ◌&&◌, ◌||◌, Option, none, some, List, [], ◌∷◌, ◌==◌, ◌≡◌, refl,
  ◌∙◌, ap, arith, eq_refl, Bool-cases, inl, inr, is_some, snoc,
}
use mogenius_operator.Prelude.Assoc.{lookup, lookup-insert, lookup-remove}
use mogenius_operator.Access.{User}
use mogenius_operator.Task.{
  AiTask, AiTaskState, ApprovalRecord, is_executing, executing, pending, in_progress, cancelling,
  canceled, executed, rejected, solved,
}
use mogenius_operator.Task.Store.{
  ApprovalSignal, Faults, World, Item, task, text, Result, ok, err, create_or_update_ai_task,
  notify_task_changed, continue, put, drop_key, task_cancel_key, send_ai_delete_event,
}
use mogenius_operator.Task.Api.{
  load_task, set_state, with_task, is_settable, update_task_state, cancel_task, cancel_in,
  mark_cancelling, saved, canceled_by_message, cancel_local_run, decide_task, approve_task,
  reject_task, signal_approval, push_signal, is_proposed, delete_task, delete_in, erase_task,
  run_steps_key, rejection_message,
}
use mogenius_operator.Task.Laws.{IsTaskKey, lookup-save, lookup-put_other, cancel-ne-task}
use mogenius_operator.Task.Machine.{Call, run_call, cancel, approve, reject, set_to, delete}
use mogenius_operator.Approval.{Happening, user_call, approver_of}
use mogenius_operator.Approval.Signals.{save_keeps, put_keeps}

-- A stored task that a poll takes for an approval names its approver.
abbrev pub task_ok : AiTask → Bool
task_ok t = elim t.state [
  | executed ↦ not ((approver_of t.approval).email == "")
  | solved ↦ false
  | _ ↦ true
]

-- A state that no poll takes for an approval by itself.
abbrev pub task_settles : AiTaskState → Bool
task_settles solved = false
task_settles _ = true

abbrev pub item_ok : Option Item → Bool
item_ok none = true
item_ok (some (text s)) = true
item_ok (some (task t)) = task_ok t

abbrev pub signal_ok : ApprovalSignal → Bool
signal_ok s = is_some s.rejection || not (s.approver.email == "")

abbrev pub signals_ok : List ApprovalSignal → Bool
signals_ok [] = true
signals_ok (s ∷ rest) = signal_ok s && signals_ok rest

abbrev pub channel_ok : Option (List ApprovalSignal) → Bool
channel_ok none = true
channel_ok (some queue) = signals_ok queue

-- What the wait relies on.
abbrev pub WorldOk : String → World → Type 0
WorldOk id w =
    (item_ok (lookup id w.db) ≡ true) × (channel_ok (lookup id w.pending_approvals) ≡ true)

-- Every call but the one that sets a task to solved.
abbrev pub decides : Call → Bool
decides (set_to s) = task_settles s
decides _ = true

-- What happens without anybody setting the task to solved.
abbrev pub none_solves : List Happening → Bool
none_solves [] = true
none_solves (user_call g c ∷ hs) = decides c && none_solves hs
none_solves (h ∷ hs) = none_solves hs

module _ (f : Faults) (id : String) (k : IsTaskKey id) where
  save_ok :
      (t : AiTask) (w : World)
      → WorldOk id w
      → task_ok t ≡ true
      → WorldOk id (create_or_update_ai_task f t id w).1
  save_ok t w h g = (
    ground (arith, lookup-save f t id id w k, eq_refl id, h.0, g),
    ap (λ m. channel_ok (lookup id m)) (save_keeps f t id w) ∙ h.1,
  )

  set_ok :
      (r : Result AiTask) (s : AiTaskState) (w : World)
      → WorldOk id w
      → is_settable s ≡ true
      → (task_settles s ≡ true)
      → WorldOk id (with_task r (set_state f id s) w).1
  unfolding is_settable
  set_ok (err e) s w h g n = h
  set_ok (ok t) s w h g n = elim (Bool-cases (is_executing t.state)) [
    | inl e ↦ rw e h
    | inr e ↦ rw e (save_ok (record t { state = s }) w h (ground (arith, g, n)))
  ]

  saved_ok :
      (last : World → World) (r : Result AiTask × World)
      → WorldOk id r.1
      → ((v : World) → WorldOk id v → WorldOk id (last v))
      → WorldOk id (saved last r).1
  unfolding notify_task_changed
  saved_ok last (err e, w) h go = h
  saved_ok last (ok t, w) h go = go (notify_task_changed t w) h

  abort_ok : (w : World) → WorldOk id w → WorldOk id (cancel_local_run id w)
  unfolding cancel_local_run
  abort_ok w h = (ground (arith, h.0), ground (arith, h.1))

  marker_ok :
      (s : String) (w : World) → WorldOk id w → WorldOk id (put f (task_cancel_key id) (text s) w).1
  marker_ok s w h = (
    ap item_ok (lookup-put_other f (task_cancel_key id) id (text s) w (cancel-ne-task id id k))
        ∙ h.0,
    ap (λ m. channel_ok (lookup id m)) (put_keeps f (task_cancel_key id) (text s) w) ∙ h.1,
  )

  continue_ok :
      (r : Result (Unit {0}) × World) (go : World → Result AiTask × World)
      → WorldOk id r.1
      → ((v : World) → WorldOk id v → WorldOk id (go v).1)
      → WorldOk id (continue r (λ u v. go v)).1
  continue_ok (err e, w) go h keep = h
  continue_ok (ok u, w) go h keep = keep w h

  marking_ok :
      (user : User) (t : AiTask) (w : World)
      → WorldOk id w
      → WorldOk id (mark_cancelling f id user t w).1
  marking_ok user t w h =
      let next = record t { state = cancelling; error = canceled_by_message user } in
      saved_ok (cancel_local_run id) (create_or_update_ai_task f next id w) (save_ok next w h refl)
        abort_ok

  cancel_ok :
      (s : AiTaskState) (user : User) (t : AiTask) (w : World)
      → WorldOk id w
      → WorldOk id (cancel_in s f id user t w).1
  unfolding cancel_in
  cancel_ok pending user t w h =
      let next = record t { state = canceled; error = canceled_by_message user } in
      saved_ok (λ v. v) (create_or_update_ai_task f next id w) (save_ok next w h refl) (λ v g. g)
  cancel_ok in_progress user t w h =
      continue_ok (put f (task_cancel_key id) (text (canceled_by_message user)) w)
        (mark_cancelling f id user t) (marker_ok (canceled_by_message user) w h) (marking_ok user t)
  cancel_ok cancelling user t w h = h
  cancel_ok _ user t w h = h

  loaded_ok :
      (r : Result AiTask) (go : AiTask → World → Result AiTask × World) (w : World)
      → WorldOk id w
      → ((t : AiTask) → WorldOk id (go t w).1)
      → WorldOk id (with_task r go w).1
  loaded_ok (err e) go w h keep = h
  loaded_ok (ok t) go w h keep = keep t

  push_ok :
      (q : List ApprovalSignal) (s : ApprovalSignal)
      → signals_ok q ≡ true
      → signal_ok s ≡ true
      → signals_ok (snoc q s) ≡ true
  push_ok [] s h g = ground arith
  push_ok (x ∷ q) s h g = ground (arith, push_ok q s)

  signal_pushed :
      (s : ApprovalSignal) (w : World) (o : Option (List ApprovalSignal))
      → WorldOk id w
      → lookup id w.pending_approvals ≡ o
      → signal_ok s ≡ true
      → WorldOk id (push_signal s id w o)
  signal_pushed s w none h l g = h
  signal_pushed s w (some q) h l g = (
    h.0,
    ground (
      arith,
      lookup-insert id id (snoc q s) w.pending_approvals,
      eq_refl id,
      push_ok q s,
      g,
      h.1,
      l,
    ),
  )

  signaled_ok :
      (s : ApprovalSignal)
      → signal_ok s ≡ true
      → (w : World) → WorldOk id w
      → WorldOk id (signal_approval id s w)
  unfolding signal_approval
  signaled_ok s g w h = signal_pushed s w (lookup id w.pending_approvals) h refl g

  decided_ok :
      (user : User) (s : AiTaskState) (a : ApprovalRecord) (signal : ApprovalSignal) (t : AiTask)
      (w : World)
      → WorldOk id w
      → ((user.email == "") ≡ false → task_ok (record t { state = s; approval = some a }) ≡ true)
      → ((user.email == "") ≡ false → signal_ok signal ≡ true)
      → WorldOk id (decide_task f id user s a signal t w).1
  unfolding decide_task
  decided_ok user s a signal t w h item sent =
      let next = record t { state = s; approval = some a } in
      elim (Bool-cases (is_proposed t.state)) [
        | inr p ↦ rw p h
        | inl p ↦ rw p (elim (Bool-cases (user.email == "")) [
          | inl e ↦ rw e h
          | inr e ↦ rw e (
              saved_ok (signal_approval id signal) (create_or_update_ai_task f next id w)
                (save_ok next w h (item e)) (signaled_ok signal (sent e)))
        ])
      ]

  dropped_ok : (key : String) (w : World) → WorldOk id w → WorldOk id (drop_key f key w).1
  unfolding drop_key
  dropped_ok key w h = (ground (arith, lookup-remove key id w.db, h.0), ground (arith, h.1))

  erased_ok : (t : AiTask) (w : World) → WorldOk id w → WorldOk id (erase_task f id t w).1
  unfolding send_ai_delete_event
  erased_ok t w h =
      continue_ok (drop_key f id w)
        (λ v. (ok t, send_ai_delete_event id (drop_key f (run_steps_key id) v).1))
        (dropped_ok id w h) (dropped_ok (run_steps_key id))

  deleted_ok :
      (s : AiTaskState) (t : AiTask) (w : World)
      → WorldOk id w
      → WorldOk id (delete_in s f id t w).1
  unfolding delete_in
  deleted_ok in_progress t w h = h
  deleted_ok executing t w h = h
  deleted_ok cancelling t w h = h
  deleted_ok _ t w h = erased_ok t w h

  pub call_ok :
      (c : Call) (w : World) → decides c ≡ true → WorldOk id w → WorldOk id (run_call f id c w).1
  unfolding run_call cancel_task approve_task reject_task update_task_state delete_task
  call_ok (cancel user) w d h =
      loaded_ok (load_task f id w) (λ t v. cancel_in t.state f id user t v) w h
        (λ t. cancel_ok t.state user t w h)
  call_ok (approve user) w d h =
      let a : ApprovalRecord = record { user = user; at = w.now; rejected = false; reason = "" } in
      let s : ApprovalSignal = record { approver = user; rejection = none } in
      loaded_ok (load_task f id w) (decide_task f id user executed a s) w h
        (λ t. decided_ok user executed a s t w h (λ e. ground (arith, e)) (λ e. ground (arith, e)))
  call_ok (reject user reason) w d h =
      let a : ApprovalRecord = record {
        user = user;
        at = w.now;
        rejected = true;
        reason = reason;
      } in
      let s : ApprovalSignal = record {
        approver = user;
        rejection = some (rejection_message user reason);
      } in
      loaded_ok (load_task f id w) (decide_task f id user rejected a s) w h
        (λ t. decided_ok user rejected a s t w h (λ e. refl) (λ e. refl))
  call_ok (set_to s) w d h = elim (Bool-cases (is_settable s)) [
    | inl g ↦ rw g (set_ok (load_task f id w) s w h g d)
    | inr g ↦ rw g h
  ]
  call_ok delete w d h =
      loaded_ok (load_task f id w) (λ t v. delete_in t.state f id t v) w h
        (λ t. deleted_ok t.state t w h)
