-- ===== src/Task/Machine.antt =====
-- The state machine of a task under the calls of users (src/ai/aimanager_api.go,
-- aimanager_cancel.go, aimanager_execute.go, aimanager_delete.go).
use mogenius_operator.Prelude.{
  String, Bool, true, false, Option, none, some, ◌==◌, ◌≡◌, refl, sym, subst, arith, eq_iff, ap,
  ◌∙◌, Bool-cases, inl, inr, ◌⊎◌,
}
use mogenius_operator.Prelude.Assoc.{lookup}
use mogenius_operator.Access.{User}
use mogenius_operator.Task.{
  AiTask, AiTaskState, ApprovalRecord, is_executing, pending, in_progress, completed, cancelling,
  canceled, proposed, rejected, executing, executed,
}
use mogenius_operator.Task.Store.{
  Faults, World, Item, task, text, Result, ok, err, create_or_update_ai_task, ApprovalSignal, put,
  continue, drop_key, task_cancel_key, ignore, notify_task_changed, send_ai_delete_event,
}
use mogenius_operator.Task.Api.{
  load_task, update_task_state, is_settable, cancel_task, cancel_in, approve_task, reject_task,
  decide_task, delete_task, delete_in, canceled_by_message, cancel_local_run, signal_approval,
  run_steps_key, saved, mark_cancelling, set_state, is_proposed, with_task,
}
use mogenius_operator.Task.Laws.{
  IsTaskKey, lookup-put_other, lookup-save, cancel-ne-task, lookup-drop_key, lookup-steps_dropped,
  load_task-lookup,
}

-- The calls of a user on one task.
pub data Call : Type 0 where
  cancel approve : User → Call
  reject : User → String → Call
  set_to : AiTaskState → Call
  delete : Call

unfoldable pub run_call : Faults → String → Call → World → Result AiTask × World
run_call f id (cancel user) w = cancel_task f id user w
run_call f id (approve user) w = approve_task f id user w
run_call f id (reject user reason) w = reject_task f id user reason w
run_call f id (set_to s) w = update_task_state f id s w
run_call f id delete w = delete_task f id w

-- The edges of the diagram.
pub data Edge : AiTaskState → AiTaskState → Type 0 where
  drop_queued : Edge pending canceled
  request_cancel : Edge in_progress cancelling
  accept : Edge proposed executed
  refuse : Edge proposed rejected
  set_directly : {s s' : AiTaskState} → is_executing s ≡ false → is_settable s' ≡ true → Edge s s'

-- The states in which a task cannot be deleted.
abbrev pub is_kept : AiTaskState → Bool
is_kept in_progress = true
is_kept executing = true
is_kept cancelling = true
is_kept _ = false

-- What may become of the entry of a task: it stays, its state follows an edge, or it is deleted
-- in a state other than in progress, executing and cancelling.
abbrev pub Follows : AiTask → Option Item → Type 0
Follows t o =
    (o ≡ some (task t))
    ⊎ ((t' : AiTask) × (o ≡ some (task t')) × Edge t.state t'.state)
    ⊎ ((o ≡ none) × (is_kept t.state ≡ false))

proposed-cases : (s : AiTaskState) → (s ≡ proposed) ⊎ (is_proposed s ≡ false)
proposed-cases proposed = inl refl
proposed-cases pending = inr refl
proposed-cases _ = inr refl

-- A save of a new version of the task that is stored there.
save-Follows :
    (f : Faults) (id j : String) (w : World) (t t' r : AiTask)
    → IsTaskKey j
    → lookup id w.db ≡ some (task t)
    → Edge t.state t'.state
    → lookup j w.db ≡ some (task r)
    → Follows r (lookup j (create_or_update_ai_task f t' id w).1.db)
save-Follows f id j w t t' r h e edge s =
    rw (lookup-save f t' id j w h) (elim (Bool-cases (f.set_fails id)) [
      | inl bad ↦ rw bad (inl s)
      | inr good ↦ rw good (elim (Bool-cases (id == j)) [
        | inl same ↦
            let at_j : lookup id w.db ≡ lookup j w.db =
              ap (λ k. lookup k w.db) ((eq_iff id j).0 same) in
            let same_task : t ≡ r = cc (e, s, at_j) in
            let q : t.state ≡ r.state = ap (λ (x : AiTask). x.state) same_task in
            rw same (
              inr
                (inl (record t' { updated_at = w.now }, refl, subst (λ x. Edge x t'.state) q edge)))
        | inr other ↦ rw other (inl s)
      ])
    ])

-- What a handler does after a save leaves the store alone.
pub saved-db :
    (last : World → World) (r : Result AiTask × World)
    → ((v : World) → (last v).db ≡ v.db)
    → (saved last r).1.db ≡ r.1.db
unfolding notify_task_changed
saved-db last (ok t, w) h = h (notify_task_changed t w)
saved-db last (err e, w) h = refl

cancel_local_run-db : (id : String) (w : World) → (cancel_local_run id w).db ≡ w.db
unfolding cancel_local_run
cancel_local_run-db id w = ground arith

signal_approval-db :
    (id : String) (s : ApprovalSignal) (w : World) → (signal_approval id s w).db ≡ w.db
unfolding signal_approval
signal_approval-db id s w = ground arith

saved-Follows :
    (last : World → World) (r : Result AiTask × World) (j : String) (x : AiTask)
    → ((v : World) → (last v).db ≡ v.db)
    → Follows x (lookup j r.1.db)
    → Follows x (lookup j (saved last r).1.db)
saved-Follows last r j x h p = rw (saved-db last r h) p

module _ (f : Faults) (id j : String) (w : World) (t r : AiTask) where
  module _ (hid : IsTaskKey id) (h : IsTaskKey j) (e : lookup id w.db ≡ some (task t))
      (s : lookup j w.db ≡ some (task r)) where
    -- The cancel marker is no task.
    marker-lookup :
        (user : User) (m : Result (Unit {0}) × World)
        → m ≡ put f (task_cancel_key id) (text (canceled_by_message user)) w
        → (k : String) → IsTaskKey k
        → lookup k m.1.db ≡ lookup k w.db
    marker-lookup user m q k hk =
        ap (λ (x : Result (Unit {0}) × World). lookup k x.1.db) q
        ∙ lookup-put_other f (task_cancel_key id) k (text (canceled_by_message user)) w
            (cancel-ne-task k id hk)

    cancelling-Follows :
        (user : User) (m : Result (Unit {0}) × World)
        → m ≡ put f (task_cancel_key id) (text (canceled_by_message user)) w
        → t.state ≡ in_progress
        → Follows r (lookup j (continue m (λ u v. mark_cancelling f id user t v)).1.db)
    cancelling-Follows user (err x, v) q st = inl (marker-lookup user (err x, v) q j h ∙ s)
    cancelling-Follows user (ok u, v) q st =
        let t' = record t { state = cancelling; error = canceled_by_message user } in
        saved-Follows (cancel_local_run id) (create_or_update_ai_task f t' id v) j r
          (cancel_local_run-db id)
          (save-Follows f id j v t t' r h (marker-lookup user (ok u, v) q id hid ∙ e)
            (rw st request_cancel) (marker-lookup user (ok u, v) q j h ∙ s))

    cancel_in-Follows :
        (user : User) (st : AiTaskState)
        → t.state ≡ st
        → Follows r (lookup j (cancel_in st f id user t w).1.db)
    unfolding cancel_in
    cancel_in-Follows user pending q =
        saved-Follows (λ v. v)
          (create_or_update_ai_task f
            (record t { state = canceled; error = canceled_by_message user }) id w)
          j r (λ v. refl)
          (save-Follows f id j w t (record t { state = canceled; error = canceled_by_message user })
            r h e (rw q drop_queued) s)
    cancel_in-Follows user in_progress q = cancelling-Follows user _ refl q
    cancel_in-Follows user _ q = inl s

    -- Approve and reject: the edge is the one that leads to the decision's state.
    decide-Follows :
        (user : User) (st : AiTaskState) (d : ApprovalRecord) (g : ApprovalSignal)
        → ((t.state ≡ proposed) → Edge t.state st)
        → Follows r (lookup j (decide_task f id user st d g t w).1.db)
    unfolding decide_task
    decide-Follows user st d g edge = elim (proposed-cases t.state) [
      | inl yes_proposed ↦ rw (ap is_proposed yes_proposed) (elim (Bool-cases (user.email == "")) [
        | inl no_user ↦ rw no_user (inl s)
        | inr attributed ↦
            let t' = record t { state = st; approval = some d } in
            rw attributed (
              saved-Follows (signal_approval id g) (create_or_update_ai_task f t' id w) j r
                (signal_approval-db id g) (save-Follows f id j w t t' r h e (edge yes_proposed) s))
      ])
      | inr not_proposed ↦ rw not_proposed (inl s)
    ]

    set_state-Follows :
        (st : AiTaskState)
        → is_settable st ≡ true
        → Follows r (lookup j (set_state f id st t w).1.db)
    set_state-Follows st ok_state = elim (Bool-cases (is_executing t.state)) [
      | inl busy ↦ rw busy (inl s)
      | inr idle ↦
          rw idle
            (save-Follows f id j w t (record t { state = st }) r h e (set_directly idle ok_state) s)
    ]

    gone-Follows : is_kept t.state ≡ false → Follows r (lookup j (ignore (drop_key f id w)).db)
    gone-Follows idle = rw (lookup-drop_key f id j w) (elim (Bool-cases (f.delete_fails id)) [
      | inl bad ↦ rw bad (inl s)
      | inr good ↦ rw good (elim (Bool-cases (id == j)) [
        | inl same ↦
            let at_j : lookup id w.db ≡ lookup j w.db =
              ap (λ k. lookup k w.db) ((eq_iff id j).0 same) in
            let same_task : t ≡ r = cc (e, s, at_j) in
            rw same
              (inr (inr (refl, subst (λ (x : AiTask). is_kept x.state ≡ false) same_task idle)))
        | inr other ↦ rw other (inl s)
      ])
    ])

    erase-Follows :
        (m : Result (Unit {0}) × World)
        → m ≡ drop_key f id w
        → is_kept t.state ≡ false
        → Follows r (
            lookup j
              (continue m (λ u v.
                (ok t, send_ai_delete_event id (ignore (drop_key f (run_steps_key id) v))))).1.db)
    unfolding send_ai_delete_event
    erase-Follows (err x, v) q idle =
        subst (λ (m : Result (Unit {0}) × World). Follows r (lookup j m.1.db)) (sym q)
          (gone-Follows idle)
    erase-Follows (ok u, v) q idle = rw (lookup-steps_dropped f id j v h) (
        subst (λ (m : Result (Unit {0}) × World). Follows r (lookup j m.1.db)) (sym q)
          (gone-Follows idle))

    delete_in-Follows :
        (st : AiTaskState) → t.state ≡ st → Follows r (lookup j (delete_in st f id t w).1.db)
    unfolding delete_in
    delete_in-Follows in_progress q = inl s
    delete_in-Follows executing q = inl s
    delete_in-Follows cancelling q = inl s
    delete_in-Follows pending q = erase-Follows _ refl (rw q refl)
    delete_in-Follows completed q = erase-Follows _ refl (rw q refl)
    delete_in-Follows _ q = erase-Follows _ refl (rw q refl)

with_task-Follows :
    (f : Faults) (id j : String) (w : World) (r : AiTask) (res : Result AiTask)
    (k : AiTask → World → Result AiTask × World)
    → load_task f id w ≡ res
    → lookup j w.db ≡ some (task r)
    → ((t : AiTask) → lookup id w.db ≡ some (task t) → Follows r (lookup j (k t w).1.db))
    → Follows r (lookup j (with_task res k w).1.db)
with_task-Follows f id j w r (err e) k q s each = inl s
with_task-Follows f id j w r (ok t) k q s each = each t (load_task-lookup f id w t q)

-- Every call of a user on a task, whatever its outcome and whatever calls of the store fail, lets
-- each task of the store follow the diagram: it stays as it is, or its state goes along an edge
-- (queued to canceled, running to cancelling, proposed to executed or rejected, or by hand from
-- any state but executing to pending, ignored or solved), or it is deleted in a state
-- other than in progress, executing and cancelling.
pub run_call-Follows :
    (f : Faults) (id j : String) (c : Call) (w : World) (r : AiTask)
    → IsTaskKey id
    → IsTaskKey j
    → lookup j w.db ≡ some (task r)
    → Follows r (lookup j (run_call f id c w).1.db)
unfolding run_call cancel_task approve_task reject_task update_task_state delete_task
run_call-Follows f id j (cancel user) w r hid h s =
    with_task-Follows f id j w r (load_task f id w) (λ t v. cancel_in t.state f id user t v) refl s
      (λ t e. cancel_in-Follows f id j w t r hid h e s user t.state refl)
run_call-Follows f id j (approve user) w r hid h s =
    with_task-Follows f id j w r (load_task f id w) _ refl s
      (λ t e. decide-Follows f id j w t r hid h e s user executed _ _ (λ q. rw q accept))
run_call-Follows f id j (reject user reason) w r hid h s =
    with_task-Follows f id j w r (load_task f id w) _ refl s
      (λ t e. decide-Follows f id j w t r hid h e s user rejected _ _ (λ q. rw q refuse))
run_call-Follows f id j (set_to st) w r hid h s = elim (Bool-cases (is_settable st)) [
  | inl settable ↦ rw settable (
      with_task-Follows f id j w r (load_task f id w) _ refl s
        (λ t e. set_state-Follows f id j w t r hid h e s st settable))
  | inr refused ↦ rw refused (inl s)
]
run_call-Follows f id j delete w r hid h s =
    with_task-Follows f id j w r (load_task f id w) (λ t v. delete_in t.state f id t v) refl s
      (λ t e. delete_in-Follows f id j w t r hid h e s t.state refl)
