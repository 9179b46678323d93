-- ===== src/Approval/Signals.antt =====
-- What an accepted approval saves, and what it sends to the waiting run (src/ai/aimanager_execute.go).
use mogenius_operator.Prelude.{
  String, false, none, some, List, [], ◌∷◌, ◌==◌, ◌≡◌, refl, ◌∙◌, arith, eq_refl,
}
use mogenius_operator.Prelude.Assoc.{lookup, lookup-insert}
use mogenius_operator.Access.{User}
use mogenius_operator.Task.{AiTask, executed, proposed}
use mogenius_operator.Task.Store.{
  ApprovalSignal, Faults, World, Item, task, Result, ok, err, put, put_latest, after_save, kick,
  latest_namespace_task_key, latest_task_namespaces, latest_task_key, get_task_by_key, parse_item,
  create_or_update_ai_task, notify_task_changed,
}
use mogenius_operator.Task.Api.{load_task, approve_task, decide_task, signal_approval}
use mogenius_operator.Task.Laws.{save_result}
use mogenius_operator.Task.Machine.{run_call, approve}

pub reads :
    (f : Faults) (id : String) (w : World) (t : AiTask)
    → lookup id w.db ≡ some (task t)
    → f.get_fails id ≡ false
    → get_task_by_key f id w ≡ ok (some t)
unfolding get_task_by_key parse_item
reads f id w t l g = ground (arith, l, g)

pub put_keeps :
    (f : Faults) (k : String) (i : Item) (w : World)
    → (put f k i w).1.pending_approvals ≡ w.pending_approvals
unfolding put
put_keeps f k i w = ground arith

put_latest_keeps :
    (f : Faults) (t : AiTask) (nss : List String) (w : World)
    → (put_latest f t nss w).pending_approvals ≡ w.pending_approvals
unfolding put_latest
put_latest_keeps f t [] w = refl
put_latest_keeps f t (ns ∷ nss) w =
    put_latest_keeps f t nss (put f (latest_namespace_task_key ns) (task t) w).1
    ∙ put_keeps f (latest_namespace_task_key ns) (task t) w

after_save_keeps :
    (f : Faults) (t : AiTask) (key : String) (r : Result (Unit {0}) × World)
    → (after_save f t key r).1.pending_approvals ≡ r.1.pending_approvals
after_save_keeps f t key (err e, w) = refl
after_save_keeps f t key (ok u, w) =
    put_latest_keeps f t (latest_task_namespaces t key)
      (put f latest_task_key (task t) (kick t.state w)).1
    ∙ put_keeps f latest_task_key (task t) (kick t.state w)

pub save_keeps :
    (f : Faults) (t : AiTask) (key : String) (w : World)
    → (create_or_update_ai_task f t key w).1.pending_approvals ≡ w.pending_approvals
unfolding create_or_update_ai_task
save_keeps f t key w =
    let stamped = record t { updated_at = w.now } in
    after_save_keeps f stamped key (put f key (task stamped) w) ∙ put_keeps f key (task stamped) w

-- An approval that is accepted: what is saved, and what the waiting run is sent.
pub approval_accepted :
    (g : Faults) (id : String) (w : World) (t : AiTask) (user : User)
    → lookup id w.db ≡ some (task t)
    → t.state ≡ proposed
    → (user.email == "") ≡ false
    → g.get_fails id ≡ false
    → g.set_fails id ≡ false
    → (run_call g id (approve user) w).1
      ≡ signal_approval id
          (record { approver = user; rejection = none })
          (notify_task_changed
            (record t {
              state = executed;
              approval = some (record { user = user; at = w.now; rejected = false; reason = "" });
              updated_at = w.now;
            })
            (create_or_update_ai_task g
              (record t {
                state = executed;
                approval = some (record { user = user; at = w.now; rejected = false; reason = "" });
              })
              id
              w).1)
unfolding run_call approve_task load_task decide_task
approval_accepted g id w t user l p e reads_g saves =
    let next = record t {
      state = executed;
      approval = some (record { user = user; at = w.now; rejected = false; reason = "" });
    } in
    rw (reads g id w t l reads_g) (ground (arith, p, e, saves, save_result g next id w))

pub signaled :
    (id : String) (s : ApprovalSignal) (w : World)
    → lookup id w.pending_approvals ≡ some []
    → (lookup id (signal_approval id s w).pending_approvals ≡ some (s ∷ []))
      × ((signal_approval id s w).db ≡ w.db)
unfolding signal_approval
signaled id s w h = (
  rw h (lookup-insert id id (s ∷ []) w.pending_approvals ∙ ground (arith, eq_refl id)),
  rw h refl,
)
