-- ===== src/Approval/Attributed.antt =====
-- Who stands behind an approval (src/ai/agents.go, CreateApprovalRequest).
use mogenius_operator.Prelude.{
  String, true, false, Option, none, some, List, [], ◌∷◌, ◌==◌, ◌≡◌, refl, ◌∙◌, sym, arith,
  Bool-cases, inl, inr,
}
use mogenius_operator.Prelude.Assoc.{lookup}
use mogenius_operator.Access.{User}
use mogenius_operator.Task.{AiTask, proposed}
use mogenius_operator.Task.Store.{
  ApprovalSignal, Faults, World, Item, task, text, get_task_by_key, parse_item,
}
use mogenius_operator.Task.Laws.{IsTaskKey}
use mogenius_operator.Approval.{
  Happening, Decision, approved, refused, gone, timed_out, done, waiting, user_call, tick, receive,
  timeout, context_done, decide, wait_for_decision, world_after, leave, is_waiting, poll_read,
  poll_task, first_signal,
}
use mogenius_operator.Approval.Calls.{item_ok, channel_ok, WorldOk, none_solves, call_ok}

polled_by :
    (id : String) (o : Option Item) (user : User)
    → item_ok o ≡ true
    → poll_read (parse_item id o) ≡ approved user
    → (user.email == "") ≡ false
unfolding parse_item poll_task
polled_by id none user h p = ground arith
polled_by id (some (text s)) user h p = ground arith
polled_by id (some (task t)) user h p = ground arith

signaled_by :
    (o : Option (List ApprovalSignal)) (user : User)
    → channel_ok o ≡ true
    → first_signal o ≡ approved user
    → (user.email == "") ≡ false
signaled_by none user h p = ground arith
signaled_by (some []) user h p = ground arith
signaled_by (some (s ∷ rest)) user h p = ground arith

decided_by :
    (f : Faults) (id : String) (w : World) (h : Happening) (user : User)
    → WorldOk id w
    → decide f id w h ≡ approved user
    → (user.email == "") ≡ false
unfolding decide get_task_by_key
decided_by f id w receive user o d = signaled_by (lookup id w.pending_approvals) user o.1 d
decided_by f id w tick user o d = elim (Bool-cases (f.get_fails id)) [
  | inl e ↦ ground (arith, d, e)
  | inr e ↦ polled_by id (lookup id w.db) user o.0 (rw e at d)
]
decided_by f id w timeout user o d = ground arith
decided_by f id w context_done user o d = ground arith
decided_by f id w (user_call g c) user o d = ground arith

after_ok :
    (id : String) (h : Happening) (hs : List Happening) (w : World)
    → IsTaskKey id
    → none_solves (h ∷ hs) ≡ true
    → WorldOk id w
    → WorldOk id (world_after id w h) × (none_solves hs ≡ true)
after_ok id receive hs w k n o = (o, n)
after_ok id tick hs w k n o = (o, n)
after_ok id timeout hs w k n o = (o, n)
after_ok id context_done hs w k n o = (o, n)
after_ok id (user_call g c) hs w k n o =
    (call_ok g id k c w (ground (arith, n)) o, ground (arith, n))

leave_result : (f : Faults) (id : String) (d : Decision) (w : World) → (leave f id d w).0 ≡ d
leave_result f id (approved user) w = refl
leave_result f id (refused reason) w = refl
leave_result f id gone w = refl
leave_result f id timed_out w = refl
leave_result f id done w = refl
leave_result f id waiting w = refl

waited_by :
    (f : Faults) (id : String) (hs : List Happening) (w : World) (user : User)
    → IsTaskKey id
    → none_solves hs ≡ true
    → WorldOk id w
    → (wait_for_decision f id hs w).0 ≡ approved user
    → (user.email == "") ≡ false
unfolding wait_for_decision
waited_by f id [] w user k n o d = ground arith
waited_by f id (h ∷ hs) w user k n o d = elim (Bool-cases (is_waiting (decide f id w h))) [
  | inl e ↦
      let (later, rest) = after_ok id h hs w k n o in
      waited_by f id hs (world_after id w h) user k rest later (rw e at d)
  | inr e ↦ decided_by f id w h user o (sym (leave_result f id (decide f id w h) w) ∙ (rw e at d))
]

-- Every approval has an author: a run that waits on a proposed task, with nothing sent to it yet,
-- goes ahead only as approved by a user with an email address, whatever users do to the task in the
-- meantime and whatever calls of the store fail, as long as nobody sets the task to solved.
pub approval_attributed :
    (f : Faults) (id : String) (hs : List Happening) (w : World) (t : AiTask) (user : User)
    → IsTaskKey id
    → lookup id w.db ≡ some (task t)
    → t.state ≡ proposed
    → lookup id w.pending_approvals ≡ some []
    → none_solves hs ≡ true
    → (wait_for_decision f id hs w).0 ≡ approved user
    → (user.email == "") ≡ false
approval_attributed f id hs w t user k l p c n d =
    waited_by f id hs w user k n (rw l (rw p refl), rw c refl) d
