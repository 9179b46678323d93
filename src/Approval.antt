-- ===== src/Approval.antt =====
-- src/ai/agents.go: CreateApprovalRequest, the wait of a run for a user's decision, and
-- src/ai/aimanager_api.go: ResolveWorkspaceContext. What happens during the wait is a list: the
-- receipt of a signal, a tick of the poll timer, the timeout, the end of the context, and calls of
-- users on this or any other replica.
pub mod Signals
pub mod Laws
pub mod Calls
pub mod Attributed
mod Examples
use mogenius_operator.Prelude.{
  String, Bool, true, false, not, ◌&&◌, Option, none, some, List, [], ◌∷◌, ◌==◌, if◌then◌else◌,
  find_first,
}
use mogenius_operator.Prelude.Assoc.{lookup, insert, remove}
use mogenius_operator.Access.{User, zero_user, ToolContext}
use mogenius_operator.Access.Build.{Grant, WorkspaceResource}
use mogenius_operator.Task.{
  AiTask, AiTaskState, ApprovalRecord, ToolRequest, AiResponse, state_text, in_progress, proposed,
  executed, solved,
}
use mogenius_operator.Task.Store.{
  Faults, World, Result, ok, err, ApprovalSignal, get_task_by_key, create_or_update_ai_task,
  notify_task_changed,
}
use mogenius_operator.Task.Machine.{Call, run_call}

pub record UserResource : Type 0 where
  pub name : String
  pub email : String

-- What the store holds of workspaces, users and grants.
pub record Directory : Type 0 where
  pub own_namespace : Option String
  pub workspaces : String → Option (List WorkspaceResource)
  pub users : List UserResource
  pub grants : List Grant

abbrev user_name : Option UserResource → String
user_name none = ""
user_name (some u) = u.name

abbrev grant_of : List Grant → String → String → Option Grant
grant_of grants name workspace =
    if name == ""
    then none
    else find_first (λ g. g.grantee == name && g.target_name == workspace) grants

-- `email == ""` finds no user.
unfoldable pub resolve_workspace_context :
    Directory → String → String → Option (List WorkspaceResource) × Option Grant
resolve_workspace_context d email workspace = elim d.own_namespace [
  | none ↦ (none, none)
  | some ns ↦ (
    d.workspaces workspace,
    if email == ""
        then none
        else grant_of d.grants (user_name (find_first (λ u. u.email == email) d.users)) workspace,
  )
]

abbrev with_grant : Option Grant → ToolContext → ToolContext
with_grant none c = c
with_grant (some grant) c = record c { role = grant.role }

-- buildApproverCtx
unfoldable pub build_approver_ctx : Directory → ToolContext → User → ToolContext
unfolding resolve_workspace_context
build_approver_ctx d tc approver =
    let c = record tc { create_approval_request = false; user = some approver } in
    if tc.workspace == ""
    then c
    else with_grant (resolve_workspace_context d approver.email tc.workspace).1 c

abbrev pub resumed : AiTask → Result AiTask × World → World
resumed t (err e, w) = notify_task_changed (record t { updated_at = w.now }) w
resumed t (ok stamped, w) = notify_task_changed stamped w

abbrev pub resume_read : Faults → String → Result (Option AiTask) → World → World
resume_read f id (err e) w = w
resume_read f id (ok none) w = w
resume_read f id (ok (some t)) w =
    let t = record t { state = in_progress; response = none } in
    resumed t (create_or_update_ai_task f t id w)

-- resetToInProgress
unfoldable pub reset_to_in_progress : Faults → String → World → World
reset_to_in_progress f id w = resume_read f id (get_task_by_key f id w) w

pub data Happening : Type 0 where
  receive tick timeout context_done : Happening
  user_call : Faults → Call → Happening

-- How a wait ends. `waiting` is a wait that what happened so far has not ended.
pub data Decision : Type 0 where
  approved : User → Decision
  refused : String → Decision
  gone timed_out done waiting : Decision

abbrev pub approver_of : Option ApprovalRecord → User
approver_of none = zero_user
approver_of (some a) = a.user

abbrev reason_of : AiTaskState → Option ApprovalRecord → String
reason_of s none = state_text s
reason_of s (some a) = if a.reason == "" then state_text s else a.reason

-- What a poll makes of the task that it reads.
unfoldable pub poll_task : AiTask → Decision
unfolding state_text
poll_task t = elim t.state [
  | proposed ↦ waiting
  | executed ↦ approved (approver_of t.approval)
  | solved ↦ approved (approver_of t.approval)
  | _ ↦ refused (reason_of t.state t.approval)
]

abbrev pub poll_read : Result (Option AiTask) → Decision
poll_read (err e) = gone
poll_read (ok none) = gone
poll_read (ok (some t)) = poll_task t

abbrev pub of_signal : ApprovalSignal → Decision
of_signal s = elim s.rejection [ none ↦ approved s.approver | some reason ↦ refused reason ]

-- The channel of a run holds the signals that were sent to it; an empty one blocks.
abbrev pub first_signal : Option (List ApprovalSignal) → Decision
first_signal none = waiting
first_signal (some []) = waiting
first_signal (some (s ∷ rest)) = of_signal s

-- What one case of the select decides.
unfoldable pub decide : Faults → String → World → Happening → Decision
unfolding poll_task
decide f id w receive = first_signal (lookup id w.pending_approvals)
decide f id w tick = poll_read (get_task_by_key f id w)
decide f id w timeout = timed_out
decide f id w context_done = done
decide f id w (user_call g call) = waiting

abbrev pub world_after : String → World → Happening → World
world_after id w (user_call g call) = (run_call g id call w).1
world_after id w _ = w

-- Leaving the loop: an approval resumes the task, and the channel is removed.
abbrev pub leave : Faults → String → Decision → World → Decision × World
leave f id (approved user) w =
    let w = reset_to_in_progress f id w in
    (approved user, record w { pending_approvals = remove id w.pending_approvals })
leave f id d w = (d, record w { pending_approvals = remove id w.pending_approvals })

abbrev pub is_waiting : Decision → Bool
is_waiting waiting = true
is_waiting _ = false

-- The loop, over what happens during the wait.
unfoldable pub wait_for_decision : Faults → String → List Happening → World → Decision × World
unfolding decide
wait_for_decision f id [] w = (waiting, w)
wait_for_decision f id (h ∷ hs) w =
    let later = wait_for_decision f id hs (world_after id w h) in
    if is_waiting (decide f id w h) then later else leave f id (decide f id w h) w

abbrev proposal : AiTask → String → String → List String → AiTask
proposal t tool args sessions = record t {
  state = proposed;
  response =
      some
        (record { tool_requests = record { name = tool; args = args; sessions = sessions } ∷ [] });
}

abbrev proposed_then : Faults → String → List Happening → Result AiTask × World → Decision × World
proposed_then f id hs (err e, w) = (gone, w)
proposed_then f id hs (ok t, w) =
    let w = notify_task_changed t w in
    wait_for_decision f id hs (record w { pending_approvals = insert id [] w.pending_approvals })

abbrev request_read :
    Faults
    → String
    → String
    → String
    → List String
    → List Happening
    → Result (Option AiTask)
    → World
    → Decision × World
request_read f id tool args sessions hs (err e) w = (gone, w)
request_read f id tool args sessions hs (ok none) w = (gone, w)
request_read f id tool args sessions hs (ok (some t)) w =
    proposed_then f id hs (create_or_update_ai_task f (proposal t tool args sessions) id w)

-- CreateApprovalRequest; `gone` stands for each of its errors on the store.
unfoldable pub create_approval_request :
    Faults → String → String → String → List String → List Happening → World → Decision × World
unfolding wait_for_decision
create_approval_request f id tool args sessions hs w =
    request_read f id tool args sessions hs (get_task_by_key f id w) w
