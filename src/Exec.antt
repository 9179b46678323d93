-- ===== src/Exec.antt =====
-- src/ai/tools_exec.go: the execution of a tool call that the model asks for, and the budgets of a
-- run. The handlers of the tools, the MCP servers and the approval wait are services: what they
-- answer is given, and what was executed is recorded.
pub mod Loop
pub mod Laws
pub mod Budget
mod Examples
use Prim.Native.String.{◌++◌}
use mogenius_operator.Prelude.{
  ℕ, String, Bool, true, false, not, ◌&&◌, ◌||◌, Option, none, some, List, [], ◌∷◌, ◌==◌,
  if◌then◌else◌, ltb, leb, contains, snoc, is_some,
}
use mogenius_operator.Prelude.Decimal.{decimal}
use mogenius_operator.Access.{ToolContext}

-- toolExec, without the audit log and the sink of statistics
pub record ToolExec : Type 0 where
  pub tool_ctx : Option ToolContext
  pub categories : Bool
  pub mcp_sessions : List String
  pub scoped_mcp : Bool
  pub intercept_mutating : Bool
  pub unknown_is_fatal : Bool

pub record ToolOutcome : Type 0 where
  pub result : String
  pub is_error : Bool
  pub fatal : Option String

-- The answer to a request for approval: the approver's context, or the text of an error.
pub data Verdict : Type 0 where
  allowed : ToolContext → Verdict
  denied : String → Verdict

-- A result, or the text of an error.
pub data Answer : Type 0 where
  answer failure : String → Answer

-- What a call ran, with which arguments, and the context that the handler of a built-in tool got; an
-- MCP server gets none.
pub record Execution : Type 0 where
  pub tool : String
  pub args : String
  pub context : Option ToolContext

-- The handlers and servers; arguments are JSON texts.
pub record Services : Type 0 where
  pub tool : String → String → Option ToolContext → String
  pub request : String → String → Verdict
  pub activate : String → String
  pub in_sessions : String → List String → Bool
  pub needs_approval : String → List String → Bool
  pub call_in_sessions : String → String → List String → Answer
  pub is_mcp_tool : String → Bool
  pub call_tool : String → String → Answer

unfoldable pub mutating_builtin_tools : List String
mutating_builtin_tools =
    "update_kubernetes_resource" ∷ "create_kubernetes_resource" ∷ "delete_kubernetes_resource" ∷ []

unfoldable pub kubernetes_tool_definitions : List String
kubernetes_tool_definitions =
    "get_kubernetes_resources" ∷ "list_kubernetes_resources" ∷ "check_kubernetes_resource"
    ∷ "update_kubernetes_resource" ∷ "delete_kubernetes_resource" ∷ "create_kubernetes_resource"
    ∷ "get_pod_logs" ∷ "get_pod_events" ∷ []

unfoldable pub helm_tool_definitions : List String
helm_tool_definitions =
    "helm_repo_add" ∷ "helm_repo_patch" ∷ "helm_repo_update" ∷ "helm_repo_list" ∷ "helm_repo_remove"
    ∷ "helm_chart_search" ∷ "helm_chart_install" ∷ "helm_oci_install" ∷ "helm_chart_show"
    ∷ "helm_chart_versions" ∷ "helm_release_upgrade" ∷ "helm_release_uninstall"
    ∷ "helm_release_list" ∷ "helm_release_status" ∷ "helm_release_history" ∷ "helm_release_rollback"
    ∷ "helm_release_get" ∷ "helm_release_link" ∷ "helm_release_get_workloads" ∷ []

-- `_, ok := toolDefinitions[name]`
unfoldable pub is_tool_definition : String → Bool
unfolding kubernetes_tool_definitions helm_tool_definitions
is_tool_definition name =
    contains kubernetes_tool_definitions name || contains helm_tool_definitions name

-- The outcome, and the executions that it took.
abbrev pub Dispatched : Type 0
Dispatched = ToolOutcome × List Execution

abbrev pub says : String → ToolOutcome
says result = record { result = result; is_error = false; fatal = none }

abbrev fails : String → ToolOutcome
fails result = record { result = result; is_error = true; fatal = none }

abbrev pub can_request : Option ToolContext → Bool
can_request none = false
can_request (some tc) = tc.create_approval_request

abbrev pub run_tool : Services → String → String → Option ToolContext → Dispatched
run_tool s name args context =
    (says (s.tool name args context), record { tool = name; args = args; context = context } ∷ [])

abbrev not_executed : String → String → String
not_executed name reason = "Tool call \"" ++ name ++ "\" was not executed: " ++ reason

abbrev pub run_allowed : Services → String → String → Verdict → Dispatched
run_allowed s name args (denied reason) = (says (not_executed name reason), [])
run_allowed s name args (allowed tc) = run_tool s name args (some tc)

-- The switch over a built-in tool.
unfoldable pub dispatch_builtin : Services → ToolExec → String → String → Dispatched
dispatch_builtin s e name args =
    if e.intercept_mutating && contains mutating_builtin_tools name && can_request e.tool_ctx
    then run_allowed s name args (s.request name args)
    else if e.intercept_mutating && contains mutating_builtin_tools name
    then (
      says (
          "Tool call \"" ++ name
          ++ "\" requires human approval but no approval mechanism is configured for this run. The call was blocked."),
      [],
    )
    else run_tool s name args e.tool_ctx

abbrev scoped_answer : Answer → String
scoped_answer (answer result) = result
scoped_answer (failure reason) = "MCP tool error: " ++ reason

abbrev pub call_scoped : Services → ToolExec → String → String → Dispatched
call_scoped s e name args = (
  says (scoped_answer (s.call_in_sessions name args e.mcp_sessions)),
  record { tool = name; args = args; context = none } ∷ [],
)

abbrev pub call_approved : Services → ToolExec → String → String → Verdict → Dispatched
call_approved s e name args (denied reason) = (says (not_executed name reason), [])
call_approved s e name args (allowed tc) = (
  says (scoped_answer (s.call_in_sessions name args e.mcp_sessions)),
  record { tool = name; args = args; context = none } ∷ [],
)

unfoldable pub dispatch_scoped_mcp : Services → ToolExec → String → String → Dispatched
dispatch_scoped_mcp s e name args =
    if s.needs_approval name e.mcp_sessions
    then call_approved s e name args (s.request name args)
    else call_scoped s e name args

abbrev mcp_outcome : Answer → ToolOutcome
mcp_outcome (answer result) = says result
mcp_outcome (failure reason) = fails ("Error calling MCP tool: " ++ reason)

abbrev pub unknown_tool : ToolExec → String → Dispatched
unknown_tool e name =
    if e.unknown_is_fatal
    then (
      record { result = ""; is_error = false; fatal = some ("unknown tool called: " ++ name) },
      [],
    )
    else (fails ("Unknown tool: " ++ name), [])

abbrev pub activate_tool_categories_name : String
activate_tool_categories_name = "activate_tool_categories"

unfoldable pub dispatch_mcp : Services → ToolExec → String → String → Dispatched
unfolding dispatch_scoped_mcp
dispatch_mcp s e name args =
    if e.scoped_mcp
    then (if s.in_sessions name e.mcp_sessions
        then dispatch_scoped_mcp s e name args
        else unknown_tool e name)
    else if s.is_mcp_tool name
    then (
      mcp_outcome (s.call_tool name args),
      record { tool = name; args = args; context = none } ∷ [],
    )
    else unknown_tool e name

unfoldable pub dispatch_tool_call : Services → ToolExec → String → String → Dispatched
unfolding dispatch_builtin dispatch_mcp
dispatch_tool_call s e name args =
    if e.categories && name == activate_tool_categories_name
    then (says (s.activate args), [])
    else if is_tool_definition name
    then dispatch_builtin s e name args
    else dispatch_mcp s e name args

-- `none` is the empty reason: the run may go on.
unfoldable pub run_budget_exhausted : ℕ → ℕ → ℕ → ℕ → Option String
unfolding decimal
run_budget_exhausted max_tool_calls tool_call_count max_tokens_per_run tokens_used =
    if ltb 0 max_tool_calls && leb max_tool_calls tool_call_count
    then some (
        "run stopped after "
        ++ decimal tool_call_count
        ++ " tool calls (per-run tool call limit: "
        ++ decimal max_tool_calls
        ++ ")")
    else if ltb 0 max_tokens_per_run && leb max_tokens_per_run tokens_used
    then some (
        "run stopped after "
        ++ decimal tokens_used
        ++ " tokens (per-run token limit: "
        ++ decimal max_tokens_per_run
        ++ ")")
    else none
