-- ===== src/Exec/Examples.antt =====
-- The properties of the agent's loop at a concrete model and concrete tools.
use mogenius_operator.Prelude.{
  Option, true, false, none, some, [], ◌∷◌, ◌≡◌, refl, All, arith, length,
}
use mogenius_operator.Access.Build.{new_tool_context_from_agent}
use mogenius_operator.Access.{ToolContext}
use mogenius_operator.Exec.{
  allowed, Services, denied, answer, dispatch_tool_call, is_tool_definition, dispatch_builtin,
  mutating_builtin_tools, kubernetes_tool_definitions, helm_tool_definitions, run_budget_exhausted,
}
use mogenius_operator.Exec.Laws.{Approved, dispatch-Approved}
use mogenius_operator.Exec.Loop.{
  Provider, reply, Limits, agent_exec, run_agent_loop, run_loop, turn, after_response, run_calls,
  run_tool_call, compact_messages, compact_after_bytes,
}
use mogenius_operator.Exec.Budget.{is_out_of_fuel, run_agent_loop-Approved}

abbrev approver : ToolContext
approver = new_tool_context_from_agent "janitor" "" ("dev" ∷ [])

-- Every request is denied.
abbrev services : Services
services = record {
  tool = λ name args context. "done";
  request = λ name args. denied "rejected by ada@example.com";
  activate = λ args. "";
  in_sessions = λ name sessions. false;
  needs_approval = λ name sessions. true;
  call_in_sessions = λ name args sessions. answer "";
  is_mcp_tool = λ name. false;
  call_tool = λ name args. answer "";
}

-- A model that deletes again and again.
abbrev stubborn : Provider
stubborn = record {
  chat = λ messages. reply (record {
    content = "delete it";
    tool_calls = record { id = "1"; name = "delete_kubernetes_resource"; arguments = "{}" } ∷ [];
    input_tokens = 3;
    output_tokens = 4;
    finish_reason = "tool_calls";
  });
  context_window_tokens = none;
  message_bytes = λ messages. length messages;
  compact = λ messages. none;
  canceled = λ messages. none;
  bad_args = λ args. none;
}

abbrev limits : Limits
limits = record { max_tool_calls = 2; max_tokens_per_run = 0 }

nothing_is_deleted :
    (run_agent_loop 2 stubborn services
      (some (record approver { create_approval_request = true }))
      []
      limits
      []).1.executed
    ≡ []
unfolding run_agent_loop run_loop turn after_response run_calls run_tool_call compact_messages
    compact_after_bytes dispatch_tool_call is_tool_definition dispatch_builtin
    mutating_builtin_tools kubernetes_tool_definitions helm_tool_definitions run_budget_exhausted
    new_tool_context_from_agent
nothing_is_deleted = refl

-- A run that can ask, and services that approve.
abbrev asking : Option ToolContext
asking = some (record approver { create_approval_request = true })

abbrev granting : Services
granting = record services { request = λ name args. allowed approver }

approved_deletion :
    (dispatch_tool_call granting (agent_exec asking []) "delete_kubernetes_resource" "{}").1
    ≡ record { tool = "delete_kubernetes_resource"; args = "{}"; context = some approver } ∷ []
unfolding dispatch_tool_call is_tool_definition dispatch_builtin mutating_builtin_tools
    kubernetes_tool_definitions helm_tool_definitions new_tool_context_from_agent
approved_deletion = refl

dispatch-Approved_example :
    All
      (Approved granting (agent_exec asking []))
      (dispatch_tool_call granting (agent_exec asking []) "delete_kubernetes_resource" "{}").1
dispatch-Approved_example =
    dispatch-Approved granting (agent_exec asking []) "delete_kubernetes_resource" "{}" refl refl

run_agent_loop-Approved_example :
    All
      (Approved services (agent_exec (some approver) []))
      (run_agent_loop 2 stubborn services (some approver) [] limits []).1.executed
    × (is_out_of_fuel (run_agent_loop 2 stubborn services (some approver) [] limits []).0 ≡ false)
run_agent_loop-Approved_example =
    run_agent_loop-Approved stubborn services (some approver) [] limits [] 2 (omega arith)
      (omega arith)
