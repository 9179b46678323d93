-- ===== src/Agent/Context.antt =====
-- src/ai/agents.go: buildAgentTaskContext, the agent and the tool context of a queued task. The
-- closure that waits for an approval is modelled apart; here the field says that it is set.
use mogenius_operator.Prelude.{
  String, Bool, true, false, not, ◌&&◌, Option, none, some, List, [], ◌∷◌, ◌==◌, if◌then◌else◌,
  contains,
}
use mogenius_operator.Access.{ToolContext}
use mogenius_operator.Access.Build.{new_tool_context_from_agent}
use mogenius_operator.Task.{AiTask}
use mogenius_operator.Agent.{
  Agent, AgentBuiltinTools, Attempt, View, given, refused, no_agent_ref, disabled,
  no_scope_namespaces, out_of_scope, get_agent, resolve_agent_scope,
}

abbrev pub without_kubernetes : Option AgentBuiltinTools → Bool
without_kubernetes none = false
without_kubernetes (some b) = not b.kubernetes

abbrev pub without_helm : Option AgentBuiltinTools → Bool
without_helm none = false
without_helm (some b) = not b.helm

abbrev pub context_for_agent : Agent → List String → ToolContext
context_for_agent a namespaces =
    record (new_tool_context_from_agent a.name a.spec.scope.workspace_ref namespaces) {
      mcp_sessions = a.spec.tools.mcp_server_refs;
      disable_kubernetes = without_kubernetes a.spec.tools.builtin;
      disable_helm = without_helm a.spec.tools.builtin;
      create_approval_request = true;
    }

-- On the resolved scope.
unfoldable pub context_in_scope : AiTask → Agent → List String → Attempt (Agent × ToolContext)
context_in_scope t a [] = refused (no_scope_namespaces a.name)
context_in_scope t a (ns ∷ rest) =
    let namespace = t.referencing_resource.namespace in
    if not (namespace == "") && not (contains (ns ∷ rest) namespace)
    then refused (out_of_scope namespace a.name)
    else given (a, context_for_agent a (ns ∷ rest))

unfoldable pub context_of_agent : View → AiTask → Attempt Agent → Attempt (Agent × ToolContext)
unfolding context_in_scope
context_of_agent v t (refused e) = refused e
context_of_agent v t (given a) =
    if not a.spec.enabled
    then refused (disabled a.name)
    else context_in_scope t a (resolve_agent_scope v a)

unfoldable pub build_agent_task_context : View → AiTask → Attempt (Agent × ToolContext)
unfolding context_of_agent
build_agent_task_context v t =
    if t.agent_ref == ""
    then refused no_agent_ref
    else context_of_agent v t (get_agent v t.agent_ref)
