-- ===== src/Agent/Prompt.antt =====
-- src/ai/agents.go: the prompts of an agent's runs.
use Prim.Native.String.{◌++◌}
use mogenius_operator.Prelude.{String, List, [], ◌∷◌, ◌==◌, if◌then◌else◌}
use mogenius_operator.Agent.{Agent}

-- `strings.Join`
unfoldable pub join_with : String → List String → String
join_with separator [] = ""
join_with separator (x ∷ []) = x
join_with separator (x ∷ y ∷ rest) = x ++ separator ++ join_with separator (y ∷ rest)

abbrev scope_sentence : List String → String
scope_sentence namespaces =
    "Your scope for this run includes the following Kubernetes namespaces: "
    ++ join_with ", " namespaces
    ++ ". You operate in read-only mode by default; any mutation requires explicit approval."

-- `manifest` is the compact text of the object (src/ai/tools_exec.go).
unfoldable pub build_agent_event_prompt : Agent → List String → String → String → String
build_agent_event_prompt a namespaces manifest change_type =
    scope_sentence namespaces
    ++ "\n\nThis run was triggered by a "
    ++ change_type
    ++ " event on the following resource:\n\n"
    ++ manifest
    ++ (if a.spec.instruction == "" then "" else "\n\n" ++ a.spec.instruction)

-- The analysis that a run without an instruction makes.
unfoldable pub default_framing : String
default_framing =
    "\n\nInspect the workloads in these namespaces with your tools and address every distinct issue you find. Be efficient — you have a limited tool-call and token budget: list resources cluster-wide (omit the namespace parameter) instead of namespace by namespace, inspect suspicious candidates with get detail=summary, and fetch the full manifest only when you need it to build a change."
    ++ "\n\nState every finding in your reasoning as soon as you establish it — what is wrong, on which resource, why it matters. That text is the run's report; your closing message is not kept."
    ++ "\n\nWhen a fix requires a resource change, call the matching mutation tool (update_kubernetes_resource, create_kubernetes_resource or delete_kubernetes_resource) with the complete manifest, built from the live object. The call never touches the cluster: it becomes an approval request and pauses this run until a user decides. So propose only changes that are concrete, safe and directly applicable, and spend proposals on what matters — the highest-value fix first, and for a pile of obsolete resources (completed Jobs, zero-replica ReplicaSets) the ones actually worth an approval rather than one request per resource. A problem you cannot turn into a safe change is worth a sentence in your reasoning, not a proposal."
    ++ "\n\nIf nothing needs fixing, end the run without proposing anything; that is a perfectly good result."

unfoldable pub build_agent_run_prompt : Agent → List String → String
build_agent_run_prompt a namespaces =
    scope_sentence namespaces
    ++ (if a.spec.instruction == "" then default_framing else "\n\n" ++ a.spec.instruction)
