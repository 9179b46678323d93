-- ===== src/Exec/Laws.antt =====
-- What a tool call may run (src/ai/tools_exec.go, dispatchToolCall).
use mogenius_operator.Prelude.{
  arith, String, Bool, true, false, ◌&&◌, some, ◌==◌, ◌≡◌, ◌⊎◌, inl, inr, refl, sym, ◌∙◌, ◌||◌,
  if◌then◌else◌, All, contains, Bool-cases,
}
use mogenius_operator.Access.{ToolContext}
use mogenius_operator.Exec.{
  ToolExec, Verdict, allowed, denied, Execution, Services, mutating_builtin_tools,
  is_tool_definition, can_request, run_tool, run_allowed, dispatch_builtin, call_scoped,
  call_approved, dispatch_scoped_mcp, dispatch_mcp, dispatch_tool_call, unknown_tool,
  activate_tool_categories_name,
}

-- The built-in tools that change Kubernetes resources.
abbrev pub changes_kubernetes : String → Bool
changes_kubernetes name =
    "update_kubernetes_resource" == name
    || "create_kubernetes_resource" == name
    || "delete_kubernetes_resource" == name

guarded_lem : (name : String) → contains mutating_builtin_tools name ≡ changes_kubernetes name
unfolding mutating_builtin_tools
guarded_lem name = ground arith

-- The calls that wait for a decision in a run: the built-in tools that change Kubernetes resources,
-- and the tools of the run's MCP sessions whose policy asks for an approval. No Helm tool is among
-- them.
abbrev pub needs_decision : Services → ToolExec → String → Bool
needs_decision s e name =
    if is_tool_definition name
    then changes_kubernetes name
    else s.needs_approval name e.mcp_sessions

-- What was executed needed no decision, or was approved; an approved built-in tool ran with the
-- approver's context.
abbrev pub Approved : Services → ToolExec → Execution → Type 0
Approved s e x =
    (needs_decision s e x.tool ≡ false)
    ⊎ ((tc : ToolContext) × (s.request x.tool x.args ≡ allowed tc)
        × (is_tool_definition x.tool ≡ true → x.context ≡ some tc))

module _ (s : Services) (e : ToolExec) (intercepts : e.intercept_mutating ≡ true)
    (scoped : e.scoped_mcp ≡ true) (name args : String) where
  allowed_run :
      (v : Verdict) → s.request name args ≡ v → All (Approved s e) (run_allowed s name args v).1
  allowed_run (denied reason) q = tt
  allowed_run (allowed tc) q = (inr (tc, q, λ k. refl), tt)

  Approved-call :
      (v : Verdict)
      → is_tool_definition name ≡ false
      → s.request name args ≡ v
      → All (Approved s e) (call_approved s e name args v).1
  Approved-call (denied reason) k q = tt
  Approved-call (allowed tc) k q = (inr (tc, q, λ p. cc (k, p)), tt)

  free_run :
      needs_decision s e name ≡ false → All (Approved s e) (run_tool s name args e.tool_ctx).1
  free_run q = (inl q, tt)

  free_call : needs_decision s e name ≡ false → All (Approved s e) (call_scoped s e name args).1
  free_call q = (inl q, tt)

  unknown : All (Approved s e) (unknown_tool e name).1
  unknown = elim (Bool-cases e.unknown_is_fatal) [ inl q ↦ rw q tt | inr q ↦ rw q tt ]

  builtin : is_tool_definition name ≡ true → All (Approved s e) (dispatch_builtin s e name args).1
  unfolding dispatch_builtin
  builtin known = rw intercepts (elim (Bool-cases (contains mutating_builtin_tools name)) [
    | inl m ↦ rw m (elim (Bool-cases (can_request e.tool_ctx)) [
      | inl c ↦ rw c (allowed_run (s.request name args) refl)
      | inr c ↦ rw c tt
    ])
    | inr m ↦ rw m (free_run (rw known (sym (guarded_lem name) ∙ m)))
  ])

  mcp : is_tool_definition name ≡ false → All (Approved s e) (dispatch_mcp s e name args).1
  unfolding dispatch_mcp dispatch_scoped_mcp
  mcp foreign = rw scoped (elim (Bool-cases (s.in_sessions name e.mcp_sessions)) [
    | inl i ↦ rw i (elim (Bool-cases (s.needs_approval name e.mcp_sessions)) [
      | inl n ↦ rw n (Approved-call (s.request name args) foreign refl)
      | inr n ↦ rw n (free_call (rw foreign n))
    ])
    | inr i ↦ rw i unknown
  ])

-- In a run, whose calls are intercepted and scoped to its MCP sessions, a tool call executes an
-- update, creation or deletion of a Kubernetes resource by a built-in tool, or an MCP tool whose
-- policy asks for an approval, only if the request for its approval was allowed; the built-in tool
-- then runs with the context of the approver. Helm tools and other tools run without a request.
pub dispatch-Approved :
    (s : Services) (e : ToolExec) (name args : String)
    → e.intercept_mutating ≡ true
    → e.scoped_mcp ≡ true
    → All (Approved s e) (dispatch_tool_call s e name args).1
unfolding dispatch_tool_call
dispatch-Approved s e name args i c =
    elim (Bool-cases (e.categories && name == activate_tool_categories_name)) [
      | inl a ↦ rw a tt
      | inr a ↦ rw a (elim (Bool-cases (is_tool_definition name)) [
        | inl k ↦ rw k (builtin s e i c name args k)
        | inr k ↦ rw k (mcp s e i c name args k)
      ])
    ]
