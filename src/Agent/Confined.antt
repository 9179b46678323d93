-- ===== src/Agent/Confined.antt =====
-- What the tool context of a queued task reaches (src/ai/agents.go, buildAgentTaskContext).
use mogenius_operator.Prelude.{
  String, Bool, true, false, eq_iff, subst, find_first, find_first-eq_some, Option, none, not, ◌&&◌,
  ◌||◌, some, List, [], ◌∷◌, ◌==◌, ◌≡◌, refl, arith, if◌then◌else◌, contains,
}
use mogenius_operator.Access.{ToolContext, is_namespace_allowed, is_editor, has_restrictions}
use mogenius_operator.Access.Agent.{agent_confined}
use mogenius_operator.Task.{AiTask}
use mogenius_operator.Agent.{
  no_own_namespace, get_failed, or_not_found, Agent, AgentError, Attempt, View, given, refused,
  resolve_agent_scope, get_agent, disabled, no_agent_ref,
}
use mogenius_operator.Agent.Context.{
  build_agent_task_context, context_of_agent, context_in_scope, context_for_agent,
}

confined_to :
    (v : View) (t : AiTask) (a found : Agent) (tc : ToolContext) (namespaces : List String)
    → context_in_scope t a namespaces ≡ given (found, tc)
    → (found ≡ a)
      × (tc ≡ context_for_agent a namespaces)
      × (t.referencing_resource.namespace == ""
            || contains namespaces t.referencing_resource.namespace
          ≡ true)
unfolding context_in_scope
confined_to v t a found tc [] h = ground arith
confined_to v t a found tc (ns ∷ rest) h = ground arith

past_guard :
    {A : Type 0} (b : Bool) (e : AgentError) (x : Attempt A) (y : A)
    → (if b then refused e else x) ≡ given y
    → (b ≡ false) × (x ≡ given y)
past_guard true e x y h = ground arith
past_guard false e x y h = (refl, h)

same_checks :
    (a : Agent) (namespaces : List String) (ns : String)
    → (is_namespace_allowed (some (context_for_agent a namespaces)) ns
        ≡ (not (ns == "") && contains namespaces ns))
      × (is_editor (some (context_for_agent a namespaces)) ≡ false)
unfolding is_namespace_allowed is_editor has_restrictions
same_checks a namespaces ns =
    let (reach, _, editor, _) = agent_confined a.name a.spec.scope.workspace_ref namespaces ns [] in
    (reach, editor)

get_agent-name : (v : View) (name : String) (x : Agent) → get_agent v name ≡ given x → x.name ≡ name
unfolding get_agent
get_agent-name v name x h = on_namespace v.own_namespace h
  where
    found :
        (o : Option Agent)
        → find_first (λ (a : Agent). a.name == name) v.agents ≡ o
        → or_not_found name o ≡ given x
        → x.name ≡ name
    found none e q = ground arith
    found (some a) e q =
        let same : a ≡ x = cc q in
        let p = (find_first-eq_some (λ (a : Agent). a.name == name) v.agents a e).1 in
        subst (λ (y : Agent). y.name ≡ name) same ((eq_iff a.name name).0 p)

    on_namespace :
        (o : Option String)
        → (elim o [
          | none ↦ refused no_own_namespace
          | some ns ↦
              if v.get_fails name
              then refused (get_failed name)
              else or_not_found name (find_first (λ a. a.name == name) v.agents)
        ])
          ≡ given x
        → x.name ≡ name
    on_namespace none q = ground arith
    on_namespace (some ns) q =
        found (find_first (λ (a : Agent). a.name == name) v.agents) refl
          (past_guard (v.get_fails name) (get_failed name)
            (or_not_found name (find_first (λ (a : Agent). a.name == name) v.agents)) x q).1

-- What a task's context promises.
pub record Confined (v : View) (t : AiTask) (a : Agent) (tc : ToolContext) (ns : String)
    : Type 0 where
  pub named : a.name ≡ t.agent_ref
  pub enabled : a.spec.enabled ≡ true
  pub inside :
      (t.referencing_resource.namespace == ""
        || contains (resolve_agent_scope v a) t.referencing_resource.namespace)
      ≡ true
  pub reach :
      is_namespace_allowed (some tc) ns ≡ (not (ns == "") && contains (resolve_agent_scope v a) ns)
  pub no_editor : is_editor (some tc) ≡ false

context_of_agent-Confined :
    (v : View) (t : AiTask) (r : Attempt Agent) (a : Agent) (tc : ToolContext) (ns : String)
    → ((x : Agent) → r ≡ given x → x.name ≡ t.agent_ref)
    → context_of_agent v t r ≡ given (a, tc)
    → Confined v t a tc ns
unfolding context_of_agent
context_of_agent-Confined v t (refused e) a tc ns n h = ground arith
context_of_agent-Confined v t (given x) a tc ns n h =
    let scope = resolve_agent_scope v x in
    let (on, h) =
      past_guard (not x.spec.enabled) (disabled x.name) (context_in_scope t x scope) (a, tc) h in
    let (same, context, inside) = confined_to v t x a tc scope h in
    let (reach, editor) = same_checks x scope ns in
    let enabled : x.spec.enabled ≡ true = ground (arith, on) in
    record {
      named = rw same (n x refl);
      enabled = rw same enabled;
      inside = rw same inside;
      reach = rw same (rw context reach);
      no_editor = rw context editor;
    }

-- A queued task gets a tool context only of an enabled agent, the one that the task names, with the
-- namespace of its resource empty or inside the agent's scope; on that context the namespace check
-- passes exactly the non-empty namespaces of the scope, and the editor check never passes.
pub task_context-Confined :
    (v : View) (t : AiTask) (a : Agent) (tc : ToolContext) (ns : String)
    → build_agent_task_context v t ≡ given (a, tc)
    → Confined v t a tc ns
unfolding build_agent_task_context
task_context-Confined v t a tc ns h =
    let found = get_agent v t.agent_ref in
    context_of_agent-Confined v t found a tc ns (get_agent-name v t.agent_ref)
      (past_guard (t.agent_ref == "") no_agent_ref (context_of_agent v t found) (a, tc) h).1
