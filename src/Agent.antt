-- ===== src/Agent.antt =====
-- src/ai/agents.go and src/crds/v1alpha1/type_agent.go: AI agents, their validation, their scope and
-- the prompts of their runs. Durations are in nanoseconds. The cron library is a parameter.
pub mod Prompt
pub mod Runs
pub mod Triggers
pub mod Context
pub mod Scope
pub mod RunKey
pub mod Cache
pub mod Fresh
pub mod History
pub mod Pruned
pub mod Laws
pub mod Confined
pub mod Examples
use Prim.Native.String.{◌++◌, compare}
use text.Mathlib.Text.{is_lt}
use mogenius_operator.Prelude.{
  ℕ, String, Bool, true, false, not, ◌&&◌, ◌||◌, Option, none, some, List, [], ◌∷◌, ◌==◌, ltb,
  if◌then◌else◌, is_empty, any, find_first, filter_by, contains, map,
}
use mogenius_operator.Prelude.Assoc.{Assoc, insert, has}
use mogenius_operator.Prelude.Sort.{sort}
use mogenius_operator.Prelude.Text.{trim_space, split_n, has_prefix}
use mogenius_operator.Access.Build.{WorkspaceResource}
use mogenius_operator.Task.{AiTask}

pub record AgentScope : Type 0 where
  pub workspace_ref : String
  pub namespaces : List String

pub record AgentChangeTrigger : Type 0 where
  pub kinds : List String
  pub on : List String
  pub min_interval : ℕ

pub record AgentTriggers : Type 0 where
  pub cron : String
  pub on_change : Option AgentChangeTrigger

pub record AgentBuiltinTools : Type 0 where
  pub kubernetes : Bool
  pub helm : Bool

pub record AgentTools : Type 0 where
  pub builtin : Option AgentBuiltinTools
  pub mcp_server_refs : List String

-- The fields of a spec that the code reads.
pub record AgentSpec : Type 0 where
  pub instruction : String
  pub enabled : Bool
  pub scope : AgentScope
  pub triggers : AgentTriggers
  pub model_ref : String
  pub max_tool_calls : Option ℕ
  pub max_tokens_per_run : Option ℕ
  pub tools : AgentTools

pub record Agent : Type 0 where
  pub name : String
  pub spec : AgentSpec

pub data AgentError : Type 0 where
  empty_scope empty_namespace bad_cron : AgentError
  bad_change_type : String → AgentError
  no_own_namespace : AgentError
  get_failed agent_not_found disabled no_scope_namespaces : String → AgentError
  no_agent_ref : AgentError
  out_of_scope : String → String → AgentError
  open_runs_unknown has_open_run not_created : String → AgentError

pub data Attempt {ℓ} (A : Type ℓ) : Type ℓ where
  given : A → Attempt A
  refused : AgentError → Attempt A

-- What the manager reads of the cluster: its namespace, its agents, the namespaces that the store
-- knows, and the resources of a workspace (`none` where it is missing or its read fails).
pub record View : Type 0 where
  pub own_namespace : Option String
  pub agents : List Agent
  pub list_fails : Bool
  pub get_fails : String → Bool
  pub known_namespaces : List String
  pub workspaces : String → Option (List WorkspaceResource)

abbrev valid_change_event_types : List String
valid_change_event_types = "created" ∷ "updated" ∷ "deleted" ∷ []

abbrev pub first_bad_event : Option AgentChangeTrigger → Option String
first_bad_event none = none
first_bad_event (some oc) = find_first (λ evt. not (contains valid_change_event_types evt)) oc.on

abbrev check_events : Option String → Attempt (Unit {0})
check_events none = given tt
check_events (some evt) = refused (bad_change_type evt)

unfoldable pub validate_agent_spec : (String → Bool) → AgentSpec → Attempt (Unit {0})
validate_agent_spec parses spec =
    if spec.scope.workspace_ref == "" && is_empty spec.scope.namespaces
    then refused empty_scope
    else if any (λ ns. trim_space ns == "") spec.scope.namespaces
    then refused empty_namespace
    else if not (spec.triggers.cron == "") && not (parses spec.triggers.cron)
    then refused bad_cron
    else check_events (first_bad_event spec.triggers.on_change)

abbrev pub default_change_cooldown : ℕ
default_change_cooldown = 21_600_000_000_000

unfoldable pub change_cooldown : Option AgentChangeTrigger → ℕ
change_cooldown none = default_change_cooldown
change_cooldown (some oc) =
    if ltb 0 oc.min_interval then oc.min_interval else default_change_cooldown

unfoldable pub fetch_enabled_agents : View → List Agent
fetch_enabled_agents v = elim v.own_namespace [
  | none ↦ []
  | some ns ↦ if v.list_fails then [] else filter_by (λ a. a.spec.enabled) v.agents
]

abbrev pub or_not_found : String → Option Agent → Attempt Agent
or_not_found name none = refused (agent_not_found name)
or_not_found name (some a) = given a

unfoldable pub get_agent : View → String → Attempt Agent
get_agent v name = elim v.own_namespace [
  | none ↦ refused no_own_namespace
  | some ns ↦
      if v.get_fails name
      then refused (get_failed name)
      else or_not_found name (find_first (λ a. a.name == name) v.agents)
]

-- `if name != "" { namespaces[name] = true }`
abbrev pub add_name : String → Assoc Bool → Assoc Bool
add_name name m = if not (name == "") then insert name true m else m

unfoldable pub add_names : List String → Assoc Bool → Assoc Bool
add_names [] m = m
add_names (name ∷ rest) m = add_names rest (add_name name m)

-- The loop over the scope's entries; "*" stands for every namespace of the store.
unfoldable pub add_scope_entries : View → List String → Assoc Bool → Assoc Bool
unfolding add_names
add_scope_entries v [] m = m
add_scope_entries v (ns ∷ rest) m =
    add_scope_entries v rest (if ns == "*" then add_names v.known_namespaces m else add_name ns m)

-- The loop over the workspace's resources.
unfoldable pub add_workspace_names : List WorkspaceResource → Assoc Bool → Assoc Bool
add_workspace_names [] m = m
add_workspace_names (res ∷ rest) m =
    add_workspace_names rest (if res.kind == "namespace" then add_name res.id m else m)

abbrev pub workspace_of : View → AgentScope → List WorkspaceResource
workspace_of v scope = if scope.workspace_ref == "" then [] else elim v.own_namespace [
  | none ↦ []
  | some ns ↦ elim (v.workspaces scope.workspace_ref) [ none ↦ [] | some resources ↦ resources ]
]

unfoldable pub map_keys : Assoc Bool → List String
map_keys [] = []
map_keys (entry ∷ rest) = entry.0 ∷ map_keys rest

abbrev pub string_less : String → String → Bool
string_less a b = is_lt (compare a b)

unfoldable pub resolve_agent_scope : View → Agent → List String
unfolding add_scope_entries add_workspace_names map_keys
resolve_agent_scope v a = sort string_less (
    map_keys (
      add_workspace_names (workspace_of v a.spec.scope)
        (add_scope_entries v a.spec.scope.namespaces [])))
