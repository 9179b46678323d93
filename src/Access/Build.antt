-- ===== src/Access/Build.antt =====
-- src/ai/tools.go: the contexts of chat users (newToolContextFromUserGrant) and of agent runs
-- (newToolContextFromAgent), built from the workspace's resources and the agent's namespaces.
use Prim.Native.String.{◌++◌}
use mogenius_operator.Prelude.{
  String, Bool, true, false, not, ◌&&◌, ◌||◌, Option, none, some, List, [], ◌∷◌, ◌==◌,
  if◌then◌else◌, is_some,
}
use mogenius_operator.Prelude.Assoc.{Assoc, lookup, insert}
use mogenius_operator.Access.{
  User, no_api_key, ToolContext, unrestricted, flux_owner_key, cut_slash,
}

-- v1alpha1.WorkspaceResourceIdentifier, WorkspaceSpec.Resources and GrantSpec.Role
-- (src/crds/v1alpha1/type_workspace.go, type_grant.go)
pub record WorkspaceResource : Type 0 where
  pub id : String
  pub kind : String
  pub namespace : String

pub record Grant : Type 0 where
  pub grantee : String
  pub target_type : String
  pub target_name : String
  pub role : String

-- `if m == nil { m = make(…) }; m[k] = true`
abbrev pub allow : String → Option (Assoc Bool) → Option (Assoc Bool)
allow k none = some ((k, true) ∷ [])
allow k (some m) = some (insert k true m)

abbrev pub or_new {ℓ} : {V : Type ℓ} → Option (Assoc V) → Assoc V
or_new none = []
or_new (some m) = m

abbrev pub allow_helm : String → String → Option (Assoc (Assoc Bool)) → Option (Assoc (Assoc Bool))
allow_helm namespace release releases =
    let m = or_new releases in
    some (insert namespace (insert release true (or_new (lookup namespace m))) m)

-- The "flux" case of the switch, after `strings.Cut`.
unfoldable pub add_flux : Option (String × String) → String → ToolContext → ToolContext
add_flux none namespace tc = tc
add_flux (some (kind, name)) namespace tc =
    if not (name == "") && not (namespace == "")
    then record tc {
      allowed_flux_releases = allow (flux_owner_key kind namespace name) tc.allowed_flux_releases;
    }
    else tc

-- One round of the loop over `workspaceSpec.Resources`.
unfoldable pub add_resource : ToolContext → WorkspaceResource → ToolContext
unfolding add_flux
add_resource tc res =
    if res.kind == "namespace"
    then (if not (res.id == "")
        then record tc { allowed_namespaces = allow res.id tc.allowed_namespaces }
        else tc)
    else if res.kind == "helm"
    then (if not (res.namespace == "") && not (res.id == "")
        then record tc {
          allowed_helm_releases = allow_helm res.namespace res.id tc.allowed_helm_releases;
        }
        else tc)
    else if res.kind == "argocd"
    then (if not (res.id == "")
        then record tc { allowed_argocd_apps = allow res.id tc.allowed_argocd_apps }
        else tc)
    else if res.kind == "flux"
    then add_flux (cut_slash res.id) res.namespace tc
    else tc

unfoldable pub add_resources : ToolContext → List WorkspaceResource → ToolContext
add_resources tc [] = tc
add_resources tc (res ∷ rest) = add_resources (add_resource tc res) rest

abbrev pub with_role : Option Grant → ToolContext → ToolContext
with_role none tc = tc
with_role (some grant) tc = record tc { role = grant.role }

abbrev pub with_spec : Option (List WorkspaceResource) → ToolContext → ToolContext
with_spec none tc = tc
with_spec (some resources) tc = add_resources tc resources

unfoldable pub new_tool_context_from_user_grant :
    Option User → String → Bool → Option (List WorkspaceResource) → Option Grant → ToolContext
new_tool_context_from_user_grant user workspace admin spec grant =
    let tc = unrestricted user workspace in
    if admin || (not (is_some spec) && not (is_some grant))
    then tc
    else with_spec spec (with_role grant tc)

-- `make(map[string]bool)` filled with the non-empty namespaces.
unfoldable pub allow_all : List String → Assoc Bool → Assoc Bool
allow_all [] m = m
allow_all (ns ∷ rest) m = allow_all rest (if not (ns == "") then insert ns true m else m)

unfoldable pub new_tool_context_from_agent : String → String → List String → ToolContext
new_tool_context_from_agent agent_name workspace_ref resolved_namespaces = record {
  allowed_namespaces = some (allow_all resolved_namespaces []);
  allowed_helm_releases = none;
  allowed_argocd_apps = none;
  allowed_flux_releases = none;
  role = "viewer";
  user = some (record {
    first_name = "Agent";
    last_name = agent_name;
    email = "agent:" ++ agent_name ++ "@system";
    source = "ai-agent";
    api_key = no_api_key;
    is_mcp_request = false;
  });
  workspace = workspace_ref;
  audit_source = "";
  exclude_resources = [];
  mcp_sessions = [];
  disable_kubernetes = false;
  disable_helm = false;
  intercept_mutating_tools = true;
  create_approval_request = false;
}

-- `viewerAllowedTools`
unfoldable pub viewer_allowed_tools : List String
viewer_allowed_tools =
    "get_kubernetes_resources" ∷ "list_kubernetes_resources" ∷ "check_kubernetes_resource"
    ∷ "get_pod_logs" ∷ "get_pod_events" ∷ "helm_chart_search" ∷ "helm_chart_show"
    ∷ "helm_chart_versions" ∷ "helm_repo_list" ∷ "helm_release_list" ∷ "helm_release_get"
    ∷ "helm_release_history" ∷ "helm_release_status" ∷ []
