-- ===== src/Access.antt =====
-- src/ai/tools.go: what a tool call may touch. A `ToolContext` carries the allow-maps, the role and
-- the identity of a chat user or of an agent run; a nil pointer or a nil map is `none`.
pub mod Build
pub mod Laws
pub mod Scope
pub mod Agent
mod Examples
use Prim.Native.Char.{code}
use Prim.Native.String.{[], ◌∷◌, ◌++◌}
use mogenius_operator.Prelude.{
  String, Bool, true, false, not, ◌&&◌, ◌||◌, Option, none, some, List, ◌==◌, eqb, if◌then◌else◌,
  is_some,
}
use mogenius_operator.Prelude.Text.{cut}
use mogenius_operator.Prelude.Assoc.{Assoc, lookup, has}

-- structs.User and structs.ApiKey (src/structs/datagram.go)
pub record ApiKey : Type 0 where
  pub id : String
  pub name : String

pub record User : Type 0 where
  pub first_name : String
  pub last_name : String
  pub email : String
  pub source : String
  pub api_key : ApiKey
  pub is_mcp_request : Bool

abbrev pub no_api_key : ApiKey
no_api_key = record { id = ""; name = "" }

-- `var u structs.User`
abbrev pub zero_user : User
zero_user = record {
  first_name = "";
  last_name = "";
  email = "";
  source = "";
  api_key = no_api_key;
  is_mcp_request = false;
}

-- The closure `CreateApprovalRequest` is modelled in Approval; here the field says whether it is
-- set.
pub record ToolContext : Type 0 where
  pub allowed_namespaces : Option (Assoc Bool)
  pub allowed_helm_releases : Option (Assoc (Assoc Bool))
  pub allowed_argocd_apps : Option (Assoc Bool)
  pub allowed_flux_releases : Option (Assoc Bool)
  pub role : String
  pub user : Option User
  pub workspace : String
  pub audit_source : String
  pub exclude_resources : Assoc Bool
  pub mcp_sessions : List String
  pub disable_kubernetes : Bool
  pub disable_helm : Bool
  pub intercept_mutating_tools : Bool
  pub create_approval_request : Bool

-- `&ToolContext{User: user, Workspace: workspace}`
abbrev pub unrestricted : Option User → String → ToolContext
unrestricted user workspace = record {
  allowed_namespaces = none;
  allowed_helm_releases = none;
  allowed_argocd_apps = none;
  allowed_flux_releases = none;
  role = "";
  user = user;
  workspace = workspace;
  audit_source = "";
  exclude_resources = List.[];
  mcp_sessions = List.[];
  disable_kubernetes = false;
  disable_helm = false;
  intercept_mutating_tools = false;
  create_approval_request = false;
}

-- `m != nil && m[k]` for a `map[string]bool`.
abbrev pub allows : Option (Assoc Bool) → String → Bool
allows none k = false
allows (some m) k = has k m

unfoldable pub ai_resource_key : String → String → String → String → String
ai_resource_key api_version kind namespace name =
    api_version ++ "|" ++ kind ++ "|" ++ namespace ++ "|" ++ name

unfoldable pub is_resource_excluded : Option ToolContext → String → String → String → String → Bool
is_resource_excluded none api_version kind namespace name = false
is_resource_excluded (some tc) api_version kind namespace name =
    has (ai_resource_key api_version kind namespace name) tc.exclude_resources

unfoldable pub flux_owner_key : String → String → String → String
flux_owner_key kind namespace name = kind ++ "\0" ++ namespace ++ "\0" ++ name

unfoldable pub has_restrictions : Option ToolContext → Bool
has_restrictions none = false
has_restrictions (some tc) =
    is_some tc.allowed_namespaces
    || is_some tc.allowed_helm_releases
    || is_some tc.allowed_argocd_apps
    || is_some tc.allowed_flux_releases

unfoldable pub has_ownership_restrictions : Option ToolContext → Bool
has_ownership_restrictions none = false
has_ownership_restrictions (some tc) =
    is_some tc.allowed_argocd_apps || is_some tc.allowed_flux_releases

-- `_, ok := tc.AllowedHelmReleases[namespace]`
abbrev pub helm_knows : Option (Assoc (Assoc Bool)) → String → Bool
helm_knows none namespace = false
helm_knows (some releases) namespace = is_some (lookup namespace releases)

-- `releases[releaseName]` of the entry of a namespace; false where there is none.
abbrev pub release_in : Option (Assoc Bool) → String → Bool
release_in none release = false
release_in (some releases) release = has release releases

abbrev pub helm_allows : Option (Assoc (Assoc Bool)) → String → String → Bool
helm_allows none namespace release = false
helm_allows (some m) namespace release = release_in (lookup namespace m) release

unfoldable pub is_namespace_allowed : Option ToolContext → String → Bool
is_namespace_allowed none namespace = true
is_namespace_allowed (some tc) namespace =
    if not (has_restrictions (some tc))
    then true
    else if allows tc.allowed_namespaces namespace
    then true
    else helm_knows tc.allowed_helm_releases namespace

unfoldable pub is_helm_release_allowed : Option ToolContext → String → String → Bool
is_helm_release_allowed none namespace release = true
is_helm_release_allowed (some tc) namespace release =
    if allows tc.allowed_namespaces namespace
    then true
    else if not (is_some tc.allowed_helm_releases)
    then true
    else helm_allows tc.allowed_helm_releases namespace release

-- `annotations[key]`: the empty string where the key is missing.
abbrev or_empty : Option String → String
or_empty none = ""
or_empty (some s) = s

unfoldable pub annotation : Assoc String → String → String
annotation annotations key = or_empty (lookup key annotations)

-- One of the three ownership marks that a resource may carry.
unfoldable pub owned_by_helm : ToolContext → String → Assoc String → Bool
owned_by_helm tc namespace annotations =
    let release = annotation annotations "meta.helm.sh/release-name" in
    not (release == "") && helm_allows tc.allowed_helm_releases namespace release

unfoldable pub owned_by_argocd : ToolContext → Assoc String → Bool
owned_by_argocd tc annotations =
    let app = annotation annotations "argocd.argoproj.io/instance" in
    not (app == "") && allows tc.allowed_argocd_apps app

unfoldable pub owned_by_flux : ToolContext → Assoc String → Bool
owned_by_flux tc annotations =
    let kustomization = annotation annotations "kustomize.toolkit.fluxcd.io/name" in
    let kustomization_ns = annotation annotations "kustomize.toolkit.fluxcd.io/namespace" in
    let release = annotation annotations "helm.toolkit.fluxcd.io/name" in
    let release_ns = annotation annotations "helm.toolkit.fluxcd.io/namespace" in
    not (kustomization == "")
      && allows tc.allowed_flux_releases
          (flux_owner_key "Kustomization" kustomization_ns kustomization)
    || not (release == "")
      && allows tc.allowed_flux_releases (flux_owner_key "HelmRelease" release_ns release)

unfoldable pub is_resource_allowed : Option ToolContext → String → Assoc String → Bool
is_resource_allowed none namespace annotations = true
is_resource_allowed (some tc) namespace annotations =
    if not (has_restrictions (some tc))
    then true
    else if allows tc.allowed_namespaces namespace
    then true
    else if owned_by_helm tc namespace annotations
    then true
    else if owned_by_argocd tc annotations
    then true
    else owned_by_flux tc annotations

unfoldable pub is_editor : Option ToolContext → Bool
is_editor none = true
is_editor (some tc) = if tc.role == "" then true else tc.role == "editor"

unfoldable pub is_admin : Option ToolContext → Bool
is_admin none = true
is_admin (some tc) = if tc.role == "" then true else tc.role == "admin"

-- `strings.Cut(id, "/")`
unfoldable pub cut_slash : String → Option (String × String)
unfolding cut
cut_slash id = cut "/" id
