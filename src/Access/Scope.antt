-- ===== src/Access/Scope.antt =====
-- The checks of src/ai/tools.go on the context of a chat user: exactly what the workspace's
-- resources name.
use mogenius_operator.Prelude.{
  String, Bool, true, false, not, ◌&&◌, ◌||◌, Option, none, some, List, [], ◌∷◌, ◌==◌, ◌≡◌, refl,
  arith, is_some, any,
}
use mogenius_operator.Prelude.Assoc.{Assoc}
use mogenius_operator.Access.{
  ToolContext, User, unrestricted, flux_owner_key, is_namespace_allowed, is_resource_allowed,
  is_helm_release_allowed, has_restrictions, owned_by_helm, owned_by_argocd, owned_by_flux,
  annotation,
}
use mogenius_operator.Access.Build.{
  WorkspaceResource, Grant, add_resources, with_role, new_tool_context_from_user_grant,
}
use mogenius_operator.Access.Laws.{
  names_namespace, names_release, names_release_in, names_app, names_flux, is_well_formed,
  scope-restricted, scope-namespaces, scope-knows, scope-releases, scope-apps, scope-flux,
}

-- The start of the loop.
abbrev pub start : Option User → String → Option Grant → ToolContext
start user workspace grant = with_role grant (unrestricted user workspace)

-- Nothing is restricted and nothing is named before the loop.
record IsStart (tc : ToolContext) : Type 0 where
  unrestricted : has_restrictions (some tc) ≡ false
  no_namespaces : tc.allowed_namespaces ≡ none
  no_releases : tc.allowed_helm_releases ≡ none
  no_apps : tc.allowed_argocd_apps ≡ none
  no_flux : tc.allowed_flux_releases ≡ none

start-IsStart :
    (user : Option User) (workspace : String) (grant : Option Grant)
    → IsStart (start user workspace grant)
unfolding has_restrictions
start-IsStart user workspace none = ground arith
start-IsStart user workspace (some g) = ground arith

-- The description of what a resource's ownership marks may match.
abbrev pub kustomization_key : Assoc String → String
kustomization_key annotations =
    flux_owner_key "Kustomization" (annotation annotations "kustomize.toolkit.fluxcd.io/namespace")
      (annotation annotations "kustomize.toolkit.fluxcd.io/name")

abbrev pub release_key : Assoc String → String
release_key annotations =
    flux_owner_key "HelmRelease" (annotation annotations "helm.toolkit.fluxcd.io/namespace")
      (annotation annotations "helm.toolkit.fluxcd.io/name")

-- The mark is there.
abbrev pub marked : Assoc String → String → Bool
marked annotations key = not (annotation annotations key == "")

abbrev pub covers : String → Assoc String → WorkspaceResource → Bool
covers ns annotations r =
    names_namespace ns r
    || (marked annotations "meta.helm.sh/release-name"
          && names_release ns (annotation annotations "meta.helm.sh/release-name") r
        || (marked annotations "argocd.argoproj.io/instance"
              && names_app (annotation annotations "argocd.argoproj.io/instance") r
            || (marked annotations "kustomize.toolkit.fluxcd.io/name"
                  && names_flux (kustomization_key annotations) r
                || marked annotations "helm.toolkit.fluxcd.io/name"
                  && names_flux (release_key annotations) r)))

any-or :
    (p q : WorkspaceResource → Bool) (rs : List WorkspaceResource)
    → any (λ r. p r || q r) rs ≡ (any p rs || any q rs)
any-or p q [] = refl
any-or p q (r ∷ rs) = ground (arith, any-or p q rs)

any-and :
    (b : Bool) (p : WorkspaceResource → Bool) (rs : List WorkspaceResource)
    → any (λ r. b && p r) rs ≡ (b && any p rs)
any-and true p rs = refl
any-and false p [] = refl
any-and false p (r ∷ rs) = any-and false p rs

-- What the workspace's resources cover, loop by loop.
covers-any :
    (ns : String) (annotations : Assoc String) (rs : List WorkspaceResource)
    → any (covers ns annotations) rs ≡ (
        any (names_namespace ns) rs
        || (marked annotations "meta.helm.sh/release-name"
              && any (names_release ns (annotation annotations "meta.helm.sh/release-name")) rs
            || (marked annotations "argocd.argoproj.io/instance"
                  && any (names_app (annotation annotations "argocd.argoproj.io/instance")) rs
                || (marked annotations "kustomize.toolkit.fluxcd.io/name"
                      && any (names_flux (kustomization_key annotations)) rs
                    || marked annotations "helm.toolkit.fluxcd.io/name"
                      && any (names_flux (release_key annotations)) rs))))
covers-any ns annotations rs = simp (any-or, any-and)

module _ (user : Option User) (workspace : String) (grant : Option Grant) where
  module _ (rs : List WorkspaceResource) where
    new_tool_context-scope :
        new_tool_context_from_user_grant user workspace false (some rs) grant
        ≡ add_resources (start user workspace grant) rs
    unfolding new_tool_context_from_user_grant
    new_tool_context-scope = refl

    -- IsNamespaceAllowed on the context of a non-admin chat user: a namespace passes exactly when
    -- no resource of the workspace is well formed, or some resource names the namespace or a Helm
    -- release in it.
    pub namespace_allowed_iff_named :
        (ns : String)
        → is_namespace_allowed
            (some (new_tool_context_from_user_grant user workspace false (some rs) grant))
            ns
          ≡ (not (any is_well_formed rs)
              || (any (names_namespace ns) rs || any (names_release_in ns) rs))
    unfolding is_namespace_allowed
    namespace_allowed_iff_named ns =
        let tc = start user workspace grant in
        rw new_tool_context-scope (
          ground (
            arith,
            start-IsStart user workspace grant,
            scope-restricted tc rs,
            scope-namespaces ns tc rs,
            scope-knows ns tc rs,
          ))

    -- IsHelmReleaseAllowed on the context of a non-admin chat user whose workspace names a Helm
    -- release at all: a release passes exactly when some resource names its namespace or the
    -- release itself.
    pub release_allowed_iff_named :
        (ns release : String)
        → is_some (add_resources (start user workspace grant) rs).allowed_helm_releases ≡ true
        → is_helm_release_allowed
            (some (new_tool_context_from_user_grant user workspace false (some rs) grant))
            ns
            release
          ≡ (any (names_namespace ns) rs || any (names_release ns release) rs)
    unfolding is_helm_release_allowed
    release_allowed_iff_named ns release h =
        let tc = start user workspace grant in
        rw new_tool_context-scope (
          ground (
            arith,
            start-IsStart user workspace grant,
            scope-namespaces ns tc rs,
            scope-releases ns release tc rs,
          ))

    -- IsResourceAllowed on the context of a non-admin chat user: an object passes exactly when no
    -- resource of the workspace is well formed, or one resource names its namespace, or the Helm
    -- release, ArgoCD app or Flux owner that the object's marks state.
    pub resource_allowed_iff_covered :
        (ns : String) (annotations : Assoc String)
        → is_resource_allowed
            (some (new_tool_context_from_user_grant user workspace false (some rs) grant))
            ns
            annotations
          ≡ (not (any is_well_formed rs) || any (covers ns annotations) rs)
    unfolding is_resource_allowed owned_by_helm owned_by_argocd owned_by_flux
    resource_allowed_iff_covered ns annotations =
        let tc = start user workspace grant in
        rw new_tool_context-scope (
          rw (covers-any ns annotations rs) (
            ground (
              arith,
              start-IsStart user workspace grant,
              scope-restricted tc rs,
              scope-namespaces ns tc rs,
              scope-releases ns (annotation annotations "meta.helm.sh/release-name") tc rs,
              scope-apps (annotation annotations "argocd.argoproj.io/instance") tc rs,
              scope-flux (kustomization_key annotations) tc rs,
              scope-flux (release_key annotations) tc rs,
            )))
