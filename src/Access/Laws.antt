-- ===== src/Access/Laws.antt =====
-- What the contexts of chat users let through (src/ai/tools.go), against a description of the
-- workspace's resources that does not build any map.
use mogenius_operator.Prelude.{
  String, Bool, true, false, not, ◌&&◌, ◌||◌, Option, none, some, List, [], ◌∷◌, ◌==◌, ◌≡◌, refl,
  arith, any, eq_iff, Bool-cases, inl, inr,
}
use mogenius_operator.Prelude.Text.{switch_ne}
use mogenius_operator.Prelude.Assoc.{Assoc, lookup, insert, has, has-insert, lookup-insert}
use mogenius_operator.Access.{
  ToolContext, allows, helm_knows, helm_allows, flux_owner_key, cut_slash, has_restrictions,
  release_in,
}
use mogenius_operator.Access.Build.{
  WorkspaceResource, allow, allow_helm, or_new, add_flux, add_resource, add_resources,
}

-- The resource names the namespace, the Helm release, the ArgoCD app or the Flux owner.
abbrev pub names_namespace : String → WorkspaceResource → Bool
names_namespace ns r = r.kind == "namespace" && not (r.id == "") && r.id == ns

abbrev pub names_release : String → String → WorkspaceResource → Bool
names_release ns release r =
    r.kind == "helm"
    && (not (r.namespace == "") && not (r.id == ""))
    && (r.namespace == ns && r.id == release)

abbrev pub names_release_in : String → WorkspaceResource → Bool
names_release_in ns r =
    r.kind == "helm" && (not (r.namespace == "") && not (r.id == "")) && r.namespace == ns

abbrev pub names_app : String → WorkspaceResource → Bool
names_app app r = r.kind == "argocd" && not (r.id == "") && r.id == app

abbrev flux_is : Option (String × String) → String → String → Bool
flux_is none namespace key = false
flux_is (some (kind, name)) namespace key =
    not (name == "") && not (namespace == "") && flux_owner_key kind namespace name == key

abbrev pub names_flux : String → WorkspaceResource → Bool
names_flux key r = r.kind == "flux" && flux_is (cut_slash r.id) r.namespace key

abbrev flux_valid : Option (String × String) → String → Bool
flux_valid none namespace = false
flux_valid (some (kind, name)) namespace = not (name == "") && not (namespace == "")

-- The resource has the fields that its type needs; one that lacks them restricts nothing.
abbrev pub is_well_formed : WorkspaceResource → Bool
is_well_formed r =
    r.kind == "namespace" && not (r.id == "")
    || r.kind == "helm" && (not (r.namespace == "") && not (r.id == ""))
    || r.kind == "argocd" && not (r.id == "")
    || r.kind == "flux" && flux_valid (cut_slash r.id) r.namespace

allows-allow :
    (k j : String) (m : Option (Assoc Bool)) → allows (allow k m) j ≡ (k == j || allows m j)
unfolding has lookup
allows-allow k j none = ground arith
allows-allow k j (some m) = ground (arith, has-insert k j m)

helm_knows-allow_helm :
    (n r : String) (m : Option (Assoc (Assoc Bool))) (ns : String)
    → helm_knows (allow_helm n r m) ns ≡ (n == ns || helm_knows m ns)
unfolding lookup
helm_knows-allow_helm n r none ns = ground (arith, lookup-insert n ns (insert r true []) [])
helm_knows-allow_helm n r (some m) ns =
    ground (arith, lookup-insert n ns (insert r true (or_new (lookup n m))) m)

has-or_new :
    (o : Option (Assoc Bool)) (release : String) → has release (or_new o) ≡ release_in o release
unfolding has lookup
has-or_new none release = refl
has-or_new (some m) release = refl

helm_allows-insert :
    (n r : String) (m : Assoc (Assoc Bool)) (ns release : String)
    → release_in (lookup ns (insert n (insert r true (or_new (lookup n m))) m)) release
      ≡ (n == ns && r == release || release_in (lookup ns m) release)
helm_allows-insert n r m ns release =
    let found = or_new (lookup n m) in
    rw (lookup-insert n ns (insert r true found) m) (elim (Bool-cases (n == ns)) [
      | inl e ↦ rw e (
          rw (has-insert r release found)
            (rw ((eq_iff n ns).0 e) (rw (has-or_new (lookup ns m) release) (ground arith))))
      | inr e ↦ rw e refl
    ])

helm_allows-allow_helm :
    (n r : String) (m : Option (Assoc (Assoc Bool))) (ns release : String)
    → helm_allows (allow_helm n r m) ns release
      ≡ (n == ns && r == release || helm_allows m ns release)
helm_allows-allow_helm n r none ns release = unfold lookup in helm_allows-insert n r [] ns release
helm_allows-allow_helm n r (some m) ns release = helm_allows-insert n r m ns release

flux-add :
    (o : Option (String × String)) (namespace key : String) (tc : ToolContext)
    → allows (add_flux o namespace tc).allowed_flux_releases key
      ≡ (flux_is o namespace key || allows tc.allowed_flux_releases key)
unfolding add_flux
flux-add none namespace key tc = refl
flux-add (some (kind, name)) namespace key tc =
    ground (arith, allows-allow (flux_owner_key kind namespace name) key tc.allowed_flux_releases)

add_flux-restricted :
    (o : Option (String × String)) (namespace : String) (tc : ToolContext)
    → has_restrictions (some (add_flux o namespace tc))
      ≡ (flux_valid o namespace || has_restrictions (some tc))
unfolding add_flux has_restrictions
add_flux-restricted none namespace tc = refl
add_flux-restricted (some (kind, name)) namespace tc = ground arith

module _ (tc : ToolContext) (r : WorkspaceResource) where
  add_resource-restricted :
      has_restrictions (some (add_resource tc r)) ≡ (is_well_formed r || has_restrictions (some tc))
  unfolding add_resource has_restrictions
  add_resource-restricted = ground (
    arith,
    add_flux-restricted (cut_slash r.id) r.namespace tc,
    switch_ne r.kind "helm" "namespace" refl,
    switch_ne r.kind "argocd" "namespace" refl,
    switch_ne r.kind "argocd" "helm" refl,
    switch_ne r.kind "flux" "namespace" refl,
    switch_ne r.kind "flux" "helm" refl,
    switch_ne r.kind "flux" "argocd" refl,
  )

  add_resource-namespaces :
      (ns : String)
      → allows (add_resource tc r).allowed_namespaces ns
        ≡ (names_namespace ns r || allows tc.allowed_namespaces ns)
  unfolding add_resource
  add_resource-namespaces ns = ground (arith, allows-allow r.id ns tc.allowed_namespaces)

  add_resource-apps :
      (app : String)
      → allows (add_resource tc r).allowed_argocd_apps app
        ≡ (names_app app r || allows tc.allowed_argocd_apps app)
  unfolding add_resource
  add_resource-apps app = ground (
    arith,
    allows-allow r.id app tc.allowed_argocd_apps,
    switch_ne r.kind "argocd" "namespace" refl,
    switch_ne r.kind "argocd" "helm" refl,
  )

  add_resource-releases :
      (ns release : String)
      → helm_allows (add_resource tc r).allowed_helm_releases ns release
        ≡ (names_release ns release r || helm_allows tc.allowed_helm_releases ns release)
  unfolding add_resource
  add_resource-releases ns release = ground (
    arith,
    helm_allows-allow_helm r.namespace r.id tc.allowed_helm_releases ns release,
    switch_ne r.kind "helm" "namespace" refl,
  )

  add_resource-knows :
      (ns : String)
      → helm_knows (add_resource tc r).allowed_helm_releases ns
        ≡ (names_release_in ns r || helm_knows tc.allowed_helm_releases ns)
  unfolding add_resource
  add_resource-knows ns = ground (
    arith,
    helm_knows-allow_helm r.namespace r.id tc.allowed_helm_releases ns,
    switch_ne r.kind "helm" "namespace" refl,
  )

  add_resource-flux :
      (key : String)
      → allows (add_resource tc r).allowed_flux_releases key
        ≡ (names_flux key r || allows tc.allowed_flux_releases key)
  unfolding add_resource
  add_resource-flux key = ground (
    arith,
    flux-add (cut_slash r.id) r.namespace key tc,
    switch_ne r.kind "flux" "namespace" refl,
    switch_ne r.kind "flux" "helm" refl,
    switch_ne r.kind "flux" "argocd" refl,
  )

-- A loop that adds each element's own answer to a Boolean answers by `any`.
module _ (f : ToolContext → Bool) (p : WorkspaceResource → Bool) where
  loop-any :
      ((tc : ToolContext) (r : WorkspaceResource) → f (add_resource tc r) ≡ (p r || f tc))
      → (tc : ToolContext) (rs : List WorkspaceResource)
      → f (add_resources tc rs) ≡ (any p rs || f tc)
  unfolding add_resources
  loop-any step tc [] = refl
  loop-any step tc (r ∷ rs) = ground (arith, loop-any step (add_resource tc r) rs, step tc r)

pub scope-restricted :
    (tc : ToolContext) (rs : List WorkspaceResource)
    → has_restrictions (some (add_resources tc rs))
      ≡ (any is_well_formed rs || has_restrictions (some tc))
scope-restricted =
    loop-any (λ tc. has_restrictions (some tc)) is_well_formed add_resource-restricted

pub scope-namespaces :
    (ns : String) (tc : ToolContext) (rs : List WorkspaceResource)
    → allows (add_resources tc rs).allowed_namespaces ns
      ≡ (any (names_namespace ns) rs || allows tc.allowed_namespaces ns)
scope-namespaces ns =
    loop-any (λ tc. allows tc.allowed_namespaces ns) (names_namespace ns)
      (λ tc r. add_resource-namespaces tc r ns)

pub scope-knows :
    (ns : String) (tc : ToolContext) (rs : List WorkspaceResource)
    → helm_knows (add_resources tc rs).allowed_helm_releases ns
      ≡ (any (names_release_in ns) rs || helm_knows tc.allowed_helm_releases ns)
scope-knows ns =
    loop-any (λ tc. helm_knows tc.allowed_helm_releases ns) (names_release_in ns)
      (λ tc r. add_resource-knows tc r ns)

pub scope-releases :
    (ns release : String) (tc : ToolContext) (rs : List WorkspaceResource)
    → helm_allows (add_resources tc rs).allowed_helm_releases ns release
      ≡ (any (names_release ns release) rs || helm_allows tc.allowed_helm_releases ns release)
scope-releases ns release =
    loop-any (λ tc. helm_allows tc.allowed_helm_releases ns release) (names_release ns release)
      (λ tc r. add_resource-releases tc r ns release)

pub scope-apps :
    (app : String) (tc : ToolContext) (rs : List WorkspaceResource)
    → allows (add_resources tc rs).allowed_argocd_apps app
      ≡ (any (names_app app) rs || allows tc.allowed_argocd_apps app)
scope-apps app =
    loop-any (λ tc. allows tc.allowed_argocd_apps app) (names_app app)
      (λ tc r. add_resource-apps tc r app)

pub scope-flux :
    (key : String) (tc : ToolContext) (rs : List WorkspaceResource)
    → allows (add_resources tc rs).allowed_flux_releases key
      ≡ (any (names_flux key) rs || allows tc.allowed_flux_releases key)
scope-flux key =
    loop-any (λ tc. allows tc.allowed_flux_releases key) (names_flux key)
      (λ tc r. add_resource-flux tc r key)
