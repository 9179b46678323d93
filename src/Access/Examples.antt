-- ===== src/Access/Examples.antt =====
-- The properties of the access checks at concrete workspaces, and runs of the code on them.
use mogenius_operator.Prelude.{
  String, true, false, not, ◌||◌, none, some, List, [], ◌∷◌, ◌≡◌, refl, any,
}
use mogenius_operator.Prelude.Assoc.{Assoc, lookup, insert, has}
use mogenius_operator.Access.{
  is_namespace_allowed, is_resource_allowed, is_helm_release_allowed, is_editor, is_admin,
  has_restrictions, cut_slash, flux_owner_key, annotation, owned_by_helm, owned_by_argocd,
  owned_by_flux,
}
use mogenius_operator.Access.Build.{
  WorkspaceResource, new_tool_context_from_user_grant, new_tool_context_from_agent, add_resources,
  add_resource,
}
use mogenius_operator.Access.Laws.{names_namespace, names_release_in, is_well_formed}
use mogenius_operator.Access.Scope.{
  covers, namespace_allowed_iff_named, resource_allowed_iff_covered,
}
use mogenius_operator.Access.Agent.{agent_confined, agent_reaches_every_release}

abbrev shop : List WorkspaceResource
shop =
    record { id = "shop"; kind = "namespace"; namespace = "" }
    ∷ record { id = "redis"; kind = "helm"; namespace = "cache" }
    ∷ record { id = "Kustomization/podinfo"; kind = "flux"; namespace = "flux-system" }
    ∷ []

shop_names_the_cache :
    is_namespace_allowed
      (some (new_tool_context_from_user_grant none "w" false (some shop) none))
      "cache"
    ≡ true
unfolding is_namespace_allowed has_restrictions new_tool_context_from_user_grant add_resources
    add_resource insert lookup has cut_slash flux_owner_key
shop_names_the_cache = refl

namespace_allowed_iff_named_example :
    is_namespace_allowed
      (some (new_tool_context_from_user_grant none "w" false (some shop) none))
      "kube-system"
    ≡ (not (any is_well_formed shop)
        || (any (names_namespace "kube-system") shop || any (names_release_in "kube-system") shop))
namespace_allowed_iff_named_example = namespace_allowed_iff_named none "w" none shop "kube-system"

abbrev marks : Assoc String
marks =
    ("kustomize.toolkit.fluxcd.io/name", "podinfo")
    ∷ ("kustomize.toolkit.fluxcd.io/namespace", "flux-system")
    ∷ []

resource_allowed_iff_covered_example :
    is_resource_allowed
      (some (new_tool_context_from_user_grant none "w" false (some shop) none))
      "apps"
      marks
    ≡ (not (any is_well_formed shop) || any (covers "apps" marks) shop)
resource_allowed_iff_covered_example = resource_allowed_iff_covered none "w" none shop "apps" marks

podinfo_is_covered :
    is_resource_allowed
      (some (new_tool_context_from_user_grant none "w" false (some shop) none))
      "apps"
      marks
    ≡ true
unfolding is_resource_allowed has_restrictions new_tool_context_from_user_grant add_resources
    add_resource insert lookup has cut_slash flux_owner_key annotation owned_by_helm owned_by_argocd
    owned_by_flux
podinfo_is_covered = refl

agent_confined_example :
    (is_namespace_allowed (some (new_tool_context_from_agent "janitor" "" ("dev" ∷ []))) "prod"
      ≡ false)
    × (is_resource_allowed
          (some (new_tool_context_from_agent "janitor" "" ("dev" ∷ [])))
          "prod"
          marks
        ≡ false)
    × (is_editor (some (new_tool_context_from_agent "janitor" "" ("dev" ∷ []))) ≡ false)
    × (is_admin (some (new_tool_context_from_agent "janitor" "" ("dev" ∷ []))) ≡ false)
agent_confined_example = agent_confined "janitor" "" ("dev" ∷ []) "prod" marks

agent_reaches_every_release_example :
    (is_namespace_allowed (some (new_tool_context_from_agent "janitor" "" ("dev" ∷ []))) "prod"
      ≡ false)
    × (is_helm_release_allowed
          (some (new_tool_context_from_agent "janitor" "" ("dev" ∷ [])))
          "prod"
          "db"
        ≡ true)
agent_reaches_every_release_example =
    agent_reaches_every_release "janitor" "" ("dev" ∷ []) "prod" "db" refl
