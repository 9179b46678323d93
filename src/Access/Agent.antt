-- ===== src/Access/Agent.antt =====
-- The context of an agent run (newToolContextFromAgent, src/ai/tools.go).
use mogenius_operator.Prelude.{
  String, Bool, true, false, not, ◌&&◌, ◌||◌, Option, some, List, [], ◌∷◌, ◌==◌, ◌≡◌, refl, arith,
  if◌then◌else◌, contains, eq_iff,
}
use mogenius_operator.Prelude.Assoc.{Assoc, lookup, insert, has, has-insert}
use mogenius_operator.Access.{
  ToolContext, is_namespace_allowed, is_resource_allowed, is_helm_release_allowed, has_restrictions,
  is_editor, is_admin, owned_by_helm, owned_by_argocd, owned_by_flux,
}
use mogenius_operator.Access.Build.{allow_all, new_tool_context_from_agent}

has-allow_all :
    (nss : List String) (m : Assoc Bool) (ns : String)
    → has ns (allow_all nss m) ≡ (not (ns == "") && contains nss ns || has ns m)
unfolding allow_all
has-allow_all [] m ns = ground arith
has-allow_all (n ∷ nss) m ns = ground (
  arith,
  has-allow_all nss (if not (n == "") then insert n true m else m) ns,
  has-insert n ns m,
  eq_iff n ns,
  eq_iff n "",
  eq_iff ns "",
)

allow_all-has :
    (nss : List String) (ns : String)
    → has ns (allow_all nss []) ≡ (not (ns == "") && contains nss ns)
unfolding has lookup
allow_all-has nss ns = ground (arith, unfold_has nss ns)
  where
    unfold_has :
        (l : List String) (k : String)
        → has k (allow_all l []) ≡ (not (k == "") && contains l k || has k [])
    unfold_has l k = has-allow_all l [] k

module _ (name workspace_ref : String) (nss : List String) where
  abbrev agent_context : Option ToolContext
  agent_context = some (new_tool_context_from_agent name workspace_ref nss)

  -- On the context of an agent run the namespace check and the resource check pass exactly the
  -- non-empty namespaces that the agent's scope was resolved to, whatever marks an object carries,
  -- and the editor check and the admin check never pass. The Helm release check is another one.
  pub agent_confined :
      (ns : String) (annotations : Assoc String)
      → (is_namespace_allowed agent_context ns ≡ (not (ns == "") && contains nss ns))
        × (is_resource_allowed agent_context ns annotations ≡ (not (ns == "") && contains nss ns))
        × (is_editor agent_context ≡ false)
        × (is_admin agent_context ≡ false)
  unfolding is_namespace_allowed is_resource_allowed is_editor is_admin new_tool_context_from_agent
      has_restrictions owned_by_helm owned_by_argocd owned_by_flux
  agent_confined ns annotations =
      (ground (arith, allow_all-has nss ns), ground (arith, allow_all-has nss ns), refl, refl)

  -- The Helm check lets an agent run at every release of every namespace, those outside its scope
  -- included: the agent's context has no Helm allow-map, and the check reads that as no
  -- restriction though the namespaces are restricted.
  pub agent_reaches_every_release :
      (ns release : String)
      → contains nss ns ≡ false
      → (is_namespace_allowed agent_context ns ≡ false)
        × (is_helm_release_allowed agent_context ns release ≡ true)
  unfolding is_helm_release_allowed new_tool_context_from_agent
  agent_reaches_every_release ns release h =
      (ground (arith, (agent_confined ns []).0), ground (arith, allow_all-has nss ns))
