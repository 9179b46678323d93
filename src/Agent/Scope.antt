-- ===== src/Agent/Scope.antt =====
-- Which namespaces an agent may see (src/ai/agents.go, resolveAgentScope).
use mogenius_operator.Prelude.{
  String, Bool, true, not, ◌&&◌, ◌||◌, List, [], ◌∷◌, ◌==◌, ◌≡◌, refl, ◌∙◌, arith, if◌then◌else◌,
  any, contains, contains→In, In→contains, eq_iff, Bool-cases, inl, inr,
}
use mogenius_operator.Prelude.Assoc.{Assoc, insert}
use mogenius_operator.Prelude.Sort.{sort, In-sort, sort-In}
use mogenius_operator.Access.Build.{WorkspaceResource}
use mogenius_operator.Agent.{
  Agent, View, add_name, add_names, add_scope_entries, add_workspace_names, map_keys, workspace_of,
  string_less, resolve_agent_scope,
}

contains-insert :
    (k j : String) (m : Assoc Bool)
    → contains (map_keys (insert k true m)) j ≡ (k == j || contains (map_keys m) j)
unfolding map_keys insert
contains-insert k j [] = refl
contains-insert k j (e ∷ m) = ground (arith, contains-insert k j m, eq_iff e.0 k)

contains-add_name :
    (k j : String) (m : Assoc Bool)
    → contains (map_keys (add_name k m)) j ≡ (not (j == "") && k == j || contains (map_keys m) j)
contains-add_name k j m =
    ground (arith, contains-insert k j m, eq_iff k "", eq_iff k j, eq_iff j "")

contains-add_names :
    (l : List String) (j : String) (m : Assoc Bool)
    → contains (map_keys (add_names l m)) j
      ≡ (not (j == "") && contains l j || contains (map_keys m) j)
unfolding add_names
contains-add_names [] j m = ground arith
contains-add_names (k ∷ l) j m =
    ground (arith, contains-add_names l j (add_name k m), contains-add_name k j m)

-- An entry of the scope names a namespace, or stands for all that are known.
abbrev pub entry_covers : View → String → String → Bool
entry_covers v j entry = if entry == "*" then contains v.known_namespaces j else entry == j

contains-add_scope_entries :
    (v : View) (l : List String) (j : String) (m : Assoc Bool)
    → contains (map_keys (add_scope_entries v l m)) j
      ≡ (not (j == "") && any (entry_covers v j) l || contains (map_keys m) j)
unfolding add_scope_entries
contains-add_scope_entries v [] j m = ground arith
contains-add_scope_entries v (e ∷ l) j m = elim (Bool-cases (e == "*")) [
  | inl q ↦ ground (
    arith,
    contains-add_scope_entries v l j (add_names v.known_namespaces m),
    contains-add_names v.known_namespaces j m,
  )
  | inr q ↦ ground (arith, contains-add_scope_entries v l j (add_name e m), contains-add_name e j m)
]

-- A resource of a workspace that is the namespace.
abbrev pub resource_names : String → WorkspaceResource → Bool
resource_names j res = res.kind == "namespace" && res.id == j

contains-add_workspace_names :
    (l : List WorkspaceResource) (j : String) (m : Assoc Bool)
    → contains (map_keys (add_workspace_names l m)) j
      ≡ (not (j == "") && any (resource_names j) l || contains (map_keys m) j)
unfolding add_workspace_names
contains-add_workspace_names [] j m = ground arith
contains-add_workspace_names (res ∷ l) j m = elim (Bool-cases (res.kind == "namespace")) [
  | inl q ↦
      ground
        (arith, contains-add_workspace_names l j (add_name res.id m), contains-add_name res.id j m)
  | inr q ↦ ground (arith, contains-add_workspace_names l j m)
]

contains-sort : (l : List String) (j : String) → contains (sort string_less l) j ≡ contains l j
contains-sort l j = elim (Bool-cases (contains l j)) [
  | inl e ↦ rw e (In→contains (sort string_less l) j (sort-In string_less l j (contains→In l j e)))
  | inr e ↦ elim (Bool-cases (contains (sort string_less l) j)) [
    | inl s ↦
        cc (s, In→contains l j (In-sort string_less l j (contains→In (sort string_less l) j s)))
    | inr s ↦ cc (e, s)
  ]
]

-- The resolved scope holds exactly the non-empty names that an entry of the scope is, or covers as
-- "*", or that a namespace resource of the agent's workspace has.
pub scope_iff_covered :
    (v : View) (a : Agent) (j : String)
    → contains (resolve_agent_scope v a) j ≡ (
        not (j == "")
        && (any (entry_covers v j) a.spec.scope.namespaces
            || any (resource_names j) (workspace_of v a.spec.scope)))
unfolding resolve_agent_scope map_keys
scope_iff_covered v a j =
    let entries = add_scope_entries v a.spec.scope.namespaces [] in
    let ws = workspace_of v a.spec.scope in
    contains-sort (map_keys (add_workspace_names ws entries)) j
    ∙ ground (
      arith,
      contains-add_workspace_names ws j entries,
      contains-add_scope_entries v a.spec.scope.namespaces j [],
    )
