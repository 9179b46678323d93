-- ===== src/Search/Plan.antt =====
-- The search against one shard of the index (src/store/store.go: shardSearchPlan,
-- filterMembersByGroups).
use mogenius_operator.Prelude.{
  ℕ, String, Bool, true, false, Option, none, some, List, [], ◌∷◌, ◌==◌, if◌then◌else◌, is_empty,
  filter_by,
}
use mogenius_operator.Search.{
  SearchFilterGroup, Attributes, normalize_search_field, match_value, matches,
}

-- A sorted set of the index: the resources of one kind in one namespace.
pub record IndexShard : Type 0 where
  pub api_version : String
  pub kind : String
  pub namespace : String

-- A member of a sorted set.
pub record Member : Type 0 where
  pub member : String
  pub score : ℕ

-- The groups that depend on the member, or nothing where the whole shard is excluded.
abbrev pub Plan : Type 0
Plan = Option (List SearchFilterGroup)

abbrev pub with_group : SearchFilterGroup → Plan → Plan
with_group g none = none
with_group g (some gs) = some (g ∷ gs)

module _ (to_lower : String → String) where
  abbrev pub decided : Bool → Plan → Plan
  decided b later = if b then later else none

  unfoldable pub shard_search_plan : IndexShard → List SearchFilterGroup → Plan
  shard_search_plan shard [] = some []
  shard_search_plan shard (g ∷ gs) =
      let later = shard_search_plan shard gs in
      let f = normalize_search_field to_lower g.field in
      if f == "name"
      then with_group g later
      else if f == "kind"
      then decided (match_value to_lower g shard.kind) later
      else if f == "namespace"
      then decided (match_value to_lower g shard.namespace) later
      else if f == "apiversion"
      then decided (match_value to_lower g shard.api_version) later
      else with_group g later

  -- A member with the attributes that its shard fixes.
  abbrev pub attributes : IndexShard → Member → Attributes
  attributes shard m = record {
    name = m.member;
    kind = shard.kind;
    namespace = shard.namespace;
    api_version = shard.api_version;
  }

  unfoldable pub passes : IndexShard → List SearchFilterGroup → Member → Bool
  passes shard [] m = true
  passes shard (g ∷ gs) m =
      let later = passes shard gs m in
      if (if normalize_search_field to_lower g.field == "name"
        then match_value to_lower g m.member
        else matches to_lower g (attributes shard m))
      then later
      else false

  unfoldable pub filter_members_by_groups :
      List Member → List SearchFilterGroup → IndexShard → List Member
  unfolding passes
  filter_members_by_groups members groups shard =
      if is_empty groups then members else filter_by (passes shard groups) members

  -- The members of a shard that a search keeps (the loop body of GetResourcesByWhitelistPaginated).
  abbrev pub kept_by : List Member → IndexShard → Plan → List Member
  kept_by members shard none = []
  kept_by members shard (some groups) = filter_members_by_groups members groups shard

  unfoldable pub search_shard : List Member → List SearchFilterGroup → IndexShard → List Member
  unfolding shard_search_plan filter_members_by_groups
  search_shard members groups shard = kept_by members shard (shard_search_plan shard groups)
