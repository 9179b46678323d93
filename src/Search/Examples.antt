-- ===== src/Search/Examples.antt =====
-- Tests and witnesses for the search over the index; the texts are in lower case already.
use mogenius_operator.Prelude.{
  if◌then◌else◌, ◌==◌, Option, some, All, false, String, true, List, [], ◌∷◌, ◌≡◌, refl, map,
}
use mogenius_operator.Prelude.Affixes.{strip_prefix}
use mogenius_operator.Prelude.Text.{cut, trim_space, trim_left, trim_right, is_space, has_prefix}
use mogenius_operator.Search.{
  SearchFilterGroup, parse_search_query, build_search_filter_groups, of_query, of_filters,
  of_groups, compact_constraints, normalize_search_field, match_value, match_constraint, joined_by,
  includes, matches, matches_any_attribute, matched_anywhere, some_match, every_match, is_negated,
}
use mogenius_operator.Search.Plan.{
  IndexShard, Member, search_shard, shard_search_plan, filter_members_by_groups, passes,
}
use mogenius_operator.Prelude.Sort.{sort, insert_sorted}
use mogenius_operator.Kv.Pages.{window}
use mogenius_operator.Search.Merge.{
  RankedMember, PageRequest, Loaded, gone, resource, ranked_less, sort_ranked_members,
  read_shard_top_members, load_page, collect_members, page_members, get_resources_page,
}
use mogenius_operator.Search.Merged.{Ordered, Global, get_resources_page-Global}

abbrev lower : String → String
lower s = s

abbrev pods : IndexShard
pods = record { api_version = "v1"; kind = "pod"; namespace = "shop" }

abbrev web : Member
web = record { member = "web"; score = 1 }

abbrev cache : Member
cache = record { member = "cache"; score = 2 }

-- A free text without the pods of a name, in one kind.
abbrev groups : List SearchFilterGroup
groups =
    build_search_filter_groups lower " !cache"
      (record { field = "kind"; operator = "equals"; value = "pod" } ∷ [])
      (record {
        field = "name";
        operator = "";
        constraints = record { operator = ""; value = " " } ∷ [];
      }
        ∷ [])

negated_query :
    parse_search_query lower "! name:web " ≡ record { term = "web"; field = "name"; negate = true }
unfolding parse_search_query cut strip_prefix trim_space trim_left trim_right is_space
negated_query = refl

two_groups : map (λ (g : SearchFilterGroup). g.field) groups ≡ "" ∷ "kind" ∷ []
unfolding build_search_filter_groups parse_search_query of_query of_filters of_groups
    compact_constraints cut strip_prefix trim_space trim_left trim_right is_space
two_groups = refl

one_member : search_shard lower (web ∷ cache ∷ []) groups pods ≡ web ∷ []
unfolding search_shard shard_search_plan filter_members_by_groups passes matches match_value
    match_constraint joined_by includes has_prefix matches_any_attribute matched_anywhere some_match
    every_match is_negated normalize_search_field build_search_filter_groups parse_search_query
    of_query of_filters of_groups compact_constraints cut strip_prefix trim_space trim_left
    trim_right is_space
one_member = refl

abbrev dev_pods : IndexShard
dev_pods = record { api_version = "v1"; kind = "pod"; namespace = "dev" }

-- The newest first, as ZREVRANGE lists them.
abbrev listed : IndexShard → Option (List Member)
listed shard =
    if shard.namespace == "shop"
    then some (record { member = "api"; score = 5 } ∷ record { member = "web"; score = 3 } ∷ [])
    else some (record { member = "db"; score = 4 } ∷ record { member = "cache"; score = 2 } ∷ [])

abbrev second_and_third : PageRequest
second_and_third = record {
  offset = 1;
  limit = 2;
  use_name_sort = false;
  sort_order = "";
  search_groups = [];
}

-- The item of `db` has expired.
abbrev held : RankedMember → Loaded String
held m = if m.member == "db" then gone else resource m.member

merged_page :
    get_resources_page lower listed second_and_third held (pods ∷ dev_pods ∷ []) ≡ ("web" ∷ [], 3)
unfolding get_resources_page page_members collect_members sort_ranked_members ranked_less
    read_shard_top_members load_page sort insert_sorted window
merged_page = refl

listed-Ordered : All (Ordered lower listed second_and_third) (pods ∷ dev_pods ∷ [])
unfolding ranked_less
listed-Ordered = (((refl, tt), (tt, tt)), (((refl, tt), (tt, tt)), tt))

get_resources_page-Global_example :
    Global lower listed second_and_third held
      (pods ∷ dev_pods ∷ [])
      (get_resources_page lower listed second_and_third held (pods ∷ dev_pods ∷ []))
get_resources_page-Global_example =
    get_resources_page-Global lower listed second_and_third held (pods ∷ dev_pods ∷ [])
      listed-Ordered
