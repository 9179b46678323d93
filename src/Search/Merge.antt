-- ===== src/Search/Merge.antt =====
-- A page over the shards of the index (src/store/store.go: readShardTopMembers, sortRankedMembers,
-- GetResourcesByWhitelistPaginated from the resolved shards on). A limit that is not positive is 0
-- here, and a negative offset is 0 as in the code; stale members are counted, not pruned.
use mogenius_operator.Prelude.{
  ℕ, suc, ◌+◌, ◌-◌, String, Bool, true, false, not, ◌||◌, Option, none, some, List, [], ◌∷◌, ◌==◌,
  if◌then◌else◌, is_empty, append, map, take, drop, length, eqb, ltb,
}
use mogenius_operator.Prelude.Numbers.{text_less}
use mogenius_operator.Prelude.Sort.{sort}
use mogenius_operator.Kv.Pages.{window}
use mogenius_operator.Search.{SearchFilterGroup}
use mogenius_operator.Search.Plan.{
  IndexShard, Member, Plan, shard_search_plan, filter_members_by_groups,
}

pub record RankedMember : Type 0 where
  pub shard : IndexShard
  pub member : String
  pub score : ℕ

abbrev pub precedes : Bool → String → String → Bool
precedes desc a b = if desc then text_less b a else text_less a b

-- The order of sortRankedMembers.
unfoldable pub ranked_less : Bool → String → RankedMember → RankedMember → Bool
ranked_less true sort_order a b =
    if a.member == b.member then false else precedes (sort_order == "desc") a.member b.member
ranked_less false sort_order a b =
    let desc = not (sort_order == "asc") in
    if eqb a.score b.score
    then precedes desc a.member b.member
    else if desc
    then ltb b.score a.score
    else ltb a.score b.score

unfoldable pub sort_ranked_members : Bool → String → List RankedMember → List RankedMember
sort_ranked_members use_name_sort sort_order = sort (ranked_less use_name_sort sort_order)

-- The members of a sorted set in the order in which the range command goes over them, and the
-- number of them; nothing where a command fails.
unfoldable pub read_shard_top_members : Option (List Member) → ℕ → Bool → Option (List Member × ℕ)
read_shard_top_members none count pull_all = none
read_shard_top_members (some ranged) count pull_all =
    let total = length ranged in
    let wanted = if pull_all || ltb total count then total else count in
    if eqb total 0
    then some ([], 0)
    else if eqb wanted 0
    then some ([], total)
    else some (take wanted ranged, total)

-- What a page is asked for.
pub record PageRequest : Type 0 where
  pub offset : ℕ
  pub limit : ℕ
  pub use_name_sort : Bool
  pub sort_order : String
  pub search_groups : List SearchFilterGroup

abbrev pub pull_all : PageRequest → Bool
pull_all r = eqb r.limit 0

abbrev pub is_searching : PageRequest → Bool
is_searching r = not (is_empty r.search_groups)

abbrev pub ranked : IndexShard → Member → RankedMember
ranked shard m = record { shard = shard; member = m.member; score = m.score }

-- What GET and json.Unmarshal give for a member of the page.
pub data Loaded (T : Type 0) : Type 0 where
  gone : Loaded T
  unreadable : Loaded T
  resource : T → Loaded T

abbrev pub add_loaded : {T : Type 0} → Loaded T → List T × ℕ → List T × ℕ
add_loaded gone (items, stale) = (items, suc stale)
add_loaded unreadable (items, stale) = (items, stale)
add_loaded (resource x) (items, stale) = (x ∷ items, stale)

unfoldable pub load_page : {T : Type 0} → (RankedMember → Loaded T) → List RankedMember → List T × ℕ
load_page load [] = ([], 0)
load_page load (m ∷ ms) = add_loaded (load m) (load_page load ms)

abbrev pub slice : PageRequest → List RankedMember → List RankedMember
slice r all = if pull_all r then drop r.offset all else window r.offset r.limit all

module _ (to_lower : String → String) (range : IndexShard → Option (List Member))
    (r : PageRequest) where
  abbrev pub with_members :
      IndexShard
      → List SearchFilterGroup
      → Option (List Member × ℕ)
      → List RankedMember × ℕ
      → List RankedMember × ℕ
  with_members shard groups none rest = rest
  with_members shard groups (some (members, total)) (all, sum) =
      if is_searching r
      then (let kept = filter_members_by_groups to_lower members groups shard in
          (append (map (ranked shard) kept) all, length kept + sum))
      else (append (map (ranked shard) members) all, total + sum)

  abbrev pub with_shard : IndexShard → Plan → List RankedMember × ℕ → List RankedMember × ℕ
  with_shard shard none rest = rest
  with_shard shard (some groups) rest =
      with_members shard groups
        (read_shard_top_members (range shard) (r.offset + r.limit) (pull_all r || is_searching r))
        rest

  -- The members of the shards, one after the other, and the sum of their totals.
  unfoldable pub collect_members : List IndexShard → List RankedMember × ℕ
  collect_members [] = ([], 0)
  collect_members (shard ∷ shards) =
      with_shard shard
        (if is_searching r then shard_search_plan to_lower shard r.search_groups else some [])
        (collect_members shards)

  unfoldable pub page_members : List IndexShard → List RankedMember
  page_members shards =
      slice r (sort_ranked_members r.use_name_sort r.sort_order (collect_members shards).0)

  -- The items of the page, and the total without the members whose item is gone.
  unfoldable pub get_resources_page :
      {T : Type 0} → (RankedMember → Loaded T) → List IndexShard → List T × ℕ
  get_resources_page load shards =
      let (items, stale) = load_page load (page_members shards) in
      (items, (collect_members shards).1 - stale)
