-- ===== src/Search/Planned.antt =====
-- The plan of a search against the search (src/store/store.go: shardSearchPlan,
-- filterMembersByGroups, SearchFilterGroup.Matches).
use mogenius_operator.Prelude.{
  String, Bool, true, false, none, some, List, [], ◌∷◌, ◌≡◌, refl, sym, ap, ◌∙◌, ◌==◌,
  if◌then◌else◌, filter_by, Bool-cases, inl, inr,
}
use mogenius_operator.Search.{
  SearchFilterGroup, Attributes, normalize_search_field, match_value, matches,
  matches_any_attribute,
}
use mogenius_operator.Search.Plan.{
  IndexShard, Member, Plan, with_group, decided, shard_search_plan, attributes, passes,
  filter_members_by_groups, kept_by, search_shard,
}

module _ (to_lower : String → String) where
  -- Every group matches the resource.
  abbrev pub satisfies : List SearchFilterGroup → Attributes → Bool
  satisfies [] a = true
  satisfies (g ∷ gs) a = let later = satisfies gs a in if matches to_lower g a then later else false

  module _ (shard : IndexShard) (m : Member) where
    abbrev keeps : Plan → Bool
    keeps none = false
    keeps (some gs) = passes to_lower shard gs m

    abbrev test : SearchFilterGroup → Bool
    test g =
        if normalize_search_field to_lower g.field == "name"
        then match_value to_lower g m.member
        else matches to_lower g (attributes to_lower shard m)

    test_lem : (g : SearchFilterGroup) → test g ≡ matches to_lower g (attributes to_lower shard m)
    unfolding matches
    test_lem g = elim (Bool-cases (normalize_search_field to_lower g.field == "name")) [
      | inl e ↦ rw e refl
      | inr e ↦ rw e refl
    ]

    never : (b : Bool) → (if b then false else false) ≡ false
    never true = refl
    never false = refl

    keeps-with_group :
        (g : SearchFilterGroup) (p : Plan)
        → keeps (with_group g p) ≡ (if test g then keeps p else false)
    unfolding passes
    keeps-with_group g none = sym (never (test g))
    keeps-with_group g (some gs) = refl

    keeps-decided :
        (b : Bool) (p : Plan) → keeps (decided to_lower b p) ≡ (if b then keeps p else false)
    keeps-decided true p = refl
    keeps-decided false p = refl

    -- The field of a group: the four attributes, and any.
    on_field :
        (a b c d n k s v y : Bool) (p w : Plan)
        → keeps w ≡ (
            if (if a then n else if b then k else if c then s else if d then v else y)
            then keeps p
            else false)
        → keeps (
            if a
            then w
            else if b
            then decided to_lower k p
            else if c
            then decided to_lower s p
            else if d
            then decided to_lower v p
            else w)
          ≡ (if (if a then n else if b then k else if c then s else if d then v else y)
              then keeps p
              else false)
    on_field true b c d n k s v y p w h = h
    on_field false true c d n k s v y p w h = keeps-decided k p
    on_field false false true d n k s v y p w h = keeps-decided s p
    on_field false false false true n k s v y p w h = keeps-decided v p
    on_field false false false false n k s v y p w h = h

    keeps-cons :
        (g : SearchFilterGroup) (gs : List SearchFilterGroup)
        → keeps (shard_search_plan to_lower shard (g ∷ gs)) ≡ (
            if matches to_lower g (attributes to_lower shard m)
            then keeps (shard_search_plan to_lower shard gs)
            else false)
    unfolding shard_search_plan matches
    keeps-cons g gs =
        let f = normalize_search_field to_lower g.field in
        let p = shard_search_plan to_lower shard gs in
        on_field (f == "name") (f == "kind") (f == "namespace") (f == "apiversion")
          (match_value to_lower g m.member) (match_value to_lower g shard.kind)
          (match_value to_lower g shard.namespace) (match_value to_lower g shard.api_version)
          (matches_any_attribute to_lower g (attributes to_lower shard m)) p (with_group g p)
          (keeps-with_group g p ∙ ap (λ (b : Bool). if b then keeps p else false) (test_lem g))

    keeps-plan :
        (gs : List SearchFilterGroup)
        → keeps (shard_search_plan to_lower shard gs) ≡ satisfies gs (attributes to_lower shard m)
    unfolding shard_search_plan passes
    keeps-plan [] = refl
    keeps-plan (g ∷ gs) =
        keeps-cons g gs
        ∙ ap (λ (b : Bool). if matches to_lower g (attributes to_lower shard m) then b else false)
            (keeps-plan gs)

  module _ (shard : IndexShard) where
    filter_all : (ms : List Member) → filter_by (passes to_lower shard []) ms ≡ ms
    unfolding passes
    filter_all [] = refl
    filter_all (m ∷ ms) = ap (λ (l : List Member). m ∷ l) (filter_all ms)

    filter_none : (ms : List Member) → filter_by (λ (m : Member). false) ms ≡ []
    filter_none [] = refl
    filter_none (m ∷ ms) = filter_none ms

    kept_by_lem :
        (ms : List Member) (p : Plan)
        → kept_by to_lower ms shard p ≡ filter_by (λ m. keeps shard m p) ms
    unfolding filter_members_by_groups
    kept_by_lem ms none = sym (filter_none ms)
    kept_by_lem ms (some []) = sym (filter_all ms)
    kept_by_lem ms (some (g ∷ gs)) = refl

    filter_same :
        (p q : Member → Bool) (ms : List Member)
        → ((m : Member) → p m ≡ q m)
        → filter_by p ms ≡ filter_by q ms
    filter_same p q [] h = refl
    filter_same p q (m ∷ ms) h =
        rw (h m) (ap (λ (l : List Member). if q m then m ∷ l else l) (filter_same p q ms h))

    -- Deciding the groups on kind, namespace and API version once for a shard, and the others for
    -- each member, keeps exactly the members whose attributes every group of the search matches, in
    -- their order.
    pub search_shard_lem :
        (members : List Member) (groups : List SearchFilterGroup)
        → search_shard to_lower members groups shard
          ≡ filter_by (λ m. satisfies groups (attributes to_lower shard m)) members
    unfolding search_shard
    search_shard_lem members groups =
        kept_by_lem members (shard_search_plan to_lower shard groups)
        ∙ filter_same (λ m. keeps shard m (shard_search_plan to_lower shard groups))
            (λ m. satisfies groups (attributes to_lower shard m)) members
            (λ m. keeps-plan shard m groups)
