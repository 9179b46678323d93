-- ===== src/Search/Merged.antt =====
-- The page over the shards against the page of all their members (src/store/store.go:
-- GetResourcesByWhitelistPaginated).
use mogenius_operator.Prelude.{
  ℕ, zero, suc, ◌+◌, ◌-◌, String, Bool, true, false, not, ◌||◌, Option, none, some, List, [], ◌∷◌,
  ◌≡◌, refl, sym, ap, ◌∙◌, arith, if◌then◌else◌, is_empty, append, map, filter_by, take, drop,
  length, eqb, ltb, All, Bool-cases, inl, inr,
}
use mogenius_operator.Prelude.Merged.{sort-prefix}
use mogenius_operator.Prelude.Slices.{take_all, take-nil, suc-add}
use mogenius_operator.Prelude.Sort.{sort, IsSorted}
use mogenius_operator.Kv.Pages.{window}
use mogenius_operator.Kv.Window.{window_lem}
use mogenius_operator.Search.{SearchFilterGroup}
use mogenius_operator.Search.Plan.{
  IndexShard, Member, Plan, attributes, shard_search_plan, filter_members_by_groups, kept_by,
  search_shard,
}
use mogenius_operator.Search.Planned.{satisfies, search_shard_lem}
use mogenius_operator.Search.Ranked.{ranked_less-Splits}
use mogenius_operator.Search.Merge.{
  RankedMember, PageRequest, pull_all, is_searching, ranked, slice, ranked_less,
  sort_ranked_members, read_shard_top_members, with_shard, collect_members, page_members, Loaded,
  load_page, get_resources_page,
}

-- The whole set, or its first members.
abbrev cut {ℓ} : {A : Type ℓ} → Bool → ℕ → List A → List A
cut true k xs = xs
cut false k xs = take k xs

map-cut :
    {A B : Type 0} (f : A → B) (w : Bool) (k : ℕ) (xs : List A)
    → map f (cut w k xs) ≡ cut w k (map f xs)
map-cut f true k xs = refl
map-cut f false zero xs = refl
map-cut f false (suc k) [] = refl
map-cut f false (suc k) (x ∷ xs) = ap (λ l. f x ∷ l) (map-cut f false k xs)

length_map_lem : {A B : Type 0} (f : A → B) (xs : List A) → length (map f xs) ≡ length xs
length_map_lem f [] = refl
length_map_lem f (x ∷ xs) = omega (arith, length_map_lem f xs)

length_append_lem : {A : Type 0} (xs ys : List A) → length (append xs ys) ≡ length xs + length ys
length_append_lem [] ys = omega arith
length_append_lem (x ∷ xs) ys = omega (arith, length_append_lem xs ys)

cut-nil : (w : Bool) (k : ℕ) → Path (List RankedMember) (cut w k []) []
cut-nil true k = refl
cut-nil false k = take-nil k

read_none : (k : ℕ) (w : Bool) → read_shard_top_members none k w ≡ none
unfolding read_shard_top_members
read_none k w = refl

read_lem :
    (ms : List Member) (k : ℕ) (w : Bool)
    → read_shard_top_members (some ms) k w ≡ some (cut w k ms, length ms)
unfolding read_shard_top_members
read_lem [] k true = refl
read_lem [] k false = ap (λ (l : List Member). some (l, 0)) (sym (take-nil k))
read_lem (m ∷ ms) k true =
    let n = length (m ∷ ms) in
    let e : eqb n 0 ≡ false = ground arith in
    rw e (ap (λ (l : List Member). some (l, n)) (take_all n (m ∷ ms) (omega arith)))
read_lem (m ∷ ms) k false =
    let n = length (m ∷ ms) in
    let e : eqb n 0 ≡ false = ground arith in
    rw e (elim (Bool-cases (ltb n k)) [
      | inl f ↦
          rw (f, e)
            (ap (λ (l : List Member). some (l, n))
              (take_all n (m ∷ ms) (omega arith) ∙ sym (take_all k (m ∷ ms) (ground (arith, f)))))
      | inr f ↦ rw f (elim (Bool-cases (eqb k 0)) [
        | inl g ↦
            let z : 0 ≡ k = ground (arith, g) in rw g (ap (λ (i : ℕ). some (take i (m ∷ ms), n)) z)
        | inr g ↦ rw g refl
      ])
    ])

take-drop : {A : Type 0} (o l : ℕ) (xs : List A) → take l (drop o xs) ≡ drop o (take (o + l) xs)
take-drop zero l xs = ap (λ (n : ℕ). take n xs) (omega arith)
take-drop (suc o) l [] = take-nil l ∙ sym (ap (drop (suc o)) (take-nil (suc o + l)))
take-drop (suc o) l (x ∷ xs) =
    take-drop o l xs ∙ sym (ap (λ (n : ℕ). drop (suc o) (take n (x ∷ xs))) (suc-add o l))

window-take :
    {A : Type 0} (o l : ℕ) (xs ys : List A)
    → take (o + l) xs ≡ take (o + l) ys
    → window o l xs ≡ window o l ys
window-take o l xs ys e =
    window_lem o l xs
    ∙ take-drop o l xs
    ∙ ap (drop o) e
    ∙ sym (take-drop o l ys)
    ∙ sym (window_lem o l ys)

or_true : (b : Bool) → (b || true) ≡ true
or_true true = refl
or_true false = refl

neither : (a b : Bool) → (a || b) ≡ false → (a ≡ false) × (b ≡ false)
neither true b h = cc h
neither false b h = (refl, h)

module _ (to_lower : String → String) (range : IndexShard → Option (List Member))
    (r : PageRequest) where
  abbrev less : RankedMember → RankedMember → Bool
  less = ranked_less r.use_name_sort r.sort_order

  -- The members of a shard that every group of the search matches.
  abbrev pub matching : IndexShard → Option (List Member) → List RankedMember
  matching shard none = []
  matching shard (some ms) =
      map (ranked shard)
        (filter_by (λ m. satisfies to_lower r.search_groups (attributes to_lower shard m)) ms)

  -- Those of all shards.
  abbrev pub everything : List IndexShard → List RankedMember
  everything [] = []
  everything (shard ∷ shards) = append (matching shard (range shard)) (everything shards)

  abbrev whole : Bool
  whole = pull_all r || is_searching r

  abbrev tops : Bool → List IndexShard → List RankedMember
  tops w [] = []
  tops w (shard ∷ shards) =
      append (cut w (r.offset + r.limit) (matching shard (range shard))) (tops w shards)

  abbrev members_of : Option (List Member) → List Member
  members_of none = []
  members_of (some ms) = ms

  -- The server lists the members of a shard in the order of the page.
  abbrev pub Ordered : IndexShard → Type 0
  Ordered shard = IsSorted less (map (ranked shard) (members_of (range shard)))

  abbrev plan : IndexShard → Plan
  plan shard = if is_searching r then shard_search_plan to_lower shard r.search_groups else some []

  abbrev Step : IndexShard → List RankedMember × ℕ → List RankedMember × ℕ → Type 0
  Step shard rest after = after ≡ (
    append (cut whole (r.offset + r.limit) (matching shard (range shard))) rest.0,
    length (matching shard (range shard)) + rest.1,
  )

  module _ (shard : IndexShard) (rest : List RankedMember × ℕ) where
    none_added : rest ≡ (rest.0, 0 + rest.1)
    none_added = let e : rest.1 ≡ 0 + rest.1 = omega arith in ap (λ (n : ℕ). (rest.0, n)) e

    kept :
        (ms : List Member) (p : Plan)
        → shard_search_plan to_lower shard r.search_groups ≡ p
        → kept_by to_lower ms shard p
          ≡ filter_by (λ m. satisfies to_lower r.search_groups (attributes to_lower shard m)) ms
    unfolding search_shard
    kept ms p f =
        ap (kept_by to_lower ms shard) (sym f) ∙ search_shard_lem to_lower shard ms r.search_groups

    -- A search reads the whole shard.
    reads_whole :
        (o : Option (List Member)) (p : Plan)
        → range shard ≡ o
        → shard_search_plan to_lower shard r.search_groups ≡ p
        → is_searching r ≡ true
        → whole ≡ true
        → Step shard rest (with_shard to_lower range r shard p rest)
    reads_whole none none e f h w = rw (e, w) none_added
    reads_whole none (some gs) e f h w = rw (e, w, read_none (r.offset + r.limit) true) none_added
    reads_whole (some ms) none e f h w = rw (e, w, ← kept ms none f) none_added
    reads_whole (some ms) (some gs) e f h w =
        rw (e, w, read_lem ms (r.offset + r.limit) true, h, ← kept ms (some gs) f)
          (ap
            (λ (n : ℕ). (
              append (map (ranked shard) (filter_members_by_groups to_lower ms gs shard)) rest.0,
              n + rest.1,
            ))
            (sym (length_map_lem (ranked shard) (filter_members_by_groups to_lower ms gs shard))))

    no_groups :
        (gs : List SearchFilterGroup) (ms : List Member)
        → not (is_empty gs) ≡ false
        → filter_by (λ m. satisfies to_lower gs (attributes to_lower shard m)) ms ≡ ms
    no_groups [] [] h = refl
    no_groups [] (m ∷ ms) h = ap (λ (l : List Member). m ∷ l) (no_groups [] ms h)
    no_groups (g ∷ gs) ms h = cc h

    -- Without a search a shard is read up to the end of the page.
    reads_tops :
        (o : Option (List Member))
        → range shard ≡ o
        → is_searching r ≡ false
        → Step shard rest (with_shard to_lower range r shard (some []) rest)
    reads_tops none e h =
        rw (e, read_none (r.offset + r.limit) whole, cut-nil whole (r.offset + r.limit)) none_added
    reads_tops (some ms) e h =
        rw
          (
            e,
            read_lem ms (r.offset + r.limit) whole,
            no_groups r.search_groups ms h,
            ← map-cut (ranked shard) whole (r.offset + r.limit) ms,
            length_map_lem (ranked shard) ms,
            h,
          )
          refl

  stepped :
      (shard : IndexShard) (rest : List RankedMember × ℕ)
      → Step shard rest (with_shard to_lower range r shard (plan shard) rest)
  stepped shard rest = elim (Bool-cases (is_searching r)) [
    | inl h ↦
        let all : whole ≡ true = ap (λ (b : Bool). pull_all r || b) h ∙ or_true (pull_all r) in
        let p = shard_search_plan to_lower shard r.search_groups in
        ap (λ (b : Bool). with_shard to_lower range r shard (if b then p else some []) rest) h
        ∙ reads_whole shard rest (range shard) p refl refl h all
    | inr h ↦
        let p = shard_search_plan to_lower shard r.search_groups in
        ap (λ (b : Bool). with_shard to_lower range r shard (if b then p else some []) rest) h
        ∙ reads_tops shard rest (range shard) refl h
  ]

  collected :
      (shards : List IndexShard)
      → collect_members to_lower range r shards ≡ (tops whole shards, length (everything shards))
  unfolding collect_members
  collected [] = refl
  collected (shard ∷ shards) =
      stepped shard (collect_members to_lower range r shards)
      ∙ rw (collected shards, length_append_lem (matching shard (range shard)) (everything shards))
          refl

  tops_all : (shards : List IndexShard) → tops true shards ≡ everything shards
  tops_all [] = refl
  tops_all (shard ∷ shards) = ap (append (matching shard (range shard))) (tops_all shards)

  matching-IsSorted :
      (shard : IndexShard) (o : Option (List Member))
      → is_searching r ≡ false
      → IsSorted less (map (ranked shard) (members_of o))
      → IsSorted less (matching shard o)
  matching-IsSorted shard none h s = tt
  matching-IsSorted shard (some ms) h s = rw (no_groups shard ([], 0) r.search_groups ms h) s

  tops_lem :
      (shards : List IndexShard)
      → is_searching r ≡ false
      → All Ordered shards
      → take (r.offset + r.limit) (sort less (tops false shards))
        ≡ take (r.offset + r.limit) (sort less (everything shards))
  tops_lem [] h s = refl
  tops_lem (shard ∷ shards) h s =
      sort-prefix less (ranked_less-Splits r.use_name_sort r.sort_order) (r.offset + r.limit)
        (matching shard (range shard)) (tops false shards) (everything shards)
        (matching-IsSorted shard (range shard) h s.0) (tops_lem shards h s.1)

  page_lem :
      (shards : List IndexShard)
      → All Ordered shards
      → slice r (sort less (tops whole shards)) ≡ slice r (sort less (everything shards))
  page_lem shards s = elim (Bool-cases whole) [
    | inl w ↦ rw w (ap (λ (l : List RankedMember). slice r (sort less l)) (tops_all shards))
    | inr w ↦
        let (bounded, h) = neither (pull_all r) (is_searching r) w in
        rw (w, bounded)
          (window-take r.offset r.limit (sort less (tops false shards))
            (sort less (everything shards)) (tops_lem shards h s))
  ]

  -- The page that is asked for, of all members that match, and their number.
  abbrev pub Global :
      {T : Type 0} → (RankedMember → Loaded T) → List IndexShard → List T × ℕ → Type 0
  Global load shards page =
      let all = sort_ranked_members r.use_name_sort r.sort_order (everything shards) in
      (page.0 ≡ (load_page load (slice r all)).0)
      × (page.1 ≡ length (everything shards) - (load_page load (slice r all)).1)

  -- Where the server lists each shard in the order of the page, the page that is read from the tops
  -- of the shards is the page of all their members that every group of the search matches, sorted
  -- as a whole, and the total is the number of those members, without the ones of the page whose
  -- item is gone.
  pub get_resources_page-Global :
      {T : Type 0} (load : RankedMember → Loaded T) (shards : List IndexShard)
      → All Ordered shards
      → Global load shards (get_resources_page to_lower range r load shards)
  unfolding get_resources_page page_members sort_ranked_members
  get_resources_page-Global load shards s = rw (collected shards, page_lem shards s) (refl, refl)
