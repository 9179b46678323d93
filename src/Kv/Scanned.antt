-- ===== src/Kv/Scanned.antt =====
-- What a scan of the nodes returns (src/valkeyclient/valkeyclient.go: scanKeys, scanNode).
use mogenius_operator.Prelude.{
  String, Bool, true, false, Option, none, some, List, [], ◌∷◌, ◌≡◌, ◌⊎◌, refl, sym, ap, ◌∙◌,
  contains, append, filter_by, In, All, inl, inr, Bool-cases, In-filter_by, filter_by-In,
  contains→In, In→contains, subst,
}
use mogenius_operator.Prelude.Members.{append-In, In-append, Distinct, Distinct-append}
use mogenius_operator.Kv.Scan.{
  Node, broken, page, last_page, not_blank, behind, scan_node, add_unseen, received, receive,
  complete, scan_keys,
}

-- The node answers every request, and the key is on one of its pages.
abbrev pub Answers : Node → Type 0
Answers broken = ⊥
Answers (page keys rest) = Answers rest
Answers (last_page keys) = Unit

abbrev pub Lists : String → Node → Type 0
Lists k broken = ⊥
Lists k (page keys rest) = In k keys ⊎ Lists k rest
Lists k (last_page keys) = In k keys

-- What a scan of one node finds.
record Found (node : Node) : Type 0 where
  keys : List String
  found : scan_node node ≡ some keys
  sound : (k : String) → In k keys → Lists k node × (not_blank k ≡ true)
  whole : (k : String) → Lists k node → not_blank k ≡ true → In k keys

scan_node-Found : (node : Node) → Answers node → Found node
unfolding scan_node
scan_node-Found broken h = elim h [ ]
scan_node-Found (last_page keys) h = record {
  keys = filter_by not_blank keys;
  found = refl;
  sound = In-filter_by not_blank keys;
  whole = filter_by-In not_blank keys;
}
scan_node-Found (page keys rest) h =
    let f = scan_node-Found rest h in
    let own = filter_by not_blank keys in
    record {
      keys = append own f.keys;
      found = ap (behind keys) f.found;
      sound = λ k i. elim (In-append own f.keys k i) [
        | inl j ↦ let (m, b) = In-filter_by not_blank keys k j in (inl m, b)
        | inr j ↦ let (m, b) = f.sound k j in (inr m, b)
      ];
      whole = λ k m b. elim m [
        | inl j ↦ append-In own f.keys k (inl (filter_by-In not_blank keys k j b))
        | inr j ↦ append-In own f.keys k (inr (f.whole k j b))
      ];
    }

-- What adding the unseen keys makes of those seen.
record Union (keys seen after : List String) : Type 0 where
  sound : (k : String) → In k after → In k keys ⊎ In k seen
  whole : (k : String) → In k keys ⊎ In k seen → In k after
  distinct : Distinct seen → Distinct after

add_unseen-Union : (keys seen : List String) → Union keys seen (add_unseen keys seen)
unfolding add_unseen
add_unseen-Union [] seen = record {
  sound = λ k i. inr i;
  whole = λ k i. elim i [ inl j ↦ elim j [ ] | inr j ↦ j ];
  distinct = λ d. d;
}
add_unseen-Union (key ∷ keys) seen = elim (Bool-cases (contains seen key)) [
  | inl e ↦
      let u = add_unseen-Union keys seen in
      rw e (record {
        sound = λ k i. elim (u.sound k i) [ inl j ↦ inl (inr j) | inr j ↦ inr j ];
        whole = λ k i. elim i [
          | inl j ↦ elim j [
            | inl q ↦
                u.whole k (inr (subst (λ (x : String). In x seen) (sym q) (contains→In seen key e)))
            | inr l ↦ u.whole k (inl l)
          ]
          | inr j ↦ u.whole k (inr j)
        ];
        distinct = u.distinct;
      })
  | inr e ↦
      let u = add_unseen-Union keys (append seen (key ∷ [])) in
      rw e (record {
        sound = λ k i. elim (u.sound k i) [
          | inl j ↦ inl (inr j)
          | inr j ↦ elim (In-append seen (key ∷ []) k j) [
            | inl l ↦ inr l
            | inr l ↦ elim l [ inl q ↦ inl (inl q) | inr none_ ↦ elim none_ [ ] ]
          ]
        ];
        whole = λ k i. elim i [
          | inl j ↦ elim j [
            | inl q ↦ u.whole k (inr (append-In seen (key ∷ []) k (inr (inl q))))
            | inr l ↦ u.whole k (inl l)
          ]
          | inr j ↦ u.whole k (inr (append-In seen (key ∷ []) k (inl j)))
        ];
        distinct =
            λ d. u.distinct (Distinct-append seen key d (λ i. cc (In→contains seen key i, e)));
      })
]

-- Some node lists the key.
abbrev pub Somewhere : String → List Node → Type 0
Somewhere k [] = ⊥
Somewhere k (node ∷ nodes) = Lists k node ⊎ Somewhere k nodes

scan_node_fails : (node : Node) → (Answers node → ⊥) → scan_node node ≡ none
unfolding scan_node
scan_node_fails broken h = refl
scan_node_fails (page keys rest) h = ap (behind keys) (scan_node_fails rest h)
scan_node_fails (last_page keys) h = elim (h tt) [ ]

answers : (node : Node) → Answers node ⊎ (Answers node → ⊥)
answers broken = inr (λ h. h)
answers (page keys rest) = answers rest
answers (last_page keys) = inl tt

receive_failed : (nodes : List Node) (keys : List String) → (receive nodes (keys, true)).1 ≡ true
unfolding receive
receive_failed [] keys = refl
receive_failed (node ∷ nodes) keys = go (scan_node node) (receive_failed nodes)
  where
    go :
        (o : Option (List String))
        → ((others : List String) → (receive nodes (others, true)).1 ≡ true)
        → (receive nodes (received o (keys, true))).1 ≡ true
    go none ih = ih keys
    go (some found) ih = ih (add_unseen found keys)

-- What the nodes' results add to the keys seen: all of them, or an error.
abbrev Gathers : List Node → List String → List String × Bool → Type 0
Gathers nodes seen (keys, true) = All Answers nodes → ⊥
Gathers nodes seen (keys, false) =
    All Answers nodes
    × ((k : String) → In k keys → In k seen ⊎ (Somewhere k nodes × (not_blank k ≡ true)))
    × ((k : String) → In k seen ⊎ (Somewhere k nodes × (not_blank k ≡ true)) → In k keys)
    × (Distinct seen → Distinct keys)

gather_more :
    (node : Node) (nodes : List Node) (seen : List String) (f : Found node) (r : List String × Bool)
    → Answers node
    → Gathers nodes (add_unseen f.keys seen) r
    → Gathers (node ∷ nodes) seen r
gather_more node nodes seen f (keys, true) a h = λ all. h all.1
gather_more node nodes seen f (keys, false) a (all, sound, whole, distinct) =
    let u = add_unseen-Union f.keys seen in
    (
      (a, all),
      λ k i. elim (sound k i) [
        | inl j ↦ elim (u.sound k j) [
          | inl l ↦ let (m, b) = f.sound k l in inr (inl m, b)
          | inr l ↦ inl l
        ]
        | inr (m, b) ↦ inr (inr m, b)
      ],
      λ k i. elim i [
        | inl j ↦ whole k (inl (u.whole k (inr j)))
        | inr (m, b) ↦ elim m [
          | inl l ↦ whole k (inl (u.whole k (inl (f.whole k l b))))
          | inr l ↦ whole k (inr (l, b))
        ]
      ],
      λ d. distinct (u.distinct d),
    )

failed-Gathers :
    (nodes : List Node) (seen : List String) (r : List String × Bool)
    → r.1 ≡ true
    → (All Answers nodes → ⊥)
    → Gathers nodes seen r
failed-Gathers nodes seen (keys, true) e h = h
failed-Gathers nodes seen (keys, false) e h = cc e

receive-Gathers :
    (nodes : List Node) (seen : List String) → Gathers nodes seen (receive nodes (seen, false))
unfolding receive
receive-Gathers [] seen =
    (tt, λ k i. inl i, λ k i. elim i [ inl j ↦ j | inr (m, b) ↦ elim m [ ] ], λ d. d)
receive-Gathers (node ∷ nodes) seen = elim (answers node) [
  | inl a ↦
      let f = scan_node-Found node a in
      gather_more node nodes seen f (receive nodes (received (scan_node node) (seen, false))) a (
        subst
          (λ (o : Option (List String)).
            Gathers nodes (add_unseen f.keys seen) (receive nodes (received o (seen, false))))
          (sym f.found) (receive-Gathers nodes (add_unseen f.keys seen)))
  | inr n ↦
      failed-Gathers (node ∷ nodes) seen (receive nodes (received (scan_node node) (seen, false)))
        (ap (λ o. (receive nodes (received o (seen, false))).1) (scan_node_fails node n)
          ∙ receive_failed nodes seen)
        (λ all. n all.0)
]

abbrev pub Verdict : List Node → Option (List String) → Type 0
Verdict nodes none = (nodes ≡ []) ⊎ (All Answers nodes → ⊥)
Verdict nodes (some keys) =
    All Answers nodes
    × ((k : String) → In k keys → Somewhere k nodes × (not_blank k ≡ true))
    × ((k : String) → Somewhere k nodes → not_blank k ≡ true → In k keys)
    × Distinct keys

verdict :
    (nodes : List Node) (r : List String × Bool) → Gathers nodes [] r → Verdict nodes (complete r)
verdict nodes (keys, true) h = inr h
verdict nodes (keys, false) (all, sound, whole, distinct) = (
  all,
  λ k i. elim (sound k i) [ inl j ↦ elim j [ ] | inr m ↦ m ],
  λ k m b. whole k (inr (m, b)),
  distinct tt,
)

-- A scan of the nodes, in whatever order their results arrive, fails where there is no node or one
-- of them fails, and else returns each non-empty key that some node lists, and no other, once.
pub scan_keys-Verdict : (nodes : List Node) → Verdict nodes (scan_keys nodes)
unfolding scan_keys
scan_keys-Verdict [] = inl refl
scan_keys-Verdict (node ∷ nodes) =
    verdict (node ∷ nodes) (receive (node ∷ nodes) ([], false)) (receive-Gathers (node ∷ nodes) [])
