-- ===== src/Audit/Fallback.antt =====
-- What the scan lists for a workspace when the index fails (src/store/store.go: listAuditLogScan).
use mogenius_operator.Prelude.{
  ℕ, String, Bool, true, false, not, Option, none, some, List, [], ◌∷◌, ◌≡◌, ◌⊎◌, refl, ◌==◌,
  contains, filter_by, append, All, All-In, All-of, All-append, In-filter_by, inl, inr, Bool-cases,
  is_empty,
}
use mogenius_operator.Prelude.Affixes.{split, has_suffix}
use mogenius_operator.Prelude.Sort.{sort}
use mogenius_operator.Kv.Pages.{
  Objects, Listing, window, load_objects, loaded, parsed, segment_in, selected_keys,
  get_objects_by_prefix_with_size_and_ns,
}
use mogenius_operator.Prelude.Members.{All-filter_by, All-sort}
use mogenius_operator.Kv.Window.{All-window}
use mogenius_operator.Audit.{AuditLogEntry}
use mogenius_operator.Audit.Listing.{
  ListRequest, audit_key_namespace, second_segment, of_workspace, newer, ScanView, scanned,
  searched, paged, with_ai, list_audit_log_scan, audit_log_entry_matches_search,
  max_audit_list_entries,
}

-- The key holds a text that parses as the entry.
abbrev pub Holds : ScanView → String → AuditLogEntry → Type 0
Holds v key e = (text : String) × (v.read key ≡ some text) × (v.parse text ≡ some e)

module _ (v : ScanView) (P : String → Type 0) where
  -- The entry was read from a key with the property.
  abbrev pub FromKey : AuditLogEntry → Type 0
  FromKey e = (key : String) × P key × Holds v key e

  parsed-FromKey :
      (key text : String) (o : Option AuditLogEntry) (later : Objects AuditLogEntry)
      → P key
      → v.read key ≡ some text
      → v.parse text ≡ o
      → All FromKey later.objects
      → All FromKey (parsed v.read v.parse o later).objects
  parsed-FromKey key text none later p q e h = tt
  parsed-FromKey key text (some x) later p q e h = ((key, p, (text, q, e)), h)

  loaded-FromKey :
      (key : String) (o : Option String) (later : Objects AuditLogEntry)
      → P key
      → v.read key ≡ o
      → All FromKey later.objects
      → All FromKey (loaded v.read v.parse o later).objects
  loaded-FromKey key none later p q h = h
  loaded-FromKey key (some text) later p q h = elim (Bool-cases (text == "")) [
    | inl e ↦ rw e h
    | inr e ↦ rw e (parsed-FromKey key text (v.parse text) later p q refl h)
  ]

  load-FromKey :
      (keys : List String) → All P keys → All FromKey (load_objects v.read v.parse keys).objects
  unfolding load_objects
  load-FromKey [] h = tt
  load-FromKey (key ∷ keys) h =
      loaded-FromKey key (v.read key) (load_objects v.read v.parse keys) h.0 refl
        (load-FromKey keys h.1)

  scanned-FromKey :
      (namespaces : List String) (wide : Bool) (o : Option (List String))
      → ((keys : List String) → o ≡ some keys → All P (selected_keys namespaces wide keys))
      → All FromKey (scanned v namespaces wide o).page
  unfolding scanned get_objects_by_prefix_with_size_and_ns
  scanned-FromKey namespaces wide none h = tt
  scanned-FromKey namespaces wide (some keys) h =
      load-FromKey (window 0 max_audit_list_entries (selected_keys namespaces wide keys))
        (All-window P 0 max_audit_list_entries (selected_keys namespaces wide keys) (h keys refl))

segment_in-namespace :
    (namespaces parts : List String)
    → segment_in namespaces parts ≡ true
    → contains namespaces (second_segment parts) ≡ true
segment_in-namespace namespaces [] h = cc h
segment_in-namespace namespaces (a ∷ []) h = cc h
segment_in-namespace namespaces (a ∷ b ∷ []) h = cc h
segment_in-namespace namespaces (a ∷ b ∷ c ∷ rest) h = h

-- The keys that a filtered scan selects name one of the namespaces.
selected-namespace :
    (namespaces keys : List String)
    → is_empty namespaces ≡ false
    → All
        (λ (k : String). contains namespaces (audit_key_namespace k) ≡ true)
        (selected_keys namespaces false keys)
unfolding selected_keys audit_key_namespace
selected-namespace namespaces keys e = rw e (
    All-of (λ (k : String). contains namespaces (second_segment (split ":" k)) ≡ true)
      (filter_by (λ (k : String). segment_in namespaces (split ":" k)) (filter_by entry keys))
      (λ k i.
        segment_in-namespace namespaces (split ":" k)
          (In-filter_by (λ (j : String). segment_in namespaces (split ":" j)) (filter_by entry keys)
            k i).1))
  where
    entry : String → Bool
    entry k = not (has_suffix ":counter" k)

module _ (to_lower : String → String) (r : ListRequest) (v : ScanView) where
  -- The entry belongs to the request: its key names one of the namespaces, or it stands under a key of
  -- the scan of the AI chat and names the workspace.
  abbrev pub Allowed : AuditLogEntry → Type 0
  Allowed e =
      FromKey v (λ key. contains r.namespaces (audit_key_namespace key) ≡ true) e
      ⊎ (FromKey v (λ key. Unit) e × (of_workspace r.workspace_name e ≡ true))

  abbrev pub AllAllowed : Option (List AuditLogEntry × ℕ) → Type 0
  AllAllowed none = Unit
  AllAllowed (some (es, total)) = All Allowed es

  searched-All :
      (P : AuditLogEntry → Type 0) (es : List AuditLogEntry)
      → All P es
      → All P (searched to_lower r es)
  searched-All P es h = elim (Bool-cases (r.search == "")) [
    | inl e ↦ rw e h
    | inr e ↦ rw e (
        All-filter_by P
          (λ (x : AuditLogEntry). audit_log_entry_matches_search to_lower x (to_lower r.search)) es
          h)
  ]

  paged-Allowed :
      (es : List AuditLogEntry) → All Allowed es → AllAllowed (paged r (searched to_lower r es))
  paged-Allowed es h =
      All-window Allowed r.offset r.limit (sort newer (searched to_lower r es))
        (All-sort Allowed newer (searched to_lower r es) (searched-All Allowed es h))

  with_ai-Allowed :
      (entries ai : Listing AuditLogEntry)
      → All Allowed entries.page
      → All (FromKey v (λ key. Unit)) ai.page
      → AllAllowed (with_ai to_lower r entries ai)
  with_ai-Allowed entries ai h k = elim (Bool-cases ai.failed) [
    | inl e ↦ rw e tt
    | inr e ↦
        let own = filter_by (of_workspace r.workspace_name) ai.page in
        let own_allowed : All Allowed own = All-of Allowed own (λ x i.
          let (j, w) = In-filter_by (of_workspace r.workspace_name) ai.page x i in
          inr (All-In (FromKey v (λ key. Unit)) ai.page k x j, w)) in
        rw e (
          paged-Allowed (append entries.page own)
            (All-append Allowed entries.page own h own_allowed))
  ]

  all_unit : (keys : List String) → All (λ (k : String). Unit {0}) keys
  all_unit [] = tt
  all_unit (k ∷ keys) = (tt, all_unit keys)

  -- Where the listing of a workspace that has namespaces falls back to the scan, every entry that it
  -- returns was read from a key that names one of them, or names the requested workspace.
  pub list_audit_log_scan-Allowed :
      r.cluster_wide ≡ false
      → is_empty r.namespaces ≡ false
      → AllAllowed (list_audit_log_scan to_lower r v)
  unfolding list_audit_log_scan
  list_audit_log_scan-Allowed c n =
      let own = λ (key : String). contains r.namespaces (audit_key_namespace key) ≡ true in
      let entries = scanned v r.namespaces false v.audit_keys in
      let from_keys =
        scanned-FromKey v own r.namespaces false v.audit_keys
          (λ keys e. selected-namespace r.namespaces keys n) in
      let allowed : All Allowed entries.page =
        All-of Allowed entries.page
          (λ x i. inl (All-In (FromKey v own) entries.page from_keys x i)) in
      let ai = scanned v [] true v.ai_keys in
      let ai_keys : All (FromKey v (λ key. Unit)) ai.page =
        scanned-FromKey v (λ key. Unit) [] true v.ai_keys
          (λ keys e. all_unit (selected_keys [] true keys)) in
      rw c (elim (Bool-cases entries.failed) [
        | inl e ↦ rw e tt
        | inr e ↦ rw e (with_ai-Allowed entries ai allowed ai_keys)
      ])
