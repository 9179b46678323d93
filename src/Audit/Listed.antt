-- ===== src/Audit/Listed.antt =====
-- What the index lists for a workspace (src/store/store.go: listAuditLogIndexed).
use mogenius_operator.Prelude.{
  ℕ, String, Bool, true, false, Option, none, some, List, [], ◌∷◌, ◌≡◌, refl, ◌==◌, filter_by, take,
  length, leb, All, All-In, All-of, In, inl, inr, Bool-cases, is_empty,
}
use mogenius_operator.Prelude.Assoc.{Assoc, lookup}
use mogenius_operator.Kv.Pages.{window}
use mogenius_operator.Prelude.Members.{All-filter_by, All-sort}
use mogenius_operator.Prelude.Slices.{All-take}
use mogenius_operator.Kv.Window.{All-window}
use mogenius_operator.Audit.{AuditLogEntry}
use mogenius_operator.Audit.Listing.{
  ListRequest, IndexView, IndexOutcome, index_failed, unstable, listed, Candidate,
  mget_audit_entries, candidates, entries_of, newer, list_page, is_ai_key, list_matches, attempt_on,
  keys_to_load, or_retry, list_attempts, audit_log_entry_matches_search, max_audit_list_entries,
  list_audit_log_indexed,
}
use mogenius_operator.Audit.Confined.{
  mget_audit_entries-lookup, Permitted, candidates-Permitted, ReadIn, entries_of-ReadIn,
}

module _ (r : ListRequest) where
  abbrev pub Lists : (AuditLogEntry → Type 0) → IndexOutcome → Type 0
  Lists P index_failed = Unit
  Lists P unstable = Unit
  Lists P (listed es total) = All P es

  module _ (view : IndexView) (ai : Assoc AuditLogEntry)
      (ai_read : (k : String) (e : AuditLogEntry)
        → lookup k ai ≡ some e
        → view.first_load k ≡ some e) where
    loaded-ReadIn :
        (keys : List String) (cs : List Candidate)
        → All (Permitted r ai) cs
        → All (ReadIn r view) (entries_of (mget_audit_entries view.second_load keys).0 cs)
    loaded-ReadIn keys cs h =
        entries_of-ReadIn r view ai (mget_audit_entries view.second_load keys).0 ai_read
          (λ k e q. mget_audit_entries-lookup view.second_load keys k e q) cs h

    page-ReadIn :
        (cs : List Candidate)
        → All (Permitted r ai) cs
        → Lists (ReadIn r view) (list_page r cs view.second_load)
    page-ReadIn cs h =
        let page = window r.offset r.limit cs in
        let loaded = mget_audit_entries view.second_load (keys_to_load page) in
        elim (Bool-cases (leb (length cs) r.offset)) [
          | inl e ↦ rw e tt
          | inr e ↦ rw e (elim (Bool-cases (is_empty loaded.1)) [
            | inl f ↦ rw f (
                All-sort (ReadIn r view) newer (entries_of loaded.0 page) (
                  loaded-ReadIn (keys_to_load page) page
                    (All-window (Permitted r ai) r.offset r.limit cs h)))
            | inr f ↦ rw f tt
          ])
        ]

    module _ (to_lower : String → String) where
      matches-ReadIn :
          (cs : List Candidate)
          → All (Permitted r ai) cs
          → Lists (ReadIn r view) (list_matches to_lower r cs view.second_load)
      matches-ReadIn cs h =
          let searched = take max_audit_list_entries cs in
          let loaded = mget_audit_entries view.second_load (keys_to_load searched) in
          let test =
            λ (e : AuditLogEntry). audit_log_entry_matches_search to_lower e (to_lower r.search) in
          let found = filter_by test (entries_of loaded.0 searched) in
          let all_found : All (ReadIn r view) found =
            All-filter_by (ReadIn r view) test (entries_of loaded.0 searched) (
              loaded-ReadIn (keys_to_load searched) searched
                (All-take (Permitted r ai) max_audit_list_entries cs h)) in
          elim (Bool-cases (leb (length found) r.offset)) [
            | inl e ↦ rw e tt
            | inr e ↦ rw e (
                All-sort (ReadIn r view) newer (window r.offset r.limit found)
                  (All-window (ReadIn r view) r.offset r.limit found all_found))
          ]

  module _ (to_lower : String → String) where
    -- One attempt lists what belongs to the request, as its loads have read it.
    attempt-ReadIn :
        (view : IndexView) (o : Option (List String))
        → r.cluster_wide ≡ false
        → Lists (ReadIn r view) (attempt_on to_lower r view o)
    attempt-ReadIn view none c = tt
    attempt-ReadIn view (some members) c =
        let ai = mget_audit_entries view.first_load (filter_by (is_ai_key to_lower r) members) in
        let read =
          mget_audit_entries-lookup view.first_load (filter_by (is_ai_key to_lower r) members) in
        let cs = candidates r ai.0 members in
        let h = candidates-Permitted r ai.0 members c in
        elim (Bool-cases (r.search == "")) [
          | inl e ↦ rw e (page-ReadIn view ai.0 read cs h)
          | inr e ↦ rw e (matches-ReadIn view ai.0 read to_lower cs h)
        ]

    -- The entry belongs to the request, as one of the views has it.
    abbrev pub Shown : List IndexView → AuditLogEntry → Type 0
    Shown views e = (view : IndexView) × In view views × ReadIn r view e

    abbrev pub ShownAll : List IndexView → Option (List AuditLogEntry × ℕ) → Type 0
    ShownAll views none = Unit
    ShownAll views (some (es, total)) = All (Shown views) es

    more :
        (view : IndexView) (views : List IndexView) (o : Option (List AuditLogEntry × ℕ))
        → ShownAll views o
        → ShownAll (view ∷ views) o
    more view views none h = tt
    more view views (some (es, total)) h =
        All-of (Shown (view ∷ views)) es
          (λ e i. let (v, j, q) = All-In (Shown views) es h e i in (v, inr j, q))

    retry-Shown :
        (view : IndexView) (views : List IndexView) (o : IndexOutcome)
        (later : Option (List AuditLogEntry × ℕ))
        → Lists (ReadIn r view) o
        → ShownAll views later
        → ShownAll (view ∷ views) (or_retry to_lower o later)
    retry-Shown view views index_failed later h k = tt
    retry-Shown view views unstable later h k = more view views later k
    retry-Shown view views (listed es total) later h k =
        All-of (Shown (view ∷ views)) es (λ e i. (view, inl refl, All-In (ReadIn r view) es h e i))

    list_attempts-Shown :
        (views : List IndexView)
        → r.cluster_wide ≡ false
        → ShownAll views (list_attempts to_lower r views)
    unfolding list_attempts
    list_attempts-Shown [] c = tt
    list_attempts-Shown (view ∷ views) c =
        retry-Shown view views (attempt_on to_lower r view view.members)
          (list_attempts to_lower r views) (attempt-ReadIn view view.members c)
          (list_attempts-Shown views c)

    -- Where the listing of a workspace is served from the index, after however many attempts, every
    -- entry that it returns was read from a key that names one of the workspace's namespaces, or from
    -- a key of the AI chat and names the requested workspace.
    pub list_audit_log_indexed-Shown :
        (ensured : Bool) (views : List IndexView)
        → r.cluster_wide ≡ false
        → ShownAll (take 3 views) (list_audit_log_indexed to_lower r ensured views)
    unfolding list_audit_log_indexed
    list_audit_log_indexed-Shown true views c = list_attempts-Shown (take 3 views) c
    list_audit_log_indexed-Shown false views c = tt
