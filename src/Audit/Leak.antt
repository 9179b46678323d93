-- ===== src/Audit/Leak.antt =====
-- The scan without namespaces (src/store/store.go: listAuditLogScan; src/valkeyclient/valkeyclient.go:
-- GetObjectsByPrefixWithSizeAndNs).
use mogenius_operator.Prelude.{
  ℕ, ◌≤◌, String, true, false, Option, none, some, List, [], ◌≡◌, refl, sym, ap, ◌∙◌, ◌==◌, arith,
  if◌then◌else◌, filter_by, append, length, In, In-filter_by, filter_by-In, inl, inr, Bool-cases,
  is_empty, subst,
}
use mogenius_operator.Prelude.Sort.{sort, sort-In, In-sort, length-sort}
use mogenius_operator.Kv.Pages.{
  Listing, window, selected_keys, get_objects_by_prefix_with_size_and_ns,
}
use mogenius_operator.Prelude.Members.{append-In}
use mogenius_operator.Kv.Window.{whole_window, In-window}
use mogenius_operator.Audit.{AuditLogEntry}
use mogenius_operator.Audit.Listing.{
  ListRequest, of_workspace, newer, ScanView, scanned, searched, paged, with_ai,
  list_audit_log_scan, audit_log_entry_matches_search,
}

-- Without namespaces the filter of a workspace's scan selects what a cluster-wide scan selects.
scanned_unfiltered :
    (v : ScanView) (namespaces : List String) (o : Option (List String))
    → is_empty namespaces ≡ true
    → scanned v namespaces false o ≡ scanned v namespaces true o
unfolding scanned get_objects_by_prefix_with_size_and_ns selected_keys
scanned_unfiltered v namespaces none e = refl
scanned_unfiltered v namespaces (some keys) e = rw e refl

module _ (to_lower : String → String) (r : ListRequest) where
  searched-append :
      (es own : List AuditLogEntry) (e : AuditLogEntry)
      → In e (searched to_lower r es)
      → In e (searched to_lower r (append es own))
  searched-append es own e i = elim (Bool-cases (r.search == "")) [
    | inl q ↦ rw q (append-In es own e (inl (rw q at i)))
    | inr q ↦
        let test =
          λ (x : AuditLogEntry). audit_log_entry_matches_search to_lower x (to_lower r.search) in
        let (j, p) = In-filter_by test es e (rw q at i) in
        rw q (filter_by-In test (append es own) e (append-In es own e (inl j)) p)
  ]

  paged-more :
      (few many all es : List AuditLogEntry) (n total : ℕ) (e : AuditLogEntry)
      → ((x : AuditLogEntry) → In x few → In x many)
      → r.offset ≡ 0
      → paged r many ≡ some (es, total)
      → total ≤ r.limit
      → paged r few ≡ some (all, n)
      → In e all
      → In e es
  paged-more few many all es n total e more zero_ q small p i =
      let from : window r.offset r.limit (sort newer few) ≡ all = cc p in
      let to_ : window r.offset r.limit (sort newer many) ≡ es = cc q in
      let size : length many ≡ total = cc q in
      let first = subst (λ (ys : List AuditLogEntry). In e ys) (sym from) i in
      let found = In-sort newer few e (In-window r.offset r.limit (sort newer few) e first) in
      let fits : length (sort newer many) ≤ r.limit =
        omega (arith, length-sort newer many, size, small) in
      let full : sort newer many ≡ es =
        sym (whole_window r.limit (sort newer many) fits)
        ∙ ap (λ (o : ℕ). window o r.limit (sort newer many)) (sym zero_)
        ∙ to_ in
      subst (λ (ys : List AuditLogEntry). In e ys) full (sort-In newer many e (more e found))

  with_ai-more :
      (entries ai : Listing AuditLogEntry) (all es : List AuditLogEntry) (n total : ℕ)
      (e : AuditLogEntry)
      → r.offset ≡ 0
      → (if entries.failed then none else with_ai to_lower r entries ai) ≡ some (es, total)
      → total ≤ r.limit
      → (if entries.failed then none else paged r (searched to_lower r entries.page))
        ≡ some (all, n)
      → In e all
      → In e es
  with_ai-more entries ai all es n total e z q small p i = elim (Bool-cases entries.failed) [
    | inl f ↦ cc (f, q)
    | inr f ↦ elim (Bool-cases ai.failed) [
      | inl g ↦ cc (f, g, q)
      | inr g ↦
          let own = filter_by (of_workspace r.workspace_name) ai.page in
          paged-more (searched to_lower r entries.page)
            (searched to_lower r (append entries.page own)) all es n total e
            (λ x. searched-append entries.page own x) z (rw (f, g) at q) small (rw f at p) i
    ]
  ]

  -- Where the scan on which the listing of a workspace without namespaces falls back is asked for a
  -- first page (offset 0) whose limit is not below its total, the page shows every entry that the
  -- cluster-wide scan with the same limit shows, of whatever namespace or workspace.
  pub list_audit_log_scan_unfiltered :
      (v : ScanView) (es all : List AuditLogEntry) (total n : ℕ) (e : AuditLogEntry)
      → r.cluster_wide ≡ false
      → is_empty r.namespaces ≡ true
      → r.offset ≡ 0
      → list_audit_log_scan to_lower r v ≡ some (es, total)
      → total ≤ r.limit
      → list_audit_log_scan to_lower (record r { cluster_wide = true }) v ≡ some (all, n)
      → In e all
      → In e es
  unfolding list_audit_log_scan
  list_audit_log_scan_unfiltered v es all total n e c empty z q small p i =
      with_ai-more (scanned v r.namespaces false v.audit_keys) (scanned v [] true v.ai_keys) all es
        n total e z (rw c at q) small
        (rw (← scanned_unfiltered v r.namespaces v.audit_keys empty) at p) i
