-- ===== src/Audit/Served.antt =====
-- What ListAuditLog returns for a workspace, from the index or from the scan (src/store/store.go).
use mogenius_operator.Prelude.{
  ℕ, String, Bool, false, Option, none, some, List, ◌≡◌, ◌⊎◌, inl, inr, All, All-In, All-of, take,
  is_empty, eqb, if◌then◌else◌,
}
use mogenius_operator.Audit.{AuditLogEntry}
use mogenius_operator.Audit.Listing.{
  ListRequest, IndexView, ScanView, list_audit_log, list_audit_log_indexed, list_audit_log_scan,
  or_scan,
}
use mogenius_operator.Audit.Listed.{Shown, ShownAll, list_audit_log_indexed-Shown}
use mogenius_operator.Audit.Fallback.{Allowed, AllAllowed, list_audit_log_scan-Allowed}

module _ (to_lower : String → String) (r : ListRequest) (views : List IndexView)
    (v : ScanView) where
  -- The entry was read, from the index or in the scan, and belongs to the request.
  abbrev pub Served : AuditLogEntry → Type 0
  Served e = Shown r to_lower (take 3 views) e ⊎ Allowed to_lower r v e

  abbrev pub AllServed : Option (List AuditLogEntry × ℕ) → Type 0
  AllServed none = Unit
  AllServed (some (es, total)) = All Served es

  either :
      (o scan : Option (List AuditLogEntry × ℕ))
      → ShownAll r to_lower (take 3 views) o
      → AllAllowed to_lower r v scan
      → AllServed (or_scan to_lower o scan)
  either none none h k = tt
  either none (some (es, total)) h k =
      All-of Served es (λ e i. inr (All-In (Allowed to_lower r v) es k e i))
  either (some (es, total)) scan h k =
      All-of Served es (λ e i. inl (All-In (Shown r to_lower (take 3 views)) es h e i))

-- Every entry that ListAuditLog returns for a workspace with at least one namespace was read from a
-- key that names one of those namespaces, or names the requested workspace, whether the index serves
-- it, after however many attempts, or the scan on which it falls back.
pub list_audit_log-Served :
    (to_lower : String → String) (r : ListRequest) (ensured : Bool) (views : List IndexView)
    (v : ScanView)
    → r.cluster_wide ≡ false
    → is_empty r.namespaces ≡ false
    → AllServed to_lower r views v (list_audit_log to_lower r ensured views v)
unfolding list_audit_log
list_audit_log-Served to_lower r ensured views v c n =
    let bounded = record r { limit = if eqb r.limit 0 then 100 else r.limit } in
    either to_lower r views v (list_audit_log_indexed to_lower bounded ensured views)
      (list_audit_log_scan to_lower bounded v)
      (list_audit_log_indexed-Shown bounded to_lower ensured views c)
      (list_audit_log_scan-Allowed to_lower bounded v c n)
