-- ===== src/Audit/Listing.antt =====
-- Listing the audit log (src/store/store.go: ListAuditLog, listAuditLogIndexed, auditKeyNamespace,
-- mgetAuditEntries, listAuditLogScan, auditLogEntryMatchesSearch). strings.ToLower is a parameter.
use mogenius_operator.Prelude.{
  ℕ, String, Bool, true, false, not, ◌&&◌, ◌||◌, Option, none, some, List, [], ◌∷◌, ◌==◌,
  if◌then◌else◌, contains, is_empty, filter_by, take, length, leb, ltb, eqb, any, append,
}
use mogenius_operator.Prelude.Assoc.{Assoc, lookup, insert}
use mogenius_operator.Prelude.Affixes.{split}
use mogenius_operator.Prelude.Sort.{sort}
use mogenius_operator.Search.{includes}
use mogenius_operator.Kv.Pages.{Listing, window, get_objects_by_prefix_with_size_and_ns}
use mogenius_operator.Audit.{Json, raw, text, items, object, text_field, AuditLogEntry}

pub record ListRequest : Type 0 where
  pub limit : ℕ
  pub offset : ℕ
  pub namespaces : List String
  pub cluster_wide : Bool
  pub workspace_name : String
  pub search : String

abbrev pub max_audit_list_entries : ℕ
max_audit_list_entries = 10000

abbrev pub second_segment : List String → String
second_segment (bucket ∷ namespace ∷ name ∷ rest) = namespace
second_segment _ = ""

unfoldable pub audit_key_namespace : String → String
audit_key_namespace key = second_segment (split ":" key)

-- The entries of the keys that can be read, and the stale keys.
abbrev pub with_entry :
    String
    → Option AuditLogEntry
    → Assoc AuditLogEntry × List String
    → Assoc AuditLogEntry × List String
with_entry key none (entries, stale) = (entries, key ∷ stale)
with_entry key (some e) (entries, stale) = (insert key e entries, stale)

unfoldable pub mget_audit_entries :
    (String → Option AuditLogEntry) → List String → Assoc AuditLogEntry × List String
mget_audit_entries load [] = ([], [])
mget_audit_entries load (key ∷ keys) = with_entry key (load key) (mget_audit_entries load keys)

module _ (to_lower : String → String) where
  abbrev has_term : String → String → Bool
  has_term term s = includes (to_lower s) term

  abbrev option_has : String → Option String → Bool
  option_has term none = false
  option_has term (some s) = has_term term s

  abbrev payload_has : String → Json → Bool
  payload_has term (object fields) =
      any (λ (key : String). option_has term (text_field key fields))
        ("name" ∷ "targetName" ∷ "kind" ∷ "namespace" ∷ [])
  payload_has term (raw _) = false
  payload_has term (text _) = false
  payload_has term (items _) = false

  unfoldable pub audit_log_entry_matches_search : AuditLogEntry → String → Bool
  audit_log_entry_matches_search e term =
      has_term term e.pattern
      || has_term term e.workspace
      || has_term term e.kind && not (e.kind == "")
      || has_term term e.namespace && not (e.namespace == "")
      || has_term term e.name && not (e.name == "")
      || has_term term e.user.first_name
      || has_term term e.user.last_name
      || has_term term e.user.email
      || payload_has term e.payload

abbrev pub newer : AuditLogEntry → AuditLogEntry → Bool
newer a b = ltb b.created_at a.created_at

-- What one attempt sees: the members of the index, newest first, and what the keys hold when the
-- AI entries are loaded and when the page is loaded.
pub record IndexView : Type 0 where
  pub members : Option (List String)
  pub first_load : String → Option AuditLogEntry
  pub second_load : String → Option AuditLogEntry

pub record Candidate : Type 0 where
  pub key : String
  pub entry : Option AuditLogEntry

abbrev pub of_workspace : String → AuditLogEntry → Bool
of_workspace workspace e = not (workspace == "") && e.workspace == workspace

-- An AI entry is listed where it was loaded and names the requested workspace.
abbrev pub ai_candidate : String → String → Option AuditLogEntry → List Candidate → List Candidate
ai_candidate workspace key none rest = rest
ai_candidate workspace key (some e) rest =
    if of_workspace workspace e then record { key = key; entry = some e } ∷ rest else rest

unfoldable pub candidates : ListRequest → Assoc AuditLogEntry → List String → List Candidate
candidates r ai [] = []
candidates r ai (key ∷ keys) =
    let rest = candidates r ai keys in
    let ns = audit_key_namespace key in
    if ns == ""
    then rest
    else if r.cluster_wide
    then record { key = key; entry = none } ∷ rest
    else if ns == "ai-chat"
    then ai_candidate r.workspace_name key (lookup key ai) rest
    else if contains r.namespaces ns
    then record { key = key; entry = none } ∷ rest
    else rest

-- The keys of the candidates without an entry.
unfoldable pub keys_to_load : List Candidate → List String
keys_to_load [] = []
keys_to_load (c ∷ cs) = with_key c.entry c.key (keys_to_load cs)
  where
    with_key : Option AuditLogEntry → String → List String → List String
    with_key none key rest = key ∷ rest
    with_key (some _) key rest = rest

abbrev pub add_entry : Option AuditLogEntry → List AuditLogEntry → List AuditLogEntry
add_entry none rest = rest
add_entry (some e) rest = e ∷ rest

abbrev pub entry_of : Option AuditLogEntry → Option AuditLogEntry → Option AuditLogEntry
entry_of (some e) loaded = some e
entry_of none loaded = loaded

-- The entries of the candidates, loaded before or now.
unfoldable pub entries_of : Assoc AuditLogEntry → List Candidate → List AuditLogEntry
entries_of loaded [] = []
entries_of loaded (c ∷ cs) =
    add_entry (entry_of c.entry (lookup c.key loaded)) (entries_of loaded cs)

pub data IndexOutcome : Type 0 where
  index_failed : IndexOutcome
  unstable : IndexOutcome
  listed : List AuditLogEntry → ℕ → IndexOutcome

-- Without a search: a page of the candidates; an expired member makes the attempt unstable.
abbrev pub list_page : ListRequest → List Candidate → (String → Option AuditLogEntry) → IndexOutcome
list_page r cs load =
    let page = window r.offset r.limit cs in
    let loaded = mget_audit_entries load (keys_to_load page) in
    if leb (length cs) r.offset
    then listed [] (length cs)
    else if is_empty loaded.1
    then listed (sort newer (entries_of loaded.0 page)) (length cs)
    else unstable

-- What a scan sees: the keys under `audit-log`, those under `audit-log:ai-chat`, and the items.
pub record ScanView : Type 0 where
  pub audit_keys : Option (List String)
  pub ai_keys : Option (List String)
  pub read : String → Option String
  pub parse : String → Option AuditLogEntry

unfoldable pub scanned :
    ScanView → List String → Bool → Option (List String) → Listing AuditLogEntry
unfolding get_objects_by_prefix_with_size_and_ns
scanned v namespaces cluster_wide keys =
    get_objects_by_prefix_with_size_and_ns v.read v.parse max_audit_list_entries 0 namespaces
      cluster_wide keys

abbrev pub paged : ListRequest → List AuditLogEntry → Option (List AuditLogEntry × ℕ)
paged r es = some (window r.offset r.limit (sort newer es), length es)

module _ (to_lower : String → String) where
  -- With a search: the newest candidates up to the cap, those that match, and of them a page.
  abbrev pub list_matches :
      ListRequest → List Candidate → (String → Option AuditLogEntry) → IndexOutcome
  list_matches r cs load =
      let searched = take max_audit_list_entries cs in
      let loaded = mget_audit_entries load (keys_to_load searched) in
      let found =
        filter_by
          (λ (e : AuditLogEntry). audit_log_entry_matches_search to_lower e (to_lower r.search))
          (entries_of loaded.0 searched) in
      if leb (length found) r.offset
      then listed [] (length found)
      else listed (sort newer (window r.offset r.limit found)) (length found)

  abbrev pub is_ai_key : ListRequest → String → Bool
  is_ai_key r key =
      not r.cluster_wide && audit_key_namespace key == "ai-chat" && not (r.workspace_name == "")

  abbrev pub attempt_on : ListRequest → IndexView → Option (List String) → IndexOutcome
  attempt_on r view none = index_failed
  attempt_on r view (some members) =
      let ai = mget_audit_entries view.first_load (filter_by (is_ai_key r) members) in
      let cs = candidates r ai.0 members in
      if r.search == "" then list_page r cs view.second_load else list_matches r cs view.second_load

  abbrev pub or_retry :
      IndexOutcome → Option (List AuditLogEntry × ℕ) → Option (List AuditLogEntry × ℕ)
  or_retry index_failed later = none
  or_retry unstable later = later
  or_retry (listed es total) later = some (es, total)

  -- The attempts, each on its own view; the code makes three.
  unfoldable pub list_attempts : ListRequest → List IndexView → Option (List AuditLogEntry × ℕ)
  unfolding candidates entries_of mget_audit_entries keys_to_load
  list_attempts r [] = none
  list_attempts r (view ∷ views) = or_retry (attempt_on r view view.members) (list_attempts r views)

  -- Whether the index could be ensured, and what the attempts see.
  unfoldable pub list_audit_log_indexed :
      ListRequest → Bool → List IndexView → Option (List AuditLogEntry × ℕ)
  unfolding list_attempts
  list_audit_log_indexed r ensured views = if ensured then list_attempts r (take 3 views) else none

  abbrev pub searched : ListRequest → List AuditLogEntry → List AuditLogEntry
  searched r es =
      if r.search == ""
      then es
      else filter_by
          (λ (e : AuditLogEntry). audit_log_entry_matches_search to_lower e (to_lower r.search)) es

  abbrev pub with_ai :
      ListRequest → Listing AuditLogEntry → Listing AuditLogEntry → Option (List AuditLogEntry × ℕ)
  with_ai r entries ai =
      if ai.failed
      then none
      else paged r
          (searched r (append entries.page (filter_by (of_workspace r.workspace_name) ai.page)))

  unfoldable pub list_audit_log_scan : ListRequest → ScanView → Option (List AuditLogEntry × ℕ)
  unfolding scanned
  list_audit_log_scan r v =
      let entries = scanned v r.namespaces r.cluster_wide v.audit_keys in
      if entries.failed
      then none
      else if r.cluster_wide
      then paged r (searched r entries.page)
      else with_ai r entries (scanned v [] true v.ai_keys)

  abbrev pub or_scan :
      Option (List AuditLogEntry × ℕ)
      → Option (List AuditLogEntry × ℕ)
      → Option (List AuditLogEntry × ℕ)
  or_scan none later = later
  or_scan (some r) later = some r

  -- The index first, and the scan where it fails; a page without a limit has 100 entries.
  unfoldable pub list_audit_log :
      ListRequest → Bool → List IndexView → ScanView → Option (List AuditLogEntry × ℕ)
  unfolding list_audit_log_indexed list_audit_log_scan
  list_audit_log r ensured views v =
      let bounded = record r { limit = if eqb r.limit 0 then 100 else r.limit } in
      or_scan (list_audit_log_indexed bounded ensured views) (list_audit_log_scan bounded v)
