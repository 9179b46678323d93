-- ===== src/Audit/Examples.antt =====
-- Tests and witnesses for the audit log; the texts are in lower case already.
use mogenius_operator.Prelude.{
  ℕ, String, true, false, Option, none, some, List, [], ◌∷◌, ◌≡◌, refl, ◌==◌, if◌then◌else◌, In,
  inl, inr, arith,
}
use mogenius_operator.Prelude.Assoc.{lookup, insert}
use mogenius_operator.Prelude.Affixes.{split, split_parts, has_suffix}
use mogenius_operator.Prelude.Sort.{sort, insert_sorted}
use mogenius_operator.Access.{zero_user}
use mogenius_operator.Kv.Pages.{
  get_objects_by_prefix_with_size_and_ns, load_objects, selected_keys, window,
}
use mogenius_operator.Audit.{Json, raw, text, object, end, field, AuditLogEntry}
use mogenius_operator.Audit.Redact.{
  is_sensitive, redact_sensitive_keys, redact_items, redact_fields, redacted_text,
}
use mogenius_operator.Audit.Redacted.{Clean, redact_sensitive_keys-Clean}
use mogenius_operator.Audit.Listing.{
  ListRequest, IndexView, ScanView, list_audit_log, list_audit_log_indexed, list_audit_log_scan,
  list_attempts, candidates, entries_of, mget_audit_entries, keys_to_load, audit_key_namespace,
  scanned,
}
use mogenius_operator.Audit.Served.{AllServed, list_audit_log-Served}
use mogenius_operator.Audit.Leak.{list_audit_log_scan_unfiltered}

abbrev lower : String → String
lower s = s

abbrev login : Json
login = object (
    field "auth" (object (field "token" (text "t") (field "user" (text "u") end)))
      (field "password" (text "p") end))

masked_login :
    redact_sensitive_keys (is_sensitive lower) login
    ≡ object (
        field "auth"
          (object (field "token" (text redacted_text) (field "user" (text "u") end)))
          (field "password" (text redacted_text) end))
unfolding is_sensitive redact_sensitive_keys redact_items redact_fields
masked_login = refl

redact_sensitive_keys-Clean_example :
    Clean (is_sensitive lower) (redact_sensitive_keys (is_sensitive lower) login)
    × (redact_sensitive_keys (is_sensitive lower) (redact_sensitive_keys (is_sensitive lower) login)
        ≡ redact_sensitive_keys (is_sensitive lower) login)
redact_sensitive_keys-Clean_example = redact_sensitive_keys-Clean (is_sensitive lower) login

abbrev entry : String → String → ℕ → AuditLogEntry
entry name workspace at = record {
  pattern = "update";
  kind = "Pod";
  api_version = "v1";
  namespace = "";
  name = name;
  success = true;
  payload = raw "null";
  error = "";
  created_at = at;
  user = zero_user;
  workspace = workspace;
}

abbrev stored : String → Option AuditLogEntry
stored key =
    if key == "audit-log:shop:web:1"
    then some (entry "web" "" 1)
    else if key == "audit-log:bank:vault:1"
    then some (entry "vault" "" 2)
    else if key == "audit-log:ai-chat:a@b:1"
    then some (entry "chat" "shop" 3)
    else if key == "audit-log:ai-chat:c@d:1"
    then some (entry "other" "bank" 4)
    else none

abbrev every_key : List String
every_key =
    "audit-log:ai-chat:c@d:1" ∷ "audit-log:ai-chat:a@b:1" ∷ "audit-log:bank:vault:1"
    ∷ "audit-log:shop:web:1" ∷ []

abbrev shop : ListRequest
shop = record {
  limit = 10;
  offset = 0;
  namespaces = "shop" ∷ [];
  cluster_wide = false;
  workspace_name = "shop";
  search = "";
}

abbrev index : IndexView
index = record { members = some every_key; first_load = stored; second_load = stored }

abbrev by_key : ScanView
by_key = record {
  audit_keys = some every_key;
  ai_keys = some ("audit-log:ai-chat:c@d:1" ∷ "audit-log:ai-chat:a@b:1" ∷ []);
  read = λ key. some key;
  parse = stored;
}

indexed :
    list_audit_log_indexed lower shop true (index ∷ [])
    ≡ some (entry "chat" "shop" 3 ∷ entry "web" "" 1 ∷ [], 2)
unfolding list_audit_log_indexed list_attempts candidates entries_of mget_audit_entries keys_to_load
    audit_key_namespace split split_parts window lookup insert sort insert_sorted
indexed = refl

fallen_back :
    list_audit_log lower shop false [] by_key
    ≡ some (entry "chat" "shop" 3 ∷ entry "web" "" 1 ∷ [], 2)
unfolding list_audit_log list_audit_log_indexed list_audit_log_scan scanned
    get_objects_by_prefix_with_size_and_ns load_objects selected_keys split split_parts has_suffix
    window sort insert_sorted
fallen_back = refl

list_audit_log-Served_example :
    AllServed lower shop (index ∷ []) by_key (list_audit_log lower shop true (index ∷ []) by_key)
list_audit_log-Served_example = list_audit_log-Served lower shop true (index ∷ []) by_key refl refl

-- A workspace without namespaces.
abbrev bare : ListRequest
bare = record shop { namespaces = [] }

abbrev vault : AuditLogEntry
vault = entry "vault" "" 2

list_audit_log_scan_unfiltered_example : In vault (
    entry "other" "bank" 4
    ∷ entry "chat" "shop" 3
    ∷ entry "chat" "shop" 3
    ∷ vault
    ∷ entry "web" "" 1
    ∷ [])
unfolding list_audit_log_scan scanned get_objects_by_prefix_with_size_and_ns load_objects
    selected_keys split split_parts has_suffix window sort insert_sorted
list_audit_log_scan_unfiltered_example =
    list_audit_log_scan_unfiltered lower bare by_key
      (entry "other" "bank" 4
        ∷ entry "chat" "shop" 3
        ∷ entry "chat" "shop" 3
        ∷ vault
        ∷ entry "web" "" 1
        ∷ [])
      (entry "other" "bank" 4 ∷ entry "chat" "shop" 3 ∷ vault ∷ entry "web" "" 1 ∷ []) 5 4 vault
      refl refl refl refl (omega arith) refl (inr (inr (inl refl)))
