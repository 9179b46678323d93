-- ===== src/Audit/Redact.antt =====
-- Credentials in a payload (src/store/store.go: sensitiveAuditPayloadKeys, redactSensitiveKeys;
-- src/secrets/secrets.go: REDACTED). strings.ToLower is a parameter.
use mogenius_operator.Prelude.{String, Bool, false, not, ◌&&◌, ◌||◌, ◌==◌, if◌then◌else◌}
use mogenius_operator.Audit.{Json, Items, Fields, raw, text, items, object, nil, cons, end, field}

abbrev pub redacted_text : String
redacted_text = "***[REDACTED]***"

-- `if str, ok := v.(string); ok && str != ""`
abbrev pub holds_text : Json → Bool
holds_text (text s) = not (s == "")
holds_text (raw _) = false
holds_text (items _) = false
holds_text (object _) = false

module _ (to_lower : String → String) where
  unfoldable pub is_sensitive : String → Bool
  is_sensitive key =
      let k = to_lower key in
      k == "password"
      || k == "token"
      || k == "apikey"
      || k == "accesstoken"
      || k == "authtoken"
      || k == "bearertoken"
      || k == "clientsecret"
      || k == "authorization"

unfoldable mutual
  pub redact_sensitive_keys : (String → Bool) → Json → Json
  redact_sensitive_keys sensitive (raw s) = raw s
  redact_sensitive_keys sensitive (text s) = text s
  redact_sensitive_keys sensitive (items xs) = items (redact_items sensitive xs)
  redact_sensitive_keys sensitive (object fs) = object (redact_fields sensitive fs)

  pub redact_items : (String → Bool) → Items → Items
  redact_items sensitive nil = nil
  redact_items sensitive (cons x xs) =
      cons (redact_sensitive_keys sensitive x) (redact_items sensitive xs)

  pub redact_fields : (String → Bool) → Fields → Fields
  redact_fields sensitive end = end
  redact_fields sensitive (field k v rest) =
      let others = redact_fields sensitive rest in
      let deep = redact_sensitive_keys sensitive v in
      if sensitive k && holds_text v
      then field k (text redacted_text) others
      else field k deep others
