-- ===== src/Audit.antt =====
-- The audit log (src/store/store.go): its entries, and their payloads as JSON.
use mogenius_operator.Prelude.{ℕ, String, Bool, Option, none, some, ◌==◌, if◌then◌else◌}
use mogenius_operator.Access.{User}
mod Redact
mod Redacted
mod Listing
mod Confined
mod Listed
mod Fallback
mod Served
mod Leak
mod Examples

-- A decoded JSON value; `raw` is a number, a boolean or null.
mutual
  pub data Json : Type 0 where
    raw : String → Json
    text : String → Json
    items : Items → Json
    object : Fields → Json

  pub data Items : Type 0 where
    nil : Items
    cons : Json → Items → Items

  pub data Fields : Type 0 where
    end : Fields
    field : String → Json → Fields → Fields

-- A field that holds a text: `val, ok := m[key].(string)`
abbrev pub text_of : Json → Option String
text_of (text s) = some s
text_of (raw _) = none
text_of (items _) = none
text_of (object _) = none

unfoldable pub text_field : String → Fields → Option String
text_field key end = none
text_field key (field k v rest) =
    let later = text_field key rest in if k == key then text_of v else later

-- `Result`, `Diff`, `RequestId` and the numbers of the real-time copy play no part in the listing.
pub record AuditLogEntry : Type 0 where
  pub pattern : String
  pub kind : String
  pub api_version : String
  pub namespace : String
  pub name : String
  pub success : Bool
  pub payload : Json
  pub error : String
  pub created_at : ℕ
  pub user : User
  pub workspace : String
