-- ===== src/Config.antt =====
-- The configuration module (src/config/config.go, src/config/interface.go): its data.
use mogenius_operator.Prelude.{ℕ, String, Bool, Option, none, some, List, []}
use mogenius_operator.Prelude.Assoc.{Assoc}
mod Values
mod Changes
mod Envs
mod Spec
mod Reads
mod Refines
mod Reached
mod Loaded
mod Secrets
mod Declarations
mod Truthful
mod Validated
mod Examples

pub data ConfigVariableType : Type 0 where
  config_string : ConfigVariableType
  config_int : ConfigVariableType
  config_bool : ConfigVariableType
  config_other : String → ConfigVariableType

-- A `Validate` function returns the text of its error, if there is one. A nil slice and an empty one
-- are both [].
pub record ConfigDeclaration : Type 0 where
  pub key : String
  pub kind : Option ConfigVariableType
  pub default_value : Option String
  pub description : Option String
  pub is_secret : Bool
  pub read_only : Bool
  pub envs : List String
  pub validate : Option (String → Option String)

pub record ConfigValue : Type 0 where
  pub value : Option String
  pub declaration : ConfigDeclaration
  pub get_counter : ℕ
  pub set_counter : ℕ

-- A callback is known by a name.
pub record OnChangeCallbackConfig : Type 0 where
  pub on_keys : List String
  pub callback : String

-- A call of a callback.
pub record Notification : Type 0 where
  pub called : String
  pub changed_key : String
  pub new_value : String
  pub secret : Bool

-- The module's state, with the calls of callbacks that it made, the last one first. The callbacks
-- of `onFinalizedCallbacks` are never registered.
pub record Config : Type 0 where
  pub values : Assoc ConfigValue
  pub on_changed_callbacks : List OnChangeCallbackConfig
  pub calls : List Notification

pub data ConfigError : Type 0 where
  empty_key : ConfigError
  undeclared : String → ConfigError
  uninitialized : String → ConfigError
  not_declared_as : String → ConfigVariableType → ConfigError
  not_valid_as : String → ConfigVariableType → ConfigError
  set_undeclared : String → ConfigError
  set_read_only : String → ConfigError
  refused : String → String → ConfigError
  unknown_type : String → String → ConfigError

-- What a `Try…` method returns.
pub data Fallible {ℓ} (A : Type ℓ) : Type ℓ where
  given : A → Fallible A
  failed : ConfigError → Fallible A

-- A call that may panic: with an error, or at a failed assertion.
pub data Panicking {ℓ} (A : Type ℓ) : Type ℓ where
  returned : A → Panicking A
  panicked : ConfigError → Panicking A
  assertion_failed : String → Panicking A

unfoldable pub new_config : Config
new_config = record { values = []; on_changed_callbacks = []; calls = [] }

-- `err != nil` of a declaration's validation; without a validation there is none.
unfoldable pub validation_error : Option (String → Option String) → String → Option String
validation_error none s = none
validation_error (some validate) s = validate s
