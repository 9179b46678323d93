-- ===== src/Config/Spec.antt =====
-- What the configuration module promises: a cell for each declared key, without counters,
-- callbacks, or an order of the keys.
use mogenius_operator.Prelude.{
  String, Bool, true, false, Option, none, some, List, [], ◌∷◌, ◌==◌, if◌then◌else◌, is_some,
}
use mogenius_operator.Prelude.Numbers.{ℤ, parse_int, parse_bool}
use mogenius_operator.Config.{
  config_int, config_bool, ConfigDeclaration, ConfigError, empty_key, undeclared, uninitialized,
  not_declared_as, not_valid_as, set_undeclared, set_read_only, refused, not_valid_as, config_bool,
  config_int, uninitialized, Fallible, given, failed, Panicking, returned, assertion_failed,
  validation_error, Config,
}
use mogenius_operator.Config.Values.{is_bool, is_int, try_get, try_get_bool, try_get_int, is_set}
use mogenius_operator.Config.Changes.{declare_error, declare, try_set}

-- A declared key with its value, if it has one.
pub record Cell : Type 0 where
  pub declared_as : ConfigDeclaration
  pub current : Option String

abbrev pub View : Type 0
View = String → Option Cell

-- A call of the module, and what it answers.
pub data Call : Type 0 where
  declaring : ConfigDeclaration → Call
  reading : String → Call
  reading_bool : String → Call
  reading_int : String → Call
  asking : String → Call
  writing : String → String → Call

pub data Answer : Type 0 where
  declared : Panicking (Unit {0}) → Answer
  read : Fallible String → Answer
  read_bool : Fallible Bool → Answer
  read_int : Fallible ℤ → Answer
  asked : Bool → Answer
  written : Fallible (Unit {0}) → Answer

abbrev pub update : View → String → Cell → View
update view key cell other = if key == other then some cell else view other

abbrev pub value_in : String → Option Cell → Fallible (String × ConfigDeclaration)
value_in key none = failed (undeclared key)
value_in key (some cell) = elim cell.current [
  | none ↦ failed (uninitialized key)
  | some v ↦ given (v, cell.declared_as)
]

-- The value of an initialised key.
unfoldable pub value_of : String → View → Fallible (String × ConfigDeclaration)
value_of key view = if key == "" then failed empty_key else value_in key (view key)

abbrev pub text_of : Fallible (String × ConfigDeclaration) → Fallible String
text_of (failed e) = failed e
text_of (given (v, d)) = given v

abbrev pub valid_as {ℓ} : {A : Type ℓ} → ConfigError → Option A → Fallible A
valid_as e none = failed e
valid_as e (some a) = given a

-- A boolean is readable where the key is declared as one and its text reads as one.
abbrev pub bool_of : String → Fallible (String × ConfigDeclaration) → Fallible Bool
bool_of key (failed e) = failed e
bool_of key (given (v, d)) =
    if is_bool d.kind
    then valid_as (not_valid_as key config_bool) (parse_bool v)
    else failed (not_declared_as key config_bool)

abbrev pub int_of : String → Fallible (String × ConfigDeclaration) → Fallible ℤ
int_of key (failed e) = failed e
int_of key (given (v, d)) =
    if is_int d.kind
    then valid_as (not_valid_as key config_int) (parse_int v)
    else failed (not_declared_as key config_int)

abbrev pub holds : Fallible (String × ConfigDeclaration) → Bool
holds (given _) = true
holds (failed _) = false

abbrev pub write_cell : String → String → View → Option Cell → Fallible (Unit {0}) × View
write_cell key v view none = (failed (set_undeclared key), view)
write_cell key v view (some cell) =
    if cell.declared_as.read_only
    then (failed (set_read_only key), view)
    else elim (validation_error cell.declared_as.validate v) [
      | none ↦ (given tt, update view key (record cell { current = some v }))
      | some text ↦ (failed (refused cell.declared_as.key text), view)
    ]

abbrev pub declare_cell : ConfigDeclaration → View → Option String → Panicking (Unit {0}) × View
declare_cell d view (some text) = (assertion_failed text, view)
declare_cell d view none =
    (returned tt, update view d.key (record { declared_as = d; current = d.default_value }))

-- One call on the abstract state.
unfoldable pub promised : Call → View → Answer × View
promised (declaring d) view =
    let r = declare_cell d view (declare_error d (is_some (view d.key))) in (declared r.0, r.1)
promised (reading key) view = (read (text_of (value_of key view)), view)
promised (reading_bool key) view = (read_bool (bool_of key (value_of key view)), view)
promised (reading_int key) view = (read_int (int_of key (value_of key view)), view)
promised (asking key) view = (asked (holds (value_of key view)), view)
promised (writing key v) view = let r = write_cell key v view (view key) in (written r.0, r.1)

-- The same call of the code.
unfoldable pub call : Call → Config → Answer × Config
call (declaring d) c = let r = declare d c in (declared r.0, r.1)
call (reading key) c = let r = try_get key c in (read r.0, r.1)
call (reading_bool key) c = let r = try_get_bool key c in (read_bool r.0, r.1)
call (reading_int key) c = let r = try_get_int key c in (read_int r.0, r.1)
call (asking key) c = (asked (is_set key c), c)
call (writing key v) c = let r = try_set key v c in (written r.0, r.1)

unfoldable pub calls_promised : List Call → View → List Answer × View
calls_promised [] view = ([], view)
calls_promised (x ∷ xs) view =
    let r = promised x view in let rest = calls_promised xs r.1 in (r.0 ∷ rest.0, rest.1)

unfoldable pub call_all : List Call → Config → List Answer × Config
call_all [] c = ([], c)
call_all (x ∷ xs) c = let r = call x c in let rest = call_all xs r.1 in (r.0 ∷ rest.0, rest.1)
