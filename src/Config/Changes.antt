-- ===== src/Config/Changes.antt =====
-- Changing the configuration (src/config/config.go: Declare, Set, TrySet, set, isSecret,
-- runOnChangedCallbacks, OnChanged, Validate).
use mogenius_operator.Prelude.{
  ◌+◌, String, Bool, false, ◌||◌, Option, none, some, List, [], ◌∷◌, ◌==◌, if◌then◌else◌, is_some,
  is_empty, contains, any, snoc,
}
use mogenius_operator.Prelude.Assoc.{Assoc, lookup, insert}
use mogenius_operator.Prelude.Numbers.{parse_int, parse_bool}
use mogenius_operator.Prelude.Text.{cut}
use mogenius_operator.Config.{
  ConfigVariableType, config_string, config_int, config_bool, config_other, ConfigDeclaration,
  ConfigValue, OnChangeCallbackConfig, Notification, Config, ConfigError, set_undeclared,
  set_read_only, refused, uninitialized, not_valid_as, unknown_type, Fallible, given, failed,
  Panicking, returned, assertion_failed, validation_error,
}
use mogenius_operator.Config.Values.{or_panic}

abbrev pub has_newline : String → Bool
has_newline s = is_some (cut "\n" s)

abbrev pub newline_in : Option String → Bool
newline_in none = false
newline_in (some s) = has_newline s

abbrev pub flag_of : String → Assoc ConfigValue → Bool
flag_of key [] = false
flag_of key ((k, cv) ∷ rest) =
    let later = flag_of key rest in
    if cv.declaration.key == key then cv.declaration.is_secret else later

-- isSecret
unfoldable pub secret_flag : String → Config → Bool
secret_flag key c = flag_of key c.values

-- The callbacks that wait for every key, or for this one.
abbrev pub waits_for : String → OnChangeCallbackConfig → Bool
waits_for key cb = is_empty cb.on_keys || contains cb.on_keys key

unfoldable pub notify :
    String → String → Bool → List OnChangeCallbackConfig → List Notification → List Notification
notify key value flag [] done = done
notify key value flag (cb ∷ rest) done = notify key value flag rest (
    if waits_for key cb
    then record { called = cb.callback; changed_key = key; new_value = value; secret = flag } ∷ done
    else done)

unfoldable pub run_on_changed_callbacks : String → String → Bool → Config → Config
unfolding notify
run_on_changed_callbacks key value flag c = record c {
  calls = notify key value flag c.on_changed_callbacks c.calls;
}

unfoldable pub on_changed : List String → String → Config → Config
on_changed keys cb c = record c {
  on_changed_callbacks = snoc c.on_changed_callbacks (record { on_keys = keys; callback = cb });
}

abbrev pub stored_value : ConfigValue → String → ConfigValue
stored_value cv v = record cv { value = some v; set_counter = cv.set_counter + 1 }

abbrev pub checked :
    String → ConfigValue → String → Config → Option String → Fallible (Unit {0}) × Config
checked key cv v c (some text) = (failed (refused cv.declaration.key text), c)
checked key cv v c none = (given tt, record c { values = insert key (stored_value cv v) c.values })

abbrev pub set_entry : String → String → Config → Option ConfigValue → Fallible (Unit {0}) × Config
set_entry key v c none = (failed (set_undeclared key), c)
set_entry key v c (some cv) =
    if cv.declaration.read_only
    then (failed (set_read_only key), c)
    else checked key cv v c (validation_error cv.declaration.validate v)

-- set
unfoldable pub set_value : String → String → Config → Fallible (Unit {0}) × Config
set_value key v c = set_entry key v c (lookup key c.values)

abbrev pub then_notify :
    String → String → Fallible (Unit {0}) × Config → Fallible (Unit {0}) × Config
then_notify key v (failed e, c) = (failed e, c)
then_notify key v (given u, c) = (given tt, run_on_changed_callbacks key v (secret_flag key c) c)

unfoldable pub try_set : String → String → Config → Fallible (Unit {0}) × Config
try_set key v c = then_notify key v (set_value key v c)

-- Set
unfoldable pub set : String → String → Config → Panicking (Unit {0}) × Config
set key v c = let (r, after) = try_set key v c in (or_panic r, after)

-- The assertions of Declare, in the code's order; the text names the one that fails.
abbrev pub declare_error : ConfigDeclaration → Bool → Option String
declare_error opts taken =
    if opts.key == ""
    then some "key"
    else if has_newline opts.key
    then some "newline in key"
    else if taken
    then some "declared twice"
    else if newline_in opts.description
    then some "newline in description"
    else if any has_newline opts.envs
    then some "newline in env"
    else none

abbrev pub initial : ConfigDeclaration → ConfigValue
initial opts = record {
  value = opts.default_value;
  declaration = opts;
  get_counter = 0;
  set_counter = if is_some opts.default_value then 1 else 0;
}

abbrev pub with_default : ConfigDeclaration → Option String → Config → Config
with_default opts none c = c
with_default opts (some v) c = run_on_changed_callbacks opts.key v opts.is_secret c

abbrev pub declare_on : ConfigDeclaration → Config → Option String → Panicking (Unit {0}) × Config
declare_on opts c (some text) = (assertion_failed text, c)
declare_on opts c none = (
  returned tt,
  with_default opts opts.default_value
      (record c { values = insert opts.key (initial opts) c.values }),
)

unfoldable pub declare : ConfigDeclaration → Config → Panicking (Unit {0}) × Config
declare opts c = declare_on opts c (declare_error opts (is_some (lookup opts.key c.values)))

abbrev pub type_error : String → String → Option ConfigVariableType → Option ConfigError
type_error key v none = none
type_error key v (some config_string) = none
type_error key v (some config_int) =
    if is_some (parse_int v) then none else some (not_valid_as key config_int)
type_error key v (some config_bool) =
    if is_some (parse_bool v) then none else some (not_valid_as key config_bool)
type_error key v (some (config_other name)) = some (unknown_type key name)

abbrev pub refusal :
    String → String → Option ConfigVariableType → Option String → Option ConfigError
refusal key v k (some text) = some (refused key text)
refusal key v k none = type_error key v k

-- The error that Validate reports for one entry, if any.
abbrev pub entry_error : String → ConfigDeclaration → Option String → Option ConfigError
entry_error key d none = some (uninitialized key)
entry_error key d (some v) = refusal key v d.kind (validation_error d.validate v)

abbrev pub with_error : Option ConfigError → List ConfigError → List ConfigError
with_error none errs = errs
with_error (some e) errs = e ∷ errs

abbrev pub errors_of : Assoc ConfigValue → List ConfigError
errors_of [] = []
errors_of ((k, cv) ∷ rest) = with_error (entry_error k cv.declaration cv.value) (errors_of rest)

-- Validate: the errors that it prints before it exits; with none it returns.
unfoldable pub validate_all : Config → List ConfigError
validate_all c = errors_of c.values
