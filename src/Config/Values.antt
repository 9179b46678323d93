-- ===== src/Config/Values.antt =====
-- Reading a configuration value (src/config/config.go: getValueForKey, TryGet, Get, TryGetBool,
-- TryGetInt, IsSet, GetAll, GetUsage).
use mogenius_operator.Prelude.{
  ℕ, ◌+◌, String, Bool, true, false, Option, none, some, List, [], ◌∷◌, ◌==◌, if◌then◌else◌,
  is_some, map,
}
use mogenius_operator.Prelude.Assoc.{Assoc, lookup, insert}
use mogenius_operator.Prelude.Numbers.{ℤ, parse_int, parse_bool, text_less}
use mogenius_operator.Prelude.Sort.{sort}
use mogenius_operator.Config.{
  ConfigVariableType, config_int, config_bool, config_string, config_other, ConfigValue, Config,
  empty_key, undeclared, uninitialized, not_declared_as, not_valid_as, Fallible, given, failed,
  Panicking, returned, panicked,
}

-- The value that a key holds, with its counter of reads gone up.
abbrev pub counted :
    String → Config → ConfigValue → Option String → Fallible (String × ConfigValue) × Config
counted key c cv none = (failed (uninitialized key), c)
counted key c cv (some v) = (
  given (v, cv),
  record c { values = insert key (record cv { get_counter = cv.get_counter + 1 }) c.values },
)

abbrev pub of_entry :
    String → Config → Option ConfigValue → Fallible (String × ConfigValue) × Config
of_entry key c none = (failed (undeclared key), c)
of_entry key c (some cv) = counted key c cv cv.value

unfoldable pub get_value_for_key : String → Config → Fallible (String × ConfigValue) × Config
get_value_for_key key c =
    if key == "" then (failed empty_key, c) else of_entry key c (lookup key c.values)

abbrev pub value_read : Fallible (String × ConfigValue) → Fallible String
value_read (given (v, cv)) = given v
value_read (failed e) = failed e

unfoldable pub try_get : String → Config → Fallible String × Config
try_get key c = let (r, after) = get_value_for_key key c in (value_read r, after)

abbrev pub or_panic {ℓ} : {A : Type ℓ} → Fallible A → Panicking A
or_panic (given a) = returned a
or_panic (failed e) = panicked e

unfoldable pub get : String → Config → Panicking String × Config
get key c = let (r, after) = try_get key c in (or_panic r, after)

abbrev pub is_bool : Option ConfigVariableType → Bool
is_bool (some config_bool) = true
is_bool (some config_int) = false
is_bool (some config_string) = false
is_bool (some (config_other _)) = false
is_bool none = false

abbrev pub is_int : Option ConfigVariableType → Bool
is_int (some config_int) = true
is_int (some config_bool) = false
is_int (some config_string) = false
is_int (some (config_other _)) = false
is_int none = false

abbrev pub parsed_as {ℓ} : {A : Type ℓ} → String → ConfigVariableType → Option A → Fallible A
parsed_as key k none = failed (not_valid_as key k)
parsed_as key k (some a) = given a

unfoldable pub bool_read : String → Fallible (String × ConfigValue) → Fallible Bool
bool_read key (failed e) = failed e
bool_read key (given (v, cv)) =
    if is_bool cv.declaration.kind
    then parsed_as key config_bool (parse_bool v)
    else failed (not_declared_as key config_bool)

unfoldable pub try_get_bool : String → Config → Fallible Bool × Config
try_get_bool key c = let (r, after) = get_value_for_key key c in (bool_read key r, after)

unfoldable pub int_read : String → Fallible (String × ConfigValue) → Fallible ℤ
int_read key (failed e) = failed e
int_read key (given (v, cv)) =
    if is_int cv.declaration.kind
    then parsed_as key config_int (parse_int v)
    else failed (not_declared_as key config_int)

unfoldable pub try_get_int : String → Config → Fallible ℤ × Config
try_get_int key c = let (r, after) = get_value_for_key key c in (int_read key r, after)

abbrev pub initialized : Option ConfigValue → Bool
initialized none = false
initialized (some cv) = is_some cv.value

unfoldable pub is_set : String → Config → Bool
is_set key c = if key == "" then false else initialized (lookup key c.values)

pub record ConfigVariable : Type 0 where
  pub key : String
  pub value : String
  pub is_secret : Bool

abbrev variable : String → ConfigValue → Option String → List ConfigVariable → List ConfigVariable
variable k cv none rest = rest
variable k cv (some v) rest =
    record { key = k; value = v; is_secret = cv.declaration.is_secret } ∷ rest

abbrev all_of : Assoc ConfigValue → List ConfigVariable
all_of [] = []
all_of ((k, cv) ∷ rest) = variable k cv cv.value (all_of rest)

unfoldable pub get_all : Config → List ConfigVariable
get_all c = all_of c.values

pub record KeyUsage : Type 0 where
  pub key : String
  pub initialized : Bool
  pub set_calls : ℕ
  pub get_calls : ℕ

abbrev usage_of : (String × ConfigValue) → KeyUsage
usage_of (k, cv) = record {
  key = k;
  initialized = is_some cv.value;
  set_calls = cv.set_counter;
  get_calls = cv.get_counter;
}

unfoldable pub get_usage : Config → List KeyUsage
get_usage c = sort (λ (a b : KeyUsage). text_less a.key b.key) (map usage_of c.values)
