-- ===== src/Config/Envs.antt =====
-- Loading configuration values from the environment (src/config/config.go: LoadEnvs).
use mogenius_operator.Prelude.{String, Option, none, some, List, [], ◌∷◌}
use mogenius_operator.Prelude.Assoc.{Assoc}
use mogenius_operator.Config.{
  ConfigDeclaration, ConfigValue, Config, Panicking, returned, panicked, assertion_failed,
  validation_error,
}

-- os.LookupEnv of this process.
abbrev pub Environment : Type 0
Environment = String → Option String

-- The first alias that the environment has.
abbrev pub first_alias : Environment → List String → Option String
first_alias env [] = none
first_alias env (a ∷ rest) = or_else (env a) (first_alias env rest)
  where
    or_else : Option String → Option String → Option String
    or_else none o = o
    or_else (some v) o = some v

-- The value that the environment has for an entry: under its key, else under its first alias.
abbrev pub env_value : Environment → String → ConfigDeclaration → Option String
env_value env key d = choose (env key) (first_alias env d.envs)
  where
    choose : Option String → Option String → Option String
    choose none o = o
    choose (some v) o = some v

-- A value that fails its validation is a failed assertion.
abbrev pub accept_value : ConfigValue → String → Option String → Panicking ConfigValue
accept_value cv v none = returned (record cv { value = some v })
accept_value cv v (some text) = assertion_failed text

abbrev pub load_on : ConfigValue → Option String → Panicking ConfigValue
load_on cv none = returned cv
load_on cv (some v) = accept_value cv v (validation_error cv.declaration.validate v)

unfoldable pub load_entry : Environment → String → ConfigValue → Panicking ConfigValue
load_entry env key cv = load_on cv (env_value env key cv.declaration)

abbrev pub cons_loaded :
    String → Panicking ConfigValue → Panicking (Assoc ConfigValue) → Panicking (Assoc ConfigValue)
cons_loaded key (assertion_failed text) rest = assertion_failed text
cons_loaded key (panicked e) rest = panicked e
cons_loaded key (returned cv) (assertion_failed text) = assertion_failed text
cons_loaded key (returned cv) (panicked e) = panicked e
cons_loaded key (returned cv) (returned rest) = returned ((key, cv) ∷ rest)

unfoldable pub load_entries : Environment → Assoc ConfigValue → Panicking (Assoc ConfigValue)
load_entries env [] = returned []
load_entries env ((key, cv) ∷ rest) =
    cons_loaded key (load_entry env key cv) (load_entries env rest)

abbrev pub with_values : Config → Panicking (Assoc ConfigValue) → Panicking Config
with_values c (returned values) = returned (record c { values = values })
with_values c (panicked e) = panicked e
with_values c (assertion_failed text) = assertion_failed text

-- LoadEnvs; a failed assertion ends the process.
unfoldable pub load_envs : Environment → Config → Panicking Config
load_envs env c = with_values c (load_entries env c.values)
