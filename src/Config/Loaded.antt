-- ===== src/Config/Loaded.antt =====
-- What LoadEnvs makes of every key (src/config/config.go).
use mogenius_operator.Prelude.{
  Option-cases, String, Option, none, some, List, subst, ◌⊎◌, [], ◌∷◌, ◌≡◌, refl, ap, ◌==◌,
  Bool-cases, inl, inr, eq_iff, All,
}
use mathlib.Core.Option.{some-injective}
use mogenius_operator.Prelude.Assoc.{Assoc, lookup}
use mogenius_operator.Config.{ConfigDeclaration, ConfigValue, Config, returned, validation_error}
use mogenius_operator.Config.Envs.{
  first_alias, Environment, load_envs, load_entries, load_entry, load_on, accept_value, env_value,
  cons_loaded, with_values,
}

-- The value of the first variable of a list that is set.
pub data FirstOf (env : Environment) : List String → String → Type 0 where
  first_set :
      {name v : String} {rest : List String} → env name ≡ some v → FirstOf env (name ∷ rest) v
  first_later :
      {name v : String} {rest : List String}
      → env name ≡ none
      → FirstOf env rest v
      → FirstOf env (name ∷ rest) v

-- No variable of a list is set.
abbrev pub NoneOf : Environment → List String → Type 0
NoneOf env names = All (λ (name : String). env name ≡ none) names

-- Where the environment has a value for the entry, its validation accepts it.
abbrev pub Accepted : Environment → String × ConfigValue → Type 0
Accepted env entry =
    (v : String)
    → FirstOf env (entry.0 ∷ entry.1.declaration.envs) v
    → validation_error entry.1.declaration.validate v ≡ none

-- What a lookup in the order of a list finds.
abbrev Finds : Environment → List String → Option String → Type 0
Finds env names none = NoneOf env names
Finds env names (some v) = FirstOf env names v

skips :
    (env : Environment) (name : String) (rest : List String) (later : Option String)
    → env name ≡ none
    → Finds env rest later
    → Finds env (name ∷ rest) later
skips env name rest none e h = (e, h)
skips env name rest (some v) e h = first_later e h

first_alias-Finds :
    (env : Environment) (names : List String) → Finds env names (first_alias env names)
first_alias-Finds env [] = tt
first_alias-Finds env (name ∷ rest) = elim (Option-cases (env name)) [
  | inl e ↦ rw e (skips env name rest (first_alias env rest) e (first_alias-Finds env rest))
  | inr (v, e) ↦ rw e (first_set e)
]

env_value-Finds :
    (env : Environment) (key : String) (d : ConfigDeclaration)
    → Finds env (key ∷ d.envs) (env_value env key d)
env_value-Finds env key d = elim (Option-cases (env key)) [
  | inl e ↦ rw e (skips env key d.envs (first_alias env d.envs) e (first_alias-Finds env d.envs))
  | inr (v, e) ↦ rw e (first_set e)
]

abbrev override : ConfigValue → Option String → ConfigValue
override cv none = cv
override cv (some v) = record cv { value = some v }

abbrev overridden : Environment → String → Option ConfigValue → Option ConfigValue
overridden env key none = none
overridden env key (some cv) = some (override cv (env_value env key cv.declaration))

abbrev overrides : Environment → Assoc ConfigValue → Assoc ConfigValue
overrides env [] = []
overrides env ((key, cv) ∷ rest) =
    (key, override cv (env_value env key cv.declaration)) ∷ overrides env rest

-- The same of the value that the code finds.
abbrev AcceptedValue : Environment → String × ConfigValue → Type 0
AcceptedValue env entry =
    (v : String)
    → env_value env entry.0 entry.1.declaration ≡ some v
    → validation_error entry.1.declaration.validate v ≡ none

found_value :
    (env : Environment) (names : List String) (o : Option String) (v : String)
    → Finds env names o
    → o ≡ some v
    → FirstOf env names v
found_value env names none v h e = cc e
found_value env names (some w) v h e =
    let same : w ≡ v = some-injective w v e in subst (λ (x : String). FirstOf env names x) same h

found_valid :
    (env : Environment) (m : Assoc ConfigValue) → All (Accepted env) m → All (AcceptedValue env) m
found_valid env [] h = tt
found_valid env ((key, cv) ∷ rest) h = (
  λ v e. h.0 v (
      found_value env (key ∷ cv.declaration.envs) (env_value env key cv.declaration) v
        (env_value-Finds env key cv.declaration) e),
  found_valid env rest h.1,
)

load_on_lem :
    (cv : ConfigValue) (o : Option String)
    → ((v : String) → o ≡ some v → validation_error cv.declaration.validate v ≡ none)
    → load_on cv o ≡ returned (override cv o)
load_on_lem cv none h = refl
load_on_lem cv (some v) h = ap (accept_value cv v) (h v refl)

load_entries_lem :
    (env : Environment) (m : Assoc ConfigValue)
    → All (AcceptedValue env) m
    → load_entries env m ≡ returned (overrides env m)
unfolding load_entries load_entry
load_entries_lem env [] h = refl
load_entries_lem env ((key, cv) ∷ rest) h =
    rw (load_on_lem cv (env_value env key cv.declaration) h.0) (
      ap (cons_loaded key (returned (override cv (env_value env key cv.declaration))))
        (load_entries_lem env rest h.1))

lookup-overrides :
    (env : Environment) (key : String) (m : Assoc ConfigValue)
    → lookup key (overrides env m) ≡ overridden env key (lookup key m)
unfolding lookup
lookup-overrides env key [] = refl
lookup-overrides env key ((k, cv) ∷ rest) = elim (Bool-cases (k == key)) [
  | inl e ↦ rw e (
      ap (λ (j : String). some (override cv (env_value env j cv.declaration))) ((eq_iff k key).0 e))
  | inr e ↦ rw e (lookup-overrides env key rest)
]

-- What a load makes of the entry of a key: nothing is added, a value comes from the first variable
-- that is set, of the one named like the key and then the aliases in their order, and an entry that
-- has none stays.
abbrev pub LoadsEntry : Environment → String → Option ConfigValue → Option ConfigValue → Type 0
LoadsEntry env key none after = after ≡ none
LoadsEntry env key (some cv) after =
    ((v : String) × FirstOf env (key ∷ cv.declaration.envs) v
      × (after ≡ some (record cv { value = some v })))
    ⊎ (NoneOf env (key ∷ cv.declaration.envs) × (after ≡ some cv))

overrides_on :
    (env : Environment) (key : String) (cv : ConfigValue) (o : Option String)
    → Finds env (key ∷ cv.declaration.envs) o
    → LoadsEntry env key (some cv) (some (override cv o))
overrides_on env key cv none h = inr (h, refl)
overrides_on env key cv (some v) h = inl (v, h, refl)

overridden_lem :
    (env : Environment) (key : String) (o : Option ConfigValue)
    → LoadsEntry env key o (overridden env key o)
overridden_lem env key none = refl
overridden_lem env key (some cv) =
    overrides_on env key cv (env_value env key cv.declaration)
      (env_value-Finds env key cv.declaration)

-- A load of the environment and the state that it leaves.
pub record Loads (env : Environment) (c : Config) : Type 0 where
  pub after : Config
  pub returns : load_envs env c ≡ returned after
  pub values : (key : String) → LoadsEntry env key (lookup key c.values) (lookup key after.values)
  pub silent : after.calls ≡ c.calls

-- Where every value that the environment offers is accepted by its key's validation, LoadEnvs
-- returns, and each declared key then holds the value of the variable named like it, else of its
-- first alias that is set, else what it held before, also where it is read-only; no key is added,
-- and no callback is called.
pub load_envs_lem : (env : Environment) (c : Config) → All (Accepted env) c.values → Loads env c
unfolding load_envs
load_envs_lem env c h = record {
  after = record c { values = overrides env c.values };
  returns = ap (with_values c) (load_entries_lem env c.values (found_valid env c.values h));
  values =
      λ key. rw (lookup-overrides env key c.values) (overridden_lem env key (lookup key c.values));
  silent = refl;
}
