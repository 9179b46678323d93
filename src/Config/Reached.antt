-- ===== src/Config/Reached.antt =====
-- The states of the configuration module that its operations reach, and the entries of one
-- (src/config/config.go).
use mogenius_operator.Prelude.{
  ◌+◌, String, Bool, true, false, Option, none, some, List, [], ◌∷◌, ◌≡◌, ◌⊎◌, refl, ◌==◌,
  if◌then◌else◌, is_some, inl, inr, All, subst,
}
use mogenius_operator.Prelude.Assoc.{Assoc, lookup, insert, All-insert, lookup-All}
use mogenius_operator.Config.{
  ConfigDeclaration, ConfigValue, Config, Panicking, returned, panicked, assertion_failed,
  validation_error, new_config, Fallible, given, failed, empty_key, set_read_only,
}
use mogenius_operator.Config.Values.{
  get_value_for_key, of_entry, counted, try_get, try_get_bool, try_get_int,
}
use mogenius_operator.Config.Changes.{
  declare, declare_on, declare_error, initial, with_default, try_set, set_value, set_entry, checked,
  then_notify, stored_value, run_on_changed_callbacks, on_changed,
}
use mogenius_operator.Config.Envs.{
  Environment, load_envs, load_entries, load_entry, load_on, accept_value, env_value, cons_loaded,
  with_values,
}
use mogenius_operator.Config.Spec.{
  Call, declaring, reading, reading_bool, reading_int, asking, writing, call,
}

pub data Reached : Config → Type 0 where
  started : Reached new_config
  called : {c : Config} (x : Call) → Reached c → Reached (call x c).1
  registered :
      {c : Config} (keys : List String) (cb : String) → Reached c → Reached (on_changed keys cb c)
  loaded :
      {c after : Config} (env : Environment)
      → Reached c
      → load_envs env c ≡ returned after
      → Reached after

-- A value is the declared one, or one that the declaration's validation accepts.
abbrev pub Sound : ConfigValue → Type 0
Sound cv =
    (cv.value ≡ cv.declaration.default_value)
    ⊎ ((v : String) × (cv.value ≡ some v) × (validation_error cv.declaration.validate v ≡ none))

abbrev pub Kept : String × ConfigValue → Type 0
Kept entry = (entry.1.declaration.key ≡ entry.0) × Sound entry.1

counted-Kept :
    (key : String) (c : Config) (cv : ConfigValue) (v : Option String)
    → lookup key c.values ≡ some cv
    → All Kept c.values
    → All Kept (counted key c cv v).1.values
counted-Kept key c cv none e h = h
counted-Kept key c cv (some v) e h =
    All-insert Kept key (record cv { get_counter = cv.get_counter + 1 }) c.values
      (lookup-All Kept key cv c.values h e) h

of_entry-Kept :
    (key : String) (c : Config) (o : Option ConfigValue)
    → lookup key c.values ≡ o
    → All Kept c.values
    → All Kept (of_entry key c o).1.values
of_entry-Kept key c none e h = h
of_entry-Kept key c (some cv) e h = counted-Kept key c cv cv.value e h

read-Kept :
    (key : String) (c : Config) → All Kept c.values → All Kept (get_value_for_key key c).1.values
unfolding get_value_for_key
read-Kept key c h = guarded (key == "")
  where
    guarded :
        (b : Bool)
        → All Kept
            (if b then (failed empty_key, c) else of_entry key c (lookup key c.values)).1.values
    guarded true = h
    guarded false = of_entry-Kept key c (lookup key c.values) refl h

notify-Kept :
    (key v : String) (r : Fallible (Unit {0}) × Config)
    → All Kept r.1.values
    → All Kept (then_notify key v r).1.values
unfolding run_on_changed_callbacks
notify-Kept key v (failed e, c) h = h
notify-Kept key v (given u, c) h = h

pub checked-Kept :
    (key v : String) (c : Config) (cv : ConfigValue) (o : Option String)
    → validation_error cv.declaration.validate v ≡ o
    → cv.declaration.key ≡ key
    → All Kept c.values
    → All Kept (checked key cv v c o).1.values
checked-Kept key v c cv none e k h =
    All-insert Kept key (stored_value cv v) c.values (k, inr (v, refl, e)) h
checked-Kept key v c cv (some text) e k h = h

entry-Kept :
    (key v : String) (c : Config) (o : Option ConfigValue)
    → lookup key c.values ≡ o
    → All Kept c.values
    → All Kept (set_entry key v c o).1.values
entry-Kept key v c none e h = h
entry-Kept key v c (some cv) e h = guarded cv.declaration.read_only
  where
    guarded :
        (b : Bool)
        → All Kept
            (if b
              then (failed (set_read_only key), c)
              else checked key cv v c (validation_error cv.declaration.validate v)).1.values
    guarded true = h
    guarded false =
        checked-Kept key v c cv (validation_error cv.declaration.validate v) refl
          (lookup-All Kept key cv c.values h e).0 h

default-Kept :
    (d : ConfigDeclaration) (v : Option String) (c : Config)
    → All Kept c.values
    → All Kept (with_default d v c).values
unfolding run_on_changed_callbacks
default-Kept d none c h = h
default-Kept d (some v) c h = h

declare-Kept :
    (d : ConfigDeclaration) (c : Config) (o : Option String)
    → All Kept c.values
    → All Kept (declare_on d c o).1.values
declare-Kept d c (some text) h = h
declare-Kept d c none h =
    default-Kept d d.default_value (record c { values = insert d.key (initial d) c.values })
      (All-insert Kept d.key (initial d) c.values (refl, inl refl) h)

accept-Kept :
    (key : String) (cv after : ConfigValue) (v : String) (o : Option String)
    → validation_error cv.declaration.validate v ≡ o
    → accept_value cv v o ≡ returned after
    → Kept (key, cv)
    → Kept (key, after)
accept-Kept key cv after v (some text) e q h = cc q
accept-Kept key cv after v none e q h =
    let same : Path ConfigValue (record cv { value = some v }) after = cc q in
    subst (λ (x : ConfigValue). Kept (key, x)) same (h.0, inr (v, refl, e))

load_entry-Kept :
    (key : String) (cv after : ConfigValue) (o : Option String)
    → load_on cv o ≡ returned after
    → Kept (key, cv)
    → Kept (key, after)
load_entry-Kept key cv after none q h =
    let same : cv ≡ after = cc q in subst (λ (x : ConfigValue). Kept (key, x)) same h
load_entry-Kept key cv after (some v) q h =
    accept-Kept key cv after v (validation_error cv.declaration.validate v) refl q h

both-Kept :
    (key : String) (r : Panicking ConfigValue) (rest : Panicking (Assoc ConfigValue))
    (after : Assoc ConfigValue)
    → cons_loaded key r rest ≡ returned after
    → ((x : ConfigValue) → r ≡ returned x → Kept (key, x))
    → ((m : Assoc ConfigValue) → rest ≡ returned m → All Kept m)
    → All Kept after
both-Kept key (assertion_failed text) rest after q h k = cc q
both-Kept key (panicked e) rest after q h k = cc q
both-Kept key (returned cv) (assertion_failed text) after q h k = cc q
both-Kept key (returned cv) (panicked e) after q h k = cc q
both-Kept key (returned cv) (returned m) after q h k =
    let same : Path (Assoc ConfigValue) ((key, cv) ∷ m) after = cc q in
    subst (All Kept) same (h cv refl, k m refl)

load_entries-Kept :
    (env : Environment) (m after : Assoc ConfigValue)
    → load_entries env m ≡ returned after
    → All Kept m
    → All Kept after
unfolding load_entries load_entry
load_entries-Kept env [] after q h =
    let same : Path (Assoc ConfigValue) [] after = cc q in subst (All Kept) same tt
load_entries-Kept env ((key, cv) ∷ rest) after q h =
    both-Kept key (load_entry env key cv) (load_entries env rest) after q
      (λ x e. load_entry-Kept key cv x (env_value env key cv.declaration) e h.0)
      (λ m e. load_entries-Kept env rest m e h.1)

load-Kept :
    (c after : Config) (r : Panicking (Assoc ConfigValue))
    → with_values c r ≡ returned after
    → ((m : Assoc ConfigValue) → r ≡ returned m → All Kept m)
    → All Kept after.values
load-Kept c after (panicked e) q h = cc q
load-Kept c after (assertion_failed text) q h = cc q
load-Kept c after (returned m) q h =
    let same : Path Config (record c { values = m }) after = cc q in
    subst (λ (x : Config). All Kept x.values) same (h m refl)

call-Kept : (x : Call) (c : Config) → All Kept c.values → All Kept (call x c).1.values
unfolding call declare try_get try_get_bool try_get_int try_set set_value
call-Kept (declaring d) c h = declare-Kept d c (declare_error d (is_some (lookup d.key c.values))) h
call-Kept (reading key) c h = read-Kept key c h
call-Kept (reading_bool key) c h = read-Kept key c h
call-Kept (reading_int key) c h = read-Kept key c h
call-Kept (asking key) c h = h
call-Kept (writing key v) c h =
    notify-Kept key v (set_entry key v c (lookup key c.values))
      (entry-Kept key v c (lookup key c.values) refl h)

-- In every state that calls of Declare, Set, Get, OnChanged and LoadEnvs reach, each entry stands
-- under the key of its declaration, and its value is the declared default (or missing with it) or
-- a value that the declaration's validation accepts.
pub Reached-Kept : (c : Config) → Reached c → All Kept c.values
unfolding new_config on_changed load_envs
Reached-Kept c started = tt
Reached-Kept c (called {c = before} x r) = call-Kept x before (Reached-Kept before r)
Reached-Kept c (registered {c = before} keys cb r) = Reached-Kept before r
Reached-Kept c (loaded {c = before} env r q) =
    load-Kept before c (load_entries env before.values) q
      (λ m e. load_entries-Kept env before.values m e (Reached-Kept before r))
