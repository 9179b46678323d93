-- ===== src/Config/Truthful.antt =====
-- What the callbacks are told of secrecy in the states that the module reaches
-- (src/config/config.go).
use mogenius_operator.Prelude.{
  ◌+◌, String, Bool, true, false, Option, none, some, ◌≡◌, refl, ap, ◌∙◌, ◌==◌, if◌then◌else◌, inl,
  inr, All, is_some, subst, eq_refl,
}
use mathlib.Core.Option.{some-injective}
use mogenius_operator.Prelude.Assoc.{Assoc, lookup, insert, lookup-All}
use mogenius_operator.Config.{
  ConfigDeclaration, ConfigValue, Config, failed, Panicking, returned, panicked, assertion_failed,
  validation_error, new_config, set_read_only, empty_key,
}
use mogenius_operator.Config.Values.{
  get_value_for_key, of_entry, counted, try_get, try_get_bool, try_get_int,
}
use mogenius_operator.Config.Changes.{
  secret_flag, run_on_changed_callbacks, stored_value, checked, set_entry, set_value, then_notify,
  try_set, declare, declare_on, declare_error, initial, with_default, on_changed, has_newline,
}
use mogenius_operator.Config.Envs.{load_envs, load_entries, with_values}
use mogenius_operator.Config.Spec.{
  Call, declaring, reading, reading_bool, reading_int, asking, writing, call,
}
use mogenius_operator.Config.Reached.{
  Reached, started, called, registered, loaded, Kept, Reached-Kept, checked-Kept,
}
use mogenius_operator.Config.Secrets.{
  Truthful, Truthful-Extends, Extends, declaration, declaration_of, insert-Extends,
  declaration-insert, notify-All, secret_flag_lem, flag,
}
use mogenius_operator.Config.Declarations.{load_entries-declaration}

-- The state after an operation has all declarations, and its calls are truthful.
abbrev Told : Config → Config → Type 0
Told c after = All (Truthful c) c.calls → All (Truthful after) after.calls

quiet : (c : Config) (m : Assoc ConfigValue) → Extends c.values m → Told c (record c { values = m })
quiet c m e h = Truthful-Extends c (record c { values = m }) c.calls e h

counted-Told :
    (key : String) (c : Config) (cv : ConfigValue) (v : Option String)
    → lookup key c.values ≡ some cv
    → Told c (counted key c cv v).1
counted-Told key c cv none e = λ h. h
counted-Told key c cv (some v) e =
    quiet c (insert key (record cv { get_counter = cv.get_counter + 1 }) c.values) (
      insert-Extends key (record cv { get_counter = cv.get_counter + 1 }) c.values
        (inr (ap declaration e)))

of_entry-Told :
    (key : String) (c : Config) (o : Option ConfigValue)
    → lookup key c.values ≡ o
    → Told c (of_entry key c o).1
of_entry-Told key c none e = λ h. h
of_entry-Told key c (some cv) e = counted-Told key c cv cv.value e

read-Told : (key : String) (c : Config) → Told c (get_value_for_key key c).1
unfolding get_value_for_key
read-Told key c = guarded (key == "")
  where
    guarded :
        (b : Bool)
        → Told c (if b then (failed empty_key, c) else of_entry key c (lookup key c.values)).1
    guarded true = λ h. h
    guarded false = of_entry-Told key c (lookup key c.values) refl

-- The callbacks of a change, called with the flag of the key's declaration.
notified-Told :
    (key v : String) (b : Bool) (c : Config) (d : ConfigDeclaration)
    → declaration_of key c.values ≡ some d
    → b ≡ d.is_secret
    → Told c (run_on_changed_callbacks key v b c)
unfolding run_on_changed_callbacks
notified-Told key v b c d e f h =
    notify-All (Truthful c) key v b c.on_changed_callbacks c.calls (λ name. (d, e, f)) h

flag_found :
    (o : Option ConfigValue) (d : ConfigDeclaration) → declaration o ≡ some d → flag o ≡ d.is_secret
flag_found none d e = cc e
flag_found (some cv) d e =
    let p : cv.declaration ≡ d = some-injective cv.declaration d e in
    ap (λ (x : ConfigDeclaration). x.is_secret) p

checked-Told :
    (key v : String) (c : Config) (cv : ConfigValue) (o : Option String)
    → validation_error cv.declaration.validate v ≡ o
    → lookup key c.values ≡ some cv
    → All Kept c.values
    → All Kept (checked key cv v c o).1.values
    → Told c (then_notify key v (checked key cv v c o)).1
unfolding secret_flag
checked-Told key v c cv (some text) q e k l = λ h. h
checked-Told key v c cv none q e k l = λ h.
    let m : Assoc ConfigValue = insert key (stored_value cv v) c.values in
    let stored = record c { values = m } in
    let found : declaration_of key m ≡ some cv.declaration =
      declaration-insert key key (stored_value cv v) c.values ∙ rw (eq_refl key) refl in
    notified-Told key v (secret_flag key stored) stored cv.declaration found
      (secret_flag_lem key m l ∙ flag_found (lookup key m) cv.declaration found)
      (quiet c m (insert-Extends key (stored_value cv v) c.values (inr (ap declaration e))) h)

entry-Told :
    (key v : String) (c : Config) (o : Option ConfigValue)
    → lookup key c.values ≡ o
    → All Kept c.values
    → Told c (then_notify key v (set_entry key v c o)).1
entry-Told key v c none e k = λ h. h
entry-Told key v c (some cv) e k = guarded cv.declaration.read_only
  where
    guarded :
        (b : Bool)
        → Told c
            (then_notify key v (
              if b
              then (failed (set_read_only key), c)
              else checked key cv v c (validation_error cv.declaration.validate v))).1
    guarded true = λ h. h
    guarded false = checked-Told key v c cv (validation_error cv.declaration.validate v) refl e k (
        checked-Kept key v c cv (validation_error cv.declaration.validate v) refl
          (lookup-All Kept key cv c.values k e).0 k)

default-Told :
    (d : ConfigDeclaration) (v : Option String) (c : Config)
    → declaration_of d.key c.values ≡ some d
    → Told c (with_default d v c)
default-Told d none c e = λ h. h
default-Told d (some v) c e = notified-Told d.key v d.is_secret c d e refl

-- A key that is declared already fails an assertion.
untaken :
    (d : ConfigDeclaration) (o : Option ConfigValue)
    → declare_error d (is_some o) ≡ none
    → declaration o ≡ none
untaken d none e = refl
untaken d (some cv) e = refused_twice (d.key == "") (has_newline d.key) e
  where
    refused_twice :
        (a b : Bool)
        → Path
            (Option String)
            (if a then some "key" else if b then some "newline in key" else some "declared twice")
            none
        → some cv.declaration ≡ none
    refused_twice true b q = cc q
    refused_twice false true q = cc q
    refused_twice false false q = cc q

declare-Told :
    (d : ConfigDeclaration) (c : Config) (o : Option String)
    → declare_error d (is_some (lookup d.key c.values)) ≡ o
    → Told c (declare_on d c o).1
declare-Told d c (some text) e = λ h. h
declare-Told d c none e = λ h.
    let m : Assoc ConfigValue = insert d.key (initial d) c.values in
    default-Told d d.default_value (record c { values = m })
      (declaration-insert d.key d.key (initial d) c.values ∙ rw (eq_refl d.key) refl)
      (quiet c m
        (insert-Extends d.key (initial d) c.values (inl (untaken d (lookup d.key c.values) e))) h)

call-Told : (x : Call) (c : Config) → All Kept c.values → Told c (call x c).1
unfolding call declare try_get try_get_bool try_get_int try_set set_value
call-Told (declaring d) c k =
    declare-Told d c (declare_error d (is_some (lookup d.key c.values))) refl
call-Told (reading key) c k = read-Told key c
call-Told (reading_bool key) c k = read-Told key c
call-Told (reading_int key) c k = read-Told key c
call-Told (asking key) c k = λ h. h
call-Told (writing key v) c k = entry-Told key v c (lookup key c.values) refl k

load-Told :
    (c after : Config) (r : Panicking (Assoc ConfigValue))
    → with_values c r ≡ returned after
    → ((key : String) (m : Assoc ConfigValue)
        → r ≡ returned m
        → declaration_of key m ≡ declaration_of key c.values)
    → Told c after
load-Told c after (panicked e) q g = cc q
load-Told c after (assertion_failed text) q g = cc q
load-Told c after (returned m) q g =
    let same : Path Config (record c { values = m }) after = cc q in
    subst (λ (x : Config). Told c x) same (quiet c m (λ key d e. g key m refl ∙ e))

-- Every call of a callback that the module has made, in every state that its operations reach,
-- names a declared key, and says that the value is a secret exactly when the key is declared so.
pub Reached-Truthful : (c : Config) → Reached c → All (Truthful c) c.calls
unfolding new_config on_changed load_envs
Reached-Truthful c started = tt
Reached-Truthful c (called {c = before} x r) =
    call-Told x before (Reached-Kept before r) (Reached-Truthful before r)
Reached-Truthful c (registered {c = before} keys cb r) = Reached-Truthful before r
Reached-Truthful c (loaded {c = before} env r q) =
    load-Told before c (load_entries env before.values) q
      (λ key m e. load_entries-declaration env key before.values m e) (Reached-Truthful before r)
