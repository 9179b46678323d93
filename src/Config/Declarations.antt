-- ===== src/Config/Declarations.antt =====
-- What a load of the environment does to the declarations (src/config/config.go: LoadEnvs).
use mogenius_operator.Prelude.{
  String, Bool, true, false, Option, none, some, [], ◌∷◌, ◌≡◌, refl, sym, ap, ◌==◌, if◌then◌else◌,
  subst,
}
use mogenius_operator.Prelude.Assoc.{Assoc, lookup}
use mogenius_operator.Config.{
  ConfigValue, Panicking, returned, panicked, assertion_failed, validation_error,
}
use mogenius_operator.Config.Envs.{
  Environment, load_entries, load_entry, load_on, accept_value, env_value, cons_loaded,
}
use mogenius_operator.Config.Secrets.{declaration, declaration_of}

accept-declaration :
    (cv after : ConfigValue) (v : String) (o : Option String)
    → accept_value cv v o ≡ returned after
    → after.declaration ≡ cv.declaration
accept-declaration cv after v (some text) q = cc q
accept-declaration cv after v none q =
    let same : Path ConfigValue (record cv { value = some v }) after = cc q in
    sym (ap (λ (x : ConfigValue). x.declaration) same)

load_on-declaration :
    (cv after : ConfigValue) (o : Option String)
    → load_on cv o ≡ returned after
    → after.declaration ≡ cv.declaration
load_on-declaration cv after none q =
    let same : cv ≡ after = cc q in sym (ap (λ (x : ConfigValue). x.declaration) same)
load_on-declaration cv after (some v) q =
    accept-declaration cv after v (validation_error cv.declaration.validate v) q

both-declaration :
    (k key : String) (cv : ConfigValue) (m : Assoc ConfigValue) (r : Panicking ConfigValue)
    (rest : Panicking (Assoc ConfigValue)) (after : Assoc ConfigValue)
    → cons_loaded k r rest ≡ returned after
    → ((x : ConfigValue) → r ≡ returned x → x.declaration ≡ cv.declaration)
    → ((n : Assoc ConfigValue) → rest ≡ returned n → declaration_of key n ≡ declaration_of key m)
    → declaration_of key after ≡ declaration_of key ((k, cv) ∷ m)
unfolding lookup
both-declaration k key cv m (assertion_failed text) rest after q h g = cc q
both-declaration k key cv m (panicked e) rest after q h g = cc q
both-declaration k key cv m (returned x) (assertion_failed text) after q h g = cc q
both-declaration k key cv m (returned x) (panicked e) after q h g = cc q
both-declaration k key cv m (returned x) (returned n) after q h g =
    let same : Path (Assoc ConfigValue) ((k, x) ∷ n) after = cc q in
    subst (λ (a : Assoc ConfigValue). declaration_of key a ≡ declaration_of key ((k, cv) ∷ m)) same
      (chosen (k == key))
  where
    chosen :
        (b : Bool)
        → declaration (if b then some x else lookup key n)
          ≡ declaration (if b then some cv else lookup key m)
    chosen true = ap some (h x refl)
    chosen false = g n refl

pub load_entries-declaration :
    (env : Environment) (key : String) (m after : Assoc ConfigValue)
    → load_entries env m ≡ returned after
    → declaration_of key after ≡ declaration_of key m
unfolding load_entries load_entry
load_entries-declaration env key [] after q =
    let same : Path (Assoc ConfigValue) [] after = cc q in
    sym (ap (λ (a : Assoc ConfigValue). declaration_of key a) same)
load_entries-declaration env key ((k, cv) ∷ rest) after q =
    both-declaration k key cv rest (load_entry env k cv) (load_entries env rest) after q
      (λ x e. load_on-declaration cv x (env_value env k cv.declaration) e)
      (λ n e. load_entries-declaration env key rest n e)
