-- ===== src/Config/Validated.antt =====
-- What Validate can still refuse (src/config/config.go: Validate).
use mogenius_operator.Prelude.{
  String, Bool, true, false, Option, none, some, List, [], ◌∷◌, ◌≡◌, ◌⊎◌, refl, sym, ap, ◌∙◌,
  if◌then◌else◌, inl, inr, In, All, is_some, subst,
}
use mathlib.Core.Option.{some-injective}
use mogenius_operator.Prelude.Assoc.{Assoc}
use mogenius_operator.Prelude.Numbers.{parse_int, parse_bool}
use mogenius_operator.Config.{
  ConfigVariableType, config_string, config_int, config_bool, config_other, ConfigValue, Config,
  ConfigError, refused, not_valid_as, validation_error,
}
use mogenius_operator.Config.Changes.{
  validate_all, errors_of, entry_error, with_error, type_error, refusal,
}
use mogenius_operator.Config.Reached.{Reached, Kept, Sound, Reached-Kept}

-- An entry whose declared default is its value and is refused by its own validation.
pub record RefusedDefault (m : Assoc ConfigValue) (key message : String) : Type 0 where
  pub entry : ConfigValue
  pub present : In (key, entry) m
  pub text : String
  pub is_default : entry.declaration.default_value ≡ some text
  pub unchanged : entry.value ≡ some text
  pub refuses : validation_error entry.declaration.validate text ≡ some message

type_error-ne :
    (k v key message : String) (kind : Option ConfigVariableType)
    → type_error k v kind ≡ some (refused key message)
    → ⊥
type_error-ne k v key message none e = cc e
type_error-ne k v key message (some config_string) e = cc e
type_error-ne k v key message (some (config_other name)) e = cc e
type_error-ne k v key message (some config_int) e = on_test (is_some (parse_int v)) e
  where
    on_test :
        (b : Bool)
        → Path
            (Option ConfigError)
            (if b then none else some (not_valid_as k config_int))
            (some (refused key message))
        → ⊥
    on_test true q = cc q
    on_test false q = cc q
type_error-ne k v key message (some config_bool) e = on_test (is_some (parse_bool v)) e
  where
    on_test :
        (b : Bool)
        → Path
            (Option ConfigError)
            (if b then none else some (not_valid_as k config_bool))
            (some (refused key message))
        → ⊥
    on_test true q = cc q
    on_test false q = cc q

refusal_lem :
    (k v key message : String) (kind : Option ConfigVariableType) (o : Option String)
    → refusal k v kind o ≡ some (refused key message)
    → (k ≡ key) × (o ≡ some message)
refusal_lem k v key message kind (some text) e =
    let p : k ≡ key = cc e in let q : text ≡ message = cc e in (p, ap some q)
refusal_lem k v key message kind none e = elim (type_error-ne k v key message kind e) [ ]

sound_lem :
    (cv : ConfigValue) (v message : String)
    → cv.value ≡ some v
    → validation_error cv.declaration.validate v ≡ some message
    → Sound cv
    → cv.declaration.default_value ≡ some v
sound_lem cv v message e r (inl d) = sym d ∙ e
sound_lem cv v message e r (inr (w, f, a)) =
    let same : w ≡ v = some-injective w v (sym f ∙ e) in
    cc (r, subst (λ (s : String). validation_error cv.declaration.validate s ≡ none) same a)

entry_lem :
    (k : String) (cv : ConfigValue) (rest : Assoc ConfigValue) (key message : String)
    (v : Option String)
    → cv.value ≡ v
    → entry_error k cv.declaration v ≡ some (refused key message)
    → Sound cv
    → RefusedDefault ((k, cv) ∷ rest) key message
entry_lem k cv rest key message none e q h = cc q
entry_lem k cv rest key message (some v) e q h =
    let (p, r) =
      refusal_lem k v key message cv.declaration.kind (validation_error cv.declaration.validate v)
        q in
    record {
      entry = cv;
      present = inl (ap (λ (j : String). (j, cv)) (sym p));
      text = v;
      is_default = sound_lem cv v message e r h;
      unchanged = e;
      refuses = r;
    }

with_error-In :
    (o : Option ConfigError) (errs : List ConfigError) (e : ConfigError)
    → In e (with_error o errs)
    → (o ≡ some e) ⊎ In e errs
with_error-In none errs e i = inr i
with_error-In (some x) errs e (inl q) = inl (ap some (sym q))
with_error-In (some x) errs e (inr i) = inr i

errors_of-In :
    (m : Assoc ConfigValue) (key message : String)
    → All Kept m
    → In (refused key message) (errors_of m)
    → RefusedDefault m key message
errors_of-In [] key message h i = elim i [ ]
errors_of-In ((k, cv) ∷ rest) key message h i =
    elim (with_error-In (entry_error k cv.declaration cv.value) (errors_of rest)
      (refused key message) i) [
        | inl q ↦ entry_lem k cv rest key message cv.value refl q h.0.1
        | inr j ↦
            let found = errors_of-In rest key message h.1 j in
            record {
              entry = found.entry;
              present = inr found.present;
              text = found.text;
              is_default = found.is_default;
              unchanged = found.unchanged;
              refuses = found.refuses;
            }
      ]

-- Where Validate reports, in a state that the module's operations reach, that the validation function
-- of a key refuses the value, the value is the declared default of the key, which Declare does not
-- check. A value that is not of the declared type is another report.
pub validate_all-In :
    (c : Config) (key message : String)
    → Reached c
    → In (refused key message) (validate_all c)
    → RefusedDefault c.values key message
unfolding validate_all
validate_all-In c key message r i = errors_of-In c.values key message (Reached-Kept c r) i
