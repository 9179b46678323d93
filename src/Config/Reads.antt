-- ===== src/Config/Reads.antt =====
-- The reads of the configuration module against the view that a state stands for
-- (src/config/config.go).
use mathlib.Core.Path.{fun_ext}
use mogenius_operator.Prelude.{
  ◌+◌, String, Bool, true, false, Option, none, some, ◌≡◌, refl, sym, ap, ◌∙◌, ◌==◌, if◌then◌else◌,
  is_some, Bool-cases, inl, inr, eq_iff,
}
use mogenius_operator.Prelude.Assoc.{lookup, insert, lookup-insert}
use mogenius_operator.Prelude.Numbers.{parse_int, parse_bool}
use mogenius_operator.Config.{
  ConfigDeclaration, ConfigValue, Config, Fallible, given, failed, ConfigVariableType, not_valid_as,
  config_bool, config_int, uninitialized,
}
use mogenius_operator.Config.Values.{
  get_value_for_key, of_entry, counted, value_read, bool_read, int_read, parsed_as, is_set,
  initialized,
}
use mogenius_operator.Config.Spec.{
  Cell, valid_as, View, update, value_in, value_of, text_of, bool_of, int_of, holds,
}

abbrev pub cell_of : Option ConfigValue → Option Cell
cell_of none = none
cell_of (some cv) = some (record { declared_as = cv.declaration; current = cv.value })

-- The view that a state of the module stands for.
unfoldable pub view_of : Config → View
view_of c key = cell_of (lookup key c.values)

pub view-insert :
    (c : Config) (key : String) (cv : ConfigValue)
    → view_of (record c { values = insert key cv c.values })
      ≡ update (view_of c) key (record { declared_as = cv.declaration; current = cv.value })
unfolding view_of
view-insert c key cv =
    fun_ext λ other. rw (lookup-insert key other cv c.values) (chosen other (key == other))
  where
    chosen :
        (other : String) (b : Bool)
        → cell_of (if b then some cv else lookup other c.values) ≡ (
            if b
            then some (record { declared_as = cv.declaration; current = cv.value })
            else cell_of (lookup other c.values))
    chosen other true = refl
    chosen other false = refl

update_same :
    (view : View) (key : String) (cell : Cell) → view key ≡ some cell → update view key cell ≡ view
update_same view key cell e = fun_ext λ other. elim (Bool-cases (key == other)) [
  | inl q ↦ rw q (sym e ∙ ap view ((eq_iff key other).0 q))
  | inr q ↦ rw q refl
]

-- What a read says of an entry, without its counters.
abbrev forget : Fallible (String × ConfigValue) → Fallible (String × ConfigDeclaration)
forget (failed e) = failed e
forget (given (v, cv)) = given (v, cv.declaration)

counted_lem :
    (key : String) (c : Config) (cv : ConfigValue) (v : Option String)
    → cv.value ≡ v
    → lookup key c.values ≡ some cv
    → (forget (counted key c cv v).0 ≡ value_in key (cell_of (some cv)))
      × (view_of (counted key c cv v).1 ≡ view_of c)
unfolding view_of
counted_lem key c cv none e h = (rw e refl, refl)
counted_lem key c cv (some v) e h = (
  rw e refl,
  view-insert c key (record cv { get_counter = cv.get_counter + 1 })
      ∙ update_same (view_of c) key (record { declared_as = cv.declaration; current = cv.value })
          (ap cell_of h),
)

declared_lem :
    (key : String) (c : Config) (o : Option ConfigValue)
    → lookup key c.values ≡ o
    → (forget (of_entry key c o).0 ≡ value_in key (cell_of o))
      × (view_of (of_entry key c o).1 ≡ view_of c)
declared_lem key c none h = (refl, refl)
declared_lem key c (some cv) h = counted_lem key c cv cv.value refl h

pub read_lem :
    (key : String) (c : Config)
    → (forget (get_value_for_key key c).0 ≡ value_of key (view_of c))
      × (view_of (get_value_for_key key c).1 ≡ view_of c)
unfolding get_value_for_key value_of view_of
read_lem key c = elim (Bool-cases (key == "")) [
  | inl e ↦ rw e (refl, refl)
  | inr e ↦ rw e (declared_lem key c (lookup key c.values) refl)
]

pub text_lem : (r : Fallible (String × ConfigValue)) → value_read r ≡ text_of (forget r)
text_lem (given (v, cv)) = refl
text_lem (failed e) = refl

parsed_lem :
    {A : Type 0} (key : String) (o : Option A) (kind : ConfigVariableType)
    → parsed_as key kind o ≡ valid_as (not_valid_as key kind) o
parsed_lem key none kind = refl
parsed_lem key (some a) kind = refl

pub bool_lem :
    (key : String) (r : Fallible (String × ConfigValue)) → bool_read key r ≡ bool_of key (forget r)
unfolding bool_read
bool_lem key (failed e) = refl
bool_lem key (given (v, cv)) = rw (parsed_lem key (parse_bool v) config_bool) refl

pub int_lem :
    (key : String) (r : Fallible (String × ConfigValue)) → int_read key r ≡ int_of key (forget r)
unfolding int_read
int_lem key (failed e) = refl
int_lem key (given (v, cv)) = rw (parsed_lem key (parse_int v) config_int) refl

set_lem : (key : String) (o : Option ConfigValue) → initialized o ≡ holds (value_in key (cell_of o))
set_lem key none = refl
set_lem key (some cv) = on_value cv.value
  where
    on_value :
        (v : Option String)
        → is_some v
          ≡ holds
              (elim v [ none ↦ failed (uninitialized key) | some s ↦ given (s, cv.declaration) ])
    on_value none = refl
    on_value (some s) = refl

pub asked_lem : (key : String) (c : Config) → is_set key c ≡ holds (value_of key (view_of c))
unfolding is_set value_of view_of
asked_lem key c = elim (Bool-cases (key == "")) [
  | inl e ↦ rw e refl
  | inr e ↦ rw e (set_lem key (lookup key c.values))
]
