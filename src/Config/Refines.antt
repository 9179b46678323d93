-- ===== src/Config/Refines.antt =====
-- The calls of the configuration module against its abstract view (src/config/config.go).
use mogenius_operator.Prelude.{
  String, Bool, true, false, Option, none, some, List, [], ◌∷◌, ◌≡◌, refl, ap, ◌∙◌, if◌then◌else◌,
  is_some,
}
use mogenius_operator.Prelude.Assoc.{lookup, insert}
use mogenius_operator.Config.{
  ConfigDeclaration, ConfigValue, Config, Fallible, given, failed, validation_error, set_read_only,
  refused,
}
use mogenius_operator.Config.Values.{get_value_for_key, try_get, try_get_bool, try_get_int}
use mogenius_operator.Config.Changes.{
  declare, declare_on, declare_error, initial, with_default, try_set, set_value, set_entry, checked,
  then_notify, stored_value, run_on_changed_callbacks,
}
use mogenius_operator.Config.Spec.{
  View, Call, Answer, declaring, reading, reading_bool, reading_int, asking, writing, update,
  text_of, bool_of, int_of, write_cell, declare_cell, promised, call, calls_promised, call_all,
}
use mogenius_operator.Config.Reads.{
  cell_of, view_of, view-insert, read_lem, text_lem, bool_lem, int_lem, asked_lem,
}

-- A write, and the view that it leaves.
abbrev Kept : Fallible (Unit {0}) × Config → Fallible (Unit {0}) × View → Type 0
Kept r p = (r.0 ≡ p.0) × (view_of r.1 ≡ p.1)

notify_lem :
    (key v : String) (r : Fallible (Unit {0}) × Config) (p : Fallible (Unit {0}) × View)
    → Kept r p
    → Kept (then_notify key v r) p
unfolding view_of run_on_changed_callbacks
notify_lem key v (failed e, c) p h = h
notify_lem key v (given u, c) p h = h

checked_lem :
    (key v : String) (c : Config) (cv : ConfigValue) (o : Option String)
    → Kept (checked key cv v c o) (elim o [
      | none ↦ (
        given tt,
        update (view_of c) key (record { declared_as = cv.declaration; current = some v }),
      )
      | some text ↦ (failed (refused cv.declaration.key text), view_of c)
    ])
checked_lem key v c cv none = (refl, view-insert c key (stored_value cv v))
checked_lem key v c cv (some text) = (refl, refl)

entry_lem :
    (key v : String) (c : Config) (o : Option ConfigValue)
    → Kept (set_entry key v c o) (write_cell key v (view_of c) (cell_of o))
entry_lem key v c none = (refl, refl)
entry_lem key v c (some cv) = guarded cv.declaration.read_only
  where
    guarded :
        (b : Bool)
        → Kept
            (if b
              then (failed (set_read_only key), c)
              else checked key cv v c (validation_error cv.declaration.validate v))
            (if b
              then (failed (set_read_only key), view_of c)
              else elim (validation_error cv.declaration.validate v) [
                | none ↦ (
                  given tt,
                  update
                      (view_of c)
                      key
                      (record { declared_as = cv.declaration; current = some v }),
                )
                | some text ↦ (failed (refused cv.declaration.key text), view_of c)
              ])
    guarded true = (refl, refl)
    guarded false = checked_lem key v c cv (validation_error cv.declaration.validate v)

write_lem :
    (key v : String) (c : Config)
    → Kept (try_set key v c) (write_cell key v (view_of c) (view_of c key))
unfolding try_set set_value view_of
write_lem key v c =
    notify_lem key v (set_entry key v c (lookup key c.values))
      (write_cell key v (view_of c) (view_of c key)) (entry_lem key v c (lookup key c.values))

default_lem :
    (d : ConfigDeclaration) (v : Option String) (c : Config)
    → view_of (with_default d v c) ≡ view_of c
unfolding view_of run_on_changed_callbacks
default_lem d none c = refl
default_lem d (some v) c = refl

declare_on_lem :
    (d : ConfigDeclaration) (c : Config) (o : Option String)
    → ((declare_on d c o).0 ≡ (declare_cell d (view_of c) o).0)
      × (view_of (declare_on d c o).1 ≡ (declare_cell d (view_of c) o).1)
declare_on_lem d c (some text) = (refl, refl)
declare_on_lem d c none = (
  refl,
  default_lem d d.default_value (record c { values = insert d.key (initial d) c.values })
      ∙ view-insert c d.key (initial d),
)

is_some-cell_of : (o : Option ConfigValue) → is_some o ≡ is_some (cell_of o)
is_some-cell_of none = refl
is_some-cell_of (some cv) = refl

declare_lem :
    (d : ConfigDeclaration) (c : Config)
    → ((declare d c).0
        ≡ (declare_cell d (view_of c) (declare_error d (is_some (view_of c d.key)))).0)
      × (view_of (declare d c).1
          ≡ (declare_cell d (view_of c) (declare_error d (is_some (view_of c d.key)))).1)
unfolding declare view_of
declare_lem d c =
    rw (← is_some-cell_of (lookup d.key c.values))
      (declare_on_lem d c (declare_error d (is_some (lookup d.key c.values))))

-- One call answers what is promised, and leaves the promised view.
pub call-promised :
    (x : Call) (c : Config)
    → ((call x c).0 ≡ (promised x (view_of c)).0)
      × (view_of (call x c).1 ≡ (promised x (view_of c)).1)
unfolding call promised try_get try_get_bool try_get_int
call-promised (declaring d) c = let (p, q) = declare_lem d c in (ap Answer.declared p, q)
call-promised (reading key) c =
    let (p, q) = read_lem key c in
    (ap Answer.read (text_lem (get_value_for_key key c).0 ∙ ap text_of p), q)
call-promised (reading_bool key) c =
    let (p, q) = read_lem key c in
    (ap Answer.read_bool (bool_lem key (get_value_for_key key c).0 ∙ ap (bool_of key) p), q)
call-promised (reading_int key) c =
    let (p, q) = read_lem key c in
    (ap Answer.read_int (int_lem key (get_value_for_key key c).0 ∙ ap (int_of key) p), q)
call-promised (asking key) c = (ap Answer.asked (asked_lem key c), refl)
call-promised (writing key v) c = let (p, q) = write_lem key v c in (ap Answer.written p, q)

-- Every sequence of calls of the configuration module answers what the view promises: a partial
-- map from keys to a declaration and a value, where a read has no effect on later answers, a write
-- changes one cell, and a refused call changes nothing.
pub call_all-promised :
    (xs : List Call) (c : Config)
    → ((call_all xs c).0 ≡ (calls_promised xs (view_of c)).0)
      × (view_of (call_all xs c).1 ≡ (calls_promised xs (view_of c)).1)
unfolding call_all calls_promised
call_all-promised [] c = (refl, refl)
call_all-promised (x ∷ xs) c =
    let (p, q) = call-promised x c in
    let (ps, qs) = call_all-promised xs (call x c).1 in
    (rw (p, ps, q) refl, qs ∙ ap (λ (w : View). (calls_promised xs w).1) q)
