-- ===== src/Config/Examples.antt =====
-- Tests and witnesses for the configuration module.
use mogenius_operator.Prelude.{
  String, true, false, Option, none, some, List, [], ◌∷◌, ◌≡◌, refl, ◌==◌, if◌then◌else◌, inl, In,
  All, map,
}
use mogenius_operator.Prelude.Assoc.{lookup, insert}
use mogenius_operator.Prelude.Numbers.{pos, parse_int, read_number, read_digits, text_less}
use mogenius_operator.Prelude.Sort.{sort, insert_sorted}
use mogenius_operator.Prelude.Text.{cut}
use mogenius_operator.Config.{
  config_int, ConfigDeclaration, Config, refused, set_read_only, set_undeclared, uninitialized,
  given, failed, returned, assertion_failed, new_config, validation_error,
}
use mogenius_operator.Config.Values.{
  KeyUsage, get_usage, get_value_for_key, try_get, try_get_int, is_set, int_read,
}
use mogenius_operator.Config.Changes.{
  declare, try_set, set_value, secret_flag, notify, run_on_changed_callbacks, on_changed,
  validate_all,
}
use mogenius_operator.Config.Envs.{Environment}
use mogenius_operator.Config.Spec.{
  Call, Answer, declaring, reading, reading_int, asking, writing, call, call_all, calls_promised,
}
use mogenius_operator.Config.Reads.{view_of}
use mogenius_operator.Config.Refines.{call_all-promised}
use mogenius_operator.Config.Reached.{Reached, started, called, registered}
use mogenius_operator.Config.Loaded.{FirstOf, first_set, first_later, Loads, load_envs_lem}
use mogenius_operator.Config.Truthful.{Reached-Truthful}
use mogenius_operator.Config.Secrets.{Truthful}
use mogenius_operator.Config.Validated.{RefusedDefault, validate_all-In}

abbrev no_zero : String → Option String
no_zero v = if v == "0" then some "zero" else none

-- A declared count with a default that its validation refuses.
abbrev count : ConfigDeclaration
count = record {
  key = "MO_COUNT";
  kind = some config_int;
  default_value = some "0";
  description = none;
  is_secret = false;
  read_only = false;
  envs = "count" ∷ [];
  validate = some no_zero;
}

abbrev api_key : ConfigDeclaration
api_key = record {
  key = "MO_API_KEY";
  kind = none;
  default_value = none;
  description = some "the key";
  is_secret = true;
  read_only = false;
  envs = [];
  validate = none;
}

abbrev stage : ConfigDeclaration
stage = record {
  key = "MO_STAGE";
  kind = none;
  default_value = some "prod";
  description = none;
  is_secret = false;
  read_only = true;
  envs = "STAGE" ∷ "stage" ∷ [];
  validate = none;
}

abbrev session : List Call
session =
    declaring count
    ∷ declaring api_key
    ∷ declaring stage
    ∷ declaring count
    ∷ reading "MO_API_KEY"
    ∷ writing "MO_API_KEY" "s"
    ∷ reading "MO_API_KEY"
    ∷ writing "MO_STAGE" "dev"
    ∷ writing "MO_COUNT" "0"
    ∷ writing "MO_COUNT" "12"
    ∷ reading_int "MO_COUNT"
    ∷ writing "MO_OTHER" "1"
    ∷ asking "MO_COUNT"
    ∷ []

abbrev declared_all : Config
declared_all = (call_all (declaring count ∷ declaring api_key ∷ declaring stage ∷ []) new_config).1

answers :
    (call_all session new_config).0
    ≡ Answer.declared (returned tt)
      ∷ Answer.declared (returned tt)
      ∷ Answer.declared (returned tt)
      ∷ Answer.declared (assertion_failed "declared twice")
      ∷ Answer.read (failed (uninitialized "MO_API_KEY"))
      ∷ Answer.written (given tt)
      ∷ Answer.read (given "s")
      ∷ Answer.written (failed (set_read_only "MO_STAGE"))
      ∷ Answer.written (failed (refused "MO_COUNT" "zero"))
      ∷ Answer.written (given tt)
      ∷ Answer.read_int (given (pos 12))
      ∷ Answer.written (failed (set_undeclared "MO_OTHER"))
      ∷ Answer.asked true
      ∷ []
unfolding call_all call declare try_set set_value try_get try_get_int int_read is_set
    get_value_for_key new_config lookup insert secret_flag notify run_on_changed_callbacks
    validation_error cut parse_int read_number read_digits
answers = refl

abbrev usages : List KeyUsage
usages = get_usage (call_all session new_config).1

sorted_usage : map (λ (u : KeyUsage). u.key) usages ≡ "MO_API_KEY" ∷ "MO_COUNT" ∷ "MO_STAGE" ∷ []
unfolding get_usage call_all call declare try_set set_value try_get try_get_int int_read is_set
    get_value_for_key new_config lookup insert secret_flag notify run_on_changed_callbacks
    validation_error cut parse_int read_number read_digits sort insert_sorted text_less
sorted_usage = refl

call_all-promised_example :
    ((call_all session new_config).0 ≡ (calls_promised session (view_of new_config)).0)
    × (view_of (call_all session new_config).1 ≡ (calls_promised session (view_of new_config)).1)
call_all-promised_example = call_all-promised session new_config

abbrev environment : Environment
environment v = if v == "STAGE" then some "dev" else if v == "stage" then some "test" else none

-- Nothing offers a value for the count.
count_unset : (v : String) → FirstOf environment ("MO_COUNT" ∷ "count" ∷ []) v → no_zero v ≡ none
count_unset v (first_set e) = cc e
count_unset v (first_later e (first_set f)) = cc f
count_unset v (first_later e (first_later f none_left)) = elim none_left [ ]

-- The read-only stage is loaded from its first alias.
load_envs_lem_example : Loads environment declared_all
unfolding call_all call declare new_config lookup insert run_on_changed_callbacks cut notify
    validation_error
load_envs_lem_example =
    load_envs_lem environment declared_all (count_unset, (λ v e. refl, (λ v e. refl, tt)))

abbrev before : Config
before = on_changed [] "log" new_config

abbrev refusing : Config
refusing = (call (declaring count) before).1

refusing-Reached : Reached refusing
refusing-Reached = called (declaring count) (registered [] "log" started)

abbrev keyed : Config
keyed = (call (writing "MO_API_KEY" "s") (call (declaring api_key) before).1).1

keyed-Reached : Reached keyed
keyed-Reached =
    called (writing "MO_API_KEY" "s") (called (declaring api_key) (registered [] "log" started))

one_call :
    keyed.calls
    ≡ record { called = "log"; changed_key = "MO_API_KEY"; new_value = "s"; secret = true } ∷ []
unfolding call declare try_set set_value new_config lookup insert secret_flag notify on_changed
    run_on_changed_callbacks validation_error cut
one_call = refl

Reached-Truthful_example : All (Truthful keyed) keyed.calls
Reached-Truthful_example = Reached-Truthful keyed keyed-Reached

is_refused : In (refused "MO_COUNT" "zero") (validate_all refusing)
unfolding call declare new_config lookup insert on_changed run_on_changed_callbacks cut notify
    validate_all validation_error
is_refused = inl refl

validate_all-In_example : RefusedDefault refusing.values "MO_COUNT" "zero"
validate_all-In_example = validate_all-In refusing "MO_COUNT" "zero" refusing-Reached is_refused
