-- ===== src/Kv/Keys.antt =====
-- The keys of numbered entries (src/valkeyclient/valkeyclient.go: extractNumber and the keys that
-- SetObjectWithAutoincrementLimit builds).
use Prim.Native.String.{◌++◌}
use text.Mathlib.TextLemmas.{append_assoc, append_cancel_left}
use mogenius_operator.Prelude.{
  ℕ, ◌^◌, ◌<◌, String, Option, none, some, ◌≡◌, ◌≢◌, refl, sym, ap, ◌∙◌,
}
use mogenius_operator.Prelude.Decimal.{decimal}
use mogenius_operator.Prelude.Numbers.{pos, read_number, read_digits}
use mogenius_operator.Prelude.Affixes.{
  strip_prefix, strip_prefix-append, read_number-decimal, parse_int-decimal, decimal-injective,
}
use mogenius_operator.Kv.Append.{counter_key, numbered_key, extract_number}

strip-numbered :
    (base_key : String) (n : ℕ)
    → strip_prefix (base_key ++ ":") (numbered_key base_key n) ≡ some (decimal n)
unfolding numbered_key
strip-numbered base_key n =
    ap (strip_prefix (base_key ++ ":")) (sym (append_assoc base_key ":" (decimal n)))
    ∙ strip_prefix-append (base_key ++ ":") (decimal n)

-- The number in the key of an entry is read back, for every number that an int64 holds.
pub extract_number-numbered_key :
    (base_key : String) (n : ℕ)
    → n < 2 ^ 63
    → extract_number (numbered_key base_key n) base_key ≡ pos n
unfolding extract_number
extract_number-numbered_key base_key n h =
    rw (strip-numbered base_key n) (rw (parse_int-decimal n h) refl)

pub numbered_key-injective :
    (base_key : String) (n m : ℕ) → numbered_key base_key n ≡ numbered_key base_key m → n ≡ m
unfolding numbered_key
numbered_key-injective base_key n m e = decimal-injective n m (
    append_cancel_left ":" (decimal n) (decimal m)
      (append_cancel_left base_key (":" ++ decimal n) (":" ++ decimal m) e))

-- No entry stands under the key of the counter.
pub numbered_key-ne-counter_key :
    (base_key : String) (n : ℕ) → numbered_key base_key n ≢ counter_key base_key
unfolding numbered_key counter_key read_number read_digits
numbered_key-ne-counter_key base_key n e =
    let p : ":" ++ decimal n ≡ ":counter" =
      append_cancel_left base_key (":" ++ decimal n) ":counter" e in
    let q : decimal n ≡ "counter" = append_cancel_left ":" (decimal n) "counter" p in
    let r : Path (Option ℕ) none (some n) = ap read_number (sym q) ∙ read_number-decimal n in cc r
