-- ===== src/Kv/Append.antt =====
-- Numbered entries under a key (src/valkeyclient/valkeyclient.go:
-- SetObjectWithAutoincrementLimit, extractNumber).
use Prim.Native.String.{◌++◌}
use mogenius_operator.Prelude.{
  ℕ, zero, suc, ◌-◌, ◌%◌, String, Bool, true, false, Option, none, some, List, [], ◌∷◌, ◌==◌,
  if◌then◌else◌, eqb, ltb, leb, length, take,
}
use mogenius_operator.Prelude.Decimal.{decimal}
use mogenius_operator.Prelude.Numbers.{ℤ, pos, negsuc, parse_int}
use mogenius_operator.Prelude.Affixes.{strip_prefix}
use mogenius_operator.Prelude.Sort.{sort}
use mogenius_operator.Kv.{
  Server, KvResult, ok, err, not_serialized, increment_failed, check_failed, no_free_slot,
  set_failed,
}

unfoldable pub counter_key : String → String
counter_key base_key = base_key ++ ":counter"

-- `fmt.Sprintf("%s:%d", baseKey, n)`
unfoldable pub numbered_key : String → ℕ → String
numbered_key base_key n = base_key ++ (":" ++ decimal n)

abbrev parsed : Option ℤ → ℤ
parsed none = pos 0
parsed (some z) = z

abbrev number_in : Option String → ℤ
number_in none = pos 0
number_in (some digits) = parsed (parse_int digits)

-- extractNumber: 0 for a key of another form.
unfoldable pub extract_number : String → String → ℤ
extract_number key base_key = number_in (strip_prefix (base_key ++ ":") key)

pub record Numbered : Type 0 where
  pub key : String
  pub n : ℕ

-- `if n > 0`
abbrev pub with_number : String → ℤ → List Numbered → List Numbered
with_number k (pos zero) rest = rest
with_number k (pos (suc n)) rest = record { key = k; n = suc n } ∷ rest
with_number k (negsuc _) rest = rest

-- The numbered keys of a scan, without the counter.
unfoldable pub numerics : String → List String → List Numbered
numerics base_key [] = []
numerics base_key (k ∷ keys) =
    let rest = numerics base_key keys in
    if k == counter_key base_key then rest else with_number k (extract_number k base_key) rest

abbrev pub lower_number : Numbered → Numbered → Bool
lower_number a b = ltb a.n b.n

-- The entries that a sweep deletes: the lowest ones, above the limit.
unfoldable pub surplus : ℕ → List Numbered → List Numbered
surplus limit numbers =
    if leb (length numbers) limit
    then []
    else take (length numbers - limit) (sort lower_number numbers)

-- The retries that SetObjectWithAutoincrementLimit allows itself.
abbrev pub max_autoincrement_retries : ℕ
max_autoincrement_retries = 4096

module _ {S : Type 0} (srv : Server S) where
  abbrev pub checked : (S → KvResult ℕ × S) → ℕ → S → Option Bool → KvResult ℕ × S
  checked next n s none = (err check_failed, s)
  checked next n s (some true) = next s
  checked next n s (some false) = (ok n, s)

  abbrev pub claimed : (S → KvResult ℕ × S) → String → Option ℕ × S → KvResult ℕ × S
  claimed next base_key (none, s) = (err increment_failed, s)
  claimed next base_key (some n, s) = checked next n s (srv.exists (numbered_key base_key n) s)

  -- The loop that looks for a free number.
  unfoldable pub find_slot : ℕ → String → S → KvResult ℕ × S
  find_slot zero base_key s = (err (no_free_slot base_key), s)
  find_slot (suc retries) base_key s =
      claimed (find_slot retries base_key) base_key (srv.incr (counter_key base_key) s)

  unfoldable pub delete_all : List Numbered → S → S
  delete_all [] s = s
  delete_all (x ∷ xs) s = delete_all xs (srv.del x.key s)

  abbrev pub sweep_keys : ℕ → String → S → Option (List String) → S
  sweep_keys limit base_key s none = s
  sweep_keys limit base_key s (some keys) = delete_all (surplus limit (numerics base_key keys)) s

  -- The slow prune, on every hundredth entry.
  unfoldable pub sweep : ℕ → String → ℕ → S → S
  sweep limit base_key n s =
      if eqb (n % 100) 0 then sweep_keys limit base_key s (srv.scan (base_key ++ ":*") s) else s

  -- The fast prune: the number that fell out of the window.
  unfoldable pub drop_expired : ℕ → String → ℕ → S → S
  drop_expired limit base_key n s =
      if ltb limit n then srv.unlink (numbered_key base_key (n - limit)) s else s

  unfoldable pub prune : ℕ → String → ℕ → S → S
  unfolding sweep drop_expired
  prune limit base_key n s =
      if eqb limit 0 then s else sweep limit base_key n (drop_expired limit base_key n s)

  unfoldable pub refresh_counter : ℕ → String → S → S
  refresh_counter ttl base_key s = if eqb ttl 0 then s else srv.expire (counter_key base_key) ttl s

  abbrev pub after_set : ℕ → ℕ → String → ℕ → Bool × S → KvResult String × S
  after_set limit ttl base_key n (false, s) = (err set_failed, s)
  after_set limit ttl base_key n (true, s) =
      (ok (numbered_key base_key n), prune limit base_key n (refresh_counter ttl base_key s))

  abbrev pub after_find : String → ℕ → ℕ → String → KvResult ℕ × S → KvResult String × S
  after_find json limit ttl base_key (err e, s) = (err e, s)
  after_find json limit ttl base_key (ok n, s) =
      after_set limit ttl base_key n (srv.set_item (numbered_key base_key n) json ttl s)

  -- The value arrives as its JSON, if it has one; a limit or a lifetime of 0 stands for one that is
  -- not positive.
  unfoldable pub set_object_with_autoincrement_limit :
      Option String → ℕ → ℕ → String → S → KvResult String × S
  unfolding find_slot
  set_object_with_autoincrement_limit none limit ttl base_key s = (err not_serialized, s)
  set_object_with_autoincrement_limit (some json) limit ttl base_key s =
      after_find json limit ttl base_key (find_slot max_autoincrement_retries base_key s)
