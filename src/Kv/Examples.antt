-- ===== src/Kv/Examples.antt =====
-- Tests and witnesses for the key-value client, on a server in memory.
use mogenius_operator.Prelude.Members.{Distinct}
use mogenius_operator.Prelude.{
  contains, In→contains, In, subst, ◌⊎◌, if◌then◌else◌, ℕ, zero, suc, ◌<◌, String, Bool, true,
  false, Option, none, some, List, [], ◌∷◌, ◌≡◌, ◌≢◌, refl, sym, ap, ◌∙◌, arith, is_some, ◌==◌,
  eq_iff, eq_refl, Bool-cases, inl, inr,
}
use mogenius_operator.Prelude.Assoc.{Assoc, lookup, insert, remove, lookup-insert, lookup-remove}
use mogenius_operator.Prelude.Decimal.{decimal}
use mogenius_operator.Prelude.Numbers.{pos, parse_int, read_number, read_digits}
use mogenius_operator.Prelude.Affixes.{strip_prefix, has_suffix, trim_suffix, split, split_parts}
use mogenius_operator.Prelude.Sort.{sort, insert_sorted}
use mogenius_operator.Prelude.Text.{join}
use mogenius_operator.Kv.{Server, IsServer, KvResult, ok}
use mogenius_operator.Kv.Append.{
  counter_key, numbered_key, extract_number, numerics, surplus, find_slot, delete_all, sweep,
  drop_expired, prune, refresh_counter, set_object_with_autoincrement_limit,
}
use mogenius_operator.Kv.Keys.{extract_number-numbered_key}
use mogenius_operator.Kv.Appended.{Outcome, appended}
use mogenius_operator.Kv.Slots.{Works, candidate, appends_first_free}
use mogenius_operator.Kv.Scan.{
  Node, page, last_page, broken, scan_keys, scan_node, receive, add_unseen, delete_keys,
  delete_chunks, chunks, count_deleted,
}
use mogenius_operator.Kv.Deleted.{OneByOne, delete_keys-OneByOne}
use mogenius_operator.Kv.Scanned.{Verdict, scan_keys-Verdict}
use mogenius_operator.Kv.Pages.{
  create_key, strip_wildcards, size, Listing, get_objects_by_prefix_with_size_and_ns, load_objects,
  selected_keys, window,
}
use mogenius_operator.Kv.Paged.{Tiles, pages_tile}

-- Items and counters in memory.
record Memory : Type 0 where
  held : Assoc String
  counters : Assoc ℕ

abbrev or_zero : Option ℕ → ℕ
or_zero none = 0
or_zero (some n) = n

unfoldable count : String → Memory → ℕ
count k m = or_zero (lookup k m.counters)

unfoldable item : String → Memory → Option String
item k m = lookup k m.held

-- The keys that are held, each once.
abbrev keys_of : Assoc String → List String
keys_of [] = []
keys_of ((k, v) ∷ rest) = let later = keys_of rest in if contains later k then later else k ∷ later

keys_of-Distinct : (m : Assoc String) → Distinct (keys_of m)
keys_of-Distinct [] = tt
keys_of-Distinct ((k, v) ∷ rest) = elim (Bool-cases (contains (keys_of rest) k)) [
  | inl e ↦ rw e (keys_of-Distinct rest)
  | inr e ↦ rw e (λ i. cc (In→contains (keys_of rest) k i, e), keys_of-Distinct rest)
]

held_key : (m : Assoc String) (key : String) → In key (keys_of m) → is_some (lookup key m) ≡ true
unfolding lookup
held_key [] key i = elim i [ ]
held_key ((k, v) ∷ rest) key i = elim (Bool-cases (k == key)) [
  | inl e ↦ rw e refl
  | inr e ↦ rw e (
      held_key rest key (elim (Bool-cases (contains (keys_of rest) k)) [
        | inl c ↦ rw c at i
        | inr c ↦
            let j : (key ≡ k) ⊎ In key (keys_of rest) = rw c at i in
            elim j [ inl q ↦ cc (e, q, eq_refl k) | inr l ↦ l ]
      ]))
]

unfoldable memory : Server Memory
unfolding count item
memory = record {
  incr = λ k m.
      (some (suc (count k m)), record m { counters = insert k (suc (count k m)) m.counters });
  exists = λ k m. some (is_some (item k m));
  set_item = λ k v ttl m. (true, record m { held = insert k v m.held });
  expire = λ k ttl m. m;
  unlink = λ k m. record m { held = remove k m.held };
  del = λ k m. record m { held = remove k m.held };
  scan = λ pattern m. some (keys_of m.held);
}

insert_else : (k j v : String) (m : Assoc String) → j ≢ k → lookup j (insert k v m) ≡ lookup j m
insert_else k j v m n = elim (Bool-cases (k == j)) [
  | inl e ↦ elim (n (sym ((eq_iff k j).0 e))) [ ]
  | inr e ↦ lookup-insert k j v m ∙ rw e refl
]

remove_else : (k j : String) (m : Assoc String) → j ≢ k → lookup j (remove k m) ≡ lookup j m
remove_else k j m n = elim (Bool-cases (k == j)) [
  | inl e ↦ elim (n (sym ((eq_iff k j).0 e))) [ ]
  | inr e ↦ lookup-remove k j m ∙ rw e refl
]

memory-IsServer : IsServer memory item
unfolding memory item count
memory-IsServer = record {
  incr_else = λ k j m n. refl;
  exists_tells = λ k m b e. cc e;
  set_stores = λ k v ttl m e. lookup-insert k k v m.held ∙ rw (eq_refl k) refl;
  set_else = λ k j v ttl m n. insert_else k j v m.held n;
  expire_keeps = λ k j ttl m h. refl;
  scan_finds = λ pattern m keys e key i n.
      let same : keys_of m.held ≡ keys = cc e in
      let held_ : is_some (lookup key m.held) ≡ true =
        held_key m.held key (subst (λ (l : List String). In key l) (sym same) i) in
      cc (n, held_);
  scan_once = λ pattern m keys e.
      let same : keys_of m.held ≡ keys = cc e in
      subst (λ (l : List String). Distinct l) same (keys_of-Distinct m.held);
  unlink_else = λ k j m n. remove_else k j m.held n;
  del_else = λ k j m n. remove_else k j m.held n;
}

lookup_own : (k : String) (n : ℕ) (m : Assoc ℕ) → lookup k (insert k n m) ≡ some n
lookup_own k n m = lookup-insert k k n m ∙ rw (eq_refl k) refl

memory-Works : Works memory item count
unfolding memory item count
memory-Works = record {
  incr_counts = λ k m. refl;
  count_after = λ k m. ap or_zero (lookup_own k (suc (count k m)) m.counters);
  exists_answers = λ k m. refl;
}

-- One entry of an older numbering stands in the way.
abbrev older : Memory
older = record { held = ("log:2", "old") ∷ []; counters = ("log:counter", 1) ∷ [] }

second_try :
    (set_object_with_autoincrement_limit memory (some "new") 5 0 "log" older).0 ≡ ok "log:3"
unfolding set_object_with_autoincrement_limit find_slot memory item count counter_key numbered_key
    lookup insert decimal prune sweep drop_expired refresh_counter
second_try = refl

-- The entry that a call has just written is swept away where older entries have higher numbers.
abbrev legacy : Memory
legacy = record { held = ("log:500", "old") ∷ []; counters = ("log:counter", 99) ∷ [] }

abbrev swept : KvResult String × Memory
swept = set_object_with_autoincrement_limit memory (some "new") 1 0 "log" legacy

swept_key : swept.0 ≡ ok "log:100"
unfolding set_object_with_autoincrement_limit find_slot memory item count counter_key numbered_key
    lookup insert decimal
swept_key = refl

swept_lost : item "log:100" swept.1 ≡ none
unfolding set_object_with_autoincrement_limit find_slot memory item count counter_key numbered_key
    lookup insert remove decimal prune sweep drop_expired refresh_counter delete_all numerics
    surplus extract_number strip_prefix parse_int read_number read_digits sort insert_sorted
swept_lost = refl

appended_example :
    Outcome memory item memory-IsServer "log" "new" 5 0 older
      (set_object_with_autoincrement_limit memory (some "new") 5 0 "log" older)
appended_example = appended memory item memory-IsServer "log" "new" 5 0 older

older-taken :
    (i : ℕ)
    → i < 1
    → is_some (item (candidate memory item count memory-IsServer memory-Works "log" i older) older)
      ≡ true
unfolding item count numbered_key counter_key lookup decimal
older-taken zero h = refl
older-taken (suc i) h = let absurd : ⊥ = omega (arith, h) in elim absurd [ ]

appends_first_free_example :
    (set_object_with_autoincrement_limit memory (some "new") 5 0 "log" older).0
    ≡ ok (candidate memory item count memory-IsServer memory-Works "log" 1 older)
unfolding item count numbered_key counter_key lookup decimal memory
appends_first_free_example =
    appends_first_free memory item count memory-IsServer memory-Works "log" "new" 5 0 1 older
      (omega arith) older-taken refl (λ k t. refl)

extract_number-numbered_key_example : extract_number (numbered_key "log" 42) "log" ≡ pos 42
extract_number-numbered_key_example = extract_number-numbered_key "log" 42 (omega arith)

abbrev cluster : List Node
cluster = page ("a" ∷ "" ∷ []) (last_page ("b" ∷ [])) ∷ last_page ("b" ∷ "c" ∷ []) ∷ []

scanned_once : scan_keys cluster ≡ some ("a" ∷ "b" ∷ "c" ∷ [])
unfolding scan_keys receive scan_node add_unseen
scanned_once = refl

half_scanned : scan_keys (last_page ("a" ∷ []) ∷ page ("b" ∷ []) broken ∷ []) ≡ none
unfolding scan_keys receive scan_node add_unseen
half_scanned = refl

scan_keys-Verdict_example : Verdict cluster (scan_keys cluster)
scan_keys-Verdict_example = scan_keys-Verdict cluster

abbrev locked : String → Bool
locked key = key == "b"

deleted : (delete_keys locked ("a" ∷ "b" ∷ "c" ∷ [])).deleted ≡ 1
unfolding delete_keys delete_chunks chunks count_deleted
deleted = refl

delete_keys-OneByOne_example :
    OneByOne locked ("a" ∷ "b" ∷ "c" ∷ []) (delete_keys locked ("a" ∷ "b" ∷ "c" ∷ []))
delete_keys-OneByOne_example = delete_keys-OneByOne locked ("a" ∷ "b" ∷ "c" ∷ [])

stripped : create_key ("res" ∷ "*" ∷ "*" ∷ "*" ∷ []) ≡ "res:*"
unfolding create_key strip_wildcards size join has_suffix trim_suffix
stripped = refl

abbrev log_keys : List String
log_keys = "log:x:a:1" ∷ "log:x:counter" ∷ "log:y:a:2" ∷ "log:x:b:3" ∷ "log:x:c:4" ∷ []

abbrev own_text : String → Option String
own_text k = some k

abbrev of_x : ℕ → ℕ → Listing String
of_x limit offset =
    get_objects_by_prefix_with_size_and_ns own_text own_text limit offset ("x" ∷ []) false
      (some log_keys)

second_page : of_x 2 1 ≡ record { page = "log:x:b:3" ∷ "log:x:c:4" ∷ []; total = 3; failed = false }
unfolding get_objects_by_prefix_with_size_and_ns load_objects selected_keys window split split_parts
    has_suffix
second_page = refl

pages_tile_example : Tiles own_text own_text (of_x 3 0) (of_x 1 0) (of_x 2 1)
unfolding get_objects_by_prefix_with_size_and_ns load_objects selected_keys window split split_parts
    has_suffix
pages_tile_example = pages_tile own_text own_text ("x" ∷ []) false log_keys 0 1 2 refl
