-- ===== src/Kv/Pages.antt =====
-- Reading a page of objects (src/valkeyclient/valkeyclient.go: GetObjectsByPrefixWithSizeAndNs,
-- GetKeyedObjectsForKeys, GetObjectsForKeys, GetObjectsByPattern, createKey).
use mogenius_operator.Prelude.{
  ℕ, zero, suc, ◌+◌, ◌-◌, String, Bool, true, false, not, ◌&&◌, Option, none, some, List, [], ◌∷◌,
  ◌==◌, if◌then◌else◌, contains, is_empty, filter_by, take, drop, length, leb,
}
use mogenius_operator.Prelude.Affixes.{has_suffix, trim_suffix, split}
use mogenius_operator.Prelude.Text.{join}

-- The removal of trailing ":*:*" patterns, on fuel: each turn takes two characters off.
unfoldable pub strip_wildcards : ℕ → String → String
strip_wildcards zero key = key
strip_wildcards (suc fuel) key =
    let shorter = strip_wildcards fuel (trim_suffix ":*" key) in
    if has_suffix ":*:*" key then shorter else key

-- The number of characters.
unfoldable pub size : String → ℕ
size String.[] = 0
size (String.◌∷◌ c s) = suc (size s)

unfoldable pub create_key : List String → String
unfolding strip_wildcards size
create_key parts = let key = join ":" parts in strip_wildcards (size key) key

-- The objects that an operation has read, and whether it ended with an error.
pub record Objects {ℓ} (T : Type ℓ) : Type ℓ where
  pub objects : List T
  pub failed : Bool

-- One page with the count of all objects.
pub record Listing {ℓ} (T : Type ℓ) : Type ℓ where
  pub page : List T
  pub total : ℕ
  pub failed : Bool

abbrev is_counter : String → Bool
is_counter key = has_suffix ":counter" key

abbrev pub segment_in : List String → List String → Bool
segment_in namespaces (bucket ∷ namespace ∷ name ∷ rest) = contains namespaces namespace
segment_in namespaces _ = false

-- The keys that the list is made of.
unfoldable pub selected_keys : List String → Bool → List String → List String
selected_keys namespaces cluster_wide keys =
    let entries = filter_by (λ (k : String). not (is_counter k)) keys in
    if not cluster_wide && not (is_empty namespaces)
    then filter_by (λ (k : String). segment_in namespaces (split ":" k)) entries
    else entries

abbrev pub min : ℕ → ℕ → ℕ
min a b = if leb a b then a else b

-- `keys[offset:min(offset+limit, len(keys))]`, empty where the offset is behind the end.
unfoldable pub window {ℓ} : {A : Type ℓ} → ℕ → ℕ → List A → List A
window offset limit xs =
    if leb (length xs) offset
    then []
    else take (min (offset + limit) (length xs) - offset) (drop offset xs)

-- What GET answers for a key (`none` where it has no item, or fails), and json.Unmarshal.
module _ {T : Type 0} (read : String → Option String) (parse : String → Option T) where
  abbrev pub parsed : Option T → Objects T → Objects T
  parsed none later = record { objects = []; failed = true }
  parsed (some x) later = record { objects = x ∷ later.objects; failed = later.failed }

  abbrev pub loaded : Option String → Objects T → Objects T
  loaded none later = later
  loaded (some text) later = if text == "" then later else parsed (parse text) later

  -- The loop over the responses; a missing item, or an empty one, is skipped.
  unfoldable pub load_objects : List String → Objects T
  load_objects [] = record { objects = []; failed = false }
  load_objects (key ∷ keys) = loaded (read key) (load_objects keys)

  abbrev pub listing : List String → ℕ → ℕ → Objects T → Listing T
  listing keys limit offset r = record { page = r.objects; total = length keys; failed = r.failed }

  abbrev pub get_page : ℕ → ℕ → List String → Bool → Option (List String) → Listing T
  get_page limit offset namespaces cluster_wide none = record {
    page = [];
    total = 0;
    failed = true;
  }
  get_page limit offset namespaces cluster_wide (some keys) =
      let selected = selected_keys namespaces cluster_wide keys in
      listing selected limit offset (load_objects (window offset limit selected))

  -- With what the scan of the prefix has returned, or its error.
  unfoldable pub get_objects_by_prefix_with_size_and_ns :
      ℕ → ℕ → List String → Bool → Option (List String) → Listing T
  unfolding load_objects selected_keys window
  get_objects_by_prefix_with_size_and_ns limit offset namespaces cluster_wide scanned =
      get_page limit offset namespaces cluster_wide scanned
