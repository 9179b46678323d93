-- ===== src/Kv/Scan.antt =====
-- Listing, reading and deleting keys (src/valkeyclient/valkeyclient.go: scanNode, scanKeys,
-- deleteKeys, ClearNonEssentialKeys, GetKeyedObjectsForKeys, GetObjectsForKeys,
-- GetObjectsByPattern).
use mogenius_operator.Prelude.{
  ℕ, zero, suc, ◌+◌, String, Bool, true, false, not, Option, none, some, List, [], ◌∷◌, ◌==◌,
  if◌then◌else◌, contains, append, filter_by, take, drop, length,
}

-- What a node answers to SCAN, from a cursor on: an error, a page with more behind it, or the page
-- with which the cursor wraps around. The server ends every iteration.
pub data Node : Type 0 where
  broken : Node
  page : List String → Node → Node
  last_page : List String → Node

abbrev pub not_blank : String → Bool
not_blank key = not (key == "")

abbrev pub behind : List String → Option (List String) → Option (List String)
behind keys none = none
behind keys (some rest) = some (append (filter_by not_blank keys) rest)

unfoldable pub scan_node : Node → Option (List String)
scan_node broken = none
scan_node (page keys rest) = behind keys (scan_node rest)
scan_node (last_page keys) = some (filter_by not_blank keys)

-- The keys that are new, behind those seen.
unfoldable pub add_unseen : List String → List String → List String
add_unseen [] seen = seen
add_unseen (key ∷ keys) seen =
    add_unseen keys (if contains seen key then seen else append seen (key ∷ []))

-- The results of the nodes in the order in which they arrive; an error is kept, and the other nodes
-- are still received.
abbrev pub received : Option (List String) → List String × Bool → List String × Bool
received none (keys, failed) = (keys, true)
received (some found) (keys, failed) = (add_unseen found keys, failed)

unfoldable pub receive : List Node → List String × Bool → List String × Bool
unfolding scan_node add_unseen
receive [] state = state
receive (node ∷ nodes) state = receive nodes (received (scan_node node) state)

abbrev pub complete : List String × Bool → Option (List String)
complete (keys, true) = none
complete (keys, false) = some keys

unfoldable pub scan_keys : List Node → Option (List String)
unfolding receive
scan_keys [] = none
scan_keys (node ∷ nodes) = complete (receive (node ∷ nodes) ([], false))

-- `slices.Chunk`, on fuel: every chunk but the last has the size, which is positive.
unfoldable pub chunks : ℕ → ℕ → List String → List (List String)
chunks zero size keys = []
chunks (suc fuel) size [] = []
chunks (suc fuel) size (key ∷ keys) =
    take size (key ∷ keys) ∷ chunks fuel size (drop size (key ∷ keys))

-- The count of deletions in the responses of a batch, up to the first that fails.
unfoldable pub count_deleted : (String → Bool) → List String → ℕ × Bool
count_deleted fails [] = (0, false)
count_deleted fails (key ∷ keys) =
    let (n, failed) = count_deleted fails keys in if fails key then (0, true) else (suc n, failed)

-- The keys for which DEL was sent, the count, and whether a response was an error: the batches after
-- a failed one are not sent.
pub record Deleted : Type 0 where
  pub sent : List String
  pub deleted : ℕ
  pub failed : Bool

abbrev pub after_batch : List String → ℕ × Bool → Deleted → Deleted
after_batch keys (n, true) later = record { sent = keys; deleted = n; failed = true }
after_batch keys (n, false) later = record {
  sent = append keys later.sent;
  deleted = n + later.deleted;
  failed = later.failed;
}

unfoldable pub delete_chunks : (String → Bool) → List (List String) → Deleted
unfolding count_deleted
delete_chunks fails [] = record { sent = []; deleted = 0; failed = false }
delete_chunks fails (keys ∷ rest) =
    after_batch keys (count_deleted fails keys) (delete_chunks fails rest)

abbrev pub delete_chunk_size : ℕ
delete_chunk_size = 500

unfoldable pub delete_keys : (String → Bool) → List String → Deleted
unfolding chunks delete_chunks
delete_keys fails keys = delete_chunks fails (chunks (length keys) delete_chunk_size keys)
