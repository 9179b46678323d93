-- ===== src/Kv.antt =====
-- The key-value client (src/valkeyclient/valkeyclient.go): the commands of the server that it calls,
-- and what the client relies on of them.
use mogenius_operator.Prelude.{
  ◌<◌, ℕ, zero, suc, ◌≢◌, String, Bool, true, Option, none, some, List, [], ◌∷◌, ◌≡◌, is_some, In,
}
use mogenius_operator.Prelude.Members.{Distinct}
mod Append
mod Keys
mod Appended
mod Slots
mod Sweep
mod Scan
mod Scanned
pub mod Pages
pub mod Window
mod Paged
mod Batches
mod Deleted
mod Examples

-- The commands on a server with states S: `none` is an error of the command, and a `Bool` says
-- that a write succeeded. The pattern of a scan is a glob.
pub record Server (S : Type 0) : Type 0 where
  pub incr : String → S → Option ℕ × S
  pub exists : String → S → Option Bool
  pub set_item : String → String → ℕ → S → Bool × S
  pub expire : String → ℕ → S → S
  pub unlink : String → S → S
  pub del : String → S → S
  pub scan : String → S → Option (List String)

-- What the server documents of its commands, on the item that a key holds: INCR returns the number
-- after the counter's, EXISTS tells whether the key holds an item, SET replaces one item, and no
-- command touches the item of another key. A key that EXPIRE has given a time keeps its item until
-- then; the lapse of time is no part of a command. A scan gives keys that hold an item, each once, as
-- the scan of the client makes it (Kv/Scanned).
pub record IsServer {S : Type 0} (srv : Server S) (item : String → S → Option String) : Type 0 where
  pub incr_else : (k j : String) (s : S) → j ≢ k → item j (srv.incr k s).1 ≡ item j s
  pub exists_tells :
      (k : String) (s : S) (b : Bool) → srv.exists k s ≡ some b → b ≡ is_some (item k s)
  pub set_stores :
      (k v : String) (ttl : ℕ) (s : S)
      → (srv.set_item k v ttl s).0 ≡ true
      → item k (srv.set_item k v ttl s).1 ≡ some v
  pub set_else :
      (k j v : String) (ttl : ℕ) (s : S) → j ≢ k → item j (srv.set_item k v ttl s).1 ≡ item j s
  pub expire_keeps :
      (k j : String) (ttl : ℕ) (s : S) → 0 < ttl → item j (srv.expire k ttl s) ≡ item j s
  pub scan_finds :
      (pattern : String) (s : S) (keys : List String)
      → srv.scan pattern s ≡ some keys
      → (key : String) → In key keys
      → item key s ≢ none
  pub scan_once :
      (pattern : String) (s : S) (keys : List String)
      → srv.scan pattern s ≡ some keys
      → Distinct keys
  pub unlink_else : (k j : String) (s : S) → j ≢ k → item j (srv.unlink k s) ≡ item j s
  pub del_else : (k j : String) (s : S) → j ≢ k → item j (srv.del k s) ≡ item j s

pub data KvError : Type 0 where
  not_serialized : KvError
  increment_failed : KvError
  check_failed : KvError
  no_free_slot : String → KvError
  set_failed : KvError

pub data KvResult {ℓ} (A : Type ℓ) : Type ℓ where
  ok : A → KvResult A
  err : KvError → KvResult A
