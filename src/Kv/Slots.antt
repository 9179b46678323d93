-- ===== src/Kv/Slots.antt =====
-- The search for a free number (src/valkeyclient/valkeyclient.go,
-- SetObjectWithAutoincrementLimit).
use mogenius_operator.Prelude.{
  ℕ, zero, suc, ◌+◌, ◌<◌, String, Bool, true, false, Option, none, some, ◌≡◌, refl, ap, ◌∙◌, arith,
  is_some,
}
use mogenius_operator.Kv.{Server, IsServer, KvResult, ok, err}
use mogenius_operator.Kv.Append.{
  counter_key, numbered_key, checked, claimed, find_slot, after_set, after_find,
  set_object_with_autoincrement_limit, max_autoincrement_retries,
}
use mogenius_operator.Kv.Keys.{numbered_key-ne-counter_key}

-- A server on which INCR counts and EXISTS answers, as they do while no command fails.
pub record Works {S : Type 0} (srv : Server S) (item : String → S → Option String)
    (count : String → S → ℕ) : Type 0 where
  pub incr_counts : (k : String) (s : S) → (srv.incr k s).0 ≡ some (suc (count k s))
  pub count_after : (k : String) (s : S) → count k (srv.incr k s).1 ≡ suc (count k s)
  pub exists_answers : (k : String) (s : S) → srv.exists k s ≡ some (is_some (item k s))

module _ {S : Type 0} (srv : Server S) (item : String → S → Option String) (count : String → S → ℕ)
    (laws : IsServer srv item) (works : Works srv item count) (base_key : String) where
  -- The key of the `d`-th number that the search comes to, from 0.
  abbrev pub candidate : ℕ → S → String
  candidate d s = numbered_key base_key (count (counter_key base_key) s + suc d)

  claimed_lem :
      (next : S → KvResult ℕ × S) (r : Option ℕ × S) (n : ℕ)
      → r.0 ≡ some n
      → claimed srv next base_key r
        ≡ checked srv next n r.1 (srv.exists (numbered_key base_key n) r.1)
  claimed_lem next (none, s) n e = cc e
  claimed_lem next (some m, s) n e =
      let p : m ≡ n = cc e in
      ap (λ (i : ℕ). checked srv next i s (srv.exists (numbered_key base_key i) s)) p

  -- One turn of the search.
  find_slot_turn :
      (retries : ℕ) (s : S)
      → find_slot srv (suc retries) base_key s
        ≡ checked srv
            (find_slot srv retries base_key)
            (suc (count (counter_key base_key) s))
            (srv.incr (counter_key base_key) s).1
            (some (is_some (item (candidate 0 s) s)))
  unfolding find_slot
  find_slot_turn retries s =
      let c = count (counter_key base_key) s in
      let next = find_slot srv retries base_key in
      let after = (srv.incr (counter_key base_key) s).1 in
      claimed_lem next (srv.incr (counter_key base_key) s) (suc c)
        (works.incr_counts (counter_key base_key) s)
      ∙ ap (checked srv next (suc c) after) (
          works.exists_answers (numbered_key base_key (suc c)) after
          ∙ ap (λ o. some (is_some o))
              (laws.incr_else (counter_key base_key) (numbered_key base_key (suc c)) s
                  (numbered_key-ne-counter_key base_key (suc c))
                ∙ ap (λ (i : ℕ). item (numbered_key base_key i) s) (omega arith)))

  -- The search returns the first free number, when it comes to one within its retries.
  pub find_slot-first :
      (d retries : ℕ) (s : S)
      → d < retries
      → ((i : ℕ) → i < d → is_some (item (candidate i s) s) ≡ true)
      → is_some (item (candidate d s) s) ≡ false
      → (find_slot srv retries base_key s).0 ≡ ok (count (counter_key base_key) s + suc d)
  find_slot-first d zero s h taken free = let absurd : ⊥ = omega (arith, h) in elim absurd [ ]
  find_slot-first zero (suc retries) s h taken free =
      rw (find_slot_turn retries s) (rw free (ap ok (omega arith)))
  find_slot-first (suc d) (suc retries) s h taken free =
      let key = counter_key base_key in
      let after = (srv.incr key s).1 in
      let same : (i : ℕ) → item (candidate i after) after ≡ item (candidate (suc i) s) s = λ i.
        let p : candidate i after ≡ candidate (suc i) s =
          ap (numbered_key base_key)
            (ap (λ (c : ℕ). c + suc i) (works.count_after key s) ∙ omega arith) in
        laws.incr_else key (candidate i after) s
          (numbered_key-ne-counter_key base_key (count key after + suc i))
        ∙ ap (λ (k : String). item k s) p in
      rw (find_slot_turn retries s) (
        rw (taken 0 (omega arith)) (
          find_slot-first d retries after (omega (arith, h))
            (λ i l.
              ap (λ (o : Option String). is_some o) (same i) ∙ taken (suc i) (omega (arith, l)))
            (ap (λ (o : Option String). is_some o) (same d) ∙ free)
          ∙ ap ok (ap (λ (c : ℕ). c + suc d) (works.count_after key s) ∙ omega arith)))

  -- On a server that works, a call of SetObjectWithAutoincrementLimit returns the key of the first
  -- number after the counter's whose key holds nothing, when there is one among the next 4096
  -- numbers and the write succeeds.
  pub appends_first_free :
      (json : String) (limit ttl d : ℕ) (s : S)
      → d < max_autoincrement_retries
      → ((i : ℕ) → i < d → is_some (item (candidate i s) s) ≡ true)
      → is_some (item (candidate d s) s) ≡ false
      → ((k : String) (t : S) → (srv.set_item k json ttl t).0 ≡ true)
      → (set_object_with_autoincrement_limit srv (some json) limit ttl base_key s).0
        ≡ ok (candidate d s)
  unfolding set_object_with_autoincrement_limit
  appends_first_free json limit ttl d s h taken free sets =
      found (find_slot srv max_autoincrement_retries base_key s)
        (find_slot-first d max_autoincrement_retries s h taken free)
    where
      written :
          (n : ℕ) (r : Bool × S)
          → r.0 ≡ true
          → (after_set srv limit ttl base_key n r).0 ≡ ok (numbered_key base_key n)
      written n (false, t) e = cc e
      written n (true, t) e = refl

      found :
          (r : KvResult ℕ × S)
          → r.0 ≡ ok (count (counter_key base_key) s + suc d)
          → (after_find srv json limit ttl base_key r).0 ≡ ok (candidate d s)
      found (err x, t) e = cc e
      found (ok n, t) e =
          let p : n ≡ count (counter_key base_key) s + suc d = cc e in
          written n (srv.set_item (numbered_key base_key n) json ttl t)
            (sets (numbered_key base_key n) t)
          ∙ ap (λ (i : ℕ). ok (numbered_key base_key i)) p
