-- ===== src/Kv/Appended.antt =====
-- What SetObjectWithAutoincrementLimit leaves in the store (src/valkeyclient/valkeyclient.go).
use mogenius_operator.Prelude.{
  ℕ, zero, suc, ◌-◌, ◌%◌, ◌<◌, String, Bool, true, false, Option, none, some, List, [], ◌∷◌, ◌≡◌,
  ◌≢◌, refl, sym, ap, ◌∙◌, arith, eqb, ltb, is_some, All, All-of, In, ◌⊎◌, ◌≤◌, length, subst,
  Bool-cases, inl, inr,
}
use Prim.Native.String.{◌++◌}
use mogenius_operator.Kv.{Server, IsServer, KvResult, ok, err}
use mogenius_operator.Kv.Append.{
  extract_number, counter_key, numbered_key, Numbered, numerics, surplus, checked, claimed,
  find_slot, delete_all, sweep_keys, sweep, drop_expired, prune, refresh_counter, after_set,
  after_find, set_object_with_autoincrement_limit, max_autoincrement_retries,
}
use mogenius_operator.Prelude.Members.{Distinct}
use mogenius_operator.Prelude.Numbers.{pos}
use mogenius_operator.Kv.Sweep.{surplus-Newer, surplus-In, numerics-In, numerics-Distinct}
use mogenius_operator.Kv.Keys.{numbered_key-injective, numbered_key-ne-counter_key}

-- The key of the entry that falls out of the window when entry `n` is written.
abbrev pub Expired : ℕ → String → ℕ → String → Type 0
Expired limit base_key n key = (key ≡ numbered_key base_key (n - limit)) × (0 < limit) × (limit < n)

-- The key is none of the entries.
abbrev pub Spared : List Numbered → String → Type 0
Spared xs key = All (λ (x : Numbered). key ≢ x.key) xs

none_of : {A : Type 0} (o : Option A) → false ≡ is_some o → o ≡ none
none_of none e = refl
none_of (some a) e = cc e

module _ {S : Type 0} (srv : Server S) (item : String → S → Option String)
    (laws : IsServer srv item) (base_key : String) where
  -- No item but the counter has changed.
  abbrev Same : S → S → Type 0
  Same s after = (j : String) → j ≢ counter_key base_key → item j after ≡ item j s

  -- A free number, and all items but the counter unchanged.
  abbrev Slot : S → KvResult ℕ × S → Type 0
  Slot s (ok n, after) = (item (numbered_key base_key n) s ≡ none) × Same s after
  Slot s (err e, after) = Same s after

  Slot-trans : (s t : S) (r : KvResult ℕ × S) → Same s t → Slot t r → Slot s r
  Slot-trans s t (ok n, after) h k = (
    sym (h (numbered_key base_key n) (numbered_key-ne-counter_key base_key n)) ∙ k.0,
    λ j e. k.1 j e ∙ h j e,
  )
  Slot-trans s t (err x, after) h k = λ j e. k j e ∙ h j e

  checked-Slot :
      (next : S → KvResult ℕ × S) (n : ℕ) (s : S) (o : Option Bool)
      → srv.exists (numbered_key base_key n) s ≡ o
      → ((t : S) → Slot t (next t))
      → Slot s (checked srv next n s o)
  checked-Slot next n s none e h = λ j k. refl
  checked-Slot next n s (some true) e h = h s
  checked-Slot next n s (some false) e h = (
    none_of (item (numbered_key base_key n) s)
        (laws.exists_tells (numbered_key base_key n) s false e),
    λ j k. refl,
  )

  claimed-Slot :
      (next : S → KvResult ℕ × S) (r : Option ℕ × S)
      → ((t : S) → Slot t (next t))
      → Slot r.1 (claimed srv next base_key r)
  claimed-Slot next (none, s) h = λ j k. refl
  claimed-Slot next (some n, s) h =
      checked-Slot next n s (srv.exists (numbered_key base_key n) s) refl h

  find_slot-Slot : (retries : ℕ) (s : S) → Slot s (find_slot srv retries base_key s)
  unfolding find_slot
  find_slot-Slot zero s = λ j k. refl
  find_slot-Slot (suc retries) s =
      let r = srv.incr (counter_key base_key) s in
      Slot-trans s r.1 (claimed srv (find_slot srv retries base_key) base_key r)
        (λ j k. laws.incr_else (counter_key base_key) j s k)
        (claimed-Slot (find_slot srv retries base_key) r (find_slot-Slot retries))

  delete_all-Spared :
      (xs : List Numbered) (s : S) (j : String)
      → Spared xs j
      → item j (delete_all srv xs s) ≡ item j s
  unfolding delete_all
  delete_all-Spared [] s j h = refl
  delete_all-Spared (x ∷ xs) s j h =
      delete_all-Spared xs (srv.del x.key s) j h.1 ∙ laws.del_else x.key j s h.0

  -- Nothing was seen, or what the scan gave in a state.
  abbrev pub Scanned : List String → S → Type 0
  Scanned seen at = (seen ≡ []) ⊎ (srv.scan (base_key ++ ":*") at ≡ some seen)

  seen_held :
      (seen : List String) (at : S)
      → Scanned seen at
      → (key : String) → In key seen
      → item key at ≢ none
  seen_held seen at (inl e) key i =
      let absurd : ⊥ = subst (λ (l : List String). In key l) e i in elim absurd [ ]
  seen_held seen at (inr e) key i = laws.scan_finds (base_key ++ ":*") at seen e key i

  seen-Distinct : (seen : List String) (at : S) → Scanned seen at → Distinct seen
  seen-Distinct seen at (inl e) = subst (λ (l : List String). Distinct l) (sym e) tt
  seen-Distinct seen at (inr e) = laws.scan_once (base_key ++ ":*") at seen e

  -- As many entries as the limit allows, which the store held when the sweep scanned and holds
  -- still, none with a lower number than the swept one.
  pub record Outnumbered (limit : ℕ) (at after : S) (x : Numbered) : Type 0 where
    pub left : List Numbered
    pub full : length left ≡ limit
    pub distinct : Distinct left
    pub number_in_key : (y : Numbered) → In y left → extract_number y.key base_key ≡ pos y.n
    pub held : (y : Numbered) → In y left → item y.key at ≢ none
    pub still : (y : Numbered) → In y left → item y.key after ≡ item y.key at
    pub newer : All (λ (y : Numbered). x.n ≤ y.n) left

  same_entry :
      (y z : Numbered)
      → y.key ≡ z.key
      → extract_number y.key base_key ≡ pos y.n
      → extract_number z.key base_key ≡ pos z.n
      → y ≡ z
  same_entry y z p q r =
      let same_pos : pos y.n ≡ pos z.n =
        sym q ∙ ap (λ (k : String). extract_number k base_key) p ∙ r in
      let same_number : y.n ≡ z.n = cc same_pos in
      ap (λ (k : String). record { key = k; n = y.n }) p
      ∙ ap (λ (m : ℕ). record { key = z.key; n = m }) same_number

  swept-Outnumbered :
      (limit : ℕ) (at after : S) (seen : List String) (x : Numbered)
      → Scanned seen at
      → ((j : String)
          → Spared (surplus limit (numerics base_key seen)) j
          → item j after ≡ item j at)
      → In x (surplus limit (numerics base_key seen))
      → Outnumbered limit at after x
  swept-Outnumbered limit at after seen x sc spares i =
      let numbers = numerics base_key seen in
      let w = surplus-Newer limit numbers x i in
      let once = numerics-Distinct base_key seen (seen-Distinct seen at sc) in
      record {
        left = w.left;
        full = w.full;
        distinct = w.distinct once;
        number_in_key = λ y j. (numerics-In base_key seen y (w.found y j)).1;
        held = λ y j. seen_held seen at sc y.key (numerics-In base_key seen y (w.found y j)).0;
        still = λ y j. spares y.key (
            All-of (λ (z : Numbered). y.key ≢ z.key) (surplus limit numbers)
              (λ z l p. w.unswept once y j (
                subst (λ (v : Numbered). In v (surplus limit numbers))
                  (sym (
                    same_entry y z p (numerics-In base_key seen y (w.found y j)).1
                      (numerics-In base_key seen z (surplus-In limit numbers z l)).1))
                  l)));
        newer = w.newer;
      }

  module _ (limit : ℕ) (n : ℕ) where
    -- The state in which a sweep scans, the keys that it sees, none where there was no sweep, and
    -- what the pruning spares.
    pub record Prunes (s after : S) : Type 0 where
      pub at : S
      pub seen : List String
      pub sweeps : n % 100 ≢ 0 → seen ≡ []
      pub scanned : Scanned seen at
      pub until_then : (j : String) → ¬ Expired limit base_key n j → item j at ≡ item j s
      pub spares :
          (j : String)
          → Spared (surplus limit (numerics base_key seen)) j
          → item j after ≡ item j at

    unswept : (s : S) → Prunes s s
    unswept s = record {
      at = s;
      seen = [];
      sweeps = λ k. refl;
      scanned = inl refl;
      until_then = λ j a. refl;
      spares = λ j b. refl;
    }

    sweep_keys-Prunes :
        (s : S) (o : Option (List String))
        → srv.scan (base_key ++ ":*") s ≡ o
        → n % 100 ≡ 0
        → Prunes s (sweep_keys srv limit base_key s o)
    sweep_keys-Prunes s none q e = unswept s
    sweep_keys-Prunes s (some keys) q e = record {
      at = s;
      seen = keys;
      sweeps = λ k. elim (k e) [ ];
      scanned = inr q;
      until_then = λ j a. refl;
      spares = λ j b. delete_all-Spared (surplus limit (numerics base_key keys)) s j b;
    }

    sweep-Prunes : (s : S) → Prunes s (sweep srv limit base_key n s)
    unfolding sweep
    sweep-Prunes s = elim (Bool-cases (eqb (n % 100) 0)) [
      | inl e ↦ rw e (sweep_keys-Prunes s (srv.scan (base_key ++ ":*") s) refl (ground arith))
      | inr e ↦ rw e (unswept s)
    ]

    drop_expired_lem :
        (s : S) (j : String)
        → 0 < limit
        → ¬ Expired limit base_key n j
        → item j (drop_expired srv limit base_key n s) ≡ item j s
    unfolding drop_expired
    drop_expired_lem s j h e = elim (Bool-cases (ltb limit n)) [
      | inl q ↦ rw q (
          laws.unlink_else (numbered_key base_key (n - limit)) j s
            (λ same. e (same, h, ground arith)))
      | inr q ↦ rw q refl
    ]

    prune-Prunes : (s : S) → Prunes s (prune srv limit base_key n s)
    unfolding prune
    prune-Prunes s = elim (Bool-cases (eqb limit 0)) [
      | inl e ↦ rw e (unswept s)
      | inr e ↦
          let p = sweep-Prunes (drop_expired srv limit base_key n s) in
          rw e (record {
            at = p.at;
            seen = p.seen;
            sweeps = p.sweeps;
            scanned = p.scanned;
            until_then = λ j a. p.until_then j a ∙ drop_expired_lem s j (ground arith) a;
            spares = p.spares;
          })
    ]

  refresh_lem :
      (ttl : ℕ) (s : S) (j : String) → item j (refresh_counter srv ttl base_key s) ≡ item j s
  unfolding refresh_counter
  refresh_lem ttl s j = elim (Bool-cases (eqb ttl 0)) [
    | inl e ↦ rw e refl
    | inr e ↦ rw e (laws.expire_keeps (counter_key base_key) j ttl s (ground (arith, e)))
  ]

  module _ (json : String) (limit ttl : ℕ) where
    -- The entry that a call has written, and all that it left as it was.
    pub record Appended (s : S) (key : String) (after : S) : Type 0 where
      pub number : ℕ
      pub is_key : key ≡ numbered_key base_key number
      pub was_free : item key s ≡ none
      pub at : S
      pub seen : List String
      pub sweeps : number % 100 ≢ 0 → seen ≡ []
      pub scanned : Scanned seen at
      pub written : item key at ≡ some json
      pub until_then :
          (j : String)
          → j ≢ key
          → j ≢ counter_key base_key
          → ¬ Expired limit base_key number j
          → item j at ≡ item j s
      pub spares :
          (j : String)
          → Spared (surplus limit (numerics base_key seen)) j
          → item j after ≡ item j at
      pub sweeps_older :
          (x : Numbered)
          → In x (surplus limit (numerics base_key seen))
          → Outnumbered limit at after x

    -- The outcome of a call: an error leaves every item that existed, but the counter.
    abbrev pub Outcome : S → KvResult String × S → Type 0
    Outcome s (ok key, after) = Appended s key after
    Outcome s (err e, after) =
        (j v : String) → j ≢ counter_key base_key → item j s ≡ some v → item j after ≡ some v

    -- The window never covers the new entry.
    current : (n : ℕ) → ¬ Expired limit base_key n (numbered_key base_key n)
    current n (same, pos_, below) =
        let q : n ≡ n - limit = numbered_key-injective base_key n (n - limit) same in
        omega (arith, q, pos_, below)

    set-Outcome :
        (s t : S) (n : ℕ) (r : Bool × S)
        → item (numbered_key base_key n) s ≡ none
        → Same s t
        → (r.0 ≡ true → item (numbered_key base_key n) r.1 ≡ some json)
        → ((j : String) → j ≢ numbered_key base_key n → item j r.1 ≡ item j t)
        → Outcome s (after_set srv limit ttl base_key n r)
    set-Outcome s t n (false, u) free same stores else_ = λ j v c e.
        else_ j (λ (p : j ≡ numbered_key base_key n). cc (ap (λ (k : String). item k s) p, free, e))
        ∙ same j c
        ∙ e
    set-Outcome s t n (true, u) free same stores else_ =
        let p = prune-Prunes limit n (refresh_counter srv ttl base_key u) in
        record {
          number = n;
          is_key = refl;
          was_free = free;
          at = p.at;
          seen = p.seen;
          sweeps = p.sweeps;
          scanned = p.scanned;
          written =
              p.until_then (numbered_key base_key n) (current n)
              ∙ refresh_lem ttl u (numbered_key base_key n)
              ∙ stores refl;
          until_then = λ j k c e. p.until_then j e ∙ refresh_lem ttl u j ∙ else_ j k ∙ same j c;
          spares = p.spares;
          sweeps_older = λ x i.
              swept-Outnumbered limit p.at
                (prune srv limit base_key n (refresh_counter srv ttl base_key u)) p.seen x p.scanned
                p.spares i;
        }

    found-Outcome :
        (s : S) (r : KvResult ℕ × S)
        → Slot s r
        → Outcome s (after_find srv json limit ttl base_key r)
    found-Outcome s (err e, t) h = λ j v c q. h j c ∙ q
    found-Outcome s (ok n, t) h =
        set-Outcome s t n (srv.set_item (numbered_key base_key n) json ttl t) h.0 h.1
          (λ e. laws.set_stores (numbered_key base_key n) json ttl t e)
          (λ j k. laws.set_else (numbered_key base_key n) j json ttl t k)

    -- A call of SetObjectWithAutoincrementLimit that succeeds returns a numbered key which held
    -- nothing before and then holds the value; until its sweep scans, every other item stays, except
    -- the counter and the entry that falls out of the window. The sweep, which follows every
    -- hundredth number, spares every item but the surplus of the numbered entries that its scan
    -- found: for each of those it leaves as many stored entries as the limit allows, none with a
    -- lower number. A call that fails changes no item that existed, except the counter.
    pub appended :
        (s : S)
        → Outcome s (set_object_with_autoincrement_limit srv (some json) limit ttl base_key s)
    unfolding set_object_with_autoincrement_limit
    appended s =
        found-Outcome s (find_slot srv max_autoincrement_retries base_key s)
          (find_slot-Slot max_autoincrement_retries s)
