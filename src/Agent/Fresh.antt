-- ===== src/Agent/Fresh.antt =====
-- What the cache of enabled agents serves (src/ai/agents.go, getEnabledAgents).
use mogenius_operator.Prelude.{
  ℕ, ◌+◌, ◌≤◌, true, false, Option, none, some, List, [], ◌∷◌, ◌≡◌, ◌⊎◌, inl, inr, refl, arith, eqb,
  All, Bool-cases,
}
use mogenius_operator.Agent.{Agent, View, fetch_enabled_agents}
use mogenius_operator.Agent.Cache.{
  System, Flight, Step, enters, reads_store, returns, changes, invalidates, serves, begin_fetch,
  end_fetch, invalidate_agent_cache, read_now, land, land_flight, step, steps,
}

-- A list that was read is that of the view, or an invalidation came after the flight began.
abbrev ReadOk : View → ℕ → ℕ → Option (List Agent) → Type 0
ReadOk v now g none = Unit
ReadOk v now g (some l) = (eqb now g ≡ false) ⊎ (l ≡ fetch_enabled_agents v)

abbrev FlightOk : View → ℕ → Option Flight → Type 0
FlightOk v now none = Unit
FlightOk v now (some fl) = (fl.generation ≤ now) × ReadOk v now fl.generation fl.read

-- A flight began under a generation that has been.
abbrev Started : ℕ → Option Flight → Type 0
Started now none = Unit
Started now (some fl) = fl.generation ≤ now

-- A list that is marked as valid is the one that a read would give now.
abbrev pub Current : System → Type 0
Current s = (s.cache.is_valid ≡ false) ⊎ (s.cache.cached ≡ fetch_enabled_agents s.view)

abbrev Coherent : System → Type 0
Coherent s = Current s × FlightOk s.view s.cache.generation s.flight

read-FlightOk :
    (v : View) (now : ℕ) (fl : Option Flight) → FlightOk v now fl → FlightOk v now (read_now v fl)
read-FlightOk v now none h = tt
read-FlightOk v now (some fl) h = (h.0, inr refl)

later_read : (v w : View) (now g : ℕ) (o : Option (List Agent)) → g ≤ now → ReadOk w (now + 1) g o
later_read v w now g none h = tt
later_read v w now g (some l) h = inl (ground (arith, h))

invalidated-FlightOk :
    (v : View) (now : ℕ) (fl : Option Flight) → Started now fl → FlightOk v (now + 1) fl
invalidated-FlightOk v now none h = tt
invalidated-FlightOk v now (some fl) h =
    (omega (arith, h), later_read v v now fl.generation fl.read h)

landed :
    (at : ℕ) (fl : Flight) (o : Option (List Agent)) (s : System)
    → Coherent s
    → ReadOk s.view s.cache.generation fl.generation o
    → Coherent (land at fl o s)
unfolding end_fetch
landed at fl none s h r = h
landed at fl (some l) s h r = elim (Bool-cases (eqb s.cache.generation fl.generation)) [
  | inl e ↦ rw e (inr (is_current r e), tt)
  | inr e ↦ rw e (h.0, tt)
]
  where
    is_current :
        (eqb s.cache.generation fl.generation ≡ false) ⊎ (l ≡ fetch_enabled_agents s.view)
        → eqb s.cache.generation fl.generation ≡ true
        → l ≡ fetch_enabled_agents s.view
    is_current (inl q) e = cc (q, e)
    is_current (inr q) e = q

landed_flight :
    (at : ℕ) (o : Option Flight) (s : System)
    → Coherent s
    → FlightOk s.view s.cache.generation o
    → Coherent (land_flight at o s)
landed_flight at none s h f = h
landed_flight at (some fl) s h f = landed at fl fl.read s h f.1

-- What a read of the store gives stays the same.
abbrev pub IsQuiet : Step → Type 0
IsQuiet (changes v) = ⊥
IsQuiet _ = Unit

step-Coherent : (x : Step) (s : System) → IsQuiet x → Coherent s → Coherent (step x s)
unfolding step begin_fetch invalidate_agent_cache
step-Coherent (enters at) s q h = elim (Bool-cases (serves at s.cache)) [
  | inl e ↦ rw e h
  | inr e ↦ rw e (h.0, (omega arith, tt))
]
step-Coherent reads_store s q h = (h.0, read-FlightOk s.view s.cache.generation s.flight h.1)
step-Coherent (returns at) s q h = landed_flight at s.flight s h h.1
step-Coherent (changes v) s q h = elim q [ ]
step-Coherent invalidates s q h =
    (inl refl, invalidated-FlightOk s.view s.cache.generation s.flight (started s.flight h.1))
  where
    started :
        (o : Option Flight) → FlightOk s.view s.cache.generation o → Started s.cache.generation o
    started none f = tt
    started (some fl) f = f.0

steps-Coherent : (xs : List Step) (s : System) → All IsQuiet xs → Coherent s → Coherent (steps xs s)
unfolding steps
steps-Coherent [] s q h = h
steps-Coherent (x ∷ xs) s q h = steps-Coherent xs (step x s) q.1 (step-Coherent x s q.0 h)

-- Whatever happens, a flight began under a generation that has been.
landed-Started :
    (at : ℕ) (o : Option Flight) (s : System)
    → s.flight ≡ o
    → Started s.cache.generation o
    → Started (land_flight at o s).cache.generation (land_flight at o s).flight
unfolding end_fetch
landed-Started at none s e h = rw e tt
landed-Started at (some fl) s e h = on_read fl.read
  where
    on_read :
        (r : Option (List Agent))
        → Started (land at fl r s).cache.generation (land at fl r s).flight
    on_read none = rw e h
    on_read (some l) = tt

step-Started :
    (x : Step) (s : System)
    → Started s.cache.generation s.flight
    → Started (step x s).cache.generation (step x s).flight
unfolding step begin_fetch invalidate_agent_cache
step-Started (enters at) s h = elim (Bool-cases (serves at s.cache)) [
  | inl e ↦ rw e h
  | inr e ↦ rw e (omega arith)
]
step-Started reads_store s h = read s.flight h
  where
    read :
        (o : Option Flight)
        → Started s.cache.generation o
        → Started s.cache.generation (read_now s.view o)
    read none f = tt
    read (some fl) f = f
step-Started (returns at) s h = landed-Started at s.flight s refl h
step-Started (changes v) s h = h
step-Started invalidates s h = later s.flight h
  where
    later : (o : Option Flight) → Started s.cache.generation o → Started (s.cache.generation + 1) o
    later none f = tt
    later (some fl) f = omega (arith, f)

steps-Started :
    (xs : List Step) (s : System)
    → Started s.cache.generation s.flight
    → Started (steps xs s).cache.generation (steps xs s).flight
unfolding steps
steps-Started [] s h = h
steps-Started (x ∷ xs) s h = steps-Started xs (step x s) (step-Started x s h)

-- Once the cache of enabled agents has been invalidated, whatever calls, reads, returns, changes and
-- invalidations went before, with a refresh under way or not, a list that the cache holds as valid
-- is the one that a read of the store would give (the empty one where that fails), for as long as
-- what a read gives does not change. Between a change, or a failure of the store, and the next
-- invalidation nothing is said.
pub cache-Current :
    (before after : List Step) (s : System)
    → s.flight ≡ none
    → All IsQuiet after
    → Current (steps after (step invalidates (steps before s)))
unfolding step invalidate_agent_cache
cache-Current before after s f quiet =
    let u = steps before s in
    let begun : Started u.cache.generation u.flight = steps-Started before s (rw f tt) in
    (steps-Coherent after (step invalidates u) quiet
      (inl refl, invalidated-FlightOk u.view u.cache.generation u.flight begun)).0
