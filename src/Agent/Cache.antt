-- ===== src/Agent/Cache.antt =====
-- src/ai/agents.go: getEnabledAgents and invalidateAgentCache. A call that refreshes the cache holds
-- the lock twice, before and after it reads the store; what other goroutines do in between enters
-- as steps. Times are in nanoseconds.
use mogenius_operator.Prelude.{
  ℕ, ◌+◌, ◌-◌, Bool, true, false, ◌&&◌, ◌||◌, Option, none, some, List, [], ◌∷◌, if◌then◌else◌, eqb,
  ltb,
}
use mogenius_operator.Agent.{Agent, View, fetch_enabled_agents}

pub record AgentCache : Type 0 where
  pub fetching : Bool
  pub is_valid : Bool
  pub time : ℕ
  pub cached : List Agent
  pub generation : ℕ

abbrev pub agent_cache_ttl : ℕ
agent_cache_ttl = 30_000_000_000

-- The first locked section: the cached list is served, or else a fetch starts.
abbrev pub serves : ℕ → AgentCache → Bool
serves now c = c.fetching || c.is_valid && ltb (now - c.time) agent_cache_ttl

unfoldable pub begin_fetch : AgentCache → AgentCache
begin_fetch c = record c { fetching = true }

-- The second locked section; `generation` is what the first one saw.
unfoldable pub end_fetch : ℕ → ℕ → List Agent → AgentCache → AgentCache
end_fetch now generation enabled c =
    if eqb c.generation generation
    then record c { fetching = false; cached = enabled; time = now; is_valid = true }
    else record c { fetching = false }

unfoldable pub invalidate_agent_cache : AgentCache → AgentCache
invalidate_agent_cache c = record c { generation = c.generation + 1; is_valid = false }

-- A refresh between its locked sections, with the list once it is read.
pub record Flight : Type 0 where
  pub generation : ℕ
  pub read : Option (List Agent)

pub record System : Type 0 where
  pub cache : AgentCache
  pub view : View
  pub flight : Option Flight

-- What goroutines do: a call enters, the refresh reads the store, the refresh returns; what a read of
-- the store gives changes, with the agents or with a failure or recovery of the store; and, later
-- and apart, a watch event invalidates the cache.
pub data Step : Type 0 where
  enters : ℕ → Step
  reads_store : Step
  returns : ℕ → Step
  changes : View → Step
  invalidates : Step

abbrev pub read_now : View → Option Flight → Option Flight
read_now v none = none
read_now v (some fl) = some (record fl { read = some (fetch_enabled_agents v) })

abbrev pub land : ℕ → Flight → Option (List Agent) → System → System
land now fl none s = s
land now fl (some enabled) s = record s {
  cache = end_fetch now fl.generation enabled s.cache;
  flight = none;
}

abbrev pub land_flight : ℕ → Option Flight → System → System
land_flight now none s = s
land_flight now (some fl) s = land now fl fl.read s

unfoldable pub step : Step → System → System
unfolding begin_fetch end_fetch invalidate_agent_cache
step (enters now) s = if serves now s.cache then s else record s {
  cache = begin_fetch s.cache;
  flight = some (record { generation = s.cache.generation; read = none });
}
step reads_store s = record s { flight = read_now s.view s.flight }
step (returns now) s = land_flight now s.flight s
step (changes v) s = record s { view = v }
step invalidates s = record s { cache = invalidate_agent_cache s.cache }

unfoldable pub steps : List Step → System → System
unfolding step
steps [] s = s
steps (x ∷ xs) s = steps xs (step x s)
