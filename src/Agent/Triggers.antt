-- ===== src/Agent/Triggers.antt =====
-- src/ai/agents.go: the change trigger and the cron trigger of agents. A loop runs over the enabled
-- agents; `scan` is the scan for the runs of an agent. Times are in nanoseconds.
use mogenius_operator.Prelude.{
  ℕ, ◌-◌, String, Bool, true, false, ◌&&◌, ◌||◌, Option, none, some, List, [], ◌∷◌, ◌==◌,
  if◌then◌else◌, is_empty, any, contains, leb,
}
use mogenius_operator.Prelude.Assoc.{insert, lookup}
use mogenius_operator.Task.{AiTask}
use mogenius_operator.Task.Store.{Faults}
use mogenius_operator.Agent.{
  Agent, AgentChangeTrigger, Attempt, View, change_cooldown, resolve_agent_scope,
  fetch_enabled_agents,
}
use mogenius_operator.Agent.Runs.{Board, create_agent_event_task, create_agent_run_task}

-- What the code reads of a changed object; `manifest` is its compact text.
pub record ChangedObject : Type 0 where
  pub kind : String
  pub namespace : String
  pub manifest : String

unfoldable pub change_type_selected : List String → String → Bool
change_type_selected on change_type = if is_empty on then true else contains on change_type

unfoldable pub kind_selected : List String → String → Bool
kind_selected kinds kind = if is_empty kinds then true else contains kinds kind

unfoldable pub namespace_selected : List String → String → Bool
namespace_selected scope namespace = any (λ ns. ns == "*" || ns == namespace) scope

abbrev elapsed : ℕ → Option AgentChangeTrigger → Option ℕ → Bool
elapsed at oc none = true
elapsed at oc (some last) = leb (change_cooldown oc) (at - last)

unfoldable pub change_cooldown_elapsed : ℕ → String → Option AgentChangeTrigger → Board → Bool
change_cooldown_elapsed at name oc b = elapsed at oc (lookup name b.last_agent_run)

abbrev pub board_of : Attempt AiTask × Board → Board
board_of (r, b) = b

-- The guards of the loop's body.
abbrev pub is_woken : ℕ → View → Agent → AgentChangeTrigger → ChangedObject → String → Board → Bool
is_woken at v a oc obj change_type b =
    change_type_selected oc.on change_type
    && kind_selected oc.kinds obj.kind
    && namespace_selected (resolve_agent_scope v a) obj.namespace
    && change_cooldown_elapsed at a.name (some oc) b

abbrev pub wake :
    Faults
    → (String → Option (List String))
    → ℕ
    → View
    → ChangedObject
    → String
    → Agent
    → Board
    → Option AgentChangeTrigger
    → Board
wake f scan at v obj change_type a b none = b
wake f scan at v obj change_type a b (some oc) =
    if is_woken at v a oc obj change_type b
    then board_of (create_agent_event_task f (scan a.name) at v a obj.manifest change_type b)
    else b

unfoldable pub trigger_change_agent :
    Faults
    → (String → Option (List String))
    → ℕ
    → View
    → ChangedObject
    → String
    → Agent
    → Board
    → Board
trigger_change_agent f scan at v obj change_type a b =
    wake f scan at v obj change_type a b a.spec.triggers.on_change

unfoldable pub trigger_each :
    Faults
    → (String → Option (List String))
    → ℕ
    → View
    → ChangedObject
    → String
    → List Agent
    → Board
    → Board
trigger_each f scan at v obj change_type [] b = b
trigger_each f scan at v obj change_type (a ∷ agents) b =
    trigger_each f scan at v obj change_type agents
      (trigger_change_agent f scan at v obj change_type a b)

unfoldable pub trigger_change_agents :
    Faults → (String → Option (List String)) → ℕ → View → ChangedObject → String → Board → Board
unfolding trigger_each
trigger_change_agents f scan at v obj change_type b =
    trigger_each f scan at v obj change_type (fetch_enabled_agents v) b

-- `next` is the cron library's schedule: `none` where the expression does not parse, else the
-- first time after another that fits.
abbrev cron_fires :
    Faults → (String → Option (List String)) → ℕ → View → Agent → Bool → Board → Board
cron_fires f scan at v a true b = board_of (
    create_agent_run_task f (scan a.name) at v a "cron" none
      (record b { last_cron_run = insert a.name at b.last_cron_run }))
cron_fires f scan at v a false b = b

-- The first sighting anchors the schedule at the time of the call.
abbrev cron_seen :
    Faults → (String → Option (List String)) → ℕ → View → Agent → (ℕ → ℕ) → Option ℕ → Board → Board
cron_seen f scan at v a next none b = record b { last_cron_run = insert a.name at b.last_cron_run }
cron_seen f scan at v a next (some last) b = cron_fires f scan at v a (leb (next last) at) b

unfoldable pub process_agent_cron :
    (String → Option (ℕ → ℕ))
    → Faults
    → (String → Option (List String))
    → ℕ
    → View
    → Agent
    → Board
    → Board
process_agent_cron parse f scan at v a b =
    if a.spec.triggers.cron == "" then b else elim (parse a.spec.triggers.cron) [
      | none ↦ b
      | some next ↦ cron_seen f scan at v a next (lookup a.name b.last_cron_run) b
    ]

unfoldable pub cron_each :
    (String → Option (ℕ → ℕ))
    → Faults
    → (String → Option (List String))
    → ℕ
    → View
    → List Agent
    → Board
    → Board
unfolding process_agent_cron
cron_each parse f scan at v [] b = b
cron_each parse f scan at v (a ∷ agents) b =
    cron_each parse f scan at v agents (process_agent_cron parse f scan at v a b)

unfoldable pub process_agent_cron_triggers :
    (String → Option (ℕ → ℕ)) → Faults → (String → Option (List String)) → ℕ → View → Board → Board
unfolding cron_each
process_agent_cron_triggers parse f scan at v b =
    cron_each parse f scan at v (fetch_enabled_agents v) b
