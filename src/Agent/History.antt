-- ===== src/Agent/History.antt =====
-- src/ai/agents.go: the history of an agent's runs, its grouping by run and its cap.
use Prim.Native.String.{compare}
use text.Mathlib.Text.{is_lt}
use mogenius_operator.Prelude.{
  ℕ, String, Bool, true, false, Option, none, some, List, ◌==◌, if◌then◌else◌, eqb, ltb, drop, any,
  [], ◌∷◌,
}
use mogenius_operator.Prelude.Sort.{sort}
use mogenius_operator.Task.{
  AiTask, AiTaskState, pending, in_progress, cancelling, proposed, executing,
}
use mogenius_operator.Task.Store.{
  Faults, World, Result, ok, err, ignore, drop_key, get_task_by_key, send_ai_delete_event,
}
use mogenius_operator.Task.Api.{run_steps_key}
use mogenius_operator.Agent.RunKey.{run_timestamp}

pub record AgentRunGroup : Type 0 where
  pub timestamp : ℕ
  pub keys : List String

unfoldable pub add_key : ℕ → String → List AgentRunGroup → List AgentRunGroup
add_key ts key [] = record { timestamp = ts; keys = key ∷ [] } ∷ []
add_key ts key (g ∷ groups) =
    let later = g ∷ add_key ts key groups in
    if eqb g.timestamp ts then record g { keys = key ∷ g.keys } ∷ groups else later

abbrev add_parsed : String → Option ℕ → List AgentRunGroup → List AgentRunGroup
add_parsed key none groups = groups
add_parsed key (some ts) groups = add_key ts key groups

unfoldable pub by_timestamp : List String → List AgentRunGroup
unfolding run_timestamp add_key
by_timestamp [] = []
by_timestamp (key ∷ keys) = add_parsed key (run_timestamp key) (by_timestamp keys)

abbrev sort_keys : AgentRunGroup → AgentRunGroup
sort_keys g = record g { keys = sort (λ a b. is_lt (compare a b)) g.keys }

abbrev sort_each : List AgentRunGroup → List AgentRunGroup
sort_each [] = []
sort_each (g ∷ groups) = sort_keys g ∷ sort_each groups

unfoldable pub group_agent_run_keys : List String → List AgentRunGroup
unfolding by_timestamp
group_agent_run_keys keys =
    sort (λ a b. ltb b.timestamp a.timestamp) (sort_each (by_timestamp keys))

abbrev pub max_agent_run_history : ℕ
max_agent_run_history = 10

unfoldable pub open_agent_task_states : AiTaskState → Bool
open_agent_task_states pending = true
open_agent_task_states in_progress = true
open_agent_task_states cancelling = true
open_agent_task_states proposed = true
open_agent_task_states executing = true
open_agent_task_states _ = false

-- A task that cannot be read keeps its run.
abbrev pub keeps_run : Result (Option AiTask) → Bool
keeps_run (err e) = true
keeps_run (ok none) = false
keeps_run (ok (some t)) = open_agent_task_states t.state

abbrev pub is_open_group : Faults → World → List String → Bool
is_open_group f w keys = any (λ key. keeps_run (get_task_by_key f key w)) keys

abbrev pub after_drop : Faults → String → Result (Unit {0}) × World → World
after_drop f key (err e, w) = w
after_drop f key (ok u, w) = send_ai_delete_event key (ignore (drop_key f (run_steps_key key) w))

unfoldable pub drop_group : Faults → List String → World → World
drop_group f [] w = w
drop_group f (key ∷ keys) w = drop_group f keys (after_drop f key (drop_key f key w))

abbrev pub prune_group : Faults → List String → World → Bool → World
prune_group f keys w true = w
prune_group f keys w false = drop_group f keys w

unfoldable pub prune_groups : Faults → List AgentRunGroup → World → World
prune_groups f [] w = w
prune_groups f (g ∷ groups) w =
    prune_groups f groups (prune_group f g.keys w (is_open_group f w g.keys))

abbrev pub prune_scanned : Faults → World → Option (List String) → World
prune_scanned f w none = w
prune_scanned f w (some keys) =
    prune_groups f (drop max_agent_run_history (group_agent_run_keys keys)) w

-- `scan` is the scan for the runs of the agent, whose failure is `none`.
unfoldable pub prune_agent_runs_to_limit :
    Faults → (String → Option (List String)) → String → World → World
prune_agent_runs_to_limit f scan agent_name w =
    if agent_name == "" then w else prune_scanned f w (scan agent_name)
