-- ===== src/Agent/Pruned.antt =====
-- What the cap on an agent's history leaves alone (src/ai/agents.go, pruneAgentRunsToLimit).
use mogenius_operator.Prelude.{
  String, Bool, true, false, Option, none, some, List, [], ◌∷◌, ◌==◌, ◌≡◌, ◌⊎◌, refl, ◌∙◌, arith,
  drop, contains, eq_iff, Bool-cases, inl, inr,
}
use mogenius_operator.Prelude.Assoc.{lookup}
use mogenius_operator.Task.{
  AiTask, AiTaskState, pending, in_progress, cancelling, proposed, executing,
}
use mogenius_operator.Task.Store.{
  Faults, World, Item, task, ignore, drop_key, get_task_by_key, parse_item, send_ai_delete_event,
}
use mogenius_operator.Task.Laws.{IsTaskKey, lookup-drop_key, lookup-steps_dropped}
use mogenius_operator.Agent.History.{
  AgentRunGroup, open_agent_task_states, keeps_run, is_open_group, after_drop, drop_group,
  prune_group, prune_groups, prune_scanned, prune_agent_runs_to_limit, group_agent_run_keys,
  max_agent_run_history,
}

-- A task that is queued, running, or waiting for a decision.
abbrev pub is_unfinished : AiTaskState → Bool
is_unfinished pending = true
is_unfinished in_progress = true
is_unfinished cancelling = true
is_unfinished proposed = true
is_unfinished executing = true
is_unfinished _ = false

unfinished_lem : (s : AiTaskState) → is_unfinished s ≡ true → open_agent_task_states s ≡ true
unfolding open_agent_task_states
unfinished_lem pending h = refl
unfinished_lem in_progress h = refl
unfinished_lem cancelling h = refl
unfinished_lem proposed h = refl
unfinished_lem executing h = refl
unfinished_lem _ h = cc h

after_drop_other :
    (f : Faults) (key j : String) (w : World)
    → IsTaskKey j
    → (key == j) ≡ false
    → lookup j (after_drop f key (drop_key f key w)).db ≡ lookup j w.db
unfolding send_ai_delete_event drop_key
after_drop_other f key j w h d =
    ground
      (arith, lookup-drop_key f key j w, lookup-steps_dropped f key j (ignore (drop_key f key w)) h)

drop_group_other :
    (f : Faults) (keys : List String) (j : String) (w : World)
    → IsTaskKey j
    → contains keys j ≡ false
    → lookup j (drop_group f keys w).db ≡ lookup j w.db
unfolding drop_group
drop_group_other f [] j w h n = refl
drop_group_other f (key ∷ keys) j w h n =
    drop_group_other f keys j (after_drop f key (drop_key f key w)) h (ground arith)
    ∙ after_drop_other f key j w h (ground arith)

reads_open :
    (f : Faults) (j : String) (t : AiTask) (w : World)
    → lookup j w.db ≡ some (task t)
    → open_agent_task_states t.state ≡ true
    → keeps_run (get_task_by_key f j w) ≡ true
unfolding get_task_by_key parse_item
reads_open f j t w l o = ground (arith, l, o)

holds_open :
    (f : Faults) (j : String) (t : AiTask) (w : World) (keys : List String)
    → lookup j w.db ≡ some (task t)
    → open_agent_task_states t.state ≡ true
    → is_open_group f w keys ≡ false
    → contains keys j ≡ false
holds_open f j t w [] l o n = refl
holds_open f j t w (key ∷ keys) l o n = elim (Bool-cases (key == j)) [
  | inl e ↦ ground (arith, reads_open f j t w l o, eq_iff key j)
  | inr e ↦ ground (arith, holds_open f j t w keys l o)
]

prune_group_open :
    (f : Faults) (keys : List String) (j : String) (t : AiTask) (w : World) (b : Bool)
    → IsTaskKey j
    → lookup j w.db ≡ some (task t)
    → open_agent_task_states t.state ≡ true
    → is_open_group f w keys ≡ b
    → lookup j (prune_group f keys w b).db ≡ some (task t)
prune_group_open f keys j t w true h l o e = l
prune_group_open f keys j t w false h l o e =
    drop_group_other f keys j w h (holds_open f j t w keys l o e) ∙ l

prune_groups_open :
    (f : Faults) (groups : List AgentRunGroup) (j : String) (t : AiTask) (w : World)
    → IsTaskKey j
    → lookup j w.db ≡ some (task t)
    → open_agent_task_states t.state ≡ true
    → lookup j (prune_groups f groups w).db ≡ some (task t)
unfolding prune_groups
prune_groups_open f [] j t w h l o = l
prune_groups_open f (g ∷ groups) j t w h l o =
    prune_groups_open f groups j t (prune_group f g.keys w (is_open_group f w g.keys)) h
      (prune_group_open f g.keys j t w (is_open_group f w g.keys) h l o refl) o

prune_scanned_open :
    (f : Faults) (keys : Option (List String)) (j : String) (t : AiTask) (w : World)
    → IsTaskKey j
    → lookup j w.db ≡ some (task t)
    → open_agent_task_states t.state ≡ true
    → lookup j (prune_scanned f w keys).db ≡ some (task t)
prune_scanned_open f none j t w h l o = l
prune_scanned_open f (some keys) j t w h l o =
    prune_groups_open f (drop max_agent_run_history (group_agent_run_keys keys)) j t w h l o

-- The cap on an agent's history never deletes a task that is pending, in progress, cancelling,
-- proposed or executing, whatever runs the scan found and whatever calls of the store fail. A failed
-- task with attempts left is not among those.
pub prune_keeps_open :
    (f : Faults) (scan : String → Option (List String)) (agent_name j : String) (t : AiTask)
    (w : World)
    → IsTaskKey j
    → lookup j w.db ≡ some (task t)
    → is_unfinished t.state ≡ true
    → lookup j (prune_agent_runs_to_limit f scan agent_name w).db ≡ some (task t)
unfolding prune_agent_runs_to_limit
prune_keeps_open f scan agent_name j t w h l o =
    ground (arith, prune_scanned_open f (scan agent_name) j t w h l (unfinished_lem t.state o), l)

-- An entry that stays as it is, or goes.
abbrev pub StaysOrGoes : Option Item → Option Item → Type 0
StaysOrGoes before after = (after ≡ before) ⊎ (after ≡ none)

stays_again : (a b c : Option Item) → StaysOrGoes a b → StaysOrGoes b c → StaysOrGoes a c
stays_again a b c (inl p) (inl q) = inl (q ∙ p)
stays_again a b c (inr p) (inl q) = inr (q ∙ p)
stays_again a b c p (inr q) = inr q

after_drop_stays :
    (f : Faults) (key j : String) (w : World)
    → IsTaskKey j
    → StaysOrGoes (lookup j w.db) (lookup j (after_drop f key (drop_key f key w)).db)
unfolding send_ai_delete_event drop_key
after_drop_stays f key j w h =
    ground
      (arith, lookup-drop_key f key j w, lookup-steps_dropped f key j (ignore (drop_key f key w)) h)

drop_group_stays :
    (f : Faults) (keys : List String) (j : String) (w : World)
    → IsTaskKey j
    → StaysOrGoes (lookup j w.db) (lookup j (drop_group f keys w).db)
unfolding drop_group
drop_group_stays f [] j w h = inl refl
drop_group_stays f (key ∷ keys) j w h =
    let next = after_drop f key (drop_key f key w) in
    stays_again (lookup j w.db) (lookup j next.db) (lookup j (drop_group f keys next).db)
      (after_drop_stays f key j w h) (drop_group_stays f keys j next h)

prune_group_stays :
    (f : Faults) (keys : List String) (j : String) (w : World) (b : Bool)
    → IsTaskKey j
    → StaysOrGoes (lookup j w.db) (lookup j (prune_group f keys w b).db)
prune_group_stays f keys j w true h = inl refl
prune_group_stays f keys j w false h = drop_group_stays f keys j w h

prune_groups_stays :
    (f : Faults) (groups : List AgentRunGroup) (j : String) (w : World)
    → IsTaskKey j
    → StaysOrGoes (lookup j w.db) (lookup j (prune_groups f groups w).db)
unfolding prune_groups
prune_groups_stays f [] j w h = inl refl
prune_groups_stays f (g ∷ groups) j w h =
    let b = is_open_group f w g.keys in
    let next = prune_group f g.keys w b in
    stays_again (lookup j w.db) (lookup j next.db) (lookup j (prune_groups f groups next).db)
      (prune_group_stays f g.keys j w b h) (prune_groups_stays f groups j next h)

prune_scanned_stays :
    (f : Faults) (keys : Option (List String)) (j : String) (w : World)
    → IsTaskKey j
    → StaysOrGoes (lookup j w.db) (lookup j (prune_scanned f w keys).db)
prune_scanned_stays f none j w h = inl refl
prune_scanned_stays f (some keys) j w h =
    prune_groups_stays f (drop max_agent_run_history (group_agent_run_keys keys)) j w h

-- The cap changes no task: it leaves an entry or deletes it.
pub prune-StaysOrGoes :
    (f : Faults) (scan : String → Option (List String)) (agent_name j : String) (w : World)
    → IsTaskKey j
    → StaysOrGoes (lookup j w.db) (lookup j (prune_agent_runs_to_limit f scan agent_name w).db)
unfolding prune_agent_runs_to_limit
prune-StaysOrGoes f scan agent_name j w h = elim (Bool-cases (agent_name == "")) [
  | inl e ↦ ground (arith, e)
  | inr e ↦ ground (arith, prune_scanned_stays f (scan agent_name) j w h, e)
]
