-- ===== src/Agent/Laws.antt =====
-- What queues a run of an agent, and when the triggers do (src/ai/agents.go).
use Prim.Native.String.{◌++◌}
use mogenius_operator.Prelude.{
  ℕ, ◌-◌, ◌<◌, String, Bool, true, false, Option, none, some, List, [], ◌∷◌, ◌≡◌, refl, sym, ◌∙◌,
  any, In, inl, inr, subst, arith, eq_refl,
}
use mogenius_operator.Prelude.Assoc.{insert, lookup, lookup-insert}
use mogenius_operator.Prelude.Decimal.{decimal}
use mogenius_operator.Prelude.Text.{has_prefix, has_prefix-append}
use mogenius_operator.Access.{User}
use mogenius_operator.Task.{AiTask, AiTaskState, pending, in_progress, cancelling}
use mathlib.Core.Option.{some-injective}
use mogenius_operator.Task.Store.{
  get_task_by_key, parse_item, Faults, World, task, Result, ok, err, create_or_update_ai_task,
}
use mogenius_operator.Task.Laws.{IsTaskKey, lookup-save, save_result}
use mogenius_operator.Agent.{
  Agent, AgentChangeTrigger, View, given, change_cooldown, resolve_agent_scope,
}
use mogenius_operator.Agent.Runs.{
  is_open, reads_open, Board, agent_run_key_prefix, has_open_agent_run, run_task, after_create,
  with_open, enqueue_agent_run, run_in_scope, create_agent_run_task,
}
use mogenius_operator.Agent.Triggers.{
  ChangedObject, change_cooldown_elapsed, wake, trigger_change_agent,
}

run_key-IsTaskKey : (ns name rest : String) → IsTaskKey (agent_run_key_prefix ns name ++ rest)
unfolding agent_run_key_prefix has_prefix
run_key-IsTaskKey ns name rest =
    has_prefix-append "ai_tasks:" ("ai_tasks:Agent:" ++ ns ++ ":" ++ name ++ "-run-") rest
      (has_prefix-append "ai_tasks:" "ai_tasks:Agent:" (ns ++ ":" ++ name ++ "-run-") refl)

-- A run that is queued or works; one that waits for a decision is not.
abbrev pub is_queued_or_works : AiTaskState → Bool
is_queued_or_works pending = true
is_queued_or_works in_progress = true
is_queued_or_works cancelling = true
is_queued_or_works _ = false

-- What the scan found, and that the store holds no task under its keys that can be read and is
-- queued or works.
pub record NoneOpen (f : Faults) (keys : Option (List String)) (w : World) : Type 0 where
  pub found : List String
  pub scanned : keys ≡ some found
  pub none_open :
      (key : String) (t : AiTask)
      → In key found
      → f.get_fails key ≡ false
      → lookup key w.db ≡ some (task t)
      → is_queued_or_works t.state ≡ false

open_lem : (s : AiTaskState) → is_open s ≡ is_queued_or_works s
open_lem pending = refl
open_lem in_progress = refl
open_lem cancelling = refl
open_lem _ = refl

reads_open_lem :
    (f : Faults) (key : String) (t : AiTask) (w : World)
    → f.get_fails key ≡ false
    → lookup key w.db ≡ some (task t)
    → reads_open (get_task_by_key f key w) ≡ is_queued_or_works t.state
unfolding get_task_by_key parse_item
reads_open_lem f key t w g l = rw (g, l) (open_lem t.state)

any-none :
    (p : String → Bool) (keys : List String) (key : String)
    → any p keys ≡ false
    → In key keys
    → p key ≡ false
any-none p [] key h i = elim i [ ]
any-none p (x ∷ xs) key h (inl e) = rw e (ground (arith, h))
any-none p (x ∷ xs) key h (inr i) = any-none p xs key (ground (arith, h)) i

has_open_agent_run-NoneOpen :
    (f : Faults) (keys : Option (List String)) (w : World)
    → has_open_agent_run f keys w ≡ some false
    → NoneOpen f keys w
unfolding has_open_agent_run
has_open_agent_run-NoneOpen f none w h = cc h
has_open_agent_run-NoneOpen f (some found) w h =
    let reads = λ (key : String). reads_open (get_task_by_key f key w) in
    let unread : any reads found ≡ false = some-injective (any reads found) false h in
    record {
      found = found;
      scanned = refl;
      none_open =
          λ key t i g l. sym (reads_open_lem f key t w g l) ∙ any-none reads found key unread i;
    }

-- What a queued run is: stored as pending under a key of the task bucket, with the agent's name
-- and scope, while no run that the scan found was queued or at work, and remembered as the agent's
-- last run.
pub record Queued (f : Faults) (keys : Option (List String)) (at : ℕ) (a : Agent)
    (namespaces : List String) (b : Board) (t : AiTask) (after : Board) : Type 0 where
  pub none_open : NoneOpen f keys b.world
  pub key : IsTaskKey t.id
  pub stored : lookup t.id after.world.db ≡ some (task t)
  pub waits : t.state ≡ pending
  pub of_agent : t.agent_ref ≡ a.name
  pub scope : t.scope_namespaces ≡ namespaces
  pub remembered : lookup a.name after.last_agent_run ≡ some at

stored_as :
    (f : Faults) (t saved : AiTask) (w after : World)
    → IsTaskKey t.id
    → t.updated_at ≡ w.now
    → create_or_update_ai_task f t t.id w ≡ (ok saved, after)
    → (saved ≡ record t { updated_at = w.now }) × (lookup t.id after.db ≡ some (task saved))
stored_as f t saved w after k u h =
    let works : f.set_fails t.id ≡ false = ground (arith, save_result f t t.id w, h) in
    let same : saved ≡ record t { updated_at = w.now } =
      ground (arith, save_result f t t.id w, h, works) in
    (same, ground (arith, lookup-save f t t.id t.id w k, h, works, same, eq_refl t.id))

enqueued :
    (f : Faults) (keys : Option (List String)) (at : ℕ) (a : Agent) (namespaces : List String)
    (b : Board) (t : AiTask) (r : Result AiTask × World) (saved : AiTask) (after : Board)
    → has_open_agent_run f keys b.world ≡ some false
    → IsTaskKey t.id
    → t.state ≡ pending
    → t.agent_ref ≡ a.name
    → t.scope_namespaces ≡ namespaces
    → t.updated_at ≡ b.world.now
    → create_or_update_ai_task f t t.id b.world ≡ r
    → after_create at a b r ≡ (given saved, after)
    → Queued f keys at a namespaces b saved after
enqueued f keys at a namespaces b t (err e, w) saved after o k s g n u q h = ground arith
enqueued f keys at a namespaces b t (ok x, w) saved after o k s g n u q h =
    let (same, stored) = stored_as f t x b.world w k u q in
    let is_saved : x ≡ saved = cc h in
    let is_after : record b { world = w; last_agent_run = insert a.name at b.last_agent_run }
        ≡ after =
      cc h in
    subst (λ y. Queued f keys at a namespaces b y after) is_saved
      (subst (Queued f keys at a namespaces b x) is_after (record {
        none_open = has_open_agent_run-NoneOpen f keys b.world o;
        key = rw same k;
        stored = rw same (rw (← same) stored);
        waits = rw same s;
        of_agent = rw same g;
        scope = rw same n;
        remembered =
            ground (arith, lookup-insert a.name a.name at b.last_agent_run, eq_refl a.name);
      }))

enqueue_on :
    (f : Faults) (keys : Option (List String)) (at : ℕ) (a : Agent) (namespaces : List String)
    (b : Board) (t saved : AiTask) (after : Board) (o : Option Bool)
    → has_open_agent_run f keys b.world ≡ o
    → IsTaskKey t.id
    → t.state ≡ pending
    → t.agent_ref ≡ a.name
    → t.scope_namespaces ≡ namespaces
    → t.updated_at ≡ b.world.now
    → with_open o a.name b (after_create at a b (create_or_update_ai_task f t t.id b.world))
      ≡ (given saved, after)
    → Queued f keys at a namespaces b saved after
enqueue_on f keys at a namespaces b t saved after none o k s g n u h = ground arith
enqueue_on f keys at a namespaces b t saved after (some true) o k s g n u h = ground arith
enqueue_on f keys at a namespaces b t saved after (some false) o k s g n u h =
    enqueued f keys at a namespaces b t (create_or_update_ai_task f t t.id b.world) saved after o k
      s g n u refl h

enqueue_agent_run-Queued :
    (f : Faults) (keys : Option (List String)) (at : ℕ) (a : Agent) (ns : String)
    (namespaces : List String) (trigger : String) (user : Option User) (prompt : String) (b : Board)
    (t : AiTask) (after : Board)
    → enqueue_agent_run f keys at a ns namespaces trigger user prompt b ≡ (given t, after)
    → Queued f keys at a namespaces b t after
unfolding enqueue_agent_run
enqueue_agent_run-Queued f keys at a ns namespaces trigger user prompt b t after h =
    let key = agent_run_key_prefix ns a.name ++ decimal b.world.now in
    enqueue_on f keys at a namespaces b (run_task key a namespaces trigger user prompt b.world.now)
      t after (has_open_agent_run f keys b.world) refl
      (run_key-IsTaskKey ns a.name (decimal b.world.now)) refl refl refl refl h

run_in_scope-Queued :
    (f : Faults) (keys : Option (List String)) (at : ℕ) (a : Agent) (namespaces : List String)
    (trigger : String) (user : Option User) (b : Board) (t : AiTask) (after : Board)
    → run_in_scope f keys at a namespaces trigger user b ≡ (given t, after)
    → Queued f keys at a namespaces b t after
unfolding run_in_scope
run_in_scope-Queued f keys at a [] trigger user b t after h = ground arith
run_in_scope-Queued f keys at a (ns ∷ rest) trigger user b t after h =
    enqueue_agent_run-Queued f keys at a ns (ns ∷ rest) trigger user _ b t after h

-- A run that is created for an agent, by a user or by its schedule, is stored as pending under a
-- key of the task bucket, with the agent's whole scope; the scan of the agent's runs worked, none of
-- the tasks that it found and that can be read was pending, in progress or cancelling (a run that
-- waits for a decision does not count), and the run counts as the agent's last one.
pub created_run-Queued :
    (f : Faults) (keys : Option (List String)) (at : ℕ) (v : View) (a : Agent) (trigger : String)
    (user : Option User) (b : Board) (t : AiTask) (after : Board)
    → create_agent_run_task f keys at v a trigger user b ≡ (given t, after)
    → Queued f keys at a (resolve_agent_scope v a) b t after
unfolding create_agent_run_task
created_run-Queued f keys at v a trigger user b t after h =
    run_in_scope-Queued f keys at a (resolve_agent_scope v a) trigger user b t after h

cooled :
    (f : Faults) (scan : String → Option (List String)) (last later : ℕ) (v : View) (a : Agent)
    (obj : ChangedObject) (change_type : String) (b : Board) (o : Option AgentChangeTrigger)
    → lookup a.name b.last_agent_run ≡ some last
    → later - last < change_cooldown o
    → wake f scan later v obj change_type a b o ≡ b
unfolding change_cooldown_elapsed
cooled f scan last later v a obj change_type b none h c = refl
cooled f scan last later v a obj change_type b (some oc) h c = ground (arith, h, c)

-- The cooldown: after a run of an agent at some time, a change that comes before the agent's
-- cooldown has passed wakes it for nothing: the tasks and the memory of the manager stay as they
-- are.
pub cooldown_holds :
    (f : Faults) (scan : String → Option (List String)) (last later : ℕ) (v : View) (a : Agent)
    (obj : ChangedObject) (change_type : String) (b : Board)
    → lookup a.name b.last_agent_run ≡ some last
    → later - last < change_cooldown a.spec.triggers.on_change
    → trigger_change_agent f scan later v obj change_type a b ≡ b
unfolding trigger_change_agent
cooldown_holds f scan last later v a obj change_type b h c =
    cooled f scan last later v a obj change_type b a.spec.triggers.on_change h c
