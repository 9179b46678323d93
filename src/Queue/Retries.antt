-- ===== src/Queue/Retries.antt =====
-- What a pass makes of a task that it cannot run (src/ai/aimanager.go, processAiTaskQueue).
use mogenius_operator.Prelude.{
  ℕ, ◌+◌, String, Bool, true, false, Option, none, some, List, [], ◌∷◌, ◌≡◌, ◌⊎◌, refl, ap, ◌∙◌,
  arith, if◌then◌else◌, ltb, leb, In, inl, inr, eq_refl,
}
use mogenius_operator.Prelude.Assoc.{lookup}
use mogenius_operator.Prelude.Sort.{In-sort, InOrder, sort-InOrder}
use mogenius_operator.Task.{
  AiTask, AiTaskState, max_ai_task_retries, failed, ignored, canceled, pending,
}
use mogenius_operator.Task.Store.{
  Faults, World, Item, task, Result, ok, err, get_task_by_key, create_or_update_ai_task,
}
use mogenius_operator.Task.Laws.{IsTaskKey, lookup-save}
use mogenius_operator.Access.{ToolContext, User}
use mogenius_operator.Task.Api.{cancel_task, cancel_in, load_task, canceled_by_message}
use mogenius_operator.Approval.Signals.{reads}
use mogenius_operator.Task.Machine.{saved-db}
use mogenius_operator.Model.{ModelError, done, error}
use mogenius_operator.Model.Resolve.{ResolvedModelConfig, resolve_model_config}
use mogenius_operator.Usage.{Ledger, is_model_budget_exceeded, model_budget_error}
use mogenius_operator.Agent.{Agent, given}
use mogenius_operator.Agent.Context.{build_agent_task_context}
use mogenius_operator.Queue.Settled.{Read, Read-lookup}
use mogenius_operator.Queue.Pass.{
  Manager, Setting, Entry, is_eligible, budgeted, budget_of, process_entry, over_budget, unresolved,
  save, giving_up, failed_after, select, select_read, load_pending_tasks,
}

-- What the store holds after a save that works.
saved :
    (s : Setting) (t : AiTask) (key : String) (w : World)
    → IsTaskKey key
    → s.faults.set_fails key ≡ false
    → lookup key (create_or_update_ai_task s.faults t key w).1.db
      ≡ some (task (record t { updated_at = w.now }))
saved s t key w k works = ground (arith, lookup-save s.faults t key key w k, eq_refl key, works)

-- A task that the store holds, with its state and its count of failed attempts.
pub record Left (item : Option Item) (state : AiTaskState) (retries : ℕ) : Type 0 where
  pub left : AiTask
  pub stored : item ≡ some (task left)
  pub in_state : left.state ≡ state
  pub counted : left.retries ≡ retries

module _ (s : Setting) (entry : Entry) (m : Manager) (a : Agent) (tc : ToolContext) where
  -- A task whose model has no budget left is stored as failed with the retries that it had when
  -- the pass selected it, whatever the store holds of it by then.
  pub over_budget_overwrites :
      (rc : ResolvedModelConfig)
      → IsTaskKey entry.key
      → s.faults.set_fails entry.key ≡ false
      → build_agent_task_context s.view entry.task ≡ given (a, tc)
      → resolve_model_config s.cluster (some (budget_of a.spec)) ≡ done rc
      → (is_model_budget_exceeded s.at (some rc) m.ledger).0 ≡ true
      → Left (lookup entry.key (process_entry s entry m).world.db) failed entry.task.retries
  unfolding process_entry over_budget
  over_budget_overwrites rc k works c d b =
      rw c (rw d (exhausted (is_model_budget_exceeded s.at (some rc) m.ledger) b))
    where
      exhausted :
          (r : Bool × Ledger)
          → r.0 ≡ true
          → Left
              (lookup entry.key (budgeted s entry rc a tc r m).world.db)
              failed
              entry.task.retries
      exhausted (false, ledger) e = cc e
      exhausted (true, ledger) e =
          let text = (model_budget_error s.at rc ledger).0 in
          let t = record entry.task { state = failed; error = text } in
          record {
            left = record t { updated_at = m.world.now };
            stored = saved s t entry.key m.world k works;
            in_state = refl;
            counted = refl;
          }

  -- A task whose model cannot be resolved counts one more failed attempt; it is failed, and so
  -- eligible again, while the attempts are fewer than the maximum, and else ignored for good.
  pub unresolved_counts :
      (e : ModelError)
      → IsTaskKey entry.key
      → s.faults.set_fails entry.key ≡ false
      → build_agent_task_context s.view entry.task ≡ given (a, tc)
      → resolve_model_config s.cluster (some (budget_of a.spec)) ≡ error e
      → Left
          (lookup entry.key (process_entry s entry m).world.db)
          (if ltb (entry.task.retries + 1) max_ai_task_retries then failed else ignored)
          (entry.task.retries + 1)
  unfolding process_entry unresolved
  unresolved_counts e k works c d =
      let reason = s.texts.model_error e in
      rw c (
        rw d (
          counted_on (leb max_ai_task_retries (entry.task.retries + 1)) refl k works
            (giving_up (entry.task.retries + 1) reason) reason
            (failed_after (entry.task.retries + 1) reason)))
    where
      counted_on :
          (b : Bool)
          → leb max_ai_task_retries (entry.task.retries + 1) ≡ b
          → IsTaskKey entry.key
          → s.faults.set_fails entry.key ≡ false
          → (last again status : String)
          → Left
              (lookup entry.key
                (if b
                  then save s.faults
                      (record entry.task {
                        state = ignored;
                        retries = entry.task.retries + 1;
                        error = last;
                      })
                      entry.key
                      (record m { error = status })
                  else save s.faults
                      (record entry.task {
                        state = failed;
                        retries = entry.task.retries + 1;
                        error = again;
                      })
                      entry.key
                      m).world.db)
              (if ltb (entry.task.retries + 1) max_ai_task_retries then failed else ignored)
              (entry.task.retries + 1)
      counted_on true e k works last again status =
          let t = record entry.task {
            state = ignored;
            retries = entry.task.retries + 1;
            error = last;
          } in
          record {
            left = record t { updated_at = m.world.now };
            stored = saved s t entry.key m.world k works;
            in_state = ground (arith, e);
            counted = refl;
          }
      counted_on false e k works last again status =
          let t = record entry.task {
            state = failed;
            retries = entry.task.retries + 1;
            error = again;
          } in
          record {
            left = record t { updated_at = m.world.now };
            stored = saved s t entry.key m.world k works;
            in_state = ground (arith, e);
            counted = refl;
          }

canceled_while_pending :
    (f : Faults) (id : String) (user : User) (w : World) (t : AiTask)
    → IsTaskKey id
    → lookup id w.db ≡ some (task t)
    → f.get_fails id ≡ false
    → f.set_fails id ≡ false
    → t.state ≡ pending
    → lookup id (cancel_task f id user w).1.db
      ≡ some (
          task
            (record t { state = canceled; error = canceled_by_message user; updated_at = w.now }))
unfolding cancel_task load_task cancel_in
canceled_while_pending f id user w t k l g s e =
    let t' = record t { state = canceled; error = canceled_by_message user } in
    let r = create_or_update_ai_task f t' id w in
    rw (reads f id w t l g) (
      rw e (
        ap (lookup id) (saved-db (λ v. v) r (λ v. refl))
        ∙ lookup-save f t' id id w k
        ∙ ground (arith, eq_refl id, s)))

-- A cancel that is stored, and the task that the pass then leaves.
pub record Undone (canceled_item item : Option Item) (retries : ℕ) : Type 0 where
  pub was_canceled : Left canceled_item canceled retries
  pub left : AiTask
  pub stored : item ≡ some (task left)
  pub is_failed : left.state ≡ failed
  pub runs_again : is_eligible left ≡ true

-- A user cancels a pending task after a pass has selected it, and the store then holds it as
-- canceled. Where the model of the task's agent has no budget left, the pass overwrites the cancel:
-- the store holds the task as failed, and it is eligible for the next passes, when its retries are
-- below the maximum.
pub over_budget_resurrects :
    (s : Setting) (entry : Entry) (m : Manager) (a : Agent) (tc : ToolContext)
    (rc : ResolvedModelConfig) (f : Faults) (user : User)
    → IsTaskKey entry.key
    → lookup entry.key m.world.db ≡ some (task entry.task)
    → entry.task.state ≡ pending
    → ltb entry.task.retries max_ai_task_retries ≡ true
    → f.get_fails entry.key ≡ false
    → f.set_fails entry.key ≡ false
    → s.faults.set_fails entry.key ≡ false
    → build_agent_task_context s.view entry.task ≡ given (a, tc)
    → resolve_model_config s.cluster (some (budget_of a.spec)) ≡ done rc
    → (is_model_budget_exceeded s.at (some rc) m.ledger).0 ≡ true
    → Undone
        (lookup entry.key (cancel_task f entry.key user m.world).1.db)
        (lookup entry.key
          (process_entry s entry
            (record m { world = (cancel_task f entry.key user m.world).1 })).world.db)
        entry.task.retries
over_budget_resurrects s entry m a tc rc f user k l waits few g w works c d b =
    let after = record m { world = (cancel_task f entry.key user m.world).1 } in
    let kept = over_budget_overwrites s entry after a tc rc k works c d b in
    record {
      was_canceled = record {
        left = record entry.task {
          state = canceled;
          error = canceled_by_message user;
          updated_at = m.world.now;
        };
        stored = canceled_while_pending f entry.key user m.world entry.task k l g w waits;
        in_state = refl;
        counted = refl;
      };
      left = kept.left;
      stored = kept.stored;
      is_failed = kept.in_state;
      runs_again = rw (kept.in_state, kept.counted, few) refl;
    }

selected :
    (f : Faults) (key : String) (w : World) (r : Result (Option AiTask)) (later : List Entry)
    (e : Entry)
    → Read f key w r
    → In e (select_read key r later)
    → In e later ⊎ ((lookup e.key w.db ≡ some (task e.task)) × (is_eligible e.task ≡ true))
selected f key w (err x) later e read i = inl i
selected f key w (ok none) later e read i = inl i
selected f key w (ok (some t)) later e read i = among (is_eligible t) refl i
  where
    among :
        (b : Bool)
        → is_eligible t ≡ b
        → In e (if b then record { key = key; task = t } ∷ later else later)
        → In e later ⊎ ((lookup e.key w.db ≡ some (task e.task)) × (is_eligible e.task ≡ true))
    among false q i = inl i
    among true q (inr i) = inl i
    among true q (inl same) = inr (rw same (read, q))

select-In :
    (f : Faults) (keys : List String) (w : World) (e : Entry)
    → In e (select f keys w)
    → (lookup e.key w.db ≡ some (task e.task)) × (is_eligible e.task ≡ true)
unfolding select
select-In f [] w e i = elim i [ ]
select-In f (key ∷ keys) w e i =
    elim (selected f key w (get_task_by_key f key w) (select f keys w) e (Read-lookup f key w) i) [
      | inl j ↦ select-In f keys w e j
      | inr found ↦ found
    ]

-- Every task that a pass takes up is in the store, pending or failed with fewer attempts than the
-- maximum.
pub load_pending_tasks-In :
    (f : Faults) (keys : List String) (w : World) (e : Entry)
    → In e (load_pending_tasks f keys w)
    → (lookup e.key w.db ≡ some (task e.task)) × (is_eligible e.task ≡ true)
unfolding load_pending_tasks
load_pending_tasks-In f keys w e i =
    select-In f keys w e
      (In-sort (λ (a b : Entry). ltb a.task.created_at b.task.created_at) (select f keys w) e i)

-- The pass takes up its tasks by their age, the oldest first.
pub load_pending_tasks-InOrder :
    (f : Faults) (keys : List String) (w : World)
    → InOrder (λ (e : Entry). e.task.created_at) (load_pending_tasks f keys w)
unfolding load_pending_tasks
load_pending_tasks-InOrder f keys w =
    sort-InOrder (λ (a b : Entry). ltb a.task.created_at b.task.created_at)
      (λ (e : Entry). e.task.created_at) (λ a b h. ground arith) (λ a b h. ground arith)
      (select f keys w)
