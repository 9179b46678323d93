-- ===== src/Queue/Started.antt =====
-- Which runs a pass over the queue starts (src/ai/aimanager.go, processAiTaskQueue).
use mogenius_operator.Prelude.{
  String, Bool, true, false, some, ◌≡◌, ◌⊎◌, inl, inr, refl, ap, arith, if◌then◌else◌, snoc,
  eq_refl,
}
use mogenius_operator.Prelude.Assoc.{lookup}
use mogenius_operator.Access.{ToolContext}
use mogenius_operator.Task.{AiTask, in_progress}
use mogenius_operator.Task.Store.{
  Faults, World, task, Result, ok, err, get_task_by_key, create_or_update_ai_task,
  notify_task_changed,
}
use mogenius_operator.Task.Laws.{IsTaskKey, lookup-save, save_result}
use mogenius_operator.Model.{Outcome, done, error}
use mogenius_operator.Model.Resolve.{ResolvedModelConfig, resolve_model_config}
use mogenius_operator.Usage.{Ledger, is_model_budget_exceeded}
use mogenius_operator.Agent.{Agent, Attempt, given, refused}
use mogenius_operator.Agent.Context.{build_agent_task_context}
use mogenius_operator.Queue.Pass.{
  Manager, Setting, Entry, Run, still_open, launch, start_run, budgeted, budget_of, configured,
  in_context, process_entry, over_budget, unresolved,
}

-- A run was started: its task was still open at that moment, its context and its configuration are
-- those of the task, the model's budget was not exhausted, and the task is stored as in progress.
pub record Started (s : Setting) (entry : Entry) (m after : Manager) : Type 0 where
  pub run : Run
  pub added : after.started ≡ snoc m.started run
  pub key : run.key ≡ entry.key
  pub was_open : still_open (get_task_by_key s.faults entry.key m.world) ≡ true
  pub context : build_agent_task_context s.view entry.task ≡ given (run.agent, run.context)
  pub config : resolve_model_config s.cluster (some (budget_of run.agent.spec)) ≡ done run.config
  pub budget : (is_model_budget_exceeded s.at (some run.config) m.ledger).0 ≡ false
  pub runs : run.task.state ≡ in_progress
  pub stored : lookup entry.key after.world.db ≡ some (task run.task)

saved_as :
    (f : Faults) (t saved : AiTask) (key : String) (w after : World)
    → IsTaskKey key
    → create_or_update_ai_task f t key w ≡ (ok saved, after)
    → (saved.state ≡ t.state) × (lookup key after.db ≡ some (task saved))
saved_as f t saved key w after k h =
    let works : f.set_fails key ≡ false = ground (arith, save_result f t key w, h) in
    let same : saved ≡ record t { updated_at = w.now } =
      ground (arith, save_result f t key w, h, works) in
    (
      ap (λ (x : AiTask). x.state) same,
      ground (arith, lookup-save f t key key w k, h, works, same, eq_refl key),
    )

module _ (s : Setting) (entry : Entry) (m : Manager) (k : IsTaskKey entry.key) where
  launch_started :
      (rc : ResolvedModelConfig) (a : Agent) (tc : ToolContext) (ledger : Ledger)
      (r : Result AiTask × World)
      → build_agent_task_context s.view entry.task ≡ given (a, tc)
      → resolve_model_config s.cluster (some (budget_of a.spec)) ≡ done rc
      → is_model_budget_exceeded s.at (some rc) m.ledger ≡ (false, ledger)
      → still_open (get_task_by_key s.faults entry.key m.world) ≡ true
      → create_or_update_ai_task s.faults
          (record entry.task { state = in_progress; error = "" })
          entry.key
          m.world
        ≡ r
      → ((launch entry rc a tc r (record m { ledger = ledger })).started ≡ m.started)
        ⊎ Started s entry m (launch entry rc a tc r (record m { ledger = ledger }))
  unfolding notify_task_changed
  launch_started rc a tc ledger (err e, w) c d b o q = inl refl
  launch_started rc a tc ledger (ok t, w) c d b o q =
      let (state, stored) =
        saved_as s.faults (record entry.task { state = in_progress; error = "" }) t entry.key
          m.world w k q in
      inr (record {
        run = record { task = t; key = entry.key; config = rc; agent = a; context = tc };
        added = refl;
        key = refl;
        was_open = o;
        context = c;
        config = d;
        budget = ap (λ (p : Bool × Ledger). p.0) b;
        runs = state;
        stored = stored;
      })

  abbrev Outcomes : Manager → Type 0
  Outcomes after = (after.started ≡ m.started) ⊎ Started s entry m after

  opened :
      (rc : ResolvedModelConfig) (a : Agent) (tc : ToolContext) (ledger : Ledger) (b : Bool)
      → build_agent_task_context s.view entry.task ≡ given (a, tc)
      → resolve_model_config s.cluster (some (budget_of a.spec)) ≡ done rc
      → is_model_budget_exceeded s.at (some rc) m.ledger ≡ (false, ledger)
      → still_open (get_task_by_key s.faults entry.key m.world) ≡ b
      → Outcomes (
          if b
          then launch entry rc a tc
              (create_or_update_ai_task s.faults
                (record entry.task { state = in_progress; error = "" })
                entry.key
                m.world)
              (record m { ledger = ledger })
          else record m { ledger = ledger })
  opened rc a tc ledger false c d b o = inl refl
  opened rc a tc ledger true c d b o =
      launch_started rc a tc ledger
        (create_or_update_ai_task s.faults (record entry.task { state = in_progress; error = "" })
          entry.key m.world)
        c d b o refl

  budgeted_started :
      (rc : ResolvedModelConfig) (a : Agent) (tc : ToolContext) (r : Bool × Ledger)
      → build_agent_task_context s.view entry.task ≡ given (a, tc)
      → resolve_model_config s.cluster (some (budget_of a.spec)) ≡ done rc
      → is_model_budget_exceeded s.at (some rc) m.ledger ≡ r
      → Outcomes (budgeted s entry rc a tc r m)
  unfolding over_budget start_run
  budgeted_started rc a tc (true, ledger) c d b = inl refl
  budgeted_started rc a tc (false, ledger) c d b =
      opened rc a tc ledger (still_open (get_task_by_key s.faults entry.key m.world)) c d b refl

  unresolved_started : (text : String) → (unresolved s entry text m).started ≡ m.started
  unfolding unresolved
  unresolved_started text = ground arith

  configured_started :
      (a : Agent) (tc : ToolContext) (r : Outcome ResolvedModelConfig)
      → build_agent_task_context s.view entry.task ≡ given (a, tc)
      → resolve_model_config s.cluster (some (budget_of a.spec)) ≡ r
      → Outcomes (configured s entry a tc r m)
  configured_started a tc (error e) c d = inl (unresolved_started (s.texts.model_error e))
  configured_started a tc (done rc) c d =
      budgeted_started rc a tc (is_model_budget_exceeded s.at (some rc) m.ledger) c d refl

  context_started :
      (r : Attempt (Agent × ToolContext))
      → build_agent_task_context s.view entry.task ≡ r
      → Outcomes (in_context s entry r m)
  context_started (refused e) c = inl refl
  context_started (given (a, tc)) c =
      configured_started a tc (resolve_model_config s.cluster (some (budget_of a.spec))) c refl

-- Each entry of a pass starts at most one run. It starts one only of a task that the store still
-- holds as pending or failed at that moment, with the context and the configuration that the
-- task's agent resolves to, on a model whose budget is not exhausted, and stores it as in progress.
pub process_entry_starts :
    (s : Setting) (entry : Entry) (m : Manager)
    → IsTaskKey entry.key
    → ((process_entry s entry m).started ≡ m.started) ⊎ Started s entry m (process_entry s entry m)
unfolding process_entry
process_entry_starts s entry m k =
    context_started s entry m k (build_agent_task_context s.view entry.task) refl
