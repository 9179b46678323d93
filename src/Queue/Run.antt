-- ===== src/Queue/Run.antt =====
-- src/ai/aimanager.go: runOneTask, one run from its start to its final state. The conversation with
-- the model (processPrompt) enters by its progress calls and its result.
use Prim.Native.String.{◌++◌}
use mogenius_operator.Prelude.{
  ℕ, ◌+◌, String, Bool, true, false, not, ◌&&◌, ◌||◌, Option, none, some, List, [], ◌∷◌, ◌==◌,
  if◌then◌else◌, leb, eqb, filter_by,
}
use mogenius_operator.Prelude.Assoc.{lookup}
use mogenius_operator.Prelude.Decimal.{decimal}
use mogenius_operator.Prelude.Text.{has_prefix}
use mogenius_operator.Task.{
  AiTask, max_ai_task_retries, is_failed, canceled, ignored, failed, completed,
}
use mogenius_operator.Task.Store.{
  Faults, World, Item, task, text, Result, ok, err, create_or_update_ai_task, notify_task_changed,
  task_cancel_key,
}
use mogenius_operator.Usage.{Moment, add_token_usage}
use mogenius_operator.Agent.History.{prune_agent_runs_to_limit}
use mogenius_operator.Queue.Startup.{clear_task_cancel_request}
use mogenius_operator.Queue.Pass.{Manager, Run, giving_up, failed_after, task_failure_error_prefix}

-- The errors that runOneTask tells apart: a canceled context, a budget of the run, a status of the
-- model's API, and any other.
pub data RunFailure : Type 0 where
  context_canceled budget_exhausted : RunFailure
  api_error : ℕ → RunFailure
  other_failure : RunFailure

pub data RunEnd : Type 0 where
  finished : RunEnd
  broken : RunFailure → String → RunEnd

-- What processPrompt returns.
pub record PromptResult : Type 0 where
  pub tokens_used : ℕ
  pub time_used_in_ms : ℕ
  pub model_used : String
  pub end : RunEnd

-- One call of the progress hook; `due` says that two seconds have passed since the last push.
pub record Progress : Type 0 where
  pub tokens : ℕ
  pub activity : String
  pub due : Bool

abbrev marker_text : Option Item → String
marker_text (some (text s)) = s
marker_text (some (task t)) = ""
marker_text none = ""

-- taskCancelReason; the key of a marker never holds a task.
unfoldable pub task_cancel_reason : Faults → String → World → String
task_cancel_reason f id w =
    if f.get_fails (task_cancel_key id) then "" else marker_text (lookup (task_cancel_key id) w.db)

unfoldable pub register_run_cancel : String → World → World
register_run_cancel id w = record w { run_cancels = id ∷ w.run_cancels }

unfoldable pub unregister_run_cancel : String → World → World
unregister_run_cancel id w = record w { run_cancels = filter_by (λ x. not (x == id)) w.run_cancels }

abbrev with_progress : Progress → AiTask → AiTask
with_progress p t = record t {
  tokens_used = p.tokens;
  current_activity = if p.activity == "" then t.current_activity else p.activity;
}

abbrev pushed : AiTask → Result AiTask × World → AiTask × World
pushed t (err e, w) = (t, notify_task_changed t w)
pushed t (ok stamped, w) = (stamped, notify_task_changed stamped w)

-- The hook `onProgress`.
unfoldable pub on_progress : Faults → String → Progress → AiTask × World → AiTask × World
unfolding task_cancel_reason
on_progress f key p (t, w) =
    if not (task_cancel_reason f t.id w == "")
    then (t, record w { aborted = t.id ∷ w.aborted })
    else if not p.due
    then (with_progress p t, w)
    else pushed (with_progress p t) (create_or_update_ai_task f (with_progress p t) key w)

unfoldable pub progress_all : Faults → String → List Progress → AiTask × World → AiTask × World
unfolding on_progress
progress_all f key [] r = r
progress_all f key (p ∷ ps) r = progress_all f key ps (on_progress f key p r)

abbrev pub is_refusal : ℕ → Bool
is_refusal status = eqb status 400 || eqb status 401 || eqb status 403

-- The final state of a broken run, and the error of the status, if it is set.
unfoldable pub broken_state : RunFailure → String → AiTask → AiTask × Option String
unfolding giving_up failed_after
broken_state failure why t =
    let retries = t.retries + 1 in
    let last = leb max_ai_task_retries retries in
    let retry =
      if last
      then (
        record t { state = ignored; retries = retries; error = giving_up retries why },
        some (failed_after retries why),
      )
      else (record t { state = failed; retries = retries; error = why }, none) in
    elim failure [
      | budget_exhausted ↦ (record t { state = canceled; retries = retries; error = why }, none)
      | api_error status ↦
          if is_refusal status
          then (
            record t { state = ignored; retries = retries; error = why },
            some (
                task_failure_error_prefix
                ++ " (HTTP "
                ++ decimal status
                ++ ", not retried): "
                ++ why),
          )
          else retry
      | context_canceled ↦ retry
      | other_failure ↦ retry
    ]

abbrev pub is_context_canceled : RunFailure → Bool
is_context_canceled context_canceled = true
is_context_canceled _ = false

-- `shutdown` says that the outer context is done; `reason` is the cancel marker's why.
unfoldable pub failed_run : Bool → String → RunFailure → String → AiTask → AiTask × Option String
unfolding broken_state
failed_run shutdown reason failure why t =
    if is_context_canceled failure && not shutdown && not (reason == "")
    then (record t { state = canceled; error = reason }, none)
    else broken_state failure why t

-- The consumption of the cancel marker.
abbrev pub consume : Faults → String → String → World → World
consume f id reason w = if reason == "" then w else clear_task_cancel_request f id w

abbrev clear_task_failure_error : String → String
clear_task_failure_error status = if has_prefix task_failure_error_prefix status then "" else status

abbrev set_error : Option String → String → String
set_error none status = status
set_error (some message) status = message

abbrev pub keep_report :
    Faults → (String → Option (List String)) → String → Result AiTask × World → World
keep_report f scan agent (err e, w) = w
keep_report f scan agent (ok t, w) =
    notify_task_changed t (prune_agent_runs_to_limit f scan agent w)

abbrev pub keep_failure : Faults → (String → Option (List String)) → Result AiTask × World → World
keep_failure f scan (err e, w) = w
keep_failure f scan (ok t, w) =
    if is_failed t.state then w else prune_agent_runs_to_limit f scan t.agent_ref w

-- The save of an all-clear report, or of a run that failed.
unfoldable pub save_end :
    Faults → (String → Option (List String)) → String → RunEnd → AiTask → World → World
save_end f scan key finished t w =
    keep_report f scan t.agent_ref (
      create_or_update_ai_task f (record t { state = completed; response = none; error = "" }) key
        w)
save_end f scan key (broken failure why) t w =
    keep_failure f scan (create_or_update_ai_task f t key (notify_task_changed t w))

abbrev pub final : Bool → String → RunEnd → AiTask → AiTask × Option String
final shutdown reason finished t = (t, none)
final shutdown reason (broken failure why) t = failed_run shutdown reason failure why t

abbrev status_after : RunEnd → Option String → String → String
status_after finished message status = clear_task_failure_error status
status_after (broken failure why) message status = set_error message status

-- The results of the conversation in the task.
abbrev pub with_result : PromptResult → AiTask → AiTask
with_result r t = record t {
  current_activity = "";
  model = r.model_used;
  time_used_in_ms = r.time_used_in_ms;
  tokens_used = r.tokens_used;
}

-- From the end of the conversation on. `token_key` is the fresh key of the usage entry.
unfoldable pub end_run :
    Faults
    → (String → Option (List String))
    → Moment
    → String
    → Bool
    → Run
    → PromptResult
    → AiTask
    → Manager
    → Manager
unfolding task_cancel_reason unregister_run_cancel failed_run save_end
end_run f scan at token_key shutdown run r t m =
    let reason = task_cancel_reason f t.id m.world in
    let w = consume f t.id reason (unregister_run_cancel t.id m.world) in
    let (ended, message) = final shutdown reason r.end (with_result r t) in
    record m {
      world = save_end f scan run.key r.end ended w;
      ledger =
          (add_token_usage at token_key r.tokens_used r.model_used r.time_used_in_ms run.key
            run.config.model_cr_name m.ledger).1;
      error = status_after r.end message m.error;
    }

unfoldable pub run_one_task :
    Faults
    → (String → Option (List String))
    → Moment
    → String
    → Bool
    → Run
    → List Progress
    → PromptResult
    → Manager
    → Manager
unfolding register_run_cancel progress_all end_run
run_one_task f scan at token_key shutdown run progress r m =
    let (t, w) =
      progress_all f run.key progress (run.task, register_run_cancel run.task.id m.world) in
    end_run f scan at token_key shutdown run r t (record m { world = w })
