-- ===== src/Queue/Ended.antt =====
-- How a run ends (src/ai/aimanager.go, runOneTask).
use mogenius_operator.Prelude.{
  ℕ, ◌+◌, ◌≤◌, String, Bool, true, false, Option, none, some, List, ◌==◌, ◌≡◌, inl, refl, ap, arith,
  eq_refl,
}
use mogenius_operator.Prelude.Assoc.{lookup}
use mogenius_operator.Task.{AiTask, AiTaskState, is_failed, canceled, completed, ignored, failed}
use mogenius_operator.Task.Store.{
  Faults, World, Item, task, Result, ok, err, create_or_update_ai_task, notify_task_changed,
}
use mogenius_operator.Task.Laws.{IsTaskKey, lookup-save}
use mogenius_operator.Usage.{Moment}
use mogenius_operator.Agent.Pruned.{StaysOrGoes, prune-StaysOrGoes}
use mogenius_operator.Queue.Pass.{Manager, Run, is_eligible}
use mogenius_operator.Queue.Run.{
  RunFailure, RunEnd, PromptResult, finished, broken, context_canceled, final, failed_run,
  broken_state, with_result, save_end, keep_report, keep_failure, end_run, task_cancel_reason,
  unregister_run_cancel, consume,
}

-- The states in which a run leaves its task.
abbrev pub is_end : AiTaskState → Bool
is_end completed = true
is_end canceled = true
is_end ignored = true
is_end failed = true
is_end _ = false

abbrev pub is_completed : AiTaskState → Bool
is_completed completed = true
is_completed _ = false

abbrev pub is_finished : RunEnd → Bool
is_finished finished = true
is_finished (broken failure why) = false

-- The final state of a task: completed, canceled, ignored or failed, completed exactly where the
-- run finished, and failed exactly where the next pass takes it up again; at most one more attempt
-- is counted.
pub record Final (finishes : Bool) (retries : ℕ) (t : AiTask) : Type 0 where
  pub over : is_end t.state ≡ true
  pub completes : is_completed t.state ≡ finishes
  pub again : is_eligible t ≡ is_failed t.state
  pub counted : t.retries ≤ retries + 1

broken_state-Final :
    (failure : RunFailure) (why : String) (t : AiTask)
    → Final false t.retries (broken_state failure why t).0
unfolding broken_state
broken_state-Final failure why t = record {
  over = ground arith;
  completes = ground arith;
  again = ground arith;
  counted = ground arith;
}

failed_run-Final :
    (shutdown : Bool) (reason : String) (failure : RunFailure) (why : String) (t : AiTask)
    → Final false t.retries (failed_run shutdown reason failure why t).0
unfolding failed_run
failed_run-Final shutdown reason failure why t =
    let b = broken_state-Final failure why t in
    record {
      over = ground (arith, b.over);
      completes = ground (arith, b.completes);
      again = ground (arith, b.again);
      counted = ground (arith, b.counted);
    }

-- What the store holds of a run that has ended; the history's cap may have deleted it.
pub record Ended (finishes : Bool) (retries : ℕ) (item : Option Item) : Type 0 where
  pub last : AiTask
  pub stored : StaysOrGoes (some (task last)) item
  pub final : Final finishes retries last

saved_then :
    (f : Faults) (t : AiTask) (key : String) (w after : World) (finishes : Bool) (retries : ℕ)
    → IsTaskKey key
    → f.set_fails key ≡ false
    → StaysOrGoes (lookup key (create_or_update_ai_task f t key w).1.db) (lookup key after.db)
    → Final finishes retries t
    → Ended finishes retries (lookup key after.db)
saved_then f t key w after finishes retries k works stays final = record {
  last = record t { updated_at = w.now };
  stored = ground (arith, lookup-save f t key key w k, eq_refl key, works, stays);
  final = record {
    over = final.over;
    completes = final.completes;
    again = final.again;
    counted = final.counted;
  };
}

report_stays :
    (f : Faults) (scan : String → Option (List String)) (agent key : String)
    (r : Result AiTask × World)
    → IsTaskKey key
    → StaysOrGoes (lookup key r.1.db) (lookup key (keep_report f scan agent r).db)
unfolding notify_task_changed
report_stays f scan agent key (err e, w) k = inl refl
report_stays f scan agent key (ok t, w) k = prune-StaysOrGoes f scan agent key w k

failure_stays :
    (f : Faults) (scan : String → Option (List String)) (key : String) (r : Result AiTask × World)
    → IsTaskKey key
    → StaysOrGoes (lookup key r.1.db) (lookup key (keep_failure f scan r).db)
failure_stays f scan key (err e, w) k = inl refl
failure_stays f scan key (ok t, w) k = ground (arith, prune-StaysOrGoes f scan t.agent_ref key w k)

save_end-Ended :
    (f : Faults) (scan : String → Option (List String)) (key : String) (end : RunEnd)
    (shutdown : Bool) (reason : String) (t : AiTask) (w : World)
    → IsTaskKey key
    → f.set_fails key ≡ false
    → Ended
        (is_finished end)
        t.retries
        (lookup key (save_end f scan key end (final shutdown reason end t).0 w).db)
unfolding save_end
save_end-Ended f scan key finished shutdown reason t w k works =
    let report = record t { state = completed; response = none; error = "" } in
    let saved = create_or_update_ai_task f report key w in
    saved_then f report key w (keep_report f scan t.agent_ref saved) true t.retries k works
      (report_stays f scan t.agent_ref key saved k)
      (record { over = refl; completes = refl; again = refl; counted = omega arith })
save_end-Ended f scan key (broken failure why) shutdown reason t w k works =
    let last = (failed_run shutdown reason failure why t).0 in
    let saved = create_or_update_ai_task f last key (notify_task_changed last w) in
    saved_then f last key (notify_task_changed last w) (keep_failure f scan saved) false t.retries k
      works (failure_stays f scan key saved k) (failed_run-Final shutdown reason failure why t)

-- However a run ends, its task is not left in progress or waiting: it is completed, canceled,
-- ignored or failed; it is completed exactly where the run finished, and failed exactly where the
-- next pass takes it up again, so with fewer attempts than the maximum, and the run counts at most
-- one attempt. The cap on the history may have deleted it.
pub end_run-Ended :
    (f : Faults) (scan : String → Option (List String)) (at : Moment) (token_key : String)
    (shutdown : Bool) (run : Run) (r : PromptResult) (t : AiTask) (m : Manager)
    → IsTaskKey run.key
    → f.set_fails run.key ≡ false
    → Ended
        (is_finished r.end)
        t.retries
        (lookup run.key (end_run f scan at token_key shutdown run r t m).world.db)
unfolding end_run
end_run-Ended f scan at token_key shutdown run r t m k works =
    let reason = task_cancel_reason f t.id m.world in
    save_end-Ended f scan run.key r.end shutdown reason (with_result r t)
      (consume f t.id reason (unregister_run_cancel t.id m.world)) k works

-- The end of a run on which a user asked for a cancel, whose context was canceled for it.
canceled_run :
    (reason why : String) (t : AiTask)
    → (reason == "") ≡ false
    → failed_run false reason context_canceled why t
      ≡ (record t { state = canceled; error = reason }, none)
unfolding failed_run
canceled_run reason why t h = ground arith

-- What the store holds of a run that a user has stopped.
pub record Stopped (reason : String) (retries : ℕ) (item : Option Item) : Type 0 where
  pub last : AiTask
  pub stored : StaysOrGoes (some (task last)) item
  pub stopped : last.state ≡ canceled
  pub says : last.error ≡ reason
  pub counted : last.retries ≡ retries

Stopped-then :
    (f : Faults) (t : AiTask) (key reason : String) (w after : World)
    → IsTaskKey key
    → f.set_fails key ≡ false
    → StaysOrGoes (lookup key (create_or_update_ai_task f t key w).1.db) (lookup key after.db)
    → t.state ≡ canceled
    → t.error ≡ reason
    → Stopped reason t.retries (lookup key after.db)
Stopped-then f t key reason w after k works stays s e = record {
  last = record t { updated_at = w.now };
  stored = ground (arith, lookup-save f t key key w k, eq_refl key, works, stays);
  stopped = s;
  says = e;
  counted = refl;
}

save_end-Stopped :
    (f : Faults) (scan : String → Option (List String)) (key reason why : String) (t last : AiTask)
    (w : World)
    → IsTaskKey key
    → f.set_fails key ≡ false
    → last ≡ record t { state = canceled; error = reason }
    → Stopped reason t.retries
        (lookup key (save_end f scan key (broken context_canceled why) last w).db)
unfolding save_end
save_end-Stopped f scan key reason why t last w k works same =
    let saved = create_or_update_ai_task f last key (notify_task_changed last w) in
    rw (← ap (λ (x : AiTask). x.retries) same) (
      Stopped-then f last key reason (notify_task_changed last w) (keep_failure f scan saved) k
        works (failure_stays f scan key saved k) (ap (λ (x : AiTask). x.state) same)
        (ap (λ (x : AiTask). x.error) same))

-- A run that a user cancels ends as canceled, with the text of the cancel request as its error, and
-- the cancel counts as no failed attempt: its context was canceled, the operator is not shutting
-- down, and the request's marker is there.
pub user_cancel_ends :
    (f : Faults) (scan : String → Option (List String)) (at : Moment) (token_key why : String)
    (run : Run) (r : PromptResult) (t : AiTask) (m : Manager)
    → IsTaskKey run.key
    → f.set_fails run.key ≡ false
    → r.end ≡ broken context_canceled why
    → (task_cancel_reason f t.id m.world == "") ≡ false
    → Stopped
        (task_cancel_reason f t.id m.world)
        t.retries
        (lookup run.key (end_run f scan at token_key false run r t m).world.db)
unfolding end_run
user_cancel_ends f scan at token_key why run r t m k works e asked =
    let reason = task_cancel_reason f t.id m.world in
    rw e (
      save_end-Stopped f scan run.key reason why (with_result r t)
        (failed_run false reason context_canceled why (with_result r t)).0
        (consume f t.id reason (unregister_run_cancel t.id m.world)) k works
        (ap (λ (p : AiTask × Option String). p.0)
          (canceled_run reason why (with_result r t) asked)))
