-- ===== src/Task/Store.antt =====
-- The key-value store behind the AI manager (getTaskByKey, createOrUpdateAiTask of
-- src/ai/aimanager.go, and the keys of src/ai/aimanager.go, aimanager_cancel.go, runsteps.go). The
-- valkey client is a parameter: which calls fail is an argument of every operation.
use Prim.Native.String.{◌++◌}
use mogenius_operator.Prelude.{
  ℕ, String, Bool, not, ◌||◌, Option, none, some, List, [], ◌∷◌, ◌==◌, if◌then◌else◌, is_empty,
}
use mogenius_operator.Prelude.Assoc.{Assoc, lookup, insert, remove}
use mogenius_operator.Prelude.Text.{split_n}
use mogenius_operator.Access.{User}
use mogenius_operator.Task.{AiTask, AiTaskState, is_pending}

-- What a key holds: a task's JSON, or any other text, which does not parse as a task.
pub data Item : Type 0 where
  task : AiTask → Item
  text : String → Item

-- Which calls of the client fail.
pub record Faults : Type 0 where
  pub get_fails : String → Bool
  pub set_fails : String → Bool
  pub delete_fails : String → Bool

-- What the manager sends to the platform.
pub data Event : Type 0 where
  task_changed : AiTask → Event
  task_deleted : String → Event

-- The outcome that a waiting run receives: the approver, and the rejection if there is one.
pub record ApprovalSignal : Type 0 where
  pub approver : User
  pub rejection : Option String

-- The store, and the manager's memory on this replica: runs that can be aborted, runs that were,
-- waiting approvals with what was sent to them, a pending kick of the queue, and events sent.
pub record World : Type 0 where
  pub db : Assoc Item
  pub now : ℕ
  pub kicked : Bool
  pub run_cancels : List String
  pub aborted : List String
  pub pending_approvals : Assoc (List ApprovalSignal)
  pub events : List Event

pub data Error : Type 0 where
  store_failed : String → Error
  bad_json : String → Error
  not_found : String → Error
  wrong_state : String → AiTaskState → Error
  unattributed : Error
  not_settable : AiTaskState → Error

pub data Result {ℓ} (A : Type ℓ) : Type ℓ where
  ok : A → Result A
  err : Error → Result A

-- A method of the manager: its result and the state that it leaves, on errors too.
abbrev pub Op {ℓ} : Type ℓ → Type ℓ
Op A = World → Result A × World

abbrev pub pure {ℓ} : {A : Type ℓ} → A → World → Result A × World
pure a w = (ok a, w)

abbrev pub fail {ℓ} : {A : Type ℓ} → Error → World → Result A × World
fail e w = (err e, w)

-- `if err := m(); err != nil { return err }; …`
abbrev pub continue {ℓ κ} :
    {A : Type ℓ} {B : Type κ} → Result A × World → (A → World → Result B × World) → Result B × World
continue (ok a, w) k = k a w
continue (err e, w) k = (err e, w)

-- `m()` with its error logged only.
abbrev pub ignore {ℓ} : {A : Type ℓ} → Result A × World → World
ignore (r, w) = w

-- valkeyClient.Set and DeleteSingle
unfoldable pub put : Faults → String → Item → World → Result (Unit {0}) × World
put f key item w =
    if f.set_fails key
    then (err (store_failed key), w)
    else (ok tt, record w { db = insert key item w.db })

unfoldable pub drop_key : Faults → String → World → Result (Unit {0}) × World
drop_key f key w =
    if f.delete_fails key
    then (err (store_failed key), w)
    else (ok tt, record w { db = remove key w.db })

-- A missing key reads as the empty string, which is no task and no error.
unfoldable pub parse_item : String → Option Item → Result (Option AiTask)
parse_item key none = ok none
parse_item key (some (task t)) = ok (some t)
parse_item key (some (text s)) = if s == "" then ok none else err (bad_json key)

unfoldable pub get_task_by_key : Faults → String → World → Result (Option AiTask)
unfolding parse_item
get_task_by_key f key w =
    if f.get_fails key then err (store_failed key) else parse_item key (lookup key w.db)

abbrev pub latest_task_key : String
latest_task_key = "ai_tasks_latest:latest-task"

unfoldable pub latest_namespace_task_key : String → String
latest_namespace_task_key namespace = "ai_tasks_latest:latest-namespace-task:" ++ namespace

unfoldable pub task_cancel_key : String → String
task_cancel_key task_id = "ai_task_cancel:" ++ task_id

-- latestTaskNamespaces, on the parts of `strings.SplitN(key, ":", 4)`
unfoldable pub latest_of_parts : AiTask → List String → List String
latest_of_parts t (bucket ∷ kind ∷ namespace ∷ rest ∷ []) =
    if not (kind == "Agent")
    then namespace ∷ []
    else if not (is_empty t.scope_namespaces)
    then t.scope_namespaces
    else namespace ∷ []
latest_of_parts t _ = []

unfoldable pub latest_task_namespaces : AiTask → String → List String
unfolding latest_of_parts split_n
latest_task_namespaces t key = latest_of_parts t (split_n 4 ":" key)

unfoldable pub put_latest : Faults → AiTask → List String → World → World
put_latest f t [] w = w
put_latest f t (namespace ∷ rest) w =
    put_latest f t rest (ignore (put f (latest_namespace_task_key namespace) (task t) w))

abbrev pub kick : AiTaskState → World → World
kick s w = record w { kicked = w.kicked || is_pending s }

abbrev pub after_save : Faults → AiTask → String → Result (Unit {0}) × World → Result AiTask × World
after_save f t key (err e, w) = (err e, w)
after_save f t key (ok u, w) = (
  ok t,
  put_latest f t (latest_task_namespaces t key)
      (ignore (put f latest_task_key (task t) (kick t.state w))),
)

-- createOrUpdateAiTask stamps the time into the caller's task, which the result returns.
unfoldable pub create_or_update_ai_task : Faults → AiTask → String → World → Result AiTask × World
create_or_update_ai_task f t key w =
    let stamped = record t { updated_at = w.now } in
    after_save f stamped key (put f key (task stamped) w)

-- notifyTaskChanged and sendAiDeleteEvent
unfoldable pub notify_task_changed : AiTask → World → World
notify_task_changed t w = record w { events = task_changed t ∷ w.events }

unfoldable pub send_ai_delete_event : String → World → World
send_ai_delete_event id w = record w { events = task_deleted id ∷ w.events }
