-- ===== src/Task.antt =====
-- src/ai/aimanager.go: an AI task, its states and its life in the key-value store.
pub mod Store
pub mod Api
pub mod Laws
pub mod Machine
pub mod Examples
use mogenius_operator.Prelude.{ℕ, String, Bool, true, false, Option, none, some, List, [], ◌==◌}
use mogenius_operator.Prelude.Assoc.{Assoc}
use mogenius_operator.Access.{User}

-- AiTaskState; a client may send any other text.
pub data AiTaskState : Type 0 where
  pending in_progress completed failed ignored solved cancelling canceled : AiTaskState
  proposed rejected executing executed execution_failed : AiTaskState
  unknown_state : String → AiTaskState

-- utils.WorkloadSingleRequest (src/utils/config.go)
pub record Workload : Type 0 where
  pub kind : String
  pub plural : String
  pub api_version : String
  pub namespaced : Bool
  pub namespace : String
  pub resource_name : String

pub record ApprovalRecord : Type 0 where
  pub user : User
  pub at : ℕ
  pub rejected : Bool
  pub reason : String

pub record ReadBy : Type 0 where
  pub user : User
  pub read_at : ℕ

-- A pending tool call; its JSON arguments as text.
pub record ToolRequest : Type 0 where
  pub name : String
  pub args : String
  pub sessions : List String

pub record AiResponse : Type 0 where
  pub tool_requests : List ToolRequest

-- The legacy filter, kept as data only.
pub record AiFilter : Type 0 where
  pub id : String
  pub name : String
  pub description : String
  pub kind : String
  pub contains : Assoc String
  pub excludes : Assoc String
  pub prompt : String
  pub for : Option ℕ
  pub is_active : Bool

pub record AiTask : Type 0 where
  pub id : String
  pub prompt : String
  pub response : Option AiResponse
  pub state : AiTaskState
  pub controller : Option Workload
  pub tokens_used : ℕ
  pub retries : ℕ
  pub current_activity : String
  pub run_id : String
  pub model : String
  pub time_used_in_ms : ℕ
  pub created_at : ℕ
  pub updated_at : ℕ
  pub referencing_resource : Workload
  pub triggered_by : AiFilter
  pub read_by_users : List ReadBy
  pub error : String
  pub agent_ref : String
  pub trigger : String
  pub triggered_by_user : Option User
  pub scope_namespaces : List String
  pub scope_all_namespaces : Bool
  pub base_resource_version : String
  pub approval : Option ApprovalRecord
  pub execution_result : String

abbrev pub max_ai_task_retries : ℕ
max_ai_task_retries = 2

abbrev pub is_pending : AiTaskState → Bool
is_pending pending = true
is_pending _ = false

abbrev pub is_failed : AiTaskState → Bool
is_failed failed = true
is_failed _ = false

abbrev pub is_executing : AiTaskState → Bool
is_executing executing = true
is_executing _ = false

-- `string(state)`
unfoldable pub state_text : AiTaskState → String
state_text pending = "pending"
state_text in_progress = "in-progress"
state_text completed = "completed"
state_text failed = "failed"
state_text ignored = "ignored"
state_text solved = "solved"
state_text cancelling = "cancelling"
state_text canceled = "canceled"
state_text proposed = "proposed"
state_text rejected = "rejected"
state_text executing = "executing"
state_text executed = "executed"
state_text execution_failed = "execution-failed"
state_text (unknown_state s) = s
