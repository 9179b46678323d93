-- ===== src/Exec/Loop.antt =====
-- src/ai/agent_loop.go: runAgentLoop, on fuel. The model's API, the parser of JSON, the estimate of
-- a conversation's size and its compaction are services.
use Prim.Native.String.{◌++◌}
use mogenius_operator.Prelude.{
  ℕ, zero, suc, ◌+◌, ◌*◌, ◌/◌, String, Bool, true, false, ◌&&◌, Option, none, some, List, [], ◌∷◌,
  ◌==◌, if◌then◌else◌, ltb, is_empty, snoc, length, append,
}
use mogenius_operator.Access.{ToolContext}
use mogenius_operator.Exec.{
  ToolExec, Execution, Services, Dispatched, dispatch_tool_call, run_budget_exhausted,
}

pub record ToolCall : Type 0 where
  pub id : String
  pub name : String
  pub arguments : String

pub record Message : Type 0 where
  pub role : String
  pub content : String
  pub tool_calls : List ToolCall
  pub tool_call_id : String
  pub tool_name : String

pub record Response : Type 0 where
  pub content : String
  pub tool_calls : List ToolCall
  pub input_tokens : ℕ
  pub output_tokens : ℕ
  pub finish_reason : String

pub data Reply : Type 0 where
  reply : Response → Reply
  no_reply : String → Reply

-- `bad_args` is the error of a text that is no JSON object, `canceled` that of a context that is
-- done; `compact` is a compaction with the tokens that it took.
pub record Provider : Type 0 where
  pub chat : List Message → Reply
  pub context_window_tokens : Option ℕ
  pub message_bytes : List Message → ℕ
  pub compact : List Message → Option (List Message × ℕ)
  pub canceled : List Message → Option String
  pub bad_args : String → Option String

pub data LoopEnd : Type 0 where
  completed : LoopEnd
  stopped : String → LoopEnd
  broken_off : String → LoopEnd
  out_of_fuel : LoopEnd

pub record Loop : Type 0 where
  pub messages : List Message
  pub tokens_used : ℕ
  pub tool_call_count : ℕ
  pub executed : List Execution

pub record Limits : Type 0 where
  pub max_tool_calls : ℕ
  pub max_tokens_per_run : ℕ

-- Either the loop goes on, or it has ended.
pub data Step : Type 0 where
  goes_on : Loop → Step
  ended : LoopEnd → Loop → Step

-- `none` stands for math.MaxInt.
unfoldable pub compact_after_bytes : Option ℕ → Option ℕ
compact_after_bytes none = none
compact_after_bytes (some window) = if ltb 0 window then some (window * 4 * 80 / 100) else none

abbrev pub exceeds : ℕ → Option ℕ → Bool
exceeds bytes none = false
exceeds bytes (some limit) = ltb limit bytes

abbrev pub compacted : Option (List Message × ℕ) → Loop → Loop
compacted none l = l
compacted (some (messages, tokens)) l = record l {
  messages = messages;
  tokens_used = l.tokens_used + tokens;
}

unfoldable pub compact_messages : Provider → Loop → Loop
unfolding compact_after_bytes
compact_messages p l =
    if exceeds (p.message_bytes l.messages) (compact_after_bytes p.context_window_tokens)
    then compacted (p.compact l.messages) l
    else l

abbrev pub record_call : ToolCall → Dispatched → Loop → Loop
record_call tc (out, executed) l = record l {
  messages = snoc l.messages (record {
    role = "tool";
    content = out.result;
    tool_calls = [];
    tool_call_id = tc.id;
    tool_name = tc.name;
  });
  executed = append executed l.executed;
}

abbrev pub after_dispatch : ToolCall → Dispatched → Loop → Step
after_dispatch tc (out, executed) l = elim out.fatal [
  | some text ↦ ended (broken_off text) (record l { executed = append executed l.executed })
  | none ↦ goes_on (record_call tc (out, executed) l)
]

-- One tool call of the batch.
unfoldable pub run_tool_call : Provider → Services → ToolExec → ToolCall → Loop → Step
run_tool_call p s e tc l = elim (p.canceled l.messages) [
  | some text ↦ ended (broken_off text) l
  | none ↦ elim (p.bad_args tc.arguments) [
    | some text ↦ ended (broken_off ("error unmarshaling tool arguments: " ++ text)) l
    | none ↦ after_dispatch tc (dispatch_tool_call s e tc.name tc.arguments) l
  ]
]

abbrev pub then_step : Step → (Loop → Step) → Step
then_step (ended why l) k = ended why l
then_step (goes_on l) k = k l

unfoldable pub run_calls : Provider → Services → ToolExec → List ToolCall → Loop → Step
unfolding run_tool_call
run_calls p s e [] l = goes_on l
run_calls p s e (tc ∷ tcs) l = then_step (run_tool_call p s e tc l) (run_calls p s e tcs)

abbrev pub check_budget : Limits → ℕ → Loop → Step
check_budget limits calls l =
    let l = record l { tool_call_count = l.tool_call_count + calls } in
    elim (run_budget_exhausted limits.max_tool_calls l.tool_call_count limits.max_tokens_per_run
      l.tokens_used) [ some text ↦ ended (stopped text) l | none ↦ goes_on l ]

-- What a response leads to, once its tokens are counted.
unfoldable pub after_response : Provider → Services → ToolExec → Limits → Response → Loop → Step
unfolding run_calls
after_response p s e limits r l =
    if r.finish_reason == "length"
    then ended (stopped "run stopped: model hit its limit (stop reason: length)") l
    else if r.content == "" && is_empty r.tool_calls
    then ended (broken_off "no content returned from AI model") l
    else (let l = record l {
      messages = snoc l.messages (record {
        role = "assistant";
        content = r.content;
        tool_calls = r.tool_calls;
        tool_call_id = "";
        tool_name = "";
      });
    } in
        if is_empty r.tool_calls
        then ended completed l
        else then_step (run_calls p s e r.tool_calls l) (check_budget limits (length r.tool_calls)))

abbrev pub after_chat : Provider → Services → ToolExec → Limits → Reply → Loop → Step
after_chat p s e limits (no_reply text) l = ended (broken_off text) l
after_chat p s e limits (reply r) l = after_response p s e limits r (
    compact_messages p
      (record l { tokens_used = l.tokens_used + (r.input_tokens + r.output_tokens) }))

-- The body of the loop.
unfoldable pub turn : Provider → Services → ToolExec → Limits → Loop → Step
unfolding compact_messages after_response
turn p s e limits l = after_chat p s e limits (p.chat l.messages) l

abbrev pub ends_or : Step → (Loop → LoopEnd × Loop) → LoopEnd × Loop
ends_or (ended why l) k = (why, l)
ends_or (goes_on l) k = k l

unfoldable pub run_loop : ℕ → Provider → Services → ToolExec → Limits → Loop → LoopEnd × Loop
unfolding turn
run_loop zero p s e limits l = (out_of_fuel, l)
run_loop (suc fuel) p s e limits l = ends_or (turn p s e limits l) (run_loop fuel p s e limits)

-- The exec of an unattended run.
abbrev pub agent_exec : Option ToolContext → List String → ToolExec
agent_exec tool_ctx mcp_sessions = record {
  tool_ctx = tool_ctx;
  categories = false;
  mcp_sessions = mcp_sessions;
  scoped_mcp = true;
  intercept_mutating = true;
  unknown_is_fatal = true;
}

unfoldable pub run_agent_loop :
    ℕ
    → Provider
    → Services
    → Option ToolContext
    → List String
    → Limits
    → List Message
    → LoopEnd × Loop
unfolding run_loop
run_agent_loop fuel p s tool_ctx mcp_sessions limits messages =
    run_loop fuel p s (agent_exec tool_ctx mcp_sessions) limits
      (record { messages = messages; tokens_used = 0; tool_call_count = 0; executed = [] })
