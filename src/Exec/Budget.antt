-- ===== src/Exec/Budget.antt =====
-- The end of an agent's loop, and what it has executed (src/ai/agent_loop.go, runAgentLoop).
use Prim.Native.String.{◌++◌}
use mogenius_operator.Prelude.{
  ℕ, zero, suc, ◌+◌, ◌≤◌, ◌<◌, String, Bool, true, false, ◌&&◌, Option, none, some, List, [], ◌∷◌,
  ◌==◌, ◌≡◌, ◌⊎◌, inl, inr, refl, ◌∙◌, arith, is_empty, length, append, snoc, All, All-append,
  Bool-cases,
}
use mogenius_operator.Access.{ToolContext}
use mogenius_operator.Exec.{
  ToolExec, ToolOutcome, Execution, Services, dispatch_tool_call, run_budget_exhausted,
}
use mogenius_operator.Exec.Laws.{Approved, dispatch-Approved}
use mogenius_operator.Exec.Loop.{
  ToolCall, Message, Response, Reply, reply, no_reply, Provider, LoopEnd, stopped, broken_off,
  out_of_fuel, Loop, Limits, Step, exceeds, compact_after_bytes, goes_on, ended, compact_messages,
  compacted, record_call, after_dispatch, run_tool_call, run_calls, then_step, check_budget,
  after_response, after_chat, turn, ends_or, run_loop, agent_exec, run_agent_loop,
}

abbrev pub is_out_of_fuel : LoopEnd → Bool
is_out_of_fuel out_of_fuel = true
is_out_of_fuel _ = false

some_calls : (tcs : List ToolCall) → is_empty tcs ≡ false → 0 < length tcs
some_calls [] h = cc h
some_calls (tc ∷ tcs) h = omega arith

module _ (p : Provider) (s : Services) (e : ToolExec) (limits : Limits) where
  -- Every execution so far was free or approved.
  abbrev Clean : Loop → Type 0
  Clean l = All (Approved s e) l.executed

  -- A part of a turn: the count of calls is the one before.
  abbrev Part : Loop → Step → Type 0
  Part l (goes_on after) = Clean after × (after.tool_call_count ≡ l.tool_call_count)
  Part l (ended why after) = Clean after × (is_out_of_fuel why ≡ false)

  -- A whole turn: where the loop goes on, calls were counted, fewer than the limit.
  abbrev Turn : Loop → Step → Type 0
  Turn l (goes_on after) =
      Clean after
      × (l.tool_call_count < after.tool_call_count)
      × ((limits.max_tool_calls ≡ 0) ⊎ (after.tool_call_count < limits.max_tool_calls))
  Turn l (ended why after) = Clean after × (is_out_of_fuel why ≡ false)

  dispatched :
      (tc : ToolCall) (l : Loop) (out : ToolOutcome) (executed : List Execution)
      (fatal : Option String)
      → Clean l
      → All (Approved s e) executed
      → Part l (elim fatal [
        | some text ↦ ended (broken_off text) (record l { executed = append executed l.executed })
        | none ↦ goes_on (record_call tc (out, executed) l)
      ])
  dispatched tc l out executed none c a = (All-append (Approved s e) executed l.executed a c, refl)
  dispatched tc l out executed (some text) c a =
      (All-append (Approved s e) executed l.executed a c, refl)

  module _ (intercepts : e.intercept_mutating ≡ true) (scoped : e.scoped_mcp ≡ true) where
    parsed :
        (tc : ToolCall) (l : Loop) (bad : Option String)
        → Clean l
        → Part l (elim bad [
          | some text ↦ ended (broken_off ("error unmarshaling tool arguments: " ++ text)) l
          | none ↦ after_dispatch tc (dispatch_tool_call s e tc.name tc.arguments) l
        ])
    parsed tc l (some text) c = (c, refl)
    parsed tc l none c =
        let d = dispatch_tool_call s e tc.name tc.arguments in
        dispatched tc l d.0 d.1 d.0.fatal c
          (dispatch-Approved s e tc.name tc.arguments intercepts scoped)

    alive :
        (tc : ToolCall) (l : Loop) (canceled : Option String)
        → Clean l
        → Part l (elim canceled [
          | some text ↦ ended (broken_off text) l
          | none ↦ elim (p.bad_args tc.arguments) [
            | some text ↦ ended (broken_off ("error unmarshaling tool arguments: " ++ text)) l
            | none ↦ after_dispatch tc (dispatch_tool_call s e tc.name tc.arguments) l
          ]
        ])
    alive tc l (some text) c = (c, refl)
    alive tc l none c = parsed tc l (p.bad_args tc.arguments) c

    called : (tc : ToolCall) (l : Loop) → Clean l → Part l (run_tool_call p s e tc l)
    unfolding run_tool_call
    called tc l c = alive tc l (p.canceled l.messages) c

    Part-then :
        (l : Loop) (step : Step) (k : Loop → Step)
        → Part l step
        → ((next : Loop) → Clean next → next.tool_call_count ≡ l.tool_call_count → Part l (k next))
        → Part l (then_step step k)
    Part-then l (ended why after) k h go = h
    Part-then l (goes_on after) k h go = go after h.0 h.1

    same_count :
        (a b : Loop) (step : Step)
        → b.tool_call_count ≡ a.tool_call_count
        → Part b step
        → Part a step
    same_count a b (ended why after) q h = h
    same_count a b (goes_on after) q h = (h.0, h.1 ∙ q)

    batch : (tcs : List ToolCall) (l : Loop) → Clean l → Part l (run_calls p s e tcs l)
    unfolding run_calls
    batch [] l c = (c, refl)
    batch (tc ∷ tcs) l c =
        Part-then l (run_tool_call p s e tc l) (run_calls p s e tcs) (called tc l c)
          (λ next clean q. same_count l next (run_calls p s e tcs next) q (batch tcs next clean))

    within :
        (calls : ℕ) (l next : Loop) (o : Option String)
        → 0 < calls
        → Clean next
        → next.tool_call_count ≡ l.tool_call_count
        → run_budget_exhausted limits.max_tool_calls
            (next.tool_call_count + calls)
            limits.max_tokens_per_run
            next.tokens_used
          ≡ o
        → Turn l (elim o [
          | some text ↦
              ended (stopped text) (record next { tool_call_count = next.tool_call_count + calls })
          | none ↦ goes_on (record next { tool_call_count = next.tool_call_count + calls })
        ])
    unfolding run_budget_exhausted
    within calls l next (some text) pos c q b = (c, refl)
    within calls l next none pos c q b = (c, omega (arith, q, pos), ground (arith, b))

    checked :
        (calls : ℕ) (l : Loop) (step : Step)
        → 0 < calls
        → Part l step
        → Turn l (then_step step (check_budget limits calls))
    checked calls l (ended why after) pos h = h
    checked calls l (goes_on next) pos h =
        within calls l next
          (run_budget_exhausted limits.max_tool_calls (next.tool_call_count + calls)
            limits.max_tokens_per_run next.tokens_used)
          pos h.0 h.1 refl

    responded : (r : Response) (l : Loop) → Clean l → Turn l (after_response p s e limits r l)
    unfolding after_response
    responded r l c =
        let next = record l {
          messages = snoc l.messages (record {
            role = "assistant";
            content = r.content;
            tool_calls = r.tool_calls;
            tool_call_id = "";
            tool_name = "";
          });
        } in
        elim (Bool-cases (r.finish_reason == "length")) [
          | inl f ↦ rw f (c, refl)
          | inr f ↦ rw f (elim (Bool-cases (r.content == "" && is_empty r.tool_calls)) [
            | inl n ↦ rw n (c, refl)
            | inr n ↦ rw n (elim (Bool-cases (is_empty r.tool_calls)) [
              | inl t ↦ rw t (c, refl)
              | inr t ↦ rw t (
                  checked (length r.tool_calls) l (run_calls p s e r.tool_calls next)
                    (some_calls r.tool_calls t) (batch r.tool_calls next c))
            ])
          ])
        ]

    compacts :
        (o : Option (List Message × ℕ)) (l : Loop)
        → Clean l
        → Clean (compacted o l) × ((compacted o l).tool_call_count ≡ l.tool_call_count)
    compacts none l c = (c, refl)
    compacts (some (messages, tokens)) l c = (c, refl)

    shrunk :
        (l : Loop)
        → Clean l
        → Clean (compact_messages p l)
          × ((compact_messages p l).tool_call_count ≡ l.tool_call_count)
    unfolding compact_messages
    shrunk l c =
        elim (Bool-cases
          (exceeds (p.message_bytes l.messages) (compact_after_bytes p.context_window_tokens))) [
            | inl b ↦ rw b (compacts (p.compact l.messages) l c)
            | inr b ↦ rw b (c, refl)
          ]

    same-Turn :
        (a b : Loop) (step : Step)
        → b.tool_call_count ≡ a.tool_call_count
        → Turn b step
        → Turn a step
    same-Turn a b (ended why after) q h = h
    same-Turn a b (goes_on after) q h = (h.0, omega (arith, q, h.1), h.2)

    answered : (r : Reply) (l : Loop) → Clean l → Turn l (after_chat p s e limits r l)
    answered (no_reply text) l c = (c, refl)
    answered (reply r) l c =
        let counted = record l {
          tokens_used = l.tokens_used + (r.input_tokens + r.output_tokens);
        } in
        let (clean, q) = shrunk counted c in
        same-Turn l (compact_messages p counted)
          (after_response p s e limits r (compact_messages p counted)) q
          (responded r (compact_messages p counted) clean)

    turned : (l : Loop) → Clean l → Turn l (turn p s e limits l)
    unfolding turn
    turned l c = answered (p.chat l.messages) l c

    -- The loop on enough fuel: the calls that are left under the limit.
    ends :
        (l : Loop) (step : Step) (k : Loop → LoopEnd × Loop)
        → Turn l step
        → ((next : Loop)
            → Clean next
            → l.tool_call_count < next.tool_call_count
            → (limits.max_tool_calls ≡ 0) ⊎ (next.tool_call_count < limits.max_tool_calls)
            → Clean (k next).1 × (is_out_of_fuel (k next).0 ≡ false))
        → Clean (ends_or step k).1 × (is_out_of_fuel (ends_or step k).0 ≡ false)
    ends l (ended why after) k h go = h
    ends l (goes_on after) k h go = go after h.0 h.1 h.2

    enough :
        (fuel : ℕ) (l : Loop)
        → Clean l
        → 0 < limits.max_tool_calls
        → l.tool_call_count < limits.max_tool_calls
        → limits.max_tool_calls ≤ l.tool_call_count + fuel
        → Clean (run_loop fuel p s e limits l).1
          × (is_out_of_fuel (run_loop fuel p s e limits l).0 ≡ false)
    unfolding run_loop
    enough zero l c pos below left = (c, absurd (omega (arith, below, left)))
    enough (suc fuel) l c pos below left =
        ends l (turn p s e limits l) (run_loop fuel p s e limits) (turned l c)
          (λ next clean more under.
            enough fuel next clean pos (omega (arith, under, pos)) (omega (arith, left, more)))

-- A run of an agent ends by itself: with a limit on the tool calls, the loop takes at most that many
-- turns, whatever the model answers. Every update, creation or deletion of a Kubernetes resource by
-- a built-in tool, and every MCP tool whose policy asks for an approval, that it executed was
-- approved, the built-in ones with the approver's context; Helm tools need no decision.
pub run_agent_loop-Approved :
    (p : Provider) (s : Services) (tool_ctx : Option ToolContext) (mcp_sessions : List String)
    (limits : Limits) (messages : List Message) (fuel : ℕ)
    → 0 < limits.max_tool_calls
    → limits.max_tool_calls ≤ fuel
    → All
        (Approved s (agent_exec tool_ctx mcp_sessions))
        (run_agent_loop fuel p s tool_ctx mcp_sessions limits messages).1.executed
      × (is_out_of_fuel (run_agent_loop fuel p s tool_ctx mcp_sessions limits messages).0 ≡ false)
unfolding run_agent_loop
run_agent_loop-Approved p s tool_ctx mcp_sessions limits messages fuel pos enough_fuel =
    enough p s (agent_exec tool_ctx mcp_sessions) limits refl refl fuel
      (record { messages = messages; tokens_used = 0; tool_call_count = 0; executed = [] }) tt pos
      pos (omega (arith, enough_fuel))
