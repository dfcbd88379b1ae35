-- ===== src/Orchestration/Loop.antt =====
-- src/model_dispatcher/orchestration/loop.py: one model turn after another, until the model answers
-- without a tool call.
pub mod Transcript
pub mod Runs
pub mod Answer
use model_dispatcher.Prelude.{
  ℕ, zero, suc, ◌+◌, Bool, true, false, Option, none, some, List, [], ◌∷◌, ◌++◌, ltb, if◌then◌else◌,
}
use model_dispatcher.Types.{assistant, tool, ToolCall, ToolResult, Message, CompletionResponse}
use model_dispatcher.Errors.{Res, ok, raised}
use model_dispatcher.Providers.Base.{ModelProvider, Clock}
use model_dispatcher.Quota.Tenant.{TenantContext}
use model_dispatcher.Fallback.Context.{
  AttemptRecord, InvocationContext, fresh_context, Ended, FallbackHandler,
}
use model_dispatcher.Fallback.Chain.{execute, aexecute}
use model_dispatcher.Orchestration.Tools.{ToolRegistry}
use model_dispatcher.Orchestration.State.{
  ConversationState, append_message, add_usage, to_request, StopReason, completed, max_iterations,
  deadline, StepResult, RunResult,
}

-- `Message(role=Role.TOOL, tool_result=result)`
abbrev pub tool_message : ToolResult → Message
tool_message r = record { role = tool; content = none; tool_calls = []; tool_result = some r }

abbrev is_assistant : Message → Bool
is_assistant m = elim m.role [ assistant ↦ true | _ ↦ false ]

-- `next((m for m in reversed(messages) if m.role is Role.ASSISTANT), ...)`
pub last_assistant : List Message → Option Message
last_assistant [] = none
last_assistant (m ∷ ms) = elim (last_assistant ms) [
  | some found ↦ some found
  | none ↦ if is_assistant m then some m else none
]

abbrev no_message : Message
no_message = record { role = assistant; content = some ""; tool_calls = []; tool_result = none }

-- `_finalize`
pub finalize : ConversationState → List StepResult → StopReason → RunResult
unfolding last_assistant
finalize st steps reason = record {
  final_message = elim (last_assistant st.messages) [ none ↦ no_message | some m ↦ m ];
  transcript = st.messages;
  usage = st.usage;
  stop_reason = reason;
  steps = steps;
}

-- `_absorb_response`: the state after a turn, and its step.
pub absorb_response : CompletionResponse → ConversationState → ConversationState
absorb_response r st = record (add_usage r.usage (append_message r.message st)) {
  iterations = st.iterations + 1;
}

abbrev pub step_of : CompletionResponse → List AttemptRecord → StepResult
step_of r attempts = record { message = r.message; usage = r.usage; attempts = attempts }

-- What tells `run` from `arun`: the chain's call and a tool's.
pub record LoopMode (S : Type 0) : Type 0 where
  pub turn : InvocationContext S → S → Option (Ended S CompletionResponse)
  pub call_tool : ToolCall → S → ToolResult × S

abbrev pub run_mode : {S : Type 0} → List (FallbackHandler S) → ToolRegistry S → LoopMode S
run_mode chain tools = record {
  turn = execute chain;
  call_tool = model_dispatcher.Orchestration.Tools.execute tools;
}

abbrev pub arun_mode : {S : Type 0} → List (FallbackHandler S) → ToolRegistry S → LoopMode S
arun_mode chain tools = record {
  turn = aexecute chain;
  call_tool = model_dispatcher.Orchestration.Tools.aexecute tools;
}

-- How a run ends: its result or exception, the conversation, and the state outside.
abbrev pub RunEnd : Type 0 → Type 0
RunEnd S = Res RunResult × ConversationState × S

-- `time.monotonic() > deadline`
past : ℕ → ℕ → Bool
past limit now = ltb limit now

module _ {S : Type 0} (clock : Clock S) (mode : LoopMode S) where
  -- `_past_deadline`; without a deadline the clock is not read.
  past_deadline : Option ℕ → S → Bool × S
  unfolding past
  past_deadline none s = (false, s)
  past_deadline (some limit) s = let (now, s') = clock.monotonic s in (past limit now, s')

  -- `_run_tool_calls`
  pub run_tool_calls : List ToolCall → ConversationState → S → ConversationState × S
  run_tool_calls [] st s = (st, s)
  run_tool_calls (call ∷ calls) st s =
      let (result, s') = mode.call_tool call s in
      run_tool_calls calls (append_message (tool_message result) st) s'

  -- What follows a model turn; `again` is the next iteration.
  after_turn :
      (ConversationState → List StepResult → S → Option (RunEnd S))
      → ConversationState
      → List StepResult
      → Option (Ended S CompletionResponse)
      → Option (RunEnd S)
  unfolding absorb_response run_tool_calls finalize
  after_turn again st steps none = none
  after_turn again st steps (some (raised e, c, s)) = some (raised e, st, s)
  after_turn again st steps (some (ok r, c, s)) =
      let st' = absorb_response r st in
      let steps' = steps ++ step_of r c.attempts ∷ [] in
      elim r.message.tool_calls [
        | [] ↦ some (ok (finalize st' steps' completed), st', s)
        | call ∷ calls ↦
            let (st'', s') = run_tool_calls (call ∷ calls) st' s in again st'' steps' s'
      ]

  module _ (limit : Option ℕ) (tenant : TenantContext) (candidates : List (ModelProvider S)) where
    before_turn :
        (ConversationState → List StepResult → S → Option (RunEnd S))
        → ConversationState
        → List StepResult
        → Bool × S
        → Option (RunEnd S)
    unfolding after_turn
    before_turn again st steps (true, s) = some (ok (finalize st steps deadline), st, s)
    before_turn again st steps (false, s) =
        after_turn again st steps (mode.turn (fresh_context (to_request st) tenant candidates) s)

    -- `for _ in range(left)`
    iterate : ℕ → ConversationState → List StepResult → S → Option (RunEnd S)
    unfolding before_turn past_deadline
    iterate zero st steps s = some (ok (finalize st steps max_iterations), st, s)
    iterate (suc left) st steps s =
        before_turn (λ st' steps' s'. iterate left st' steps' s') st steps (past_deadline limit s)

    -- `run` in the one mode, `arun` in the other
    unfoldable pub run : (max_turns : ℕ) → ConversationState → S → Option (RunEnd S)
    unfolding iterate
    run max_turns st s = iterate max_turns st [] s
