-- ===== src/Orchestration/Loop/Transcript.antt =====
-- The transcript of a run as a list of turns: an assistant message with one answer for each of its
-- tool calls.
use mathlib.Core.List.{append-nil, append_assoc}
use model_dispatcher.Prelude.{
  ℕ, ◌+◌, ◌≤◌, ◌<◌, ◌≡◌, refl, sym, ap, ◌∙◌, ◌≢◌, List, [], ◌∷◌, ◌++◌, map, arith, length, All,
}
use model_dispatcher.Types.{ToolCall, ToolResult, Message, Usage, add_usages, CompletionResponse}
use model_dispatcher.Providers.Base.{Clock}
use model_dispatcher.Fallback.Context.{AttemptRecord}
use model_dispatcher.Orchestration.State.{
  ConversationState, append_message, StopReason, completed, max_iterations, deadline, error,
  StepResult,
}
use model_dispatcher.Orchestration.Loop.{
  tool_message, absorb_response, step_of, LoopMode, run_tool_calls,
}

-- One model turn, with the results of its tool calls.
pub record Turn : Type 0 where
  pub step : StepResult
  pub results : List ToolResult

-- Each call is answered by one result with its id, in the order of the calls.
abbrev pub AnsweredBy : List ToolCall → List ToolResult → Type 0
AnsweredBy calls results = map (λ r. r.call_id) results ≡ map (λ call. call.id) calls

abbrev pub IsAnswered : Turn → Type 0
IsAnswered t = AnsweredBy t.step.message.tool_calls t.results

abbrev pub turn_messages : Turn → List Message
turn_messages t = t.step.message ∷ map tool_message t.results

abbrev pub transcript_of : List Turn → List Message
transcript_of [] = []
transcript_of (t ∷ ts) = turn_messages t ++ transcript_of ts

abbrev pub usage_of : Usage → List Turn → Usage
usage_of u [] = u
usage_of u (t ∷ ts) = usage_of (add_usages u t.step.usage) ts

-- Every turn but the last asked for tools; `Last` says what the last one did.
abbrev pub AllAsk : List Turn → Type 0
AllAsk ts = All (λ t. t.step.message.tool_calls ≢ []) ts

abbrev pub Answering : List Turn → Type 0
Answering [] = ⊥
Answering (t ∷ []) = t.step.message.tool_calls ≡ []
Answering (t ∷ u ∷ ts) = (t.step.message.tool_calls ≢ []) × Answering (u ∷ ts)

-- Why a run of at most `n` turns stops with the turns `ts`.
abbrev pub Stops : StopReason → ℕ → List Turn → Type 0
Stops completed n ts = Answering ts × (length ts ≤ n)
Stops max_iterations n ts = AllAsk ts × (length ts ≡ n)
Stops deadline n ts = AllAsk ts × (length ts < n)
Stops error n ts = ⊥

-- The conversation `st'` is `st` after the turns `ts`.
pub record After (st : ConversationState) (ts : List Turn) (st' : ConversationState) : Type 0 where
  pub tenant : st'.tenant ≡ st.tenant
  pub tools : st'.tools ≡ st.tools
  pub messages : st'.messages ≡ st.messages ++ transcript_of ts
  pub usage : st'.usage ≡ usage_of st.usage ts
  pub iterations : st'.iterations ≡ st.iterations + length ts

-- `st'` is `st` with the answers appended.
pub record Answered (st : ConversationState) (results : List ToolResult) (st' : ConversationState)
    : Type 0 where
  pub tenant : st'.tenant ≡ st.tenant
  pub tools : st'.tools ≡ st.tools
  pub messages : st'.messages ≡ st.messages ++ map tool_message results
  pub usage : st'.usage ≡ st.usage
  pub iterations : st'.iterations ≡ st.iterations

pub After-refl : (st : ConversationState) → After st [] st
After-refl st = record {
  tenant = refl;
  tools = refl;
  messages = sym (append-nil st.messages);
  usage = refl;
  iterations = omega arith;
}

-- One turn in front: the response is absorbed, then its calls are answered.
pub After-turn :
    (r : CompletionResponse) (attempts : List AttemptRecord) (results : List ToolResult)
    (ts : List Turn) (st st' st'' : ConversationState)
    → Answered (absorb_response r st) results st'
    → After st' ts st''
    → After st (record { step = step_of r attempts; results = results } ∷ ts) st''
unfolding absorb_response
After-turn r attempts results ts st st' st'' a b = record {
  tenant = b.tenant ∙ a.tenant;
  tools = b.tools ∙ a.tools;
  messages =
      b.messages
      ∙ ap (λ l. l ++ transcript_of ts) a.messages
      ∙ append_assoc (st.messages ++ r.message ∷ []) (map tool_message results) (transcript_of ts)
      ∙ append_assoc st.messages (r.message ∷ []) (map tool_message results ++ transcript_of ts);
  usage = b.usage ∙ ap (λ u. usage_of u ts) a.usage;
  iterations = omega (arith, a.iterations, b.iterations);
}

pub Answered-refl : (st : ConversationState) → Answered st [] st
Answered-refl st = record {
  tenant = refl;
  tools = refl;
  messages = sym (append-nil st.messages);
  usage = refl;
  iterations = refl;
}

module _ {S : Type 0} (clock : Clock S) (mode : LoopMode S)
    (answers : (call : ToolCall) (s : S) → (mode.call_tool call s).0.call_id ≡ call.id) where
  pub run_tool_calls-Answered :
      (calls : List ToolCall) (st : ConversationState) (s : S)
      → (results : List ToolResult) × (AnsweredBy calls results
          × Answered st results (run_tool_calls clock mode calls st s).0)
  unfolding run_tool_calls
  run_tool_calls-Answered [] st s = ([], (refl, Answered-refl st))
  run_tool_calls-Answered (call ∷ calls) st s =
      let out = mode.call_tool call s in
      let (results, (ids, a)) =
        run_tool_calls-Answered calls (append_message (tool_message out.0) st) out.1 in
      (
        out.0 ∷ results,
        (
          ap (λ i. i ∷ map (λ o. o.call_id) results) (answers call s) ∙ ap (λ l. call.id ∷ l) ids,
          record {
            tenant = a.tenant;
            tools = a.tools;
            messages =
                a.messages
                ∙ append_assoc st.messages (tool_message out.0 ∷ []) (map tool_message results);
            usage = a.usage;
            iterations = a.iterations;
          },
        ),
      )
