-- ===== src/Orchestration/Loop/Answer.antt =====
-- A run whose first model turn asks for no tools.
use model_dispatcher.Prelude.{
  ℕ, zero, suc, ◌<◌, ◌≡◌, refl, sym, subst, Option, none, some, List, [], ◌∷◌, ◌++◌, arith,
}
use model_dispatcher.Types.{assistant, Message, add_usages, CompletionResponse}
use model_dispatcher.Errors.{ok}
use model_dispatcher.Providers.Base.{ModelProvider, Clock}
use model_dispatcher.Quota.Tenant.{TenantContext}
use model_dispatcher.Fallback.Context.{InvocationContext, fresh_context, Ended}
use model_dispatcher.Orchestration.State.{
  ConversationState, to_request, completed, StepResult, RunResult,
}
use model_dispatcher.Orchestration.Loop.{
  last_assistant, finalize, absorb_response, step_of, LoopMode, RunEnd, past_deadline, after_turn,
  before_turn, iterate, run,
}

last_assistant-snoc :
    (ms : List Message) (m : Message) → m.role ≡ assistant → last_assistant (ms ++ m ∷ []) ≡ some m
unfolding last_assistant
last_assistant-snoc [] m e = rw e refl
last_assistant-snoc (x ∷ ms) m e = rw (last_assistant-snoc ms m e) refl

-- The run is over after one turn, with this answer.
pub record Answered {S : Type 0} (st : ConversationState) (a : CompletionResponse)
    (c : InvocationContext S) (result : RunResult) : Type 0 where
  pub stopped : result.stop_reason ≡ completed
  pub final : result.final_message ≡ a.message
  pub transcript : result.transcript ≡ st.messages ++ a.message ∷ []
  pub usage : result.usage ≡ add_usages st.usage a.usage
  pub steps :
      result.steps ≡ record { message = a.message; usage = a.usage; attempts = c.attempts } ∷ []

module _ {S : Type 0} (clock : Clock S) (mode : LoopMode S) (tenant : TenantContext)
    (candidates : List (ModelProvider S)) where
  EndsAnswered :
      ConversationState → CompletionResponse → InvocationContext S → S → Option (RunEnd S) → Type 0
  EndsAnswered st a c s o =
      (result : RunResult) × (st' : ConversationState) × (o ≡ some (ok result, st', s))
      × Answered st a c result

  after_turn-Answered :
      (again : ConversationState → List StepResult → S → Option (RunEnd S)) (st : ConversationState)
      (a : CompletionResponse) (c : InvocationContext S) (s : S)
      (o : Option (Ended S CompletionResponse))
      → o ≡ some (ok a, c, s)
      → a.message.role ≡ assistant
      → a.message.tool_calls ≡ []
      → EndsAnswered st a c s (after_turn clock mode again st [] o)
  unfolding EndsAnswered after_turn finalize absorb_response
  after_turn-Answered again st a c s o e role quiet =
      subst (λ v. EndsAnswered st a c s (after_turn clock mode again st [] v)) (sym e)
        (
          finalize (absorb_response a st) (step_of a c.attempts ∷ []) completed,
          absorb_response a st,
          simp quiet refl,
          record {
            stopped = refl;
            final = rw (last_assistant-snoc st.messages a.message role, finalize) refl;
            transcript = refl;
            usage = refl;
            steps = refl;
          },
        )

  -- Where the first model turn answers and asks for no tools, the run returns that answer.
  pub run-Answered :
      (n : ℕ) (st : ConversationState) (a : CompletionResponse) (c : InvocationContext S) (s s' : S)
      → 0 < n
      → mode.turn (fresh_context (to_request st) tenant candidates) s ≡ some (ok a, c, s')
      → a.message.role ≡ assistant
      → a.message.tool_calls ≡ []
      → (result : RunResult) × (st' : ConversationState) × (run clock mode none tenant candidates n
            st s
          ≡ some (ok result, st', s'))
        × Answered st a c result
  unfolding run iterate before_turn past_deadline EndsAnswered
  run-Answered zero st a c s s' less e role quiet = absurd (omega arith)
  run-Answered (suc n) st a c s s' less e role quiet =
      after_turn-Answered (iterate clock mode none tenant candidates n) st a c s' _ e role quiet
