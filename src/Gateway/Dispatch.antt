-- ===== src/Gateway/Dispatch.antt =====
-- How a call of the gateway ends.
use model_dispatcher.Prelude.{
  ℕ, ◌≡◌, refl, sym, ap, ◌∙◌, subst, Option, none, some, List, [], ◌++◌, map, All,
}
use model_dispatcher.Types.{CompletionRequest, CompletionResponse, ToolCall, Message, no_usage}
use model_dispatcher.Errors.{
  dispatcher-IsServiceError, RaisesDispatcher, Res, ok, raised, IsServiceError,
}
use model_dispatcher.Quota.Tenant.{TenantContext}
use model_dispatcher.Security.Perimeter.{validate}
use model_dispatcher.Security.Perimeter.Accepts.{validate-RaisesDispatcher}
use model_dispatcher.Fallback.Context.{InvocationContext, Ended, FallbackHandler}
use model_dispatcher.Fallback.Chain.Default.{default_links, EndsAs, execute-default_links}
use model_dispatcher.Fallback.Retry.{default_retry}
use model_dispatcher.Orchestration.Tools.{ToolRegistry}
use model_dispatcher.Orchestration.Tools.Execute.{execute-Answers, aexecute-Answers}
use model_dispatcher.Orchestration.State.{ConversationState, RunResult}
use model_dispatcher.Orchestration.Loop.{LoopMode, run_mode, arun_mode, RunEnd}
use model_dispatcher.Orchestration.Loop.Transcript.{
  Turn, IsAnswered, Stops, transcript_of, usage_of,
}
use model_dispatcher.Orchestration.Loop.Runs.{RunEnds, IsServed, run-RunEnds}
use model_dispatcher.Gateway.{
  ModelGateway, Prepared, prepared, prepare, build_chain, run_prepared, dispatch_with, dispatch,
  adispatch,
}

-- What a caller gets back after `messages`, from a gateway of at most `n` turns: the transcript is
-- the caller's messages and then the turns, in which each tool call is answered by one result; the
-- usage is the sum over the turns; and the stop reason is the true one.
pub record Delivered (n : ℕ) (messages : List Message) (result : RunResult) : Type 0 where
  pub turns : List Turn
  pub answered : All IsAnswered turns
  pub transcript : result.transcript ≡ messages ++ transcript_of turns
  pub usage : result.usage ≡ usage_of no_usage turns
  pub steps : result.steps ≡ map (λ t. t.step) turns
  pub stops : Stops result.stop_reason n turns

abbrev pub Concludes : {S : Type 0} → ℕ → List Message → Option (Res RunResult × S) → Type 0
Concludes n messages none = ⊥
Concludes n messages (some (ok result, s)) = Delivered n messages result
Concludes n messages (some (raised e, s)) = IsServiceError e

module _ {S : Type 0} where
  pub EndsAs-IsServed :
      (o : Option (Ended S CompletionResponse)) (r : Ended S CompletionResponse)
      → EndsAs o r
      → IsServed o
  EndsAs-IsServed o r (e, h) = subst IsServed (sym e) h

  RunEnds-Concludes :
      (n : ℕ) (st : ConversationState) (o : Option (RunEnd S))
      → st.usage ≡ no_usage
      → RunEnds n st [] o
      → Concludes n st.messages (elim o [ none ↦ none | some r ↦ some (r.0, r.2) ])
  RunEnds-Concludes n st none fresh h = h
  RunEnds-Concludes n st (some (ok result, st', s)) fresh h = record {
    turns = h.turns;
    answered = h.answered;
    transcript = h.transcript ∙ h.after.messages;
    usage = h.usage ∙ h.after.usage ∙ ap (λ u. usage_of u h.turns) fresh;
    steps = h.steps_taken;
    stops = h.stops;
  }
  RunEnds-Concludes n st (some (raised e, st', s)) fresh h = h.library

  module _ (g : ModelGateway S) where
    abbrev chain : List (FallbackHandler S)
    chain =
        default_links g.settings.security g.quota g.clock
          (default_retry g.settings.retry_max_attempts)

    dispatch_with-Concludes :
        (mode : List (FallbackHandler S) → ToolRegistry S → LoopMode S)
        (request : CompletionRequest) (tenant : TenantContext) (tools : Option (ToolRegistry S))
        (s : S)
        → ((r : ToolRegistry S) (call : ToolCall) (s' : S)
            → ((mode chain r).call_tool call s').0.call_id ≡ call.id)
        → ((r : ToolRegistry S) (c : InvocationContext S) (s' : S)
            → IsServed ((mode chain r).turn c s'))
        → Concludes g.settings.max_iterations request.messages
            (dispatch_with g mode request tenant tools s)
    unfolding dispatch_with prepare prepared run_prepared build_chain
    dispatch_with-Concludes mode request tenant tools s answers served =
        go (validate g.settings.security request tenant)
          (validate-RaisesDispatcher g.settings.security request tenant)
      where
        p : Prepared S
        p = prepared g request tools

        go :
            (v : Res (Unit {0}))
            → RaisesDispatcher v
            → Concludes g.settings.max_iterations request.messages (
                let q : Res (Prepared S) = elim v [ raised e ↦ raised e | ok _ ↦ ok p ] in
                elim q [
                  | raised e ↦ some (raised e, s)
                  | ok q' ↦ run_prepared g mode tenant q' (build_chain g) s
                ])
        go (raised e) h = dispatcher-IsServiceError e h
        go (ok _) h = RunEnds-Concludes g.settings.max_iterations p.state _ refl (
            run-RunEnds g.clock (mode chain p.registry) (answers p.registry) none tenant
              p.candidates (served p.registry) g.settings.max_iterations p.state s)

    pub dispatch_lem :
        (request : CompletionRequest) (tenant : TenantContext) (tools : Option (ToolRegistry S))
        (s : S)
        → Concludes g.settings.max_iterations request.messages (dispatch g request tenant tools s)
          × Concludes g.settings.max_iterations request.messages
              (adispatch g request tenant tools s)
    unfolding dispatch adispatch
    dispatch_lem request tenant tools s = (
      dispatch_with-Concludes run_mode request tenant tools s execute-Answers (λ r c s'.
          EndsAs-IsServed _ _
            (execute-default_links g.settings.security g.quota g.clock
              (default_retry g.settings.retry_max_attempts) c s').0),
      dispatch_with-Concludes arun_mode request tenant tools s aexecute-Answers (λ r c s'.
          EndsAs-IsServed _ _
            (execute-default_links g.settings.security g.quota g.clock
              (default_retry g.settings.retry_max_attempts) c s').1),
    )
