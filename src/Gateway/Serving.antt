-- ===== src/Gateway/Serving.antt =====
-- A call of the gateway that one of the candidates answers.
use model_dispatcher.Prelude.{
  ℕ, ◌<◌, String, ◌≡◌, refl, ap, ◌∙◌, Option, none, some, List, [], ◌∷◌, ◌++◌, length, All,
}
use model_dispatcher.Prelude.Int.{ℤ}
use model_dispatcher.Types.{
  assistant, TenantId, CompletionRequest, CompletionResponse, no_usage, add_usages,
}
use model_dispatcher.Errors.{Res, ok, raised}
use model_dispatcher.Providers.Base.{completed, ModelProvider}
use model_dispatcher.Quota.Tenant.{TenantContext}
use model_dispatcher.Quota.Store.{Window}
use model_dispatcher.Quota.Manager.Laws.{StoreLaws}
use model_dispatcher.Security.Perimeter.{validate}
use model_dispatcher.Routing.Triage.{classify}
use model_dispatcher.Routing.Router.{route}
use model_dispatcher.Fallback.Context.{
  InvocationContext, fresh_context, Ended, Handle, FallbackHandler,
}
use model_dispatcher.Fallback.Chain.Default.{default_links, links, execute-default_links}
use model_dispatcher.Fallback.Chain.Failover.{IsDown, IsUp, Room, ServedBy}
use model_dispatcher.Fallback.Chain.Failover.Served.{failover}
use model_dispatcher.Fallback.Chain.Refinement.{first_deciding, serve}
use model_dispatcher.Fallback.Invocation.{Mode, sync_mode, async_mode}
use model_dispatcher.Fallback.Retry.{default_retry}
use model_dispatcher.Orchestration.Tools.{ToolRegistry}
use model_dispatcher.Orchestration.State.{StopReason, to_request, RunResult}
use model_dispatcher.Orchestration.Loop.{LoopMode, run_mode, arun_mode}
use model_dispatcher.Orchestration.Loop.Answer.{run-Answered}
use model_dispatcher.Gateway.{
  ModelGateway, Prepared, prepared, prepare, build_chain, run_prepared, dispatch_with, dispatch,
  adispatch,
}

serve-first_deciding :
    {S : Type 0} (hs : List (Handle S)) (ahead behind : List (ModelProvider S))
    (p : ModelProvider S) (c : InvocationContext S) (s : S)
    → serve hs (ahead ++ p ∷ behind) c s ≡ first_deciding hs (ahead ++ p ∷ behind) c s
serve-first_deciding hs [] behind p c s = refl
serve-first_deciding hs (q ∷ ahead) behind p c s = refl

module _ {S : Type 0} (g : ModelGateway S) (seen : TenantId → Window → S → ℤ)
    (laws : StoreLaws g.quota seen) (request : CompletionRequest) (tenant : TenantContext)
    (tools : Option (ToolRegistry S)) where
  -- The request of the first model turn.
  abbrev pub first_turn : CompletionRequest
  first_turn = to_request (prepared g request tools).state

  -- What a caller gets who is answered by `p` in the first turn: its message, its usage, one step.
  pub record AnsweredBy (mode : Mode S) (p : ModelProvider S) (o : Option (Res RunResult × S))
      : Type 0 where
    pub answer : CompletionResponse
    pub key : Option String
    pub asked_in : S
    pub origin : (mode.call p first_turn key asked_in).0 ≡ completed answer
    pub result : RunResult
    pub after : S
    pub returned : o ≡ some (ok result, after)
    pub stopped : result.stop_reason ≡ StopReason.completed
    pub final : result.final_message ≡ answer.message
    pub transcript : result.transcript ≡ request.messages ++ answer.message ∷ []
    pub usage : result.usage ≡ add_usages no_usage answer.usage
    pub one_step : length result.steps ≡ 1

  module _ (allowed : validate g.settings.security request tenant ≡ ok tt)
      (allowed_turn : validate g.settings.security first_turn tenant ≡ ok tt)
      (tries : 0 < g.settings.retry_max_attempts) (turns : 0 < g.settings.max_iterations)
      (ahead behind : List (ModelProvider S)) (p : ModelProvider S)
      (routed : route g.providers g.settings.routing request (classify g.scorer request)
        ≡ ahead ++ p ∷ behind) where
    abbrev chain : List (FallbackHandler S)
    chain =
        default_links g.settings.security g.quota g.clock
          (default_retry g.settings.retry_max_attempts)

    module _ (call_mode : Mode S)
        (loop_mode : List (FallbackHandler S) → ToolRegistry S → LoopMode S)
        (serves : (r : ToolRegistry S) (c : InvocationContext S) (s : S)
          → (loop_mode chain r).turn c s
            ≡ some (
                serve
                  (links g.quota call_mode
                    (default_retry g.settings.retry_max_attempts)
                    g.settings.security)
                  c.candidates
                  c
                  s))
        (pauses : (delay : ℕ) (u : TenantId) (w : Window) (s : S)
          → seen u w (call_mode.pause delay s) ≡ seen u w s) where
      abbrev served_links : List (Handle S)
      served_links =
          links g.quota call_mode (default_retry g.settings.retry_max_attempts) g.settings.security

      dispatch_with-AnsweredBy :
          (s : S)
          → All (IsDown seen call_mode tenant) ahead
          → IsUp call_mode first_turn tenant p
          → ((key : Option String) (s' : S) (a : CompletionResponse)
              → (call_mode.call p first_turn key s').0 ≡ completed a
              → (a.message.role ≡ assistant) × (a.message.tool_calls ≡ []))
          → Room seen first_turn tenant (ahead ++ p ∷ []) s
          → AnsweredBy call_mode p (dispatch_with g loop_mode request tenant tools s)
      unfolding dispatch_with prepare run_prepared build_chain prepared
      dispatch_with-AnsweredBy s down up plain room =
          go (validate g.settings.security request tenant) allowed
        where
          q : Prepared S
          q = prepared g request tools

          c : InvocationContext S
          c = fresh_context first_turn tenant q.candidates

          r : Ended S CompletionResponse
          r = first_deciding served_links (ahead ++ p ∷ behind) c s

          served : ServedBy call_mode first_turn p r
          served =
              failover g.quota seen laws call_mode (default_retry g.settings.retry_max_attempts)
                g.settings.security first_turn tenant allowed_turn pauses tries p behind ahead
                q.candidates c s down up room

          turn : (loop_mode chain q.registry).turn c s ≡ some (ok served.0, r.1, r.2)
          turn =
              serves q.registry c s
              ∙ ap (λ l. some (serve served_links l c s)) routed
              ∙ ap some (serve-first_deciding served_links ahead behind p c s)
              ∙ ap (λ x. some (x, r.1, r.2)) served.1

          answered : AnsweredBy call_mode p (run_prepared g (loop_mode) tenant q (build_chain g) s)
          answered =
              let (role, quiet) = plain served.2.0 served.2.1 served.0 served.2.2 in
              let (result, st, e, done) =
                run-Answered g.clock (loop_mode chain q.registry) tenant q.candidates
                  g.settings.max_iterations q.state served.0 r.1 s r.2 turns turn role quiet in
              record {
                answer = served.0;
                key = served.2.0;
                asked_in = served.2.1;
                origin = served.2.2;
                result = result;
                after = r.2;
                returned = ap (λ o. elim o [ none ↦ none | some x ↦ some (x.0, x.2) ]) e;
                stopped = done.stopped;
                final = done.final;
                transcript = done.transcript;
                usage = done.usage;
                one_step = ap (λ l. length l) done.steps;
              }

          go :
              (v : Res (Unit {0}))
              → v ≡ ok tt
              → AnsweredBy call_mode p (
                  let w : Res (Prepared S) = elim v [ raised e ↦ raised e | ok _ ↦ ok q ] in
                  elim w [
                    | raised e ↦ some (raised e, s)
                    | ok q' ↦ run_prepared g loop_mode tenant q' (build_chain g) s
                  ])
          go (ok _) e = answered
          go (raised x) e = absurd cc

    -- `dispatch` returns, after one turn, the answer of the first candidate that is up, with stop
    -- reason COMPLETED and that answer's usage: where the perimeter lets the request and its first
    -- turn pass, at least one attempt and one turn are allowed, every candidate ahead fails each
    -- call with a rate limit, a quota or a transient error whose retry hint, if any, can be read and
    -- is not negative, that candidate answers in the role of the assistant without asking for tools,
    -- neither pauses nor failing calls touch the counters, and every window has room for the
    -- estimates of all these candidates together.
    pub dispatch-AnsweredBy :
        ((delay : ℕ) (u : TenantId) (w : Window) (s : S)
          → seen u w (g.clock.sleep delay s) ≡ seen u w s)
        → (s : S) → All (IsDown seen (sync_mode g.clock) tenant) ahead
        → IsUp (sync_mode g.clock) first_turn tenant p
        → ((key : Option String) (s' : S) (a : CompletionResponse)
            → (p.complete first_turn key s').0 ≡ completed a
            → (a.message.role ≡ assistant) × (a.message.tool_calls ≡ []))
        → Room seen first_turn tenant (ahead ++ p ∷ []) s
        → AnsweredBy (sync_mode g.clock) p (dispatch g request tenant tools s)
    unfolding dispatch
    dispatch-AnsweredBy pauses s down up plain room =
        dispatch_with-AnsweredBy (sync_mode g.clock) run_mode
          (λ r c s'.
            (execute-default_links g.settings.security g.quota g.clock
              (default_retry g.settings.retry_max_attempts) c s').0.0)
          pauses s down up plain room

    -- The same of `adispatch`, with the async calls and pauses.
    pub adispatch-AnsweredBy :
        ((delay : ℕ) (u : TenantId) (w : Window) (s : S)
          → seen u w (g.clock.async_sleep delay s) ≡ seen u w s)
        → (s : S) → All (IsDown seen (async_mode g.clock) tenant) ahead
        → IsUp (async_mode g.clock) first_turn tenant p
        → ((key : Option String) (s' : S) (a : CompletionResponse)
            → (p.acomplete first_turn key s').0 ≡ completed a
            → (a.message.role ≡ assistant) × (a.message.tool_calls ≡ []))
        → Room seen first_turn tenant (ahead ++ p ∷ []) s
        → AnsweredBy (async_mode g.clock) p (adispatch g request tenant tools s)
    unfolding adispatch
    adispatch-AnsweredBy pauses s down up plain room =
        dispatch_with-AnsweredBy (async_mode g.clock) arun_mode
          (λ r c s'.
            (execute-default_links g.settings.security g.quota g.clock
              (default_retry g.settings.retry_max_attempts) c s').1.0)
          pauses s down up plain room
