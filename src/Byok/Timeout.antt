-- ===== src/Byok/Timeout.antt =====
-- src/model_dispatcher/byok/dispatch.py: a dispatch whose caller waits for a bounded time. The thread
-- pool and the event loop are parameters.
use model_dispatcher.Prelude.{ℕ, ◌≡◌, refl, sym, subst, Option, some, [], ◌∷◌}
use model_dispatcher.Types.{CompletionRequest}
use model_dispatcher.Errors.{dispatcher, Res, raised, DispatchTimeoutError}
use model_dispatcher.Onboarding.Handoff.{text, number}
use model_dispatcher.Quota.Tenant.{TenantContext}
use model_dispatcher.Orchestration.Tools.{ToolRegistry}
use model_dispatcher.Orchestration.State.{RunResult}
use model_dispatcher.Gateway.{ModelGateway, dispatch, adispatch}
use model_dispatcher.Gateway.Dispatch.{Concludes, dispatch_lem}

abbrev pub Task : Type 0 → Type 0
Task S = S → Option (Res RunResult × S)

-- What a wait comes to: the task's outcome, or the state in which the time is up.
pub data Waited (S : Type 0) : Type 0 where
  in_time : Option (Res RunResult × S) → Waited S
  out_of_time : S → Waited S

-- `executor.submit(...).result(timeout=...)`, or `asyncio.wait_for`, for whole seconds.
abbrev pub Executor : Type 0 → Type 0
Executor S = ℕ → Task S → S → Waited S

-- The `except TimeoutError`.
or_timeout : {S : Type 0} → ℕ → Waited S → Option (Res RunResult × S)
or_timeout seconds (in_time outcome) = outcome
or_timeout seconds (out_of_time s) = some (
  raised (
      dispatcher (
        DispatchTimeoutError
          (text "dispatch did not complete within " ∷ number seconds ∷ text "s" ∷ []))),
  s,
)

module _ {S : Type 0} (g : ModelGateway S) (executor : Executor S) (seconds : ℕ) where
  -- `dispatch_with_timeout`
  pub dispatch_with_timeout :
      CompletionRequest → TenantContext → Option (ToolRegistry S) → S → Option (Res RunResult × S)
  unfolding or_timeout
  dispatch_with_timeout request tenant tools s =
      or_timeout seconds (executor seconds (dispatch g request tenant tools) s)

  -- `adispatch_with_timeout`
  pub adispatch_with_timeout :
      CompletionRequest → TenantContext → Option (ToolRegistry S) → S → Option (Res RunResult × S)
  unfolding or_timeout
  adispatch_with_timeout request tenant tools s =
      or_timeout seconds (executor seconds (adispatch g request tenant tools) s)

  module _
      (faithful : (task : Task S) (s : S) (o : Option (Res RunResult × S))
        → executor seconds task s ≡ in_time o
        → o ≡ task s) where
    or_timeout-Concludes :
        (request : CompletionRequest) (task : Task S) (s : S) (w : Waited S)
        → executor seconds task s ≡ w
        → Concludes g.settings.max_iterations request.messages (task s)
        → Concludes g.settings.max_iterations request.messages (or_timeout seconds w)
    unfolding or_timeout
    or_timeout-Concludes request task s (in_time o) e h =
        subst (Concludes g.settings.max_iterations request.messages) (sym (faithful task s o e)) h
    or_timeout-Concludes request task s (out_of_time s') e h = tt

    -- Where a wait that is over in time gives what the task does, a bounded dispatch ends as the
    -- gateway's does, with a whole result or an error of the library; a timeout is such an error.
    -- The same holds of the async one.
    pub dispatch_with_timeout-Concludes :
        (request : CompletionRequest) (tenant : TenantContext) (tools : Option (ToolRegistry S))
        (s : S)
        → Concludes g.settings.max_iterations request.messages
            (dispatch_with_timeout request tenant tools s)
          × Concludes g.settings.max_iterations request.messages
              (adispatch_with_timeout request tenant tools s)
    unfolding dispatch_with_timeout adispatch_with_timeout
    dispatch_with_timeout-Concludes request tenant tools s = (
      or_timeout-Concludes request (dispatch g request tenant tools) s _ refl
          (dispatch_lem g request tenant tools s).0,
      or_timeout-Concludes request (adispatch g request tenant tools) s _ refl
          (dispatch_lem g request tenant tools s).1,
    )
