-- ===== src/Fallback/Chain.antt =====
-- src/model_dispatcher/fallback/chain.py: runs the handlers for one candidate after another.
pub mod Frame
pub mod Refinement
pub mod Backed
pub mod Default
pub mod Failover
use model_dispatcher.Prelude.{ℕ, zero, suc, not, Option, none, some, List, [], ◌∷◌, map, length}
use model_dispatcher.Types.{CompletionResponse}
use model_dispatcher.Errors.{
  Exn, Res, ok, raised, dispatcher, value_error, assertion_error, index_error, internal_error,
  AllProvidersExhausted,
}
use model_dispatcher.Onboarding.Handoff.{text}
use model_dispatcher.Fallback.Context.{
  HandlerOutcome, continue, success, fallback, stop, InvocationContext, reset_candidate_state,
  Ended, Handle, FallbackHandler,
}

module _ {S : Type 0} where
  -- `FallbackChain.build`
  unfoldable pub build : List (FallbackHandler S) → Res (List (FallbackHandler S))
  build [] = raised (value_error (text "a fallback chain needs at least one handler" ∷ []))
  build (h ∷ hs) = ok (h ∷ hs)

  -- The next handler runs only after CONTINUE; an exception and any other outcome end the walk.
  pub on_continue : Handle S → Ended S HandlerOutcome → Ended S HandlerOutcome
  on_continue next (ok continue, c, s) = next c s
  on_continue next (ok o, c, s) = (ok o, c, s)
  on_continue next (raised e, c, s) = (raised e, c, s)

  -- `for handler in self._handlers`
  pub run_handlers : List (Handle S) → Handle S
  unfolding on_continue
  run_handlers [] c s = (ok continue, c, s)
  run_handlers (h ∷ hs) c s = on_continue (λ c' s'. run_handlers hs c' s') (h c s)

  -- `_succeed`
  unfoldable pub succeed : InvocationContext S → Res CompletionResponse
  succeed c = elim c.response [
    | none ↦ raised (assertion_error (text "context.response is not None" ∷ []))
    | some r ↦ ok r
  ]

  -- `_stop_error`
  unfoldable pub stop_error : InvocationContext S → Exn
  stop_error c = elim c.error [
    | none ↦ dispatcher (internal_error (text "fallback chain stopped" ∷ []))
    | some e ↦ e
  ]

  -- `_advance_or_raise` after FALLBACK; `again` is the next turn of `while True`.
  advance :
      (InvocationContext S → S → Option (Ended S CompletionResponse))
      → InvocationContext S
      → S
      → Option (Ended S CompletionResponse)
  advance again c s = elim c.candidates [
    | [] ↦ some (raised (index_error 0), c, s)
    | _ ∷ [] ↦ some (
      raised (dispatcher (AllProvidersExhausted (text "all routed providers were exhausted" ∷ []))),
      reset_candidate_state (record c { candidates = [] }),
      s,
    )
    | _ ∷ p ∷ ps ↦ again (reset_candidate_state (record c { candidates = p ∷ ps })) s
  ]

  -- What one turn of `while True` does with the outcome of its walk.
  after_walk :
      (InvocationContext S → S → Option (Ended S CompletionResponse))
      → Ended S HandlerOutcome
      → Option (Ended S CompletionResponse)
  unfolding succeed stop_error advance
  after_walk again (raised e, c, s) = some (raised e, c, s)
  after_walk again (ok success, c, s) = some (succeed c, c, s)
  after_walk again (ok stop, c, s) = some (raised (stop_error c), c, s)
  after_walk again (ok fallback, c, s) = advance again c s
  after_walk again (ok continue, c, s) = some (
    raised (dispatcher (AllProvidersExhausted (text "fallback chain produced no response" ∷ []))),
    c,
    s,
  )

  -- `while True`, on fuel; `none` is that the fuel has run out.
  rounds : ℕ → List (Handle S) → InvocationContext S → S → Option (Ended S CompletionResponse)
  unfolding run_handlers after_walk
  rounds zero hs c s = none
  rounds (suc fuel) hs c s = after_walk (λ c' s'. rounds fuel hs c' s') (run_handlers hs c s)

  -- Each turn that goes on has dropped a candidate, so there are no more turns than candidates.
  unfoldable pub execute_handles :
      List (Handle S) → InvocationContext S → S → Option (Ended S CompletionResponse)
  unfolding rounds
  execute_handles hs c s = elim c.candidates [
    | [] ↦ some (
      raised (dispatcher (AllProvidersExhausted (text "no candidate providers were routed" ∷ []))),
      c,
      s,
    )
    | p ∷ ps ↦ rounds (length (p ∷ ps)) hs c s
  ]

  -- `execute`
  unfoldable pub execute :
      List (FallbackHandler S) → InvocationContext S → S → Option (Ended S CompletionResponse)
  unfolding execute_handles
  execute hs = execute_handles (map (λ h. h.handle) hs)

  -- `aexecute`
  unfoldable pub aexecute :
      List (FallbackHandler S) → InvocationContext S → S → Option (Ended S CompletionResponse)
  unfolding execute_handles
  aexecute hs = execute_handles (map (λ h. h.ahandle) hs)
