-- ===== src/Fallback/Chain/Refinement.antt =====
-- The executor against a specification by recursion on the candidates.
use model_dispatcher.Prelude.{
  suc, String, ◌≡◌, refl, sym, subst, Option, some, List, [], ◌∷◌, length, All,
}
use model_dispatcher.Types.{CompletionResponse}
use model_dispatcher.Errors.{Res, ok, raised, dispatcher, AllProvidersExhausted}
use model_dispatcher.Onboarding.Handoff.{text}
use model_dispatcher.Providers.Base.{ModelProvider}
use model_dispatcher.Fallback.Context.{
  HandlerOutcome, continue, success, fallback, stop, InvocationContext, reset_candidate_state,
  Ended, Handle,
}
use model_dispatcher.Fallback.Chain.{
  run_handlers, succeed, stop_error, advance, after_walk, rounds, execute_handles,
}
use model_dispatcher.Fallback.Chain.Frame.{IsTame, run_handlers-IsTame}

abbrev exhausted : String → Res CompletionResponse
exhausted reason = raised (dispatcher (AllProvidersExhausted (text reason ∷ [])))

module _ {S : Type 0} where
  -- The specification: the first candidate whose walk ends in something other than FALLBACK decides.
  -- A candidate that falls back is dropped with its credentials and its reservation.
  abbrev pub decide :
      (InvocationContext S → S → Ended S CompletionResponse)
      → Ended S HandlerOutcome
      → Ended S CompletionResponse
  decide next (raised e, c, s) = (raised e, c, s)
  decide next (ok success, c, s) = (succeed c, c, s)
  decide next (ok stop, c, s) = (raised (stop_error c), c, s)
  decide next (ok continue, c, s) = (
    raised (dispatcher (AllProvidersExhausted (text "fallback chain produced no response" ∷ []))),
    c,
    s,
  )
  decide next (ok fallback, c, s) = next c s

  unfoldable pub first_deciding :
      List (Handle S)
      → List (ModelProvider S)
      → InvocationContext S
      → S
      → Ended S CompletionResponse
  first_deciding hs [] c s = (exhausted "all routed providers were exhausted", c, s)
  first_deciding hs (p ∷ ps) c s =
      decide
        (λ c' s'. first_deciding hs ps (reset_candidate_state (record c' { candidates = ps })) s')
        (run_handlers hs (record c { candidates = p ∷ ps }) s)

  -- Without any candidate nothing is tried.
  abbrev pub serve :
      List (Handle S)
      → List (ModelProvider S)
      → InvocationContext S
      → S
      → Ended S CompletionResponse
  serve hs [] c s = (exhausted "no candidate providers were routed", c, s)
  serve hs (p ∷ ps) c s = first_deciding hs (p ∷ ps) c s

  after_walk-decide :
      (p : ModelProvider S) (ps : List (ModelProvider S))
      (again : InvocationContext S → S → Option (Ended S CompletionResponse))
      (next : InvocationContext S → S → Ended S CompletionResponse) (r : Ended S HandlerOutcome)
      → r.1.candidates ≡ p ∷ ps
      → ((c : InvocationContext S) (s : S)
          → advance again (record c { candidates = p ∷ ps }) s ≡ some (next c s))
      → after_walk again r ≡ some (decide next r)
  unfolding after_walk
  after_walk-decide p ps again next (raised e, c, s) kept go = refl
  after_walk-decide p ps again next (ok success, c, s) kept go = refl
  after_walk-decide p ps again next (ok stop, c, s) kept go = refl
  after_walk-decide p ps again next (ok continue, c, s) kept go = refl
  after_walk-decide p ps again next (ok fallback, c, s) kept go =
      subst (λ l. advance again (record c { candidates = l }) s ≡ some (next c s)) (sym kept)
        (go c s)

  module _ (hs : List (Handle S)) (tame : All IsTame hs) where
    rounds-refines :
        (p : ModelProvider S) (ps : List (ModelProvider S)) (c : InvocationContext S) (s : S)
        → rounds (suc (length ps)) hs (record c { candidates = p ∷ ps }) s
          ≡ some (first_deciding hs (p ∷ ps) c s)
    unfolding rounds first_deciding advance
    rounds-refines p [] c s =
        after_walk-decide p [] (λ c' s'. rounds 0 hs c' s') _ _
          ((run_handlers-IsTame hs tame).at (record c { candidates = p ∷ [] }) s).candidates
          (λ c' s'. refl)
    rounds-refines p (q ∷ qs) c s =
        after_walk-decide p (q ∷ qs) (λ c' s'. rounds (suc (length qs)) hs c' s') _ _
          ((run_handlers-IsTame hs tame).at (record c { candidates = p ∷ q ∷ qs }) s).candidates
          (λ c' s'.
            rounds-refines q qs (reset_candidate_state (record c' { candidates = q ∷ qs })) s')

    serve-refines :
        (ps : List (ModelProvider S)) (c : InvocationContext S) (s : S)
        → execute_handles hs (record c { candidates = ps }) s
          ≡ some (serve hs ps (record c { candidates = ps }) s)
    unfolding execute_handles first_deciding
    serve-refines [] c s = refl
    serve-refines (p ∷ ps) c s = rounds-refines p ps c s

    -- With handlers that leave the candidates alone the executor terminates, and does what the
    -- specification says: the candidates are tried in order until one does not fall back.
    pub execute_handles-refines :
        (c : InvocationContext S) (s : S)
        → execute_handles hs c s ≡ some (serve hs c.candidates c s)
    execute_handles-refines c s = serve-refines c.candidates c s
