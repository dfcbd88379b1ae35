-- ===== src/Fallback/Chain/Backed.antt =====
-- A walk whose outcome is backed by its context, and what the specification raises then.
use model_dispatcher.Prelude.{
  ◌≡◌, sym, ◌∙◌, true, Option, none, some, List, [], ◌∷◌, arith, is_some,
}
use mathlib.Core.List.{append-nil}
use model_dispatcher.Types.{CompletionResponse}
use model_dispatcher.Errors.{
  RaisesServiceError, dispatcher-IsServiceError, Exn, ok, raised, IsDispatcher, RaisesServiceError,
}
use model_dispatcher.Providers.Base.{ModelProvider}
use model_dispatcher.Fallback.Context.{
  HandlerOutcome, continue, success, fallback, stop, InvocationContext, reset_candidate_state,
  Ended, Handle,
}
use model_dispatcher.Fallback.Handlers.Links.{PassesOn, Passes}
use model_dispatcher.Fallback.Invocation.Outcomes.{Backed, IsBacked}
use model_dispatcher.Fallback.Chain.{on_continue, run_handlers, succeed, stop_error}
use model_dispatcher.Fallback.Chain.Frame.{Frame}
use model_dispatcher.Fallback.Chain.Refinement.{decide, first_deciding, serve}

module _ {S : Type 0} where
  pub Passes-Frame :
      (c : InvocationContext S) (r : Ended S HandlerOutcome) → Passes c r → Frame c r.1
  Passes-Frame c r h = record {
    request = h.request;
    tenant = h.tenant;
    candidates = h.candidates;
    attempts = ([], h.attempts ∙ sym (append-nil c.attempts));
  }

  -- The walk over links that pass on and a last one that is backed.
  pub on_continue-IsBacked :
      (next : Handle S) (r : Ended S HandlerOutcome)
      → PassesOn r.0
      → ((c : InvocationContext S) (s : S) → IsBacked (next c s))
      → IsBacked (on_continue next r)
  unfolding on_continue
  on_continue-IsBacked next (ok continue, c, s) h b = b c s
  on_continue-IsBacked next (ok success, c, s) h b = elim h [ ]
  on_continue-IsBacked next (ok fallback, c, s) h b = tt
  on_continue-IsBacked next (ok stop, c, s) h b = elim h [ ]
  on_continue-IsBacked next (raised e, c, s) h b = dispatcher-IsServiceError e h

  pub end-IsBacked :
      (r : Ended S HandlerOutcome) → IsBacked r → IsBacked (on_continue (run_handlers []) r)
  unfolding on_continue
  end-IsBacked (ok continue, c, s) h = elim h [ ]
  end-IsBacked (ok success, c, s) h = h
  end-IsBacked (ok fallback, c, s) h = h
  end-IsBacked (ok stop, c, s) h = h
  end-IsBacked (raised e, c, s) h = h

  succeed-Raises :
      (c : InvocationContext S) → is_some c.response ≡ true → RaisesServiceError (succeed c)
  unfolding succeed
  succeed-Raises c h = go c.response h
    where
      go :
          (o : Option CompletionResponse)
          → is_some o ≡ true
          → RaisesServiceError (succeed (record c { response = o }))
      go none e = ground arith
      go (some r) e = tt

  stop_error-IsDispatcher : (c : InvocationContext S) → Backed stop c → IsDispatcher (stop_error c)
  unfolding stop_error
  stop_error-IsDispatcher c h = go c.error h
    where
      go :
          (o : Option Exn)
          → Backed stop (record c { error = o })
          → IsDispatcher (stop_error (record c { error = o }))
      go none e = tt
      go (some x) e = e

  decide-Raises :
      (next : InvocationContext S → S → Ended S CompletionResponse) (r : Ended S HandlerOutcome)
      → IsBacked r
      → ((c : InvocationContext S) (s : S) → RaisesServiceError (next c s).0)
      → RaisesServiceError (decide next r).0
  decide-Raises next (raised e, c, s) h b = h
  decide-Raises next (ok success, c, s) h b = succeed-Raises c h
  decide-Raises next (ok stop, c, s) h b =
      dispatcher-IsServiceError (stop_error c) (stop_error-IsDispatcher c h)
  decide-Raises next (ok continue, c, s) h b = tt
  decide-Raises next (ok fallback, c, s) h b = b c s

  module _ (hs : List (Handle S))
      (backed : (c : InvocationContext S) (s : S) → IsBacked (run_handlers hs c s)) where
    first_deciding-Raises :
        (ps : List (ModelProvider S)) (c : InvocationContext S) (s : S)
        → RaisesServiceError (first_deciding hs ps c s).0
    unfolding first_deciding
    first_deciding-Raises [] c s = tt
    first_deciding-Raises (p ∷ ps) c s =
        decide-Raises
          (λ c' s'. first_deciding hs ps (reset_candidate_state (record c' { candidates = ps })) s')
          (run_handlers hs (record c { candidates = p ∷ ps }) s)
          (backed (record c { candidates = p ∷ ps }) s)
          (λ c' s'.
            first_deciding-Raises ps (reset_candidate_state (record c' { candidates = ps })) s')

    pub serve-Raises :
        (ps : List (ModelProvider S)) (c : InvocationContext S) (s : S)
        → RaisesServiceError (serve hs ps c s).0
    serve-Raises [] c s = tt
    serve-Raises (p ∷ ps) c s = first_deciding-Raises (p ∷ ps) c s
