-- ===== src/Fallback/Invocation/Outcomes.antt =====
-- What the outcome of the invocation handler says of the context.
use model_dispatcher.Prelude.{
  ℕ, zero, suc, ◌+◌, ◌≡◌, refl, Bool, true, false, Option, none, some, List, [], ◌∷◌, arith,
  is_some,
}
use model_dispatcher.Errors.{
  RaisesServiceError, IsServiceError, raised, Res, ok, Exn, ok, raised, IsDispatcher,
}
use model_dispatcher.Providers.Base.{
  Seconds, RetryAfter, wait_hint, unreadable, VendorError, Reply, completed, failed, refused,
  ModelProvider,
}
use model_dispatcher.Quota.Manager.{QuotaStore}
use model_dispatcher.Security.Credentials.{Credential}
use model_dispatcher.Fallback.Context.{
  HandlerOutcome, continue, success, fallback, stop, InvocationContext, Ended,
}
use model_dispatcher.Fallback.Invocation.{
  sleep_for, after_pause, Mode, key_of, on_error, Round, returned, next_credential, aborted, more,
  after_failure, wait, after_call, attempts_from, after_round, credentials_from, tried_credentials,
  invoke,
}
use model_dispatcher.Fallback.Retry.{RetryPolicy, backoff_delay, judge}

abbrev pub StopsWith : Option Exn → Type 0
StopsWith none = ⊥
StopsWith (some e) = IsDispatcher e

module _ {S : Type 0} where
  -- SUCCESS comes with a response, STOP with an error of the library, a raise with such an error or a
  -- ValueError, and CONTINUE never.
  abbrev pub Backed : HandlerOutcome → InvocationContext S → Type 0
  Backed continue c = ⊥
  Backed success c = is_some c.response ≡ true
  Backed fallback c = Unit
  Backed stop c = StopsWith c.error

  abbrev pub IsBacked : Ended S HandlerOutcome → Type 0
  IsBacked (ok o, c, s) = Backed o c
  IsBacked (raised e, c, s) = IsServiceError e

  abbrev BackedRound : Round × InvocationContext S × S → Type 0
  BackedRound (returned o, c, s) = Backed o c
  BackedRound (next_credential, c, s) = Unit
  BackedRound (aborted e, c, s) = IsServiceError e

  abbrev BackedVerdict : Res (Option HandlerOutcome) × InvocationContext S → Type 0
  BackedVerdict (raised e, c) = IsServiceError e
  BackedVerdict (ok none, c) = Unit
  BackedVerdict (ok (some o), c) = Backed o c

  on_error-Backed :
      (policy : RetryPolicy) (p : ModelProvider S) (e : VendorError) (attempt : ℕ)
      (k : Option Credential) (mc mp : Bool) (c : InvocationContext S)
      → BackedVerdict (on_error policy p e attempt k mc mp c)
  unfolding on_error judge
  on_error-Backed policy p e attempt k mc mp c = ground arith

  module _ (store : QuotaStore S) (mode : Mode S) (policy : RetryPolicy) (p : ModelProvider S) where
    sleep_for-Raises : (delay : Seconds) (s : S) → RaisesServiceError (sleep_for mode delay s).0
    unfolding sleep_for
    sleep_for-Raises delay s = ground arith

    pause-Backed :
        (again : InvocationContext S → S → Round × InvocationContext S × S)
        (c : InvocationContext S) (r : Res (Unit {0}) × S)
        → RaisesServiceError r.0
        → ((c' : InvocationContext S) (s' : S) → BackedRound (again c' s'))
        → BackedRound (after_pause store mode policy again c r)
    unfolding after_pause
    pause-Backed again c (ok _, s) h b = b c s
    pause-Backed again c (raised e, s) h b = h

    wait-Backed :
        (attempt : ℕ) (hint : RetryAfter)
        (again : InvocationContext S → S → Round × InvocationContext S × S)
        (c : InvocationContext S) (s : S)
        → ((c' : InvocationContext S) (s' : S) → BackedRound (again c' s'))
        → BackedRound (wait store mode policy attempt hint again c s)
    unfolding wait
    wait-Backed attempt (unreadable m) again c s b = tt
    wait-Backed attempt (wait_hint hint) again c s b =
        pause-Backed again c (sleep_for mode (backoff_delay policy attempt hint) s)
          (sleep_for-Raises (backoff_delay policy attempt hint) s) b

    after_failure-Backed :
        (e : VendorError) (attempt : ℕ) (mc : Bool)
        (again : InvocationContext S → S → Round × InvocationContext S × S)
        (r : Res (Option HandlerOutcome) × InvocationContext S) (s : S)
        → ((c : InvocationContext S) (s' : S) → BackedRound (again c s'))
        → BackedVerdict r
        → BackedRound (after_failure store mode policy p e attempt mc again r s)
    unfolding after_failure
    after_failure-Backed e attempt mc again (ok none, c) s b h =
        wait-Backed attempt (p.retry_after e) again c s b
    after_failure-Backed e attempt mc again (raised x, c) s b h = h
    after_failure-Backed e attempt true again (ok (some fallback), c) s b h = tt
    after_failure-Backed e attempt false again (ok (some fallback), c) s b h = tt
    after_failure-Backed e attempt mc again (ok (some continue), c) s b h = h
    after_failure-Backed e attempt mc again (ok (some success), c) s b h = h
    after_failure-Backed e attempt mc again (ok (some stop), c) s b h = h

    after_call-Backed :
        (k : Option Credential) (attempt : ℕ) (mc mp : Bool)
        (again : InvocationContext S → S → Round × InvocationContext S × S)
        (c : InvocationContext S) (r : Reply × S)
        → ((c' : InvocationContext S) (s' : S) → BackedRound (again c' s'))
        → BackedRound (after_call store mode policy p k attempt mc mp again c r)
    unfolding after_call
    after_call-Backed k attempt mc mp again c (completed r, s) b = refl
    after_call-Backed k attempt mc mp again c (refused e, s) b = tt
    after_call-Backed k attempt mc mp again c (failed e, s) b =
        after_failure-Backed e attempt mc again (on_error policy p e attempt k mc mp c) s b
          (on_error-Backed policy p e attempt k mc mp c)

    attempts_from-Backed :
        (k : Option Credential) (mc mp : Bool) (left attempt : ℕ) (c : InvocationContext S) (s : S)
        → BackedRound (attempts_from store mode policy p k mc mp left attempt c s)
    unfolding attempts_from
    attempts_from-Backed k mc mp zero attempt c s = tt
    attempts_from-Backed k mc mp (suc left) attempt c s =
        after_call-Backed k attempt mc mp
          (attempts_from store mode policy p k mc mp left (attempt + 1)) c
          (mode.call p c.request (key_of k) s) (attempts_from-Backed k mc mp left (attempt + 1))

    after_round-Backed :
        (next : InvocationContext S → S → Ended S HandlerOutcome)
        (r : Round × InvocationContext S × S)
        → ((c : InvocationContext S) (s : S) → IsBacked (next c s))
        → BackedRound r
        → IsBacked (after_round store mode policy next r)
    unfolding after_round
    after_round-Backed next (returned o, c, s) b h = h
    after_round-Backed next (aborted e, c, s) b h = h
    after_round-Backed next (next_credential, c, s) b h = b c s

    credentials_from-Backed :
        (mp : Bool) (ks : List (Option Credential)) (c : InvocationContext S) (s : S)
        → IsBacked (credentials_from store mode policy p mp ks c s)
    unfolding credentials_from
    credentials_from-Backed mp [] c s = tt
    credentials_from-Backed mp (k ∷ ks) c s =
        after_round-Backed (credentials_from store mode policy p mp ks)
          (attempts_from store mode policy p k (more ks) mp policy.max_attempts 1 c s)
          (credentials_from-Backed mp ks)
          (attempts_from-Backed k (more ks) mp policy.max_attempts 1 c s)

module _ {S : Type 0} (store : QuotaStore S) (mode : Mode S) (policy : RetryPolicy) where
  invoke-at :
      (l : List (ModelProvider S)) (c : InvocationContext S) (s : S)
      → IsBacked (invoke store mode policy (record c { candidates = l }) s)
  unfolding invoke
  invoke-at [] c s = tt
  invoke-at (p ∷ ps) c s =
      credentials_from-Backed store mode policy p _ (tried_credentials c.credentials)
        (record c { candidates = p ∷ ps }) s

  pub invoke-IsBacked : (c : InvocationContext S) (s : S) → IsBacked (invoke store mode policy c s)
  invoke-IsBacked c s = invoke-at c.candidates c s
