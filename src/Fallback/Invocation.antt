-- ===== src/Fallback/Invocation.antt =====
-- `ModelInvocationHandler` of src/model_dispatcher/fallback/handlers.py: calls the provider, with
-- retries, rotation of keys and failover. Times are in milliseconds.
pub mod Failures
pub mod Attempts
pub mod Rounds
pub mod Outcomes
pub mod Recovery
pub mod Service
use model_dispatcher.Prelude.{
  ℕ, zero, suc, ◌+◌, String, Bool, true, false, Option, none, some, List, [], ◌∷◌, ◌++◌, map,
  if◌then◌else◌,
}
use model_dispatcher.Prelude.Int.{pos, negsuc}
use model_dispatcher.Types.{
  ErrorClass, auth, error_class_value, CompletionRequest, CompletionResponse,
}
use model_dispatcher.Errors.{
  Exn, Res, ok, raised, dispatcher, value_error, base, ModelDispatcherError, AuthenticationError,
}
use model_dispatcher.Onboarding.Handoff.{Text, text}
use model_dispatcher.Providers.Base.{
  VendorError, Seconds, millis, nan, RetryAfter, wait_hint, unreadable, Reply, completed, failed,
  refused, ModelProvider, Clock,
}
use model_dispatcher.Quota.Manager.{QuotaStore, commit}
use model_dispatcher.Security.Credentials.{Credential}
use model_dispatcher.Fallback.Retry.{RetryPolicy, backoff_delay, judge}
use model_dispatcher.Fallback.Context.{
  HandlerOutcome, success, fallback, stop, AttemptRecord, InvocationContext, Ended, Handle,
  FallbackHandler,
}

-- What tells `handle` from `ahandle`: how a call and a pause are made, and the ValueError where the
-- pause is to be shorter than nothing.
pub record Mode (S : Type 0) : Type 0 where
  pub call : ModelProvider S → CompletionRequest → Option String → S → Reply × S
  pub pause : ℕ → S → S
  pub below_zero : Option Text

abbrev pub sync_mode : {S : Type 0} → Clock S → Mode S
sync_mode clock = record {
  call = λ p. p.complete;
  pause = clock.sleep;
  below_zero = some (text "sleep length must be non-negative" ∷ []);
}

abbrev pub async_mode : {S : Type 0} → Clock S → Mode S
async_mode clock = record { call = λ p. p.acomplete; pause = clock.async_sleep; below_zero = none }

-- `time.sleep(delay)` or `asyncio.sleep(delay)`
unfoldable pub sleep_for : {S : Type 0} → Mode S → Seconds → S → Res (Unit {0}) × S
sleep_for mode (millis (pos n)) s = (ok tt, mode.pause n s)
sleep_for mode (millis (negsuc n)) s = elim mode.below_zero [
  | none ↦ (ok tt, mode.pause 0 s)
  | some message ↦ (raised (value_error message), s)
]
sleep_for mode nan s = (raised (value_error (text "Invalid value NaN (not a number)" ∷ [])), s)

-- `_terminal_error`
terminal_error : String → ErrorClass → VendorError → ModelDispatcherError
terminal_error name auth e = AuthenticationError (text name ∷ text ": " ∷ text e.text ∷ [])
terminal_error name class e = record {
  kind = base;
  http_status = 502;
  error_code = text "provider_" ∷ text (error_class_value class) ∷ [];
  message =
      text name ∷ text " failed (" ∷ text (error_class_value class) ∷ text "): " ∷ text e.text ∷ [];
}

-- `credential.secret_ref if credential else None`
abbrev pub ref_of : Option Credential → Option String
ref_of none = none
ref_of (some k) = some k.secret_ref

abbrev pub key_of : Option Credential → Option String
key_of none = none
key_of (some k) = k.raw_key

module _ {S : Type 0} where
  record_attempt : AttemptRecord → InvocationContext S → InvocationContext S
  record_attempt a c = record c { attempts = c.attempts ++ a ∷ [] }

  failed_attempt : ModelProvider S → Option Credential → VendorError → AttemptRecord
  failed_attempt p k e = record {
    provider_name = p.name;
    error_class = some (p.classify_error e);
    detail = some e.text;
    credential_ref = ref_of k;
  }

  set_error :
      ModelProvider S
      → VendorError
      → Res (Option HandlerOutcome)
      → InvocationContext S
      → InvocationContext S
  unfolding terminal_error
  set_error p e (ok (some stop)) c = record c {
    error = some (dispatcher (terminal_error p.name (p.classify_error e) e));
  }
  set_error p e _ c = c

  -- `_on_error`
  pub on_error :
      RetryPolicy
      → ModelProvider S
      → VendorError
      → ℕ
      → Option Credential
      → Bool
      → Bool
      → InvocationContext S
      → Res (Option HandlerOutcome) × InvocationContext S
  unfolding judge record_attempt failed_attempt set_error
  on_error policy p e attempt k more_credentials more_providers c =
      let outcome =
        judge policy (p.classify_error e) (p.retry_after e) attempt more_credentials
          more_providers in
      (outcome, set_error p e outcome (record_attempt (failed_attempt p k e) c))

  settle_reservation : QuotaStore S → InvocationContext S → CompletionResponse → S → S
  settle_reservation store c r s = elim c.reservation [
    | none ↦ s
    | some d ↦ commit store c.tenant d r.usage s
  ]

  -- `_on_success`
  pub on_success :
      QuotaStore S
      → ModelProvider S
      → CompletionResponse
      → Option Credential
      → InvocationContext S
      → S
      → InvocationContext S × S
  unfolding record_attempt settle_reservation
  on_success store p r k c s =
      let a : AttemptRecord = record {
        provider_name = p.name;
        error_class = none;
        detail = none;
        credential_ref = ref_of k;
      } in
      (record (record_attempt a c) { response = some r }, settle_reservation store c r s)

-- How the loop over attempts ends: with an outcome, with the next credential's turn, or raising.
pub data Round : Type 0 where
  returned : HandlerOutcome → Round
  next_credential : Round
  aborted : Exn → Round

-- `index < len(credentials) - 1`
abbrev pub more : List (Option Credential) → Bool
more [] = false
more (_ ∷ _) = true

-- `list(context.credentials) or [None]`
abbrev pub tried_credentials : List Credential → List (Option Credential)
tried_credentials [] = none ∷ []
tried_credentials (k ∷ ks) = map some (k ∷ ks)

module _ {S : Type 0} (store : QuotaStore S) (mode : Mode S) (policy : RetryPolicy) where
  -- The next attempt, if the pause before it is over.
  after_pause :
      (InvocationContext S → S → Round × InvocationContext S × S)
      → InvocationContext S
      → Res (Unit {0}) × S
      → Round × InvocationContext S × S
  after_pause again c (ok _, s) = again c s
  after_pause again c (raised e, s) = (aborted e, c, s)

  -- `sleep(self._backoff_delay(attempt, provider, exc))`
  wait :
      ℕ
      → RetryAfter
      → (InvocationContext S → S → Round × InvocationContext S × S)
      → InvocationContext S
      → S
      → Round × InvocationContext S × S
  unfolding after_pause sleep_for backoff_delay
  wait attempt (unreadable m) again c s = (aborted (value_error m), c, s)
  wait attempt (wait_hint hint) again c s =
      after_pause again c (sleep_for mode (backoff_delay policy attempt hint) s)

  -- What follows a failed attempt; `again` is the next attempt.
  after_failure :
      ModelProvider S
      → VendorError
      → ℕ
      → Bool
      → (InvocationContext S → S → Round × InvocationContext S × S)
      → Res (Option HandlerOutcome) × InvocationContext S
      → S
      → Round × InvocationContext S × S
  unfolding wait
  after_failure p e attempt more_credentials again (raised x, c) s = (aborted x, c, s)
  after_failure p e attempt more_credentials again (ok none, c) s =
      wait attempt (p.retry_after e) again c s
  after_failure p e attempt more_credentials again (ok (some fallback), c) s =
      (if more_credentials then next_credential else returned fallback, c, s)
  after_failure p e attempt more_credentials again (ok (some o), c) s = (returned o, c, s)

  after_call :
      ModelProvider S
      → Option Credential
      → ℕ
      → Bool
      → Bool
      → (InvocationContext S → S → Round × InvocationContext S × S)
      → InvocationContext S
      → Reply × S
      → Round × InvocationContext S × S
  unfolding after_failure on_error on_success
  after_call p k attempt more_credentials more_providers again c (completed r, s) =
      let (c', s') = on_success store p r k c s in (returned success, c', s')
  after_call p k attempt more_credentials more_providers again c (refused e, s) =
      (aborted (dispatcher e), c, s)
  after_call p k attempt more_credentials more_providers again c (failed e, s) =
      after_failure p e attempt more_credentials again
        (on_error policy p e attempt k more_credentials more_providers c) s

  -- `for attempt in range(attempt, attempt + left)`
  pub attempts_from :
      ModelProvider S
      → Option Credential
      → Bool
      → Bool
      → (left attempt : ℕ) → InvocationContext S
      → S
      → Round × InvocationContext S × S
  unfolding after_call
  attempts_from p k more_credentials more_providers zero attempt c s = (next_credential, c, s)
  attempts_from p k more_credentials more_providers (suc left) attempt c s =
      after_call p k attempt more_credentials more_providers
        (λ c' s'. attempts_from p k more_credentials more_providers left (attempt + 1) c' s') c
        (mode.call p c.request (key_of k) s)

  after_round :
      (InvocationContext S → S → Ended S HandlerOutcome)
      → Round × InvocationContext S × S
      → Ended S HandlerOutcome
  after_round next (returned o, c, s) = (ok o, c, s)
  after_round next (aborted e, c, s) = (raised e, c, s)
  after_round next (next_credential, c, s) = next c s

  -- `for index, credential in enumerate(credentials)`
  credentials_from :
      ModelProvider S
      → Bool
      → List (Option Credential)
      → InvocationContext S
      → S
      → Ended S HandlerOutcome
  unfolding after_round attempts_from
  credentials_from p more_providers [] c s = (ok fallback, c, s)
  credentials_from p more_providers (k ∷ ks) c s =
      after_round (λ c' s'. credentials_from p more_providers ks c' s')
        (attempts_from p k (more ks) more_providers policy.max_attempts 1 c s)

  -- `handle` in the one mode, `ahandle` in the other
  unfoldable pub invoke : Handle S
  unfolding credentials_from
  invoke c s = elim c.candidates [
    | [] ↦ (ok fallback, c, s)
    | p ∷ ps ↦
        credentials_from p (elim ps [ [] ↦ false | _ ∷ _ ↦ true ]) (tried_credentials c.credentials)
          c s
  ]

-- `ModelInvocationHandler`
unfoldable pub invocation_link :
    {S : Type 0} → QuotaStore S → Clock S → RetryPolicy → FallbackHandler S
unfolding invoke
invocation_link store clock policy = record {
  handle = invoke store (sync_mode clock) policy;
  ahandle = invoke store (async_mode clock) policy;
}
