-- ===== src/Fallback/Retry.antt =====
-- When `ModelInvocationHandler` of src/model_dispatcher/fallback/handlers.py tries again, and how long
-- it waits. Times are in milliseconds.
use model_dispatcher.Prelude.{
  ◌^◌, ℕ, ◌-◌, ◌*◌, min, Bool, true, false, not, ◌&&◌, ◌||◌, Option, none, some, ltb, if◌then◌else◌,
}
use model_dispatcher.Prelude.Int.{pos, ltb_ℤ, ◌+ℤ◌}
use model_dispatcher.Errors.{Res, ok, raised, value_error}
use model_dispatcher.Providers.Base.{Seconds, millis, nan, RetryAfter, wait_hint, unreadable}
use model_dispatcher.Types.{ErrorClass, rate_limit, auth}
use model_dispatcher.Fallback.Conditions.{is_retryable, is_fallback_worthy}
use model_dispatcher.Fallback.Context.{HandlerOutcome, fallback, stop}

-- The handler's constructor arguments.
pub record RetryPolicy : Type 0 where
  pub max_attempts : ℕ
  pub backoff_base : ℕ
  pub backoff_cap : ℕ
  pub rate_limit_max_attempts : ℕ
  pub rate_limit_max_wait : ℕ

abbrev pub default_retry : ℕ → RetryPolicy
default_retry max_attempts = record {
  max_attempts = max_attempts;
  backoff_base = 50;
  backoff_cap = 2_000;
  rate_limit_max_attempts = 3;
  rate_limit_max_wait = 120_000;
}

-- `_backoff_delay`
unfoldable pub backoff_delay : RetryPolicy → ℕ → Option Seconds → Seconds
unfolding ◌+ℤ◌
backoff_delay policy attempt (some nan) = nan
backoff_delay policy attempt (some (millis hint)) =
    let longest = pos policy.rate_limit_max_wait in
    millis (if ltb_ℤ longest (hint +ℤ pos 1_000) then longest else hint +ℤ pos 1_000)
backoff_delay policy attempt none =
    millis (pos (min (policy.backoff_base * 2 ^ (attempt - 1)) policy.backoff_cap))

abbrev is_rate_limit : ErrorClass → Bool
is_rate_limit rate_limit = true
is_rate_limit _ = false

abbrev is_auth : ErrorClass → Bool
is_auth auth = true
is_auth _ = false

-- `hint is None or hint <= rate_limit_max_wait`
abbrev pub worth_waiting : RetryPolicy → Option Seconds → Bool
worth_waiting policy none = true
worth_waiting policy (some nan) = false
worth_waiting policy (some (millis hint)) = not (ltb_ℤ (pos policy.rate_limit_max_wait) hint)

-- Whether `_on_error` looks for a hint.
abbrev pub is_last_resort : RetryPolicy → ErrorClass → ℕ → Bool → Bool → Bool
is_last_resort policy class attempt more_credentials more_providers =
    is_rate_limit class
    && not more_credentials
    && not more_providers
    && ltb attempt policy.rate_limit_max_attempts

-- What `_on_error` decides: `none` is "retry the same credential".
unfoldable pub verdict :
    RetryPolicy → ErrorClass → Option Seconds → ℕ → Bool → Bool → Option HandlerOutcome
verdict policy class hint attempt more_credentials more_providers =
    if is_retryable class && ltb attempt policy.max_attempts
    then none
    else if is_last_resort policy class attempt more_credentials more_providers
        && worth_waiting policy hint
    then none
    else if is_fallback_worthy class || is_retryable class
    then some fallback
    else if is_auth class && more_credentials
    then some fallback
    else some stop

-- The hint, where it is looked for.
abbrev pub hint_of : RetryPolicy → ErrorClass → ℕ → Bool → Bool → RetryAfter → RetryAfter
hint_of policy class attempt more_credentials more_providers hint =
    if is_retryable class && ltb attempt policy.max_attempts
    then wait_hint none
    else if is_last_resort policy class attempt more_credentials more_providers
    then hint
    else wait_hint none

-- The verdict, or what looking for the hint raises.
unfoldable pub judge :
    RetryPolicy → ErrorClass → RetryAfter → ℕ → Bool → Bool → Res (Option HandlerOutcome)
unfolding verdict
judge policy class hint attempt more_credentials more_providers =
    elim (hint_of policy class attempt more_credentials more_providers hint) [
      | unreadable m ↦ raised (value_error m)
      | wait_hint h ↦ ok (verdict policy class h attempt more_credentials more_providers)
    ]
