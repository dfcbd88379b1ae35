-- ===== src/Fallback/Invocation/Failures.antt =====
-- How a failed attempt is judged, and how long the pause before the next one is.
use model_dispatcher.Prelude.{
  ℕ, ◌<◌, ◌≡◌, refl, ◌↔◌, ◌⊎◌, inl, inr, Bool, true, false, Option, none, arith,
}
use model_dispatcher.Types.{ErrorClass, rate_limit, quota, auth, transient, invalid, content}
use model_dispatcher.Providers.Base.{Seconds}
use model_dispatcher.Fallback.Retry.{RetryPolicy, verdict, worth_waiting}

-- A failure is judged worth another attempt exactly when it is transient and attempts are left, or it
-- is a rate limit, no other credential or provider is left, its own attempts are not used up, and the wait that the
-- provider asks for, if any, is short enough.
pub verdict_retries :
    (policy : RetryPolicy) (class : ErrorClass) (hint : Option Seconds) (attempt : ℕ)
    (more_credentials more_providers : Bool)
    → (verdict policy class hint attempt more_credentials more_providers ≡ none) ↔ (
        ((class ≡ transient) × (attempt < policy.max_attempts))
        ⊎ ((class ≡ rate_limit)
            × (more_credentials ≡ false)
            × (more_providers ≡ false)
            × (attempt < policy.rate_limit_max_attempts)
            × (worth_waiting policy hint ≡ true)))
unfolding verdict
verdict_retries policy rate_limit hint attempt mc mp =
    ((λ e. inr (refl, ground arith, ground arith, ground arith, ground arith)), (λ h. ground arith))
verdict_retries policy quota hint attempt mc mp = ((λ e. ground arith), (λ h. ground arith))
verdict_retries policy auth hint attempt mc mp = ((λ e. ground arith), (λ h. ground arith))
verdict_retries policy transient hint attempt mc mp =
    ((λ e. inl (refl, ground arith)), (λ h. ground arith))
verdict_retries policy invalid hint attempt mc mp = ((λ e. ground arith), (λ h. ground arith))
verdict_retries policy content hint attempt mc mp = ((λ e. ground arith), (λ h. ground arith))
