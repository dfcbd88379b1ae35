-- ===== src/Fallback/Handlers.antt =====
-- src/model_dispatcher/fallback/handlers.py: the perimeter, credential and quota links, and the two
-- optional ones. The link that calls the provider is in Invocation.antt.
pub mod Links
pub mod Gates
use model_dispatcher.Prelude.{
  ◌+◌, Bool, true, false, ◌&&◌, Option, none, some, List, [], ◌∷◌, ◌++◌, if◌then◌else◌, any,
}
use model_dispatcher.Types.{is_free}
use model_dispatcher.Errors.{Res, ok, raised, dispatcher, QuotaExceededError}
use model_dispatcher.Onboarding.Handoff.{text}
use model_dispatcher.Onboarding.Flow.{escalate}
use model_dispatcher.Config.{SecuritySettings}
use model_dispatcher.Providers.Base.{ModelProvider}
use model_dispatcher.Quota.Store.{Window, requests_per_min, tokens_per_min, window_name}
use model_dispatcher.Quota.Manager.{QuotaStore, allow, soft_limit, deny, QuotaDecision, reserve}
use model_dispatcher.Security.Credentials.{Credential, resolve_candidates}
use model_dispatcher.Security.Perimeter.{validate}
use model_dispatcher.Fallback.Conditions.{is_fallback_worthy}
use model_dispatcher.Fallback.Context.{
  HandlerOutcome, continue, fallback, AttemptRecord, InvocationContext, current, Ended, Handle,
  FallbackHandler,
}

abbrev is_rate_window : Option Window → Bool
is_rate_window (some requests_per_min) = true
is_rate_window (some tokens_per_min) = true
is_rate_window _ = false

abbrev last_attempt : List AttemptRecord → Option AttemptRecord
last_attempt [] = none
last_attempt (a ∷ []) = some a
last_attempt (a ∷ b ∷ rest) = last_attempt (b ∷ rest)

abbrev failed_over : Option AttemptRecord → Bool
failed_over none = false
failed_over (some a) = elim a.error_class [ none ↦ false | some e ↦ is_fallback_worthy e ]

module _ {S : Type 0} where
  -- `PerimeterHandler.handle`
  pub perimeter_handle : SecuritySettings → Handle S
  perimeter_handle settings c s = elim (validate settings c.request c.tenant) [
    | ok _ ↦ (ok continue, c, s)
    | raised e ↦ (raised e, c, s)
  ]

  attach : Res (List Credential) → InvocationContext S → S → Ended S HandlerOutcome
  attach (ok cs) c s = (ok continue, record c { credentials = cs }, s)
  attach (raised e) c s = (raised e, c, s)

  -- `CredentialHandler.handle`
  pub credential_handle : Handle S
  unfolding attach
  credential_handle c s = elim (current c) [
    | none ↦ (ok fallback, c, s)
    | some p ↦ attach (resolve_candidates c.tenant p) c s
  ]

  -- `any(candidate.tier is FREE for candidate in candidates[1:])`
  abbrev pub free_behind : List (ModelProvider S) → Bool
  free_behind [] = false
  free_behind (_ ∷ ps) = any (λ p. is_free p.tier) ps

  -- `_on_deny`
  on_deny : InvocationContext S → ModelProvider S → QuotaDecision → S → Ended S HandlerOutcome
  on_deny c p d s =
      if c.tenant.is_zero_setup && free_behind c.candidates then (ok fallback, c, s) else (
        raised (
            dispatcher
              (QuotaExceededError (escalate c.tenant p.name (is_rate_window d.breached_window)))),
        c,
        s,
      )

  soft_warning : QuotaDecision → InvocationContext S → InvocationContext S
  soft_warning d c = record c {
    warnings =
        c.warnings
        ++ (text "quota soft limit approaching for "
            ∷ text (elim d.breached_window [ none ↦ "None" | some w ↦ window_name w ])
            ∷ [])
          ∷ [];
  }

  abbrev hold : QuotaDecision → InvocationContext S → InvocationContext S
  hold d c = record c { reservation = some d }

  on_decision : InvocationContext S → ModelProvider S → QuotaDecision × S → Ended S HandlerOutcome
  unfolding on_deny soft_warning
  on_decision c p (d, s) = elim d.outcome [
    | deny ↦ on_deny c p d s
    | soft_limit ↦ (ok continue, hold d (soft_warning d c), s)
    | allow ↦ (ok continue, hold d c, s)
  ]

  -- `QuotaHandler.handle`
  pub quota_handle : QuotaStore S → Handle S
  unfolding on_decision
  quota_handle store c s = elim (current c) [
    | none ↦ (ok fallback, c, s)
    | some p ↦ on_decision c p (reserve store c.tenant (p.estimate_tokens c.request) p s)
  ]

  -- `RateLimitHandler.handle`
  unfoldable pub rate_limit_handle : Handle S
  rate_limit_handle c s =
      (ok (if failed_over (last_attempt c.attempts) then fallback else continue), c, s)

  -- `RetryHandler.handle`
  unfoldable pub retry_handle : Handle S
  retry_handle c s = (ok continue, c, s)

  -- These links compute, so their `ahandle` calls or repeats `handle`.
  abbrev pub computed_link : Handle S → FallbackHandler S
  computed_link h = record { handle = h; ahandle = h }
