-- ===== src/Fallback/Handlers/Gates.antt =====
-- The perimeter, credential and quota links where nothing stands in the way.
use model_dispatcher.Prelude.{◌≡◌, refl, ◌≢◌, inl, inr, List, ◌∷◌}
use model_dispatcher.Types.{TenantId, CompletionRequest}
use model_dispatcher.Errors.{ok}
use model_dispatcher.Config.{SecuritySettings}
use model_dispatcher.Prelude.Int.{ℤ}
use model_dispatcher.Providers.Base.{ModelProvider}
use model_dispatcher.Quota.Tenant.{TenantContext}
use model_dispatcher.Quota.Store.{Window}
use model_dispatcher.Quota.Manager.{
  QuotaStore, QuotaDecision, QuotaOutcome, allow, soft_limit, deny, reserve,
}
use model_dispatcher.Quota.Manager.Laws.{StoreLaws}
use model_dispatcher.Quota.Manager.Reserve.{Fits, Decided, Charged, reserve_lem}
use model_dispatcher.Security.Credentials.{Credential, resolve_candidates}
use model_dispatcher.Security.Perimeter.{validate}
use model_dispatcher.Fallback.Context.{HandlerOutcome, continue, InvocationContext, Ended}
use model_dispatcher.Fallback.Handlers.{
  perimeter_handle, attach, credential_handle, on_decision, quota_handle, hold, soft_warning,
}

module _ {S : Type 0} where
  -- The turn of a tenant's request with some candidates.
  abbrev pub at :
      CompletionRequest
      → TenantContext
      → List (ModelProvider S)
      → InvocationContext S
      → InvocationContext S
  at request tenant ps c = record c { request = request; tenant = tenant; candidates = ps }

  -- The link passes on, with the same turn, in a state that `Q` tells of.
  abbrev pub PassedOn :
      CompletionRequest
      → TenantContext
      → List (ModelProvider S)
      → (S → Type 0)
      → Ended S HandlerOutcome
      → Type 0
  PassedOn request tenant ps Q r =
      (c : InvocationContext S) × (s : S) × Q s × (r ≡ (ok continue, at request tenant ps c, s))

  module _ (request : CompletionRequest) (tenant : TenantContext) where
    pub perimeter_handle-passes :
        (settings : SecuritySettings) (ps : List (ModelProvider S)) (c : InvocationContext S)
        (s : S)
        → validate settings request tenant ≡ ok tt
        → perimeter_handle settings (at request tenant ps c) s
          ≡ (ok continue, at request tenant ps c, s)
    unfolding perimeter_handle
    perimeter_handle-passes settings ps c s allowed = rw (allowed, perimeter_handle) refl

    module _ (p : ModelProvider S) (ps : List (ModelProvider S)) where
      pub credential_handle-passes :
          (ks : List Credential) (c : InvocationContext S) (s : S)
          → resolve_candidates tenant p ≡ ok ks
          → credential_handle (at request tenant (p ∷ ps) c) s
            ≡ (ok continue, at request tenant (p ∷ ps) (record c { credentials = ks }), s)
      unfolding credential_handle attach
      credential_handle-passes ks c s found = rw found refl

      granted-PassedOn :
          (Q : S → Type 0) (o : QuotaOutcome) (d : QuotaDecision) (c : InvocationContext S) (s : S)
          → o ≢ deny
          → Q s
          → PassedOn request tenant
              (p ∷ ps)
              Q
              (on_decision (at request tenant (p ∷ ps) c) p (record d { outcome = o }, s))
      unfolding on_decision soft_warning
      granted-PassedOn Q deny d c s n q = absurd (n refl)
      granted-PassedOn Q soft_limit d c s n q =
          let d' : QuotaDecision = record d { outcome = soft_limit } in
          (hold d' (soft_warning d' c), s, q, refl)
      granted-PassedOn Q allow d c s n q = (hold (record d { outcome = allow }) c, s, q, refl)

      -- Where every window has room for the estimate, the quota link passes on and has charged it.
      pub quota_handle-passes :
          (store : QuotaStore S) (seen : TenantId → Window → S → ℤ) (laws : StoreLaws store seen)
          (c : InvocationContext S) (s : S)
          → Fits store seen laws tenant (p.estimate_tokens request) s
          → PassedOn request tenant
              (p ∷ ps)
              (Charged store seen laws tenant (p.estimate_tokens request) s)
              (quota_handle store (at request tenant (p ∷ ps) c) s)
      unfolding quota_handle
      quota_handle-passes store seen laws c s fits =
          go (reserve store tenant (p.estimate_tokens request) p s)
            (reserve_lem store seen laws tenant (p.estimate_tokens request) p s)
        where
          go :
              (r : QuotaDecision × S)
              → Decided store seen laws tenant (p.estimate_tokens request) s r
              → PassedOn request tenant
                  (p ∷ ps)
                  (Charged store seen laws tenant (p.estimate_tokens request) s)
                  (on_decision (at request tenant (p ∷ ps) c) p r)
          go (d, s') (inl (_, unfit, _, _)) = absurd (unfit fits)
          go (d, s') (inr (n, _, charged, _)) = granted-PassedOn _ d.outcome d c s' n charged
