-- ===== src/Fallback/Handlers/Links.antt =====
-- What the perimeter, credential and quota links leave alone, and how they end.
use model_dispatcher.Prelude.{◌≡◌, refl, List, [], ◌∷◌, arith}
use model_dispatcher.Config.{SecuritySettings}
use model_dispatcher.Errors.{Res, ok, raised, IsDispatcher, RaisesDispatcher}
use model_dispatcher.Providers.Base.{ModelProvider}
use model_dispatcher.Quota.Manager.{
  QuotaStore, QuotaDecision, QuotaOutcome, allow, soft_limit, deny,
}
use model_dispatcher.Security.Credentials.{Credential, resolve_candidates}
use model_dispatcher.Security.Credentials.Precedence.{resolve_candidates-RaisesDispatcher}
use model_dispatcher.Security.Perimeter.{validate}
use model_dispatcher.Security.Perimeter.Accepts.{validate-RaisesDispatcher}
use model_dispatcher.Fallback.Context.{HandlerOutcome, continue, fallback, InvocationContext, Ended}
use model_dispatcher.Fallback.Handlers.{
  perimeter_handle, attach, credential_handle, on_deny, on_decision, quota_handle, hold,
  soft_warning,
}

-- How such a link ends: in CONTINUE, in FALLBACK, or by raising an error of the library.
abbrev pub PassesOn : Res HandlerOutcome → Type 0
PassesOn (ok continue) = Unit
PassesOn (ok fallback) = Unit
PassesOn (ok _) = ⊥
PassesOn (raised e) = IsDispatcher e

module _ {S : Type 0} where
  -- The request, the tenant, the candidates and the attempts are as before.
  pub record Passes (c : InvocationContext S) (r : Ended S HandlerOutcome) : Type 0 where
    pub request : r.1.request ≡ c.request
    pub tenant : r.1.tenant ≡ c.tenant
    pub candidates : r.1.candidates ≡ c.candidates
    pub attempts : r.1.attempts ≡ c.attempts
    pub ends : PassesOn r.0

  pub perimeter_handle-Passes :
      (settings : SecuritySettings) (c : InvocationContext S) (s : S)
      → Passes c (perimeter_handle settings c s)
  unfolding perimeter_handle
  perimeter_handle-Passes settings c s =
      go (validate settings c.request c.tenant)
        (validate-RaisesDispatcher settings c.request c.tenant)
    where
      go :
          (r : Res (Unit {0}))
          → RaisesDispatcher r
          → Passes c (elim r [ ok _ ↦ (ok continue, c, s) | raised e ↦ (raised e, c, s) ])
      go (ok _) h = record {
        request = refl;
        tenant = refl;
        candidates = refl;
        attempts = refl;
        ends = tt;
      }
      go (raised e) h = record {
        request = refl;
        tenant = refl;
        candidates = refl;
        attempts = refl;
        ends = h;
      }

  attach-Passes :
      (r : Res (List Credential)) (c : InvocationContext S) (s : S)
      → RaisesDispatcher r
      → Passes c (attach r c s)
  unfolding attach
  attach-Passes (ok cs) c s h = record {
    request = refl;
    tenant = refl;
    candidates = refl;
    attempts = refl;
    ends = tt;
  }
  attach-Passes (raised e) c s h = record {
    request = refl;
    tenant = refl;
    candidates = refl;
    attempts = refl;
    ends = h;
  }

  credential_handle-at :
      (l : List (ModelProvider S)) (c : InvocationContext S) (s : S)
      → Passes (record c { candidates = l }) (credential_handle (record c { candidates = l }) s)
  unfolding credential_handle
  credential_handle-at [] c s = record {
    request = refl;
    tenant = refl;
    candidates = refl;
    attempts = refl;
    ends = tt;
  }
  credential_handle-at (p ∷ ps) c s =
      attach-Passes (resolve_candidates c.tenant p) (record c { candidates = p ∷ ps }) s
        (resolve_candidates-RaisesDispatcher c.tenant p)

  pub credential_handle-Passes :
      (c : InvocationContext S) (s : S) → Passes c (credential_handle c s)
  credential_handle-Passes c s = credential_handle-at c.candidates c s

  on_deny-Passes :
      (c : InvocationContext S) (p : ModelProvider S) (d : QuotaDecision) (s : S)
      → Passes c (on_deny c p d s)
  unfolding on_deny
  on_deny-Passes c p d s = ground arith

  on_decision-Passes :
      (c : InvocationContext S) (p : ModelProvider S) (r : QuotaDecision × S)
      → Passes c (on_decision c p r)
  unfolding on_decision soft_warning
  on_decision-Passes c p (d, s) = go d.outcome
    where
      go :
          (o : QuotaOutcome)
          → Passes c (elim o [
            | deny ↦ on_deny c p d s
            | soft_limit ↦ (ok continue, hold d (soft_warning d c), s)
            | allow ↦ (ok continue, hold d c, s)
          ])
      go deny = on_deny-Passes c p d s
      go soft_limit = record {
        request = refl;
        tenant = refl;
        candidates = refl;
        attempts = refl;
        ends = tt;
      }
      go allow = record {
        request = refl;
        tenant = refl;
        candidates = refl;
        attempts = refl;
        ends = tt;
      }

  quota_handle-at :
      (store : QuotaStore S) (l : List (ModelProvider S)) (c : InvocationContext S) (s : S)
      → Passes (record c { candidates = l }) (quota_handle store (record c { candidates = l }) s)
  unfolding quota_handle
  quota_handle-at store [] c s = record {
    request = refl;
    tenant = refl;
    candidates = refl;
    attempts = refl;
    ends = tt;
  }
  quota_handle-at store (p ∷ ps) c s = on_decision-Passes (record c { candidates = p ∷ ps }) p _

  pub quota_handle-Passes :
      (store : QuotaStore S) (c : InvocationContext S) (s : S) → Passes c (quota_handle store c s)
  quota_handle-Passes store c s = quota_handle-at store c.candidates c s
