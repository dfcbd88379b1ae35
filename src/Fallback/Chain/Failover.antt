-- ===== src/Fallback/Chain/Failover.antt =====
-- What it takes for a turn to be served although candidates are down.
pub mod Served
use model_dispatcher.Prelude.{ℕ, ◌+◌, ◌≤◌, String, ◌≡◌, true, Option, List, [], ◌∷◌}
use model_dispatcher.Prelude.Int.{ℤ, pos, ◌+ℤ◌, ◌≤ℤ◌}
use model_dispatcher.Types.{TenantId, CompletionRequest, CompletionResponse}
use model_dispatcher.Errors.{ok}
use model_dispatcher.Providers.Base.{VendorError, completed, failed, ModelProvider}
use model_dispatcher.Quota.Tenant.{TenantContext}
use model_dispatcher.Quota.Store.{Window}
use model_dispatcher.Quota.Manager.{cap, charge}
use model_dispatcher.Security.Credentials.{Credential, resolve_candidates}
use model_dispatcher.Fallback.Context.{Ended}
use model_dispatcher.Fallback.Invocation.{Mode}
use model_dispatcher.Fallback.Invocation.Service.{CanWait, passes_on}

module _ {S : Type 0} where
  -- What a turn will charge to a window for some candidates.
  abbrev pub total_charge : CompletionRequest → List (ModelProvider S) → Window → ℕ
  total_charge request [] w = 0
  total_charge request (q ∷ qs) w = charge (q.estimate_tokens request) w + total_charge request qs w

  -- Every window of the tenant has room for all these candidates' estimates together.
  abbrev pub Room :
      (TenantId → Window → S → ℤ)
      → CompletionRequest
      → TenantContext
      → List (ModelProvider S)
      → S
      → Type 0
  Room seen request tenant qs s =
      (w : Window)
      → seen tenant.tenant_id w s +ℤ pos (total_charge request qs w) ≤ℤ pos (cap tenant.quota w)

  -- A candidate that the tenant has access to and that fails, each time by a failure that another
  -- may make good and with no hint that cannot be waited out, without touching the counters.
  pub record IsDown (seen : TenantId → Window → S → ℤ) (mode : Mode S) (tenant : TenantContext)
      (q : ModelProvider S) : Type 0 where
    pub keys : List Credential
    pub found : resolve_candidates tenant q ≡ ok keys
    pub fails :
        (r : CompletionRequest) (key : Option String) (s : S)
        → (e : VendorError) × ((mode.call q r key s).0 ≡ failed e)
          × (passes_on (q.classify_error e) ≡ true)
          × CanWait (q.retry_after e)
    pub leaves :
        (r : CompletionRequest) (key : Option String) (u : TenantId) (w : Window) (s : S)
        → seen u w (mode.call q r key s).1 ≡ seen u w s

  -- A candidate that the tenant has access to and that answers the request.
  pub record IsUp (mode : Mode S) (request : CompletionRequest) (tenant : TenantContext)
      (q : ModelProvider S) : Type 0 where
    pub keys : List Credential
    pub found : resolve_candidates tenant q ≡ ok keys
    pub answers :
        (key : Option String) (s : S)
        → (a : CompletionResponse) × ((mode.call q request key s).0 ≡ completed a)

  -- The turn ends with an answer of the candidate.
  abbrev pub ServedBy :
      Mode S → CompletionRequest → ModelProvider S → Ended S CompletionResponse → Type 0
  ServedBy mode request p r =
      (a : CompletionResponse) × (r.0 ≡ ok a)
      × ((key : Option String) × (s : S) × ((mode.call p request key s).0 ≡ completed a))
