-- ===== src/Gateway.antt =====
-- src/model_dispatcher/gateway.py: the one entry point, which puts the parts in order.
pub mod Dispatch
pub mod Serving
use model_dispatcher.Prelude.{Option, none, some, List, []}
use model_dispatcher.Types.{CompletionRequest}
use model_dispatcher.Config.{GatewaySettings, default_settings}
use model_dispatcher.Errors.{Res, ok, raised}
use model_dispatcher.Providers.Base.{ModelProvider, Clock}
use model_dispatcher.Providers.Registry.{ProviderRegistry}
use model_dispatcher.Quota.Tenant.{TenantContext}
use model_dispatcher.Quota.Manager.{QuotaStore}
use model_dispatcher.Routing.Triage.{ComplexityScorer, classify}
use model_dispatcher.Routing.Router.{route}
use model_dispatcher.Security.Perimeter.{validate}
use model_dispatcher.Fallback.Context.{FallbackHandler}
use model_dispatcher.Fallback.Chain.{build}
use model_dispatcher.Fallback.Chain.Default.{default_links}
use model_dispatcher.Fallback.Retry.{default_retry}
use model_dispatcher.Orchestration.Tools.{ToolRegistry, specs}
use model_dispatcher.Orchestration.State.{ConversationState, fresh_state, RunResult}
use model_dispatcher.Orchestration.Loop.{LoopMode, run_mode, arun_mode, run}

-- A gateway as `create` assembles it. The resolvers have no state, and each collaborator that has
-- settings reads them from the bundle.
pub record ModelGateway (S : Type 0) : Type 0 where
  pub settings : GatewaySettings
  pub providers : ProviderRegistry S
  pub scorer : Option ComplexityScorer
  pub quota : QuotaStore S
  pub clock : Clock S

-- `create`; `memory` is the `InMemoryQuotaStore()` that is made when no store is given.
unfoldable pub create :
    {S : Type 0}
    → ProviderRegistry S
    → Option GatewaySettings
    → Option (QuotaStore S)
    → Option ComplexityScorer
    → (memory : QuotaStore S) → Clock S
    → ModelGateway S
create providers settings store scorer memory clock = record {
  settings = elim settings [ none ↦ default_settings | some given ↦ given ];
  providers = providers;
  scorer = scorer;
  quota = elim store [ none ↦ memory | some given ↦ given ];
  clock = clock;
}

-- What `_prepare` returns.
pub record Prepared (S : Type 0) : Type 0 where
  pub state : ConversationState
  pub registry : ToolRegistry S
  pub candidates : List (ModelProvider S)

module _ {S : Type 0} (g : ModelGateway S) where
  unfoldable pub prepared : CompletionRequest → Option (ToolRegistry S) → Prepared S
  prepared request tools = record {
    state =
        fresh_state request.tenant request.messages
          (elim tools [ none ↦ request.tools | some r ↦ specs r ]);
    registry = elim tools [ none ↦ [] | some r ↦ r ];
    candidates = route g.providers g.settings.routing request (classify g.scorer request);
  }

  -- `_prepare`
  pub prepare : CompletionRequest → TenantContext → Option (ToolRegistry S) → Res (Prepared S)
  unfolding prepared
  prepare request tenant tools = elim (validate g.settings.security request tenant) [
    | raised e ↦ raised e
    | ok _ ↦ ok (prepared request tools)
  ]

  -- `_build_chain`
  pub build_chain : Res (List (FallbackHandler S))
  unfolding build
  build_chain = build (
      default_links g.settings.security g.quota g.clock
        (default_retry g.settings.retry_max_attempts))

  -- The loop runs on what was prepared; `none` is a run that does not end.
  run_prepared :
      (List (FallbackHandler S) → ToolRegistry S → LoopMode S)
      → TenantContext
      → Prepared S
      → Res (List (FallbackHandler S))
      → S
      → Option (Res RunResult × S)
  run_prepared mode tenant p (raised e) s = some (raised e, s)
  run_prepared mode tenant p (ok chain) s =
      elim (run g.clock (mode chain p.registry) none tenant p.candidates g.settings.max_iterations
        p.state s) [ none ↦ none | some r ↦ some (r.0, r.2) ]

  dispatch_with :
      (List (FallbackHandler S) → ToolRegistry S → LoopMode S)
      → CompletionRequest
      → TenantContext
      → Option (ToolRegistry S)
      → S
      → Option (Res RunResult × S)
  unfolding prepare build_chain run_prepared
  dispatch_with mode request tenant tools s = elim (prepare request tenant tools) [
    | raised e ↦ some (raised e, s)
    | ok p ↦ run_prepared mode tenant p build_chain s
  ]

  -- `dispatch`
  unfoldable pub dispatch :
      CompletionRequest → TenantContext → Option (ToolRegistry S) → S → Option (Res RunResult × S)
  unfolding dispatch_with
  dispatch = dispatch_with run_mode

  -- `adispatch`
  pub adispatch :
      CompletionRequest → TenantContext → Option (ToolRegistry S) → S → Option (Res RunResult × S)
  unfolding dispatch_with
  adispatch = dispatch_with arun_mode
