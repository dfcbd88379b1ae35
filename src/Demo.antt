-- ===== src/Demo.antt =====
-- demo/backend/app.py: the demonstration's backend, on mocks only. FastAPI, which checks the body of
-- a request, is left out.
pub mod Wire
use model_dispatcher.Prelude.{
  ℕ, ◌-◌, String, Bool, true, Option, none, some, List, [], ◌∷◌, if◌then◌else◌,
}
use model_dispatcher.Prelude.Int.{ℤ}
use model_dispatcher.Types.{
  ModelTier, free, standard, premium, total_tokens, no_capability, rate_limit, TenantId,
}
use model_dispatcher.Types.Json.{
  JsonValue, integer, string, array, object, Items, nil, cons, end, field,
}
use model_dispatcher.Config.{default_settings}
use model_dispatcher.Errors.{dispatcher, Res, ok, raised, to_payload}
use model_dispatcher.Providers.RetryHints.{Floats}
use model_dispatcher.Providers.Base.{Seconds, ModelProvider, Clock}
use model_dispatcher.Providers.Registry.{ProviderRegistry, register}
use model_dispatcher.Providers.Mock.{Cell, initial_state, mock_provider}
use model_dispatcher.Quota.Tenant.{TenantContext, TenantQuota}
use model_dispatcher.Quota.Store.{
  Window, requests_per_min, tokens_per_min, tokens_per_day, window_name, window_seconds,
}
use model_dispatcher.Quota.Manager.{QuotaStore}
use model_dispatcher.Routing.Triage.{classify}
use model_dispatcher.Fallback.Context.{AttemptRecord}
use model_dispatcher.Orchestration.State.{StepResult, RunResult}
use model_dispatcher.Gateway.{ModelGateway, create, dispatch}
use model_dispatcher.Vercel.Http.{
  prompt_request, number, error_or_null, text_or_null, stop_reason_value,
}
use model_dispatcher.Vercel.Pipeline.{error_body, result_body, Response, complexity_name}

-- `_DEMO_QUOTA`
abbrev pub demo_quota : TenantQuota
demo_quota = record {
  requests_per_min = 30;
  tokens_per_min = 400;
  tokens_per_day = 4_000;
  budget_usd = none;
  soft_limit_ratio = record { num = 9; den = 10 };
}

-- `_tenant`
abbrev pub demo_tenant : String → TenantContext
demo_tenant tenant_id = record {
  tenant_id = tenant_id;
  quota = demo_quota;
  is_zero_setup = true;
  max_tier = premium;
  metadata = [];
}

pub record DispatchBody : Type 0 where
  pub prompt : String
  pub tenant_id : String
  pub simulate_rate_limit : Bool

-- A mock of `_build_gateway`, with the failures that it begins with.
pub record DemoMock : Type 0 where
  pub name : String
  pub tier : ModelTier
  pub reply : String
  pub fail_times : ℕ

abbrev demo_mocks : List DemoMock
demo_mocks =
    record { name = "mock:free"; tier = free; reply = "[free tier] Done."; fail_times = 0 }
    ∷ record {
      name = "mock:standard";
      tier = standard;
      reply = "[standard tier] Done.";
      fail_times = 0;
    }
    ∷ record {
      name = "mock:premium";
      tier = premium;
      reply = "[premium tier] Reasoned answer.";
      fail_times = 0;
    }
    ∷ []

abbrev overloaded : DemoMock
overloaded = record {
  name = "mock:free-overloaded";
  tier = free;
  reply = "This is a mock response.";
  fail_times = 999;
}

abbrev pub registered_mocks : Bool → List DemoMock
registered_mocks simulate_rate_limit =
    if simulate_rate_limit then overloaded ∷ demo_mocks else demo_mocks

module _ {S : Type 0} (cell : String → Cell S) (floats : Floats Seconds) where
  demo_provider : DemoMock → ModelProvider S
  unfolding mock_provider
  demo_provider mock = mock_provider (cell mock.name) floats (record {
    name = mock.name;
    tier = mock.tier;
    capabilities = record no_capability { tools = true };
    reply = mock.reply;
    fail_with = rate_limit;
    chars_per_token = record { num = 4; den = 1 };
  })

  register_mocks : List DemoMock → ProviderRegistry S → S → ProviderRegistry S × S
  unfolding register demo_provider
  register_mocks [] registry s = (registry, s)
  register_mocks (mock ∷ mocks) registry s =
      register_mocks mocks (register (demo_provider mock) registry)
        ((cell mock.name).set (initial_state [] mock.fail_times) s)

  -- `_build_gateway`
  unfoldable pub build_demo_gateway :
      QuotaStore S → QuotaStore S → Clock S → Bool → S → ModelGateway S × S
  unfolding create register_mocks
  build_demo_gateway store memory clock simulate_rate_limit s =
      let (registry, s') = register_mocks (registered_mocks simulate_rate_limit) [] s in
      (create registry (some default_settings) (some store) none memory clock, s')

-- An entry of the `windows` of `quota`.
window_entry : String → ℤ → ℕ → ℕ → JsonValue
window_entry name used limit period = object (
    field "name" (string name) (
      field "used" (integer used)
        (field "limit" (number limit) (field "period_seconds" (number period) end))))

-- `health`
abbrev pub health : JsonValue
health = object (field "status" (string "ok") end)

-- `quota`: the three counters are read in order.
unfoldable pub quota_report : {S : Type 0} → QuotaStore S → TenantId → S → JsonValue × S
unfolding window_entry
quota_report store tenant_id s =
    let (requests, s1) = store.read tenant_id requests_per_min s in
    let (minute, s2) = store.read tenant_id tokens_per_min s1 in
    let (day, s3) = store.read tenant_id tokens_per_day s2 in
    let entry = λ (w : Window) (used : ℤ) (limit : ℕ).
      window_entry (window_name w) used limit (window_seconds w) in
    (
      object (
          field "tenant_id" (string tenant_id) (
            field "windows"
              (array (
                cons (entry requests_per_min requests demo_quota.requests_per_min) (
                  cons (entry tokens_per_min minute demo_quota.tokens_per_min)
                    (cons (entry tokens_per_day day demo_quota.tokens_per_day) nil))))
              end)),
      s3,
    )

demo_attempts : List AttemptRecord → Items
demo_attempts [] = nil
demo_attempts (a ∷ attempts) =
    let entry : JsonValue = object (
      field "provider" (string a.provider_name)
        (field "error" (error_or_null a.error_class) end)) in
    cons entry (demo_attempts attempts)

-- `steps`
demo_steps : List StepResult → Items
unfolding demo_attempts
demo_steps [] = nil
demo_steps (step ∷ steps) =
    let entry : JsonValue = object (
      field "message" (text_or_null step.message.content) (
        field "usage" (number (total_tokens step.usage))
          (field "attempts" (array (demo_attempts step.attempts)) end))) in
    cons entry (demo_steps steps)

-- The body of a successful `dispatch`.
demo_body : RunResult → String → JsonValue
unfolding demo_steps
demo_body result complexity = object (
    field "final" (text_or_null result.final_message.content) (
      field "stop_reason" (string (stop_reason_value result.stop_reason)) (
        field "complexity" (string complexity) (
          field "usage"
            (object (
              field "prompt" (number result.usage.prompt_tokens) (
                field "completion" (number result.usage.completion_tokens)
                  (field "total" (number (total_tokens result.usage)) end))))
            (field "steps" (array (demo_steps result.steps)) end)))))

-- What becomes of the outcome of the gateway's `dispatch`.
demo_answer : {S : Type 0} → String → Option (Res RunResult × S) → Option (Res Response × S)
unfolding demo_body to_payload
demo_answer complexity none = none
demo_answer complexity (some (ok result, s)) =
    some (ok (record { status = 200; body = result_body (demo_body result complexity) }), s)
demo_answer complexity (some (raised (dispatcher e), s)) =
    some (ok (record { status = e.http_status; body = error_body (to_payload e) }), s)
demo_answer complexity (some (raised e, s)) = some (raised e, s)

-- `dispatch`; `build` is `_build_gateway` over the shared store.
pub demo_dispatch :
    {S : Type 0}
    → (build : Bool → S → ModelGateway S × S) → DispatchBody
    → S
    → Option (Res Response × S)
unfolding demo_answer dispatch
demo_dispatch build body s =
    let tenant = demo_tenant body.tenant_id in
    let request = prompt_request body.prompt tenant.tenant_id in
    let (gateway, s') = build body.simulate_rate_limit s in
    demo_answer (complexity_name (classify none request)) (dispatch gateway request tenant none s')
