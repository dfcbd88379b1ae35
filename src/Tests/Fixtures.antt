-- ===== src/Tests/Fixtures.antt =====
-- Two vendors, a tenant and a clock that stands still.
use model_dispatcher.Prelude.{ℕ, ◌+◌, ◌*◌, String, true, none, some, [], ◌∷◌}
use model_dispatcher.Types.{
  user, assistant, free, standard, ProviderCapability, no_capability, transient, rate_limit, Usage,
  ToolSpec, ToolCall, Message, CompletionRequest, CompletionResponse,
}
use model_dispatcher.Types.Json.{Fields, end}
use model_dispatcher.Config.{default_settings}
use model_dispatcher.Providers.RetryHints.{Floats}
use model_dispatcher.Prelude.Int.{pos}
use model_dispatcher.Providers.Base.{
  Seconds, millis, wait_hint, VendorError, completed, failed, ModelProvider, Clock,
}
use model_dispatcher.Providers.Registry.{ProviderRegistry}
use model_dispatcher.Quota.Tenant.{TenantContext}
use native.Mathlib.Nat.{zero-div}
use model_dispatcher.Quota.Store.{Window, window_seconds, InMemoryQuotaStore}
use model_dispatcher.Quota.Store.Expiry.{IsSteady}
use model_dispatcher.Quota.Manager.{QuotaStore, in_memory}
use model_dispatcher.Quota.Manager.Laws.{StoreLaws, seen_in_memory, in_memory-StoreLaws}
use model_dispatcher.Fallback.Context.{InvocationContext, fresh_context}
use model_dispatcher.Fallback.Retry.{RetryPolicy, default_retry}
use model_dispatcher.Orchestration.Tools.{Handled, content, Tool}
use model_dispatcher.Gateway.{ModelGateway}

-- The outside state is the number of calls that the flaky vendor has seen.
abbrev pub World : Type 0
World = InMemoryQuotaStore ℕ

abbrev pub still_clock : ℕ → ℕ × ℕ
still_clock calls = (0, calls)

abbrev pub first_period : Window → ℕ
first_period w = 0

pub still_clock-IsSteady : IsSteady still_clock first_period
still_clock-IsSteady = record { at = λ w calls. zero-div (1000 * window_seconds w) }

abbrev pub store : QuotaStore World
store = in_memory still_clock

pub laws : StoreLaws store (seen_in_memory still_clock first_period still_clock-IsSteady)
laws = in_memory-StoreLaws still_clock first_period still_clock-IsSteady

abbrev pub clock : Clock World
clock = record { sleep = λ delay s. s; async_sleep = λ delay s. s; monotonic = λ s. (0, s) }

abbrev pub start : World
start = record { counts = []; world = 0 }

abbrev pub hello : Message
hello = record { role = user; content = some "hello"; tool_calls = []; tool_result = none }

abbrev pub request : CompletionRequest
request = record {
  messages = hello ∷ [];
  tenant = "acme";
  tools = [];
  tier_hint = none;
  max_tokens = none;
  temperature = none;
  metadata = end;
}

abbrev pub tenant : TenantContext
tenant = record {
  tenant_id = "acme";
  quota = record {
    requests_per_min = 2;
    tokens_per_min = 100;
    tokens_per_day = 1000;
    budget_usd = none;
    soft_limit_ratio = record { num = 9; den = 10 };
  };
  is_zero_setup = true;
  max_tier = standard;
  metadata = ("user_key:steady", "sk-1,sk-2") ∷ [];
}

abbrev pub spent : Usage
spent = record { prompt_tokens = 5; completion_tokens = 7 }

abbrev pub answer : String → CompletionResponse
answer name = record {
  message = record { role = assistant; content = some "hi"; tool_calls = []; tool_result = none };
  usage = spent;
  provider_name = name;
  tier = standard;
  raw = none;
}

abbrev pub with_tools : ProviderCapability
with_tools = record no_capability { tools = true }

-- Answers every call.
abbrev pub steady : ModelProvider World
steady = record {
  name = "steady";
  tier = standard;
  capabilities = with_tools;
  estimate_tokens = λ r. 20;
  classify_error = λ e. transient;
  retry_after = λ e. wait_hint none;
  complete = λ r key s. (completed (answer "steady"), s);
  acomplete = λ r key s. (completed (answer "steady"), s);
}

abbrev pub too_many : VendorError
too_many = record {
  sdk_class = "RateLimitError";
  status_code = 429;
  code = none;
  error_type = none;
  error_class = none;
  headers = none;
  text = "slow down";
}

-- Refuses every call by a rate limit.
abbrev pub flaky : ModelProvider World
flaky = record {
  name = "flaky";
  tier = free;
  capabilities = with_tools;
  estimate_tokens = λ r. 10;
  classify_error = λ e. rate_limit;
  retry_after = λ e. wait_hint none;
  complete = λ r key s. (failed too_many, record s { world = s.world + 1 });
  acomplete = λ r key s. (failed too_many, record s { world = s.world + 1 });
}

abbrev pub registry : ProviderRegistry World
registry = steady ∷ flaky ∷ []

abbrev pub context : InvocationContext World
context = fresh_context request tenant (flaky ∷ steady ∷ [])

abbrev pub gateway : ModelGateway World
gateway = record {
  settings = default_settings;
  providers = registry;
  scorer = none;
  quota = store;
  clock = clock;
}

abbrev pub policy : RetryPolicy
policy = default_retry 3

abbrev pub look_up : ToolSpec
look_up = record { name = "look_up"; description = "looks up"; parameters = end }

abbrev pub look_up_handler : Fields → World → Handled × World
look_up_handler arguments s = (content "found", s)

abbrev pub look_up_tool : Tool World
look_up_tool = record { spec = look_up; handler = some look_up_handler; ahandler = none }

abbrev pub call : ToolCall
call = record { id = "call-1"; name = "look_up"; arguments = end }

-- Floats that can read no text.
abbrev pub floats : Floats Seconds
floats = record {
  float_of = λ s. none;
  of_ℕ = λ n. millis (pos (1000 * n));
  add = λ x y. x;
  times = λ x y. x;
  is_positive = λ x. true;
}
