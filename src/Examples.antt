-- ===== src/Examples.antt =====
-- examples/basic_agent.py: an agent that looks the weather up, on a scripted mock.
use model_dispatcher.Prelude.{
  ℕ, suc, ◌≤◌, String, ◌≡◌, refl, sym, ap, subst, true, false, Option, none, some, List, [], ◌∷◌,
  map, arith, length,
}
use model_dispatcher.Prelude.Text.{append}
use model_dispatcher.Types.{
  user, assistant, free, premium, no_capability, rate_limit, ToolSpec, ToolCall, Message,
  CompletionRequest,
}
use model_dispatcher.Types.Json.{JsonValue, string, array, object, nil, cons, Fields, end, field}
use model_dispatcher.Errors.{Res, ok, raised, IsServiceError}
use model_dispatcher.Providers.RetryHints.{Floats}
use model_dispatcher.Providers.Base.{Seconds, ModelProvider, Clock}
use model_dispatcher.Providers.Registry.{register}
use model_dispatcher.Providers.Mock.{Cell, initial_state, mock_provider}
use model_dispatcher.Quota.Tenant.{TenantContext}
use model_dispatcher.Quota.Manager.{QuotaStore}
use model_dispatcher.Fallback.Context.{AttemptRecord}
use model_dispatcher.Orchestration.Tools.{
  Handled, content, threw, Tool, ToolRegistry, register_tool, execute, report,
}
use model_dispatcher.Orchestration.Tools.Execute.{execute-registered}
use model_dispatcher.Orchestration.State.{
  StopReason, completed, max_iterations, deadline, error, RunResult,
}
use model_dispatcher.Orchestration.Loop.Transcript.{Stops}
use model_dispatcher.Gateway.{ModelGateway, create, dispatch}
use model_dispatcher.Gateway.Dispatch.{Concludes, dispatch_lem}
use model_dispatcher.Vercel.Http.{get_field, stop_reason_value}

length-map : {A B : Type 0} (f : A → B) (xs : List A) → length (map f xs) ≡ length xs
length-map f [] = refl
length-map f (x ∷ xs) = ap suc (length-map f xs)

-- The text of an f-string's value that is a `str`; `shown` is that of any other.
city_text : (JsonValue → String) → JsonValue → String
city_text shown (string city) = city
city_text shown value = shown value

-- `get_weather`; without a city the handler raises a KeyError, whose text is the quoted key.
pub get_weather : (JsonValue → String) → Fields → Handled
unfolding get_field city_text append
get_weather shown args = elim (get_field "city" args) [
  | none ↦ threw "'city'"
  | some city ↦ content (append (append "It is 21C and sunny in " (city_text shown city)) ".")
]

abbrev weather_spec : ToolSpec
weather_spec = record {
  name = "get_weather";
  description = "Look up the current weather for a city.";
  parameters = field "type" (string "object") (
      field "properties" (object (field "city" (object (field "type" (string "string") end)) end))
        (field "required" (array (cons (string "city") nil)) end));
}

-- What `main` prints: of each turn, the providers that served it.
pub record Printed : Type 0 where
  pub stop_reason : String
  pub answer : Option String
  pub turns : ℕ
  pub served_by : List (List String)

-- `[a.provider_name for a in step.attempts if a.error_class is None]`
served_by : List AttemptRecord → List String
served_by [] = []
served_by (a ∷ attempts) =
    let rest = served_by attempts in
    elim a.error_class [ none ↦ a.provider_name ∷ rest | some _ ↦ rest ]

printed : RunResult → Printed
unfolding served_by
printed result = record {
  stop_reason = stop_reason_value result.stop_reason;
  answer = result.final_message.content;
  turns = length result.steps;
  served_by = map (λ step. served_by step.attempts) result.steps;
}

abbrev weather_tenant : TenantContext
weather_tenant = record {
  tenant_id = "demo-user";
  quota = record {
    requests_per_min = 20;
    tokens_per_min = 40_000;
    tokens_per_day = 1_000_000;
    budget_usd = none;
    soft_limit_ratio = record { num = 9; den = 10 };
  };
  is_zero_setup = true;
  max_tier = premium;
  metadata = [];
}

abbrev weather_call : ToolCall
weather_call = record {
  id = "call-1";
  name = "get_weather";
  arguments = field "city" (string "Paris") end;
}

abbrev weather_script : List Message
weather_script =
    record { role = assistant; content = none; tool_calls = weather_call ∷ []; tool_result = none }
    ∷ record {
      role = assistant;
      content = some "It's 21C and sunny in Paris.";
      tool_calls = [];
      tool_result = none;
    }
    ∷ []

abbrev pub weather_request : CompletionRequest
weather_request = record {
  messages =
      record {
        role = user;
        content = some "What's the weather in Paris?";
        tool_calls = [];
        tool_result = none;
      }
      ∷ [];
  tenant = "demo-user";
  tools = weather_spec ∷ [];
  tier_hint = none;
  max_tokens = none;
  temperature = none;
  metadata = end;
}

module _ {S : Type 0} (shown : JsonValue → String) where
  -- `build_weather_tool`
  pub build_weather_tool : Tool S
  unfolding get_weather
  build_weather_tool = record {
    spec = weather_spec;
    handler = some (λ args s. (get_weather shown args, s));
    ahandler = none;
  }

  -- Whatever else is registered, a call of the tool with a city answers with the weather there.
  pub execute-build_weather_tool :
      (r : ToolRegistry S) (id city : String) (s : S)
      → execute
          (register_tool build_weather_tool r)
          (record { id = id; name = "get_weather"; arguments = field "city" (string city) end })
          s
        ≡ (
          record {
            call_id = id;
            content = append (append "It is 21C and sunny in " city) ".";
            is_error = false;
          },
          s,
        )
  unfolding build_weather_tool get_weather get_field report city_text
  execute-build_weather_tool r id city s = execute-registered build_weather_tool _ r _ s refl refl

  module _ (cell : Cell S) (floats : Floats Seconds) (memory : QuotaStore S) (clock : Clock S) where
    weather_provider : ModelProvider S
    unfolding mock_provider
    weather_provider = mock_provider cell floats (record {
      name = "mock:free";
      tier = free;
      capabilities = record no_capability { tools = true };
      reply = "This is a mock response.";
      fail_with = rate_limit;
      chars_per_token = record { num = 4; den = 1 };
    })

    weather_gateway : ModelGateway S
    unfolding create register weather_provider
    weather_gateway = create (register weather_provider []) none none none memory clock

    print_result : Option (Res RunResult × S) → Option (Res Printed × S)
    unfolding printed
    print_result none = none
    print_result (some (ok result, s)) = some (ok (printed result), s)
    print_result (some (raised e, s)) = some (raised e, s)

    -- `main`
    pub main : S → Option (Res Printed × S)
    unfolding weather_gateway print_result build_weather_tool register_tool
    main s = print_result (
        dispatch weather_gateway weather_request weather_tenant
          (some (register_tool build_weather_tool []))
          (cell.set (initial_state weather_script 0) s))

    -- How `main` ends: it prints at most eight turns, and for each of them who served it, or an error
    -- of the library or a ValueError ends it.
    abbrev pub EndsWell : Option (Res Printed × S) → Type 0
    EndsWell none = ⊥
    EndsWell (some (ok p, s)) = (p.turns ≤ 8) × (length p.served_by ≡ p.turns)
    EndsWell (some (raised e, s)) = IsServiceError e

    print_result-EndsWell :
        (messages : List Message) (o : Option (Res RunResult × S))
        → Concludes 8 messages o
        → EndsWell (print_result o)
    unfolding print_result printed
    print_result-EndsWell messages none h = h
    print_result-EndsWell messages (some (raised e, s)) h = h
    print_result-EndsWell messages (some (ok result, s)) h = (
      rw (h.steps)
          (subst (λ n. n ≤ 8) (sym (length-map _ h.turns)) (bounded result.stop_reason h.stops)),
      length-map _ result.steps,
    )
      where
        bounded : (reason : StopReason) → Stops reason 8 h.turns → length h.turns ≤ 8
        bounded completed stops = stops.1
        bounded max_iterations stops = omega (arith, stops.1)
        bounded deadline stops = omega (arith, stops.1)
        bounded error stops = absurd stops

    pub main-EndsWell : (s : S) → EndsWell (main s)
    unfolding main weather_gateway create
    main-EndsWell s =
        print_result-EndsWell weather_request.messages _
          (dispatch_lem weather_gateway weather_request weather_tenant
            (some (register_tool build_weather_tool []))
            (cell.set (initial_state weather_script 0) s)).0
