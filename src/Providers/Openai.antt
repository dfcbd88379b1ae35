-- ===== src/Providers/Openai.antt =====
-- src/model_dispatcher/providers/openai_provider.py: the adapter for OpenAI and for the vendors
-- that take the same requests. The `openai` package and `json` are parameters.
pub mod Sdk
pub mod Compatible
pub mod Echo
pub mod Status
pub mod Turns
use model_dispatcher.Prelude.{
  ℕ, zero, suc, String, Bool, true, false, not, ◌||◌, Option, none, some, List, [], ◌∷◌, map, ◌==◌,
  leb, eqb, if◌then◌else◌,
}
use model_dispatcher.Prelude.Text.{append, is_nonempty}
use model_dispatcher.Types.{
  assistant, tool, role_value, ModelTier, ErrorClass, rate_limit, quota, auth, transient, invalid,
  Usage, ToolCall, Message, content_or_empty, CompletionRequest,
}
use model_dispatcher.Providers.RetryHints.{Floats, retry_after_seconds}
use model_dispatcher.Providers.Base.{
  Seconds, VendorError, python_error, Reply, completed, failed, ModelProvider,
}
use model_dispatcher.Providers.Openai.Sdk.{
  Json, FunctionCall, OpenaiMessage, OpenaiKwargs, ChoiceCall, ChatCompletion, SdkReply, OpenaiSdk,
  tool_reply, assistant_calls, plain, answered, threw,
}
use model_dispatcher.Quota.Tokenizer.{default_counter, estimate}

-- The constructor's arguments.
pub record OpenaiProvider : Type 0 where
  pub model : String
  pub tier : ModelTier
  pub api_key : Option String
  pub base_url : Option String
  pub name : Option String

-- `a or b`, of texts that may be missing
abbrev pub or_else : Option String → Option String → Option String
or_else none b = b
or_else (some a) b = if is_nonempty a then some a else b

-- `name or f"openai:{model}"`
unfoldable pub provider_name : OpenaiProvider → String
unfolding append
provider_name p = elim (or_else p.name none) [ some name ↦ name | none ↦ append "openai:" p.model ]

-- `request.max_tokens or _DEFAULT_MAX_TOKENS`
abbrev pub max_tokens_or_default : Option ℕ → ℕ
max_tokens_or_default none = 4096
max_tokens_or_default (some zero) = 4096
max_tokens_or_default (some (suc n)) = suc n

-- `_classify_status`
pub classify_status : ℕ → ErrorClass
classify_status status =
    if eqb status 429
    then rate_limit
    else if eqb status 401 || eqb status 403
    then auth
    else if leb 500 status
    then transient
    else invalid

abbrev pub is_insufficient_quota : Option String → Bool
is_insufficient_quota none = false
is_insufficient_quota (some code) = code == "insufficient_quota"

module _ {S : Type 0} (sdk : OpenaiSdk S) where
  -- `classify_error`; a connection error is transient as everything else is.
  pub classify_error : VendorError → ErrorClass
  unfolding classify_status
  classify_error e =
      if sdk.is_rate_limit_error e
      then (if is_insufficient_quota e.code then quota else rate_limit)
      else if sdk.is_authentication_error e || sdk.is_permission_denied_error e
      then auth
      else if sdk.is_bad_request_error e
      then invalid
      else if sdk.is_api_status_error e
      then classify_status e.status_code
      else transient

module _ (json : Json) where
  function_call : ToolCall → FunctionCall
  function_call call = record {
    id = call.id;
    name = call.name;
    arguments = json.dumps call.arguments;
  }

  -- `if message.tool_calls: ...`
  calls_or_plain : Message → OpenaiMessage
  unfolding function_call
  calls_or_plain m = elim m.tool_calls [
    | [] ↦ plain (role_value m.role) (content_or_empty m)
    | call ∷ calls ↦ assistant_calls m.content (map function_call (call ∷ calls))
  ]

  -- `_to_openai_message`
  pub to_openai_message : Message → OpenaiMessage
  unfolding calls_or_plain
  to_openai_message m = elim m.role [
    | tool ↦ elim m.tool_result [
      | some result ↦ tool_reply result.call_id result.content
      | none ↦ calls_or_plain m
    ]
    | _ ↦ calls_or_plain m
  ]

  -- `_build_kwargs`
  pub build_kwargs : OpenaiProvider → CompletionRequest → OpenaiKwargs
  unfolding to_openai_message
  build_kwargs p r = record {
    model = p.model;
    max_tokens = max_tokens_or_default r.max_tokens;
    messages = map to_openai_message r.messages;
    temperature = r.temperature;
    tools = r.tools;
  }

  -- `json.loads(call.function.arguments or "{}")`
  arguments_text : Option String → String
  arguments_text none = "{}"
  arguments_text (some arguments) = if is_nonempty arguments then arguments else "{}"

  -- The loop over `choice.tool_calls or []`; a text that is no JSON ends it.
  to_tool_calls : List ChoiceCall → Option (List ToolCall)
  unfolding arguments_text
  to_tool_calls [] = some []
  to_tool_calls (call ∷ calls) = elim (json.loads (arguments_text call.arguments)) [
    | none ↦ none
    | some arguments ↦ elim (to_tool_calls calls) [
      | none ↦ none
      | some rest ↦ some (record { id = call.id; name = call.name; arguments = arguments } ∷ rest)
    ]
  ]

  with_usage : OpenaiProvider → Option String → List ToolCall → Option Usage → Reply
  with_usage p content calls none =
      failed (python_error "AttributeError" "'NoneType' object has no attribute 'prompt_tokens'")
  with_usage p content calls (some usage) = completed (record {
    message = record {
      role = assistant;
      content = content;
      tool_calls = calls;
      tool_result = none;
    };
    usage = usage;
    provider_name = provider_name p;
    tier = p.tier;
    raw = none;
  })

  -- The text of the JSONDecodeError is not what `json` writes.
  with_calls : OpenaiProvider → Option String → Option Usage → Option (List ToolCall) → Reply
  unfolding with_usage provider_name
  with_calls p content usage none = failed (python_error "JSONDecodeError" "not a JSON object")
  with_calls p content usage (some calls) = with_usage p content calls usage

  -- `_to_response`
  pub to_response : OpenaiProvider → ChatCompletion → Reply
  unfolding to_tool_calls with_calls
  to_response p response = elim response.choices [
    | [] ↦ failed (python_error "IndexError" "list index out of range")
    | choice ∷ _ ↦
        with_calls p choice.content response.usage
          (to_tool_calls (elim choice.tool_calls [ none ↦ [] | some calls ↦ calls ]))
  ]

  translated : {S : Type 0} → OpenaiProvider → SdkReply ChatCompletion × S → Reply × S
  unfolding to_response
  translated p (answered response, s) = (to_response p response, s)
  translated p (threw e, s) = (failed e, s)

  module _ {S : Type 0} (sdk : OpenaiSdk S) where
    complete_openai : OpenaiProvider → CompletionRequest → Option String → S → Reply × S
    unfolding build_kwargs translated
    complete_openai p r key s =
        translated p (sdk.create (or_else key p.api_key) p.base_url (build_kwargs p r) s)

    acomplete_openai : OpenaiProvider → CompletionRequest → Option String → S → Reply × S
    unfolding build_kwargs translated
    acomplete_openai p r key s =
        translated p (sdk.acreate (or_else key p.api_key) p.base_url (build_kwargs p r) s)

    -- `OpenAIProvider`, with the `retry_after_seconds` that it inherits
    unfoldable pub openai_provider : Floats Seconds → OpenaiProvider → ModelProvider S
    unfolding retry_after_seconds complete_openai acomplete_openai provider_name classify_error
    openai_provider floats p = record {
      name = provider_name p;
      tier = p.tier;
      capabilities = record { tools = true; streaming = true; vision = false; json_mode = true };
      estimate_tokens = estimate default_counter;
      classify_error = classify_error sdk;
      retry_after = retry_after_seconds floats;
      complete = complete_openai p;
      acomplete = acomplete_openai p;
    }
