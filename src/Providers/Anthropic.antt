-- ===== src/Providers/Anthropic.antt =====
-- src/model_dispatcher/providers/anthropic_provider.py: the adapter for Claude. The `anthropic`
-- package is a parameter.
pub mod Turns
pub mod Status
use model_dispatcher.Prelude.{
  ℕ, ◌+◌, String, Bool, true, false, ◌||◌, Option, none, some, List, [], ◌∷◌, ◌++◌, map, ◌==◌, leb,
  eqb, if◌then◌else◌,
}
use model_dispatcher.Prelude.Text.{append, join, is_nonempty}
use model_dispatcher.Types.{
  system, user, assistant, tool, role_value, ModelTier, ErrorClass, rate_limit, quota, auth,
  transient, invalid, Usage, ToolSpec, ToolCall, ToolResult, Message, content_or_empty,
  CompletionRequest, CompletionResponse, FloatText,
}
use model_dispatcher.Types.Json.{Fields}
use model_dispatcher.Providers.RetryHints.{Floats, retry_after_seconds}
use model_dispatcher.Providers.Base.{Seconds, VendorError, Reply, completed, failed, ModelProvider}
use model_dispatcher.Providers.Openai.{or_else, max_tokens_or_default}
use model_dispatcher.Providers.Openai.Sdk.{SdkReply, answered, threw}
use model_dispatcher.Quota.Tokenizer.{default_counter, estimate}

-- The content blocks of a request.
pub data Block : Type 0 where
  text_block : String → Block
  tool_use : (id name : String) → Fields → Block
  tool_result : (tool_use_id content : String) → Bool → Block

pub data Content : Type 0 where
  plain : String → Content
  blocks : List Block → Content

pub record AnthropicMessage : Type 0 where
  pub role : String
  pub content : Content

-- The keyword arguments of `messages.create`; an empty system text and an empty list of tools are
-- left out of the call.
pub record AnthropicKwargs : Type 0 where
  pub model : String
  pub max_tokens : ℕ
  pub messages : List AnthropicMessage
  pub system : String
  pub temperature : Option FloatText
  pub tools : List ToolSpec

-- The blocks of a response; those of other types are passed over.
pub data ResponseBlock : Type 0 where
  said : String → ResponseBlock
  used : (id name : String) → Fields → ResponseBlock
  other : ResponseBlock

pub record AnthropicResponse : Type 0 where
  pub content : List ResponseBlock
  pub usage : Usage

pub record AnthropicSdk (S : Type 0) : Type 0 where
  pub create : Option String → AnthropicKwargs → S → SdkReply AnthropicResponse × S
  pub acreate : Option String → AnthropicKwargs → S → SdkReply AnthropicResponse × S
  pub is_rate_limit_error : VendorError → Bool
  pub is_authentication_error : VendorError → Bool
  pub is_bad_request_error : VendorError → Bool
  pub is_api_status_error : VendorError → Bool

pub record AnthropicProvider : Type 0 where
  pub model : String
  pub tier : ModelTier
  pub api_key : Option String

-- `_classify_status`
pub classify_status : ℕ → ErrorClass
classify_status status =
    if eqb status 429
    then rate_limit
    else if eqb status 401 || eqb status 403
    then auth
    else if leb 500 status
    then transient
    else invalid

abbrev pub is_billing_error : Option String → Bool
is_billing_error none = false
is_billing_error (some kind) = kind == "billing_error"

-- `classify_error`
pub classify_error : {S : Type 0} → AnthropicSdk S → VendorError → ErrorClass
unfolding classify_status
classify_error sdk e =
    if sdk.is_rate_limit_error e
    then rate_limit
    else if sdk.is_authentication_error e
    then auth
    else if sdk.is_bad_request_error e
    then (if is_billing_error e.error_type then quota else invalid)
    else if sdk.is_api_status_error e
    then classify_status e.status_code
    else transient

tool_use_of : ToolCall → Block
tool_use_of call = tool_use call.id call.name call.arguments

-- `if message.content: blocks.append(...)`
text_blocks : Option String → List Block
text_blocks none = []
text_blocks (some text) = if is_nonempty text then text_block text ∷ [] else []

result_message : ToolResult → AnthropicMessage
result_message r = record {
  role = "user";
  content = blocks (tool_result r.call_id r.content r.is_error ∷ []);
}

-- The last two branches of the loop.
calls_or_plain : Message → AnthropicMessage
unfolding tool_use_of text_blocks
calls_or_plain m = elim m.tool_calls [
  | [] ↦ record { role = role_value m.role; content = plain (content_or_empty m) }
  | call ∷ calls ↦ record {
    role = "assistant";
    content = blocks (text_blocks m.content ++ map tool_use_of (call ∷ calls));
  }
]

-- What one message adds to the system texts and to the messages.
pub split_message : Message → List String × List AnthropicMessage
unfolding calls_or_plain result_message
split_message m = elim m.role [
  | system ↦
      (elim m.content [ none ↦ [] | some text ↦ if is_nonempty text then text ∷ [] else [] ], [])
  | tool ↦ elim m.tool_result [
    | some result ↦ ([], result_message result ∷ [])
    | none ↦ ([], calls_or_plain m ∷ [])
  ]
  | _ ↦ ([], calls_or_plain m ∷ [])
]

split_all : List Message → List String × List AnthropicMessage
unfolding split_message
split_all [] = ([], [])
split_all (m ∷ ms) =
    let (systems, wires) = split_message m in
    let (systems', wires') = split_all ms in (systems ++ systems', wires ++ wires')

-- `_split_messages`
pub split_messages : CompletionRequest → String × List AnthropicMessage
unfolding split_all
split_messages r = let (systems, wires) = split_all r.messages in (join "\n" systems, wires)

-- `_build_kwargs`
pub build_kwargs : AnthropicProvider → CompletionRequest → AnthropicKwargs
unfolding split_messages
build_kwargs p r =
    let (system_text, messages) = split_messages r in
    record {
      model = p.model;
      max_tokens = max_tokens_or_default r.max_tokens;
      messages = messages;
      system = system_text;
      temperature = r.temperature;
      tools = r.tools;
    }

-- `"".join(text_parts)`
texts : List ResponseBlock → String
unfolding append
texts [] = ""
texts (said text ∷ bs) = append text (texts bs)
texts (used _ _ _ ∷ bs) = texts bs
texts (other ∷ bs) = texts bs

uses : List ResponseBlock → List ToolCall
uses [] = []
uses (said _ ∷ bs) = uses bs
uses (used id name input ∷ bs) = record { id = id; name = name; arguments = input } ∷ uses bs
uses (other ∷ bs) = uses bs

-- `... or None`
abbrev pub nonempty : String → Option String
nonempty text = if is_nonempty text then some text else none

abbrev pub anthropic_name : AnthropicProvider → String
anthropic_name p = append "anthropic:" p.model

-- `_to_response`
pub to_response : AnthropicProvider → AnthropicResponse → CompletionResponse
unfolding texts uses
to_response p response = record {
  message = record {
    role = assistant;
    content = nonempty (texts response.content);
    tool_calls = uses response.content;
    tool_result = none;
  };
  usage = response.usage;
  provider_name = anthropic_name p;
  tier = p.tier;
  raw = none;
}

module _ {S : Type 0} (sdk : AnthropicSdk S) where
  translated : AnthropicProvider → SdkReply AnthropicResponse × S → Reply × S
  unfolding to_response
  translated p (answered response, s) = (completed (to_response p response), s)
  translated p (threw e, s) = (failed e, s)

  complete_anthropic : AnthropicProvider → CompletionRequest → Option String → S → Reply × S
  unfolding build_kwargs translated
  complete_anthropic p r key s =
      translated p (sdk.create (or_else key p.api_key) (build_kwargs p r) s)

  acomplete_anthropic : AnthropicProvider → CompletionRequest → Option String → S → Reply × S
  unfolding build_kwargs translated
  acomplete_anthropic p r key s =
      translated p (sdk.acreate (or_else key p.api_key) (build_kwargs p r) s)

  -- `AnthropicProvider`, with the `retry_after_seconds` that it inherits
  unfoldable pub anthropic_provider : Floats Seconds → AnthropicProvider → ModelProvider S
  unfolding retry_after_seconds complete_anthropic acomplete_anthropic classify_error
  anthropic_provider floats p = record {
    name = anthropic_name p;
    tier = p.tier;
    capabilities = record { tools = true; streaming = true; vision = true; json_mode = false };
    estimate_tokens = estimate default_counter;
    classify_error = classify_error sdk;
    retry_after = retry_after_seconds floats;
    complete = complete_anthropic p;
    acomplete = acomplete_anthropic p;
  }
