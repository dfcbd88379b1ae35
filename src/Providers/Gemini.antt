-- ===== src/Providers/Gemini.antt =====
-- src/model_dispatcher/providers/gemini_provider.py: the adapter for Gemini. The `google-genai`
-- package is a parameter.
pub mod Sdk
pub mod Contents
pub mod CallIds
use model_dispatcher.Prelude.{
  ℕ, suc, String, Bool, true, false, ◌||◌, Option, none, some, List, [], ◌∷◌, leb, eqb,
  if◌then◌else◌,
}
use model_dispatcher.Prelude.Text.{append, is_nonempty}
use model_dispatcher.Prelude.Decimal.{str}
use model_dispatcher.Types.{
  assistant, ModelTier, ErrorClass, rate_limit, auth, transient, invalid, no_usage, ToolCall,
  CompletionRequest, CompletionResponse,
}
use model_dispatcher.Types.Json.{end}
use model_dispatcher.Providers.RetryHints.{Floats, retry_after_seconds}
use model_dispatcher.Providers.Base.{Seconds, VendorError, Reply, completed, failed, ModelProvider}
use model_dispatcher.Providers.Openai.{or_else, max_tokens_or_default}
use model_dispatcher.Providers.Openai.Sdk.{SdkReply, answered, threw}
use model_dispatcher.Providers.Gemini.Contents.{build_contents}
use model_dispatcher.Providers.Gemini.Sdk.{
  GeminiConfig, ResponseCall, ResponsePart, Candidate, GeminiResponse, GeminiSdk,
}
use model_dispatcher.Quota.Tokenizer.{default_counter, estimate}

pub record GeminiProvider : Type 0 where
  pub model : String
  pub tier : ModelTier
  pub api_key : Option String

-- `_classify_status`
pub classify_status : ℕ → ErrorClass
classify_status status =
    if eqb status 429
    then rate_limit
    else if eqb status 401 || eqb status 403
    then auth
    else if leb 500 status
    then transient
    else invalid

-- `classify_error`
unfoldable pub classify_error : {S : Type 0} → GeminiSdk S → VendorError → ErrorClass
unfolding classify_status
classify_error sdk e = if sdk.is_api_error e then classify_status e.status_code else transient

-- `_build_config`
build_config : CompletionRequest → String → GeminiConfig
build_config r system_text = record {
  max_output_tokens = max_tokens_or_default r.max_tokens;
  system_instruction = system_text;
  temperature = r.temperature;
  tools = r.tools;
}

-- `f"call_{index}"`
pub call_name : ℕ → String
unfolding append str
call_name index = append "call_" (str index)

-- The body of the `elif` for a function call.
pub to_tool_call : ℕ → ResponseCall → ToolCall
unfolding call_name
to_tool_call index call = record {
  id = elim (or_else call.id none) [ some id ↦ id | none ↦ call_name index ];
  name = call.name;
  arguments = elim call.args [ none ↦ end | some args ↦ args ];
}

abbrev pub has_text : ResponsePart → Bool
has_text part = elim part.text [ none ↦ false | some text ↦ is_nonempty text ]

-- The tool calls among the parts from `index` on.
pub part_calls : ℕ → List ResponsePart → List ToolCall
unfolding to_tool_call
part_calls index [] = []
part_calls index (part ∷ parts) =
    let calls = part_calls (suc index) parts in
    if has_text part
    then calls
    else elim part.function_call [ none ↦ calls | some call ↦ to_tool_call index call ∷ calls ]

-- `"".join(text_parts)`
part_texts : List ResponsePart → String
unfolding append
part_texts [] = ""
part_texts (part ∷ parts) =
    append (elim part.text [ none ↦ "" | some text ↦ text ]) (part_texts parts)

-- `parts`, which is empty where any step towards it is missing
unfoldable pub response_parts : List Candidate → List ResponsePart
response_parts [] = []
response_parts (candidate ∷ _) = elim candidate.content [
  | none ↦ []
  | some none ↦ []
  | some (some parts) ↦ parts
]

abbrev pub gemini_name : GeminiProvider → String
gemini_name p = append "gemini:" p.model

-- `_to_response`
pub to_response : GeminiProvider → GeminiResponse → CompletionResponse
unfolding part_calls part_texts response_parts
to_response p response =
    let parts = response_parts response.candidates in
    record {
      message = record {
        role = assistant;
        content = or_else (some (part_texts parts)) none;
        tool_calls = part_calls 0 parts;
        tool_result = none;
      };
      usage = elim response.usage_metadata [ none ↦ no_usage | some usage ↦ usage ];
      provider_name = gemini_name p;
      tier = p.tier;
      raw = none;
    }

module _ {S : Type 0} (sdk : GeminiSdk S) where
  translated : GeminiProvider → SdkReply GeminiResponse × S → Reply × S
  unfolding to_response
  translated p (answered response, s) = (completed (to_response p response), s)
  translated p (threw e, s) = (failed e, s)

  complete_gemini : GeminiProvider → CompletionRequest → Option String → S → Reply × S
  unfolding build_contents build_config translated
  complete_gemini p r key s =
      let (system_text, contents) = build_contents r in
      translated p (
        sdk.generate_content (or_else key p.api_key) p.model contents (build_config r system_text)
          s)

  acomplete_gemini : GeminiProvider → CompletionRequest → Option String → S → Reply × S
  unfolding build_contents build_config translated
  acomplete_gemini p r key s =
      let (system_text, contents) = build_contents r in
      translated p (
        sdk.agenerate_content (or_else key p.api_key) p.model contents (build_config r system_text)
          s)

  -- `GeminiProvider`, with the `retry_after_seconds` that it inherits
  unfoldable pub gemini_provider : Floats Seconds → GeminiProvider → ModelProvider S
  unfolding retry_after_seconds complete_gemini acomplete_gemini classify_error
  gemini_provider floats p = record {
    name = gemini_name p;
    tier = p.tier;
    capabilities = record { tools = true; streaming = true; vision = true; json_mode = true };
    estimate_tokens = estimate default_counter;
    classify_error = classify_error sdk;
    retry_after = retry_after_seconds floats;
    complete = complete_gemini p;
    acomplete = acomplete_gemini p;
  }
