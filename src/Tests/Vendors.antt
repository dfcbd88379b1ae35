-- ===== src/Tests/Vendors.antt =====
-- The theorems on the vendors' adapters and on the hints in their messages.
use model_dispatcher.Prelude.{
  ℕ, ◌+◌, ◌-◌, ◌*◌, String, ◌≡◌, refl, ◌≢◌, inl, true, false, ◌&&◌, Option, none, some, List, [],
  ◌∷◌, ◌++◌, map, arith, eq_iff, leb, eqb, if◌then◌else◌,
}
use model_dispatcher.Types.{assistant, cheap, standard, free, ToolCall, ToolResult, Message}
use model_dispatcher.Types.Json.{null, Fields, end, field}
use model_dispatcher.Errors.{ok}
use model_dispatcher.Prelude.Text.{codes, append}
use model_dispatcher.Prelude.Scan.{is_digit, fold}
use model_dispatcher.Orchestration.State.{ConversationState, fresh_state, to_request}
use model_dispatcher.Orchestration.Loop.Transcript.{Turn, After, transcript_of}
use model_dispatcher.Onboarding.Handoff.{text}
use model_dispatcher.Providers.Base.{VendorError, unreadable}
use model_dispatcher.Providers.RetryHints.{
  retry_after_seconds, Floats, parse_retry_after_hint, extract_retry_after_seconds, is_decimal,
}
use model_dispatcher.Providers.RetryHints.Durations.{
  retry_after_seconds-raises, hint, units_text, parse-duration,
}
use model_dispatcher.Providers.Openai.{
  build_kwargs, OpenaiProvider, to_openai_message, to_response, provider_name,
}
use model_dispatcher.Providers.Openai.Sdk.{Json, OpenaiSdk, threw}
use model_dispatcher.Providers.Openai.Compatible.{
  groq_provider, open_router_provider, cerebras_provider, mistral_provider,
}
use model_dispatcher.Providers.Openai.Turns as OpenaiTurns
use model_dispatcher.Providers.Openai.Echo.{echoed, reply_to, to_response-to_openai_message}
use model_dispatcher.Providers.Openai.Status.{StatusClasses}
use model_dispatcher.Providers.Pairing.{IsPaired}
use model_dispatcher.Providers.Anthropic.{split_messages}
use model_dispatcher.Providers.Anthropic.Turns
use model_dispatcher.Providers.Gemini
use model_dispatcher.Providers.Gemini.{GeminiProvider}
use model_dispatcher.Providers.Gemini.Contents.{build_contents}
use model_dispatcher.Providers.Gemini.Sdk.{GeminiResponse, ResponsePart}
use model_dispatcher.Providers.Gemini.Contents.Lookups.{DistinctIds}
use model_dispatcher.Providers.Gemini.Contents.Names
use model_dispatcher.Providers.Gemini.CallIds.{made, calls_made, to_response-DistinctIds}
use model_dispatcher.Tests.Fixtures.{floats, World, hello, call, too_many, spent}

-- Whole numbers in place of floats.
abbrev digits_value : ℕ → List ℕ → Option ℕ
digits_value n [] = some n
digits_value n (d ∷ ds) =
    let rest = digits_value (10 * n + (d - b'0')) ds in
    if leb b'0' d && leb d b'9' then rest else none

abbrev whole : Floats ℕ
whole = record {
  float_of = digits_value 0;
  of_ℕ = λ n. n;
  add = λ x y. x + y;
  times = λ x y. x * y;
  is_positive = λ x. leb 1 x;
}

parse-duration_example :
    parse_retry_after_hint whole
      (codes "Please " ++ hint (units_text (codes "1") (codes "2") (codes "30") []))
    ≡ ok (some 3750)
unfolding is_digit is_decimal fold
parse-duration_example =
    parse-duration whole (codes "Please ") b'1' b'2' b'3' [] [] (b'0' ∷ []) [] 1 2 30
      (refl, (refl, (refl, (refl, (refl, (refl, (refl, tt))))))) (refl, tt) (refl, tt)
      (refl, (refl, tt)) refl refl refl refl

-- A vendor that asks to wait for no number.
abbrev wait_for_nothing : VendorError
wait_for_nothing = record too_many { headers = none; text = "Please try again in .s" }

retry_after_seconds-raises_example :
    retry_after_seconds floats wait_for_nothing
    ≡ unreadable (text "could not convert string to float" ∷ [])
unfolding is_digit is_decimal fold
retry_after_seconds-raises_example =
    retry_after_seconds-raises floats wait_for_nothing (codes "Please ") b'.' [] [] refl refl
      (refl, (refl, (refl, (refl, (refl, (refl, (refl, tt))))))) (refl, tt) refl

extracted :
    extract_retry_after_seconds whole
      (record too_many { headers = some (("Retry-After", "12") ∷ []) })
    ≡ ok (some 12)
unfolding extract_retry_after_seconds
extracted = refl

-- A `json` that knows dicts of one key with the value null.
abbrev only_key : Fields → String
only_key end = "{}"
only_key (field key _ _) = key

abbrev json : Json
json = record { dumps = only_key; loads = λ key. some (field key null end) }

abbrev gpt : OpenaiProvider
gpt = record { model = "gpt"; tier = standard; api_key = none; base_url = none; name = none }

named :
    map provider_name (
      gpt
      ∷ groq_provider "llama" cheap none
      ∷ open_router_provider "llama" cheap none
      ∷ cerebras_provider "llama" cheap none
      ∷ mistral_provider "small" cheap none
      ∷ [])
    ≡ "openai:gpt" ∷ "groq:llama" ∷ "openrouter:llama" ∷ "cerebras:llama" ∷ "mistral:small" ∷ []
unfolding provider_name append groq_provider open_router_provider cerebras_provider mistral_provider
named = refl

abbrev looking : Message
looking = record {
  role = assistant;
  content = some "let me see";
  tool_calls = record call { arguments = field "city" null end } ∷ [];
  tool_result = none;
}

to_response-to_openai_message_example :
    to_response json gpt (echoed json (to_openai_message json looking) [] spent)
    ≡ reply_to json gpt looking spent
to_response-to_openai_message_example =
    to_response-to_openai_message json gpt looking [] spent (refl, refl, inl (λ no. absurd cc))
      ((refl, refl), tt)

-- A package whose exceptions are told apart by their status, and whose calls are rate limited.
abbrev openai : OpenaiSdk World
openai = record {
  create = λ key url kwargs s. (threw too_many, s);
  acreate = λ key url kwargs s. (threw too_many, s);
  is_rate_limit_error = λ e. eqb e.status_code 429;
  is_authentication_error = λ e. eqb e.status_code 401;
  is_permission_denied_error = λ e. eqb e.status_code 403;
  is_bad_request_error = λ e. eqb e.status_code 400;
  is_api_status_error = λ e. leb 400 e.status_code;
}

openai_classes : StatusClasses openai
openai_classes = record {
  rate_limit_status = λ e h. ground (arith, h);
  authentication_status = λ e h. ground (arith, h);
  permission_denied_status = λ e h. ground (arith, h);
  bad_request_status = λ e h. ground (arith, h);
}

abbrev spent_up : VendorError
spent_up = record too_many { code = some "insufficient_quota" }

-- A question, and a turn that called a tool twice and had both calls answered.
abbrev two_calls : List ToolCall
two_calls = call ∷ record call { id = "call-2"; name = "count" } ∷ []

abbrev result_of : String → ToolResult
result_of id = record { call_id = id; content = "found"; is_error = false }

abbrev turn : Turn
turn = record {
  step = record {
    message = record {
      role = assistant;
      content = none;
      tool_calls = two_calls;
      tool_result = none;
    };
    usage = spent;
    attempts = [];
  };
  results = result_of "call-1" ∷ result_of "call-2" ∷ [];
}

abbrev asked : ConversationState
asked = fresh_state "acme" (hello ∷ []) []

abbrev worked : ConversationState
worked = record asked {
  messages = hello ∷ transcript_of (turn ∷ turn ∷ []);
  usage = record { prompt_tokens = 10; completion_tokens = 14 };
  iterations = 2;
}

asked-After : After asked (turn ∷ turn ∷ []) worked
asked-After = record {
  tenant = refl;
  tools = refl;
  messages = refl;
  usage = refl;
  iterations = refl;
}

split_messages-IsPaired_example :
    IsPaired []
      (Turns.called_ids (turn ∷ turn ∷ []))
      (Turns.events (split_messages (to_request worked)).1)
split_messages-IsPaired_example =
    Turns.split_messages-IsPaired asked worked (turn ∷ turn ∷ []) (((λ no. absurd cc), refl), tt)
      ((refl, (λ no. absurd cc), refl), ((refl, (λ no. absurd cc), refl), tt)) asked-After

build_kwargs-IsPaired_example :
    IsPaired []
      (map OpenaiTurns.turn_ids (turn ∷ turn ∷ []))
      (map OpenaiTurns.event_of (build_kwargs json gpt (to_request worked)).messages)
build_kwargs-IsPaired_example =
    OpenaiTurns.build_kwargs-IsPaired json gpt asked worked (turn ∷ turn ∷ [])
      (((λ no. absurd cc), refl), tt)
      ((refl, (λ no. absurd cc), refl), ((refl, (λ no. absurd cc), refl), tt)) asked-After

abbrev second_id : String
second_id = "call-2"

other : second_id ≢ call.id
other same = let e : false ≡ true = (eq_iff "call-2" "call-1").1 same in absurd cc

-- The second turn has the ids of the first one.
build_contents-IsPaired_example :
    IsPaired []
      (Names.turn_names (turn ∷ turn ∷ []))
      (Names.events (build_contents (to_request worked)).1)
build_contents-IsPaired_example =
    Names.build_contents-IsPaired asked worked (turn ∷ turn ∷ []) (((λ no. absurd cc), refl), tt)
      (
        ((refl, (λ no. absurd cc), refl), ((other, tt), (tt, tt))),
        (((refl, (λ no. absurd cc), refl), ((other, tt), (tt, tt))), tt),
      )
      asked-After

abbrev calling : ResponsePart
calling = record {
  text = none;
  function_call = some (record { id = none; name = "look_up"; args = none });
}

abbrev flash : GeminiProvider
flash = record { model = "flash"; tier = free; api_key = none }

abbrev two_parts : GeminiResponse
two_parts = record {
  candidates = record { content = some (some (calling ∷ calling ∷ [])) } ∷ [];
  usage_metadata = none;
}

to_response-DistinctIds_example :
    (map made (Gemini.to_response flash two_parts).message.tool_calls
      ≡ calls_made (Gemini.response_parts two_parts.candidates))
    × DistinctIds (Gemini.to_response flash two_parts).message.tool_calls
unfolding Gemini.response_parts
to_response-DistinctIds_example = to_response-DistinctIds flash two_parts (refl, (refl, tt))
