-- ===== src/Quota/Tokenizer.antt =====
-- src/model_dispatcher/quota/tokenizer.py: the estimate of a request's prompt tokens.
pub mod Bounds
use model_dispatcher.Prelude.{
  ℕ, ◌+◌, ◌-◌, ◌*◌, ◌/◌, Option, none, some, List, [], ◌∷◌, length, if◌then◌else◌, eqb,
}
use model_dispatcher.Prelude.Text.{characters}
use model_dispatcher.Types.{
  ToolSpec, ToolCall, ToolResult, Message, content_or_empty, CompletionRequest,
}
use model_dispatcher.Types.Json.{fields_length}
use model_dispatcher.Errors.{Res, ok, raised, value_error}
use model_dispatcher.Onboarding.Handoff.{text}
use model_dispatcher.Quota.Tenant.{Ratio}

abbrev pub message_overhead : ℕ
message_overhead = 4

-- `TokenCounter`, with `chars_per_token` as a fraction.
pub record TokenCounter : Type 0 where
  pub chars_per_token : Ratio

abbrev pub default_counter : TokenCounter
default_counter = record { chars_per_token = record { num = 4; den = 1 } }

-- `TokenCounter.__init__`
unfoldable pub token_counter : Ratio → Res TokenCounter
token_counter ratio =
    if eqb ratio.num 0
    then raised (value_error (text "chars_per_token must be positive" ∷ []))
    else ok (record { chars_per_token = ratio })

unfoldable pub call_chars : List ToolCall → ℕ
call_chars [] = 0
call_chars (c ∷ cs) = characters c.name + fields_length c.arguments + call_chars cs

abbrev result_chars : Option ToolResult → ℕ
result_chars none = 0
result_chars (some r) = characters r.content

message_chars : Message → ℕ
unfolding call_chars
message_chars m =
    characters (content_or_empty m) + call_chars m.tool_calls + result_chars m.tool_result

pub messages_chars : List Message → ℕ
unfolding message_chars
messages_chars [] = 0
messages_chars (m ∷ ms) = message_chars m + messages_chars ms

pub tools_chars : List ToolSpec → ℕ
tools_chars [] = 0
tools_chars (t ∷ ts) =
    characters t.name + characters t.description + fields_length t.parameters + tools_chars ts

-- `math.ceil(a / b)`
abbrev pub ceil_div : ℕ → ℕ → ℕ
ceil_div a b = (a + b - 1) / b

-- The overhead is whole, so it can be added after rounding up.
unfoldable pub estimate : TokenCounter → CompletionRequest → ℕ
unfolding messages_chars tools_chars
estimate counter r =
    let ratio = counter.chars_per_token in
    ceil_div ((messages_chars r.messages + tools_chars r.tools) * ratio.den) ratio.num
    + message_overhead * length r.messages
