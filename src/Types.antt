-- ===== src/Types.antt =====
-- src/model_dispatcher/types.py: the values that every subsystem passes around. A float that the
-- program only hands on is kept as the text that Python prints for it.
pub mod Json
use model_dispatcher.Prelude.{
  ℕ, ◌+◌, String, Bool, true, false, not, ◌&&◌, ◌||◌, Option, none, some, List,
}
use Json.{Fields}

-- `TenantId = NewType("TenantId", str)`
abbrev pub TenantId : Type 0
TenantId = String

abbrev pub FloatText : Type 0
FloatText = String

pub data Role : Type 0 where
  system user assistant tool : Role

-- The `StrEnum` value.
abbrev pub role_value : Role → String
role_value system = "system"
role_value user = "user"
role_value assistant = "assistant"
role_value tool = "tool"

pub data ModelTier : Type 0 where
  free cheap standard premium : ModelTier

-- The `IntEnum` value, by which tiers are compared.
abbrev pub tier_value : ModelTier → ℕ
tier_value free = 0
tier_value cheap = 1
tier_value standard = 2
tier_value premium = 3

abbrev pub is_free : ModelTier → Bool
is_free free = true
is_free _ = false

pub data TaskComplexity : Type 0 where
  trivial simple moderate complex : TaskComplexity

abbrev pub complexity_value : TaskComplexity → ℕ
complexity_value trivial = 0
complexity_value simple = 1
complexity_value moderate = 2
complexity_value complex = 3

pub data ErrorClass : Type 0 where
  rate_limit quota auth transient invalid content : ErrorClass

-- The `StrEnum` value.
abbrev pub error_class_value : ErrorClass → String
error_class_value rate_limit = "rate_limit"
error_class_value quota = "quota"
error_class_value auth = "auth"
error_class_value transient = "transient"
error_class_value invalid = "invalid"
error_class_value content = "content"

-- A `Flag`: each of the four bits is set or not.
pub record ProviderCapability : Type 0 where
  pub tools : Bool
  pub streaming : Bool
  pub vision : Bool
  pub json_mode : Bool

abbrev pub no_capability : ProviderCapability
no_capability = record { tools = false; streaming = false; vision = false; json_mode = false }

-- A bit of `required & offered == required`.
abbrev pub implies : Bool → Bool → Bool
implies required offered = not required || offered

-- `required & offered == required`
abbrev pub offers : ProviderCapability → ProviderCapability → Bool
offers required offered =
    implies required.tools offered.tools
    && implies required.streaming offered.streaming
    && implies required.vision offered.vision
    && implies required.json_mode offered.json_mode

pub record Usage : Type 0 where
  pub prompt_tokens : ℕ
  pub completion_tokens : ℕ

abbrev pub total_tokens : Usage → ℕ
total_tokens u = u.prompt_tokens + u.completion_tokens

abbrev pub no_usage : Usage
no_usage = record { prompt_tokens = 0; completion_tokens = 0 }

-- `Usage.__add__`
abbrev pub add_usages : Usage → Usage → Usage
add_usages u v = record {
  prompt_tokens = u.prompt_tokens + v.prompt_tokens;
  completion_tokens = u.completion_tokens + v.completion_tokens;
}

pub record ToolSpec : Type 0 where
  pub name : String
  pub description : String
  pub parameters : Fields

pub record ToolCall : Type 0 where
  pub id : String
  pub name : String
  pub arguments : Fields

pub record ToolResult : Type 0 where
  pub call_id : String
  pub content : String
  pub is_error : Bool

pub record Message : Type 0 where
  pub role : Role
  pub content : Option String
  pub tool_calls : List ToolCall
  pub tool_result : Option ToolResult

-- `message.content or ""`
abbrev pub content_or_empty : Message → String
content_or_empty m = elim m.content [ none ↦ "" | some text ↦ text ]

pub record CompletionRequest : Type 0 where
  pub messages : List Message
  pub tenant : TenantId
  pub tools : List ToolSpec
  pub tier_hint : Option ModelTier
  pub max_tokens : Option ℕ
  pub temperature : Option FloatText
  pub metadata : Fields

pub record CompletionResponse : Type 0 where
  pub message : Message
  pub usage : Usage
  pub provider_name : String
  pub tier : ModelTier
  pub raw : Option Fields
