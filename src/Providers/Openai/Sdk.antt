-- ===== src/Providers/Openai/Sdk.antt =====
-- What the adapter for OpenAI sends and reads, and the `openai` package as a parameter.
use model_dispatcher.Prelude.{ℕ, String, Bool, Option, List}
use model_dispatcher.Types.{Usage, ToolSpec, FloatText}
use model_dispatcher.Types.Json.{Fields}
use model_dispatcher.Providers.Base.{VendorError}

-- `json.dumps` of a dict, and `json.loads` of a text, which gives nothing where it raises. A text
-- of a value other than an object is left out.
pub record Json : Type 0 where
  pub dumps : Fields → String
  pub loads : String → Option Fields

-- The messages of a request.
pub record FunctionCall : Type 0 where
  pub id : String
  pub name : String
  pub arguments : String

pub data OpenaiMessage : Type 0 where
  tool_reply : (tool_call_id content : String) → OpenaiMessage
  assistant_calls : Option String → List FunctionCall → OpenaiMessage
  plain : (role content : String) → OpenaiMessage

-- The keyword arguments of `chat.completions.create`; without tools there is no such key.
pub record OpenaiKwargs : Type 0 where
  pub model : String
  pub max_tokens : ℕ
  pub messages : List OpenaiMessage
  pub temperature : Option FloatText
  pub tools : List ToolSpec

-- What the adapter reads of a response.
pub record ChoiceCall : Type 0 where
  pub id : String
  pub name : String
  pub arguments : Option String

pub record Choice : Type 0 where
  pub content : Option String
  pub tool_calls : Option (List ChoiceCall)

pub record ChatCompletion : Type 0 where
  pub choices : List Choice
  pub usage : Option Usage

pub data SdkReply (A : Type 0) : Type 0 where
  answered : A → SdkReply A
  threw : VendorError → SdkReply A

-- The `openai` package: a call with an API key and a base URL, and its exception classes.
pub record OpenaiSdk (S : Type 0) : Type 0 where
  pub create : Option String → Option String → OpenaiKwargs → S → SdkReply ChatCompletion × S
  pub acreate : Option String → Option String → OpenaiKwargs → S → SdkReply ChatCompletion × S
  pub is_rate_limit_error : VendorError → Bool
  pub is_authentication_error : VendorError → Bool
  pub is_permission_denied_error : VendorError → Bool
  pub is_bad_request_error : VendorError → Bool
  pub is_api_status_error : VendorError → Bool
