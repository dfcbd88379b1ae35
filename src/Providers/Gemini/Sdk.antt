-- ===== src/Providers/Gemini/Sdk.antt =====
-- What the adapter for Gemini sends and reads, and the `google-genai` package as a parameter.
use model_dispatcher.Prelude.{ℕ, String, Bool, Option, List}
use model_dispatcher.Types.{Usage, ToolSpec, FloatText}
use model_dispatcher.Types.Json.{Fields}
use model_dispatcher.Providers.Base.{VendorError}
use model_dispatcher.Providers.Openai.Sdk.{SdkReply}

-- The parts of a request's contents.
pub data Part : Type 0 where
  from_text : String → Part
  from_function_call : (name : String) → Fields → Part
  from_function_response : (name : String) → Fields → Part

pub record Content : Type 0 where
  pub role : String
  pub parts : List Part

-- The configuration of a request; an empty instruction and an empty list of tools are left out.
pub record GeminiConfig : Type 0 where
  pub max_output_tokens : ℕ
  pub system_instruction : String
  pub temperature : Option FloatText
  pub tools : List ToolSpec

-- What the adapter reads of a response.
pub record ResponseCall : Type 0 where
  pub id : Option String
  pub name : String
  pub args : Option Fields

pub record ResponsePart : Type 0 where
  pub text : Option String
  pub function_call : Option ResponseCall

-- A candidate's content, where it has one, holds parts or none.
pub record Candidate : Type 0 where
  pub content : Option (Option (List ResponsePart))

pub record GeminiResponse : Type 0 where
  pub candidates : List Candidate
  pub usage_metadata : Option Usage

-- The package: a call with an API key, a model, the contents and the configuration, and the class
-- of its exceptions.
pub record GeminiSdk (S : Type 0) : Type 0 where
  pub generate_content :
      Option String → String → List Content → GeminiConfig → S → SdkReply GeminiResponse × S
  pub agenerate_content :
      Option String → String → List Content → GeminiConfig → S → SdkReply GeminiResponse × S
  pub is_api_error : VendorError → Bool
