-- ===== src/Providers/Gemini/Contents.antt =====
-- `_build_contents` of src/model_dispatcher/providers/gemini_provider.py: a conversation as Gemini takes
-- it.
pub mod Lookups
pub mod Names
use model_dispatcher.Prelude.{
  ◌+◌, String, Option, none, some, List, [], ◌∷◌, ◌++◌, map, ◌==◌, if◌then◌else◌,
}
use model_dispatcher.Prelude.Text.{join, is_nonempty}
use model_dispatcher.Types.{
  system, assistant, tool, ToolCall, ToolResult, Message, content_or_empty, CompletionRequest,
}
use model_dispatcher.Types.Json.{end, field, string}
use model_dispatcher.Providers.Gemini.Sdk.{
  Part, from_text, from_function_call, from_function_response, Content,
}

-- `call_names_by_id`, the entry written last in front.
abbrev pub CallNames : Type 0
CallNames = List (String × String)

-- `call_names_by_id.get(call_id, call_id)`
pub name_of : CallNames → String → String
name_of [] call_id = call_id
name_of ((key, name) ∷ names) call_id =
    let rest = name_of names call_id in if key == call_id then name else rest

-- `call_names_by_id[call.id] = call.name`, for each call in order
pub remember : CallNames → List ToolCall → CallNames
remember names [] = names
remember names (call ∷ calls) = remember ((call.id, call.name) ∷ names) calls

text_parts : Option String → List Part
text_parts none = []
text_parts (some text) = if is_nonempty text then from_text text ∷ [] else []

call_part : ToolCall → Part
call_part call = from_function_call call.name call.arguments

response_content : CallNames → ToolResult → Content
unfolding name_of
response_content names r = record {
  role = "user";
  parts =
      from_function_response (name_of names r.call_id)
        (field (if r.is_error then "error" else "result") (string r.content) end)
      ∷ [];
}

-- What one message adds to the system texts and to the contents, and the names known behind it.
pub record Step : Type 0 where
  pub systems : List String
  pub contents : List Content
  pub names : CallNames

-- The last two branches of the loop.
calls_or_text : CallNames → Message → Step
unfolding text_parts call_part remember
calls_or_text names m = elim m.tool_calls [
  | [] ↦ record {
    systems = [];
    contents =
        record {
          role = elim m.role [ assistant ↦ "model" | _ ↦ "user" ];
          parts = from_text (content_or_empty m) ∷ [];
        }
        ∷ [];
    names = names;
  }
  | call ∷ calls ↦ record {
    systems = [];
    contents =
        record { role = "model"; parts = text_parts m.content ++ map call_part (call ∷ calls) }
        ∷ [];
    names = remember names (call ∷ calls);
  }
]

pub build_content : CallNames → Message → Step
unfolding calls_or_text response_content
build_content names m = elim m.role [
  | system ↦ record {
    systems = elim m.content [ none ↦ [] | some text ↦ if is_nonempty text then text ∷ [] else [] ];
    contents = [];
    names = names;
  }
  | tool ↦ elim m.tool_result [
    | some result ↦ record {
      systems = [];
      contents = response_content names result ∷ [];
      names = names;
    }
    | none ↦ calls_or_text names m
  ]
  | _ ↦ calls_or_text names m
]

-- The loop over `request.messages`.
pub build_all : CallNames → List Message → List String × List Content
unfolding build_content
build_all names [] = ([], [])
build_all names (m ∷ ms) =
    let step = build_content names m in
    let (systems, contents) = build_all step.names ms in
    (step.systems ++ systems, step.contents ++ contents)

-- `_build_contents`
unfoldable pub build_contents : CompletionRequest → String × List Content
unfolding build_all
build_contents r =
    let (systems, contents) = build_all [] r.messages in (join "\n" systems, contents)
