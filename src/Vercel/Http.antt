-- ===== src/Vercel/Http.antt =====
-- templates/vercel-app/api/_lib/http.py: the body of a request and of a response.
use model_dispatcher.Prelude.{ℕ, String, Option, none, some, List, [], ◌∷◌, ◌==◌, if◌then◌else◌}
use model_dispatcher.Prelude.Text.{strip, is_nonempty}
use model_dispatcher.Prelude.Int.{pos}
use model_dispatcher.Types.{
  user, total_tokens, ErrorClass, error_class_value, CompletionRequest, TenantId,
}
use model_dispatcher.Types.Json.{
  JsonValue, null, integer, string, array, object, Items, nil, cons, Fields, end, field,
}
use model_dispatcher.Errors.{Res, ok, raised, value_error}
use model_dispatcher.Onboarding.Handoff.{text}
use model_dispatcher.Fallback.Context.{AttemptRecord}
use model_dispatcher.Orchestration.State.{
  StopReason, completed, max_iterations, deadline, error, StepResult, RunResult,
}

-- `payload.get(key)`; a dict has each key once.
unfoldable pub get_field : String → Fields → Option JsonValue
get_field key end = none
get_field key (field k value fs) =
    let rest = get_field key fs in if k == key then some value else rest

-- `DEFAULT_TENANT_ID`
abbrev pub default_tenant_id : String
default_tenant_id = "anonymous"

abbrev pub nonempty_or_anonymous : Option JsonValue → String
nonempty_or_anonymous (some (string tenant_id)) =
    if is_nonempty tenant_id then tenant_id else default_tenant_id
nonempty_or_anonymous _ = default_tenant_id

abbrev pub prompt_request : String → TenantId → CompletionRequest
prompt_request prompt tenant = record {
  messages =
      record { role = user; content = some prompt; tool_calls = []; tool_result = none } ∷ [];
  tenant = tenant;
  tools = [];
  tier_hint = none;
  max_tokens = none;
  temperature = none;
  metadata = end;
}

-- The validated prompt.
abbrev pub prompt_of : Option JsonValue → Option String
prompt_of (some (string prompt)) = if is_nonempty (strip prompt) then some prompt else none
prompt_of _ = none

-- `parse_dispatch_request`
unfoldable pub parse_dispatch_request : Fields → Res (CompletionRequest × String)
unfolding get_field
parse_dispatch_request payload =
    let resolved = nonempty_or_anonymous (get_field "tenant_id" payload) in
    elim (prompt_of (get_field "prompt" payload)) [
      | none ↦ raised (value_error (text "field 'prompt' must be a non-empty string" ∷ []))
      | some prompt ↦ ok (prompt_request prompt resolved, resolved)
    ]

-- The `StrEnum` value.
abbrev pub stop_reason_value : StopReason → String
stop_reason_value completed = "completed"
stop_reason_value max_iterations = "max_iterations"
stop_reason_value deadline = "deadline"
stop_reason_value error = "error"

abbrev pub text_or_null : Option String → JsonValue
text_or_null none = null
text_or_null (some content) = string content

abbrev pub number : ℕ → JsonValue
number n = integer (pos n)

abbrev pub error_or_null : Option ErrorClass → JsonValue
error_or_null none = null
error_or_null (some class) = string (error_class_value class)

unfoldable pub serialise_attempts : List AttemptRecord → Items
serialise_attempts [] = nil
serialise_attempts (a ∷ attempts) =
    cons
      (object (
        field "provider" (string a.provider_name)
          (field "error" (error_or_null a.error_class) end)))
      (serialise_attempts attempts)

unfoldable pub serialise_steps : List StepResult → Items
unfolding serialise_attempts
serialise_steps [] = nil
serialise_steps (step ∷ steps) =
    cons
      (object (
        field "message" (text_or_null step.message.content) (
          field "usage" (number (total_tokens step.usage))
            (field "attempts" (array (serialise_attempts step.attempts)) end))))
      (serialise_steps steps)

-- `serialise_result`
unfoldable pub serialise_result : RunResult → String → JsonValue
unfolding serialise_steps
serialise_result result complexity = object (
    field "final" (text_or_null result.final_message.content) (
      field "stop_reason" (string (stop_reason_value result.stop_reason)) (
        field "complexity" (string complexity) (
          field "usage"
            (object (
              field "prompt" (number result.usage.prompt_tokens) (
                field "completion" (number result.usage.completion_tokens)
                  (field "total" (number (total_tokens result.usage)) end))))
            (field "steps" (array (serialise_steps result.steps)) end)))))
