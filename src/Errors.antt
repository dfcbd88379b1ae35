-- ===== src/Errors.antt =====
-- src/model_dispatcher/exceptions.py. An f-string is kept as its pieces, so that no message
-- depends on how Python prints a quoted string or a number.
use model_dispatcher.Prelude.{ℕ, String, none, some, List, [], ◌∷◌, ◌++◌}
use model_dispatcher.Types.{ModelTier, ProviderCapability}
use model_dispatcher.Onboarding.Handoff.{Text, text, quoted, HandoffResponse, action_value}

-- The class of an error, with what its class adds to the base's fields.
pub data ErrorKind : Type 0 where
  base perimeter_violation authentication_error rate_limit_error : ErrorKind
  all_providers_exhausted no_provider_available dispatch_timeout : ErrorKind
  quota_exceeded : HandoffResponse → ErrorKind
  tool_execution : String → ErrorKind

pub record ModelDispatcherError : Type 0 where
  pub kind : ErrorKind
  pub http_status : ℕ
  pub error_code : Text
  pub message : Text

abbrev error : ErrorKind → ℕ → String → Text → ModelDispatcherError
error kind status code message = record {
  kind = kind;
  http_status = status;
  error_code = text code ∷ [];
  message = message;
}

abbrev pub internal_error : Text → ModelDispatcherError
internal_error = error base 500 "internal_error"

abbrev pub PerimeterViolation : Text → ModelDispatcherError
PerimeterViolation = error perimeter_violation 403 "perimeter_violation"

abbrev pub AuthenticationError : Text → ModelDispatcherError
AuthenticationError = error authentication_error 401 "authentication_error"

abbrev pub RateLimitError : Text → ModelDispatcherError
RateLimitError = error rate_limit_error 429 "rate_limited"

abbrev pub QuotaExceededError : HandoffResponse → ModelDispatcherError
QuotaExceededError h = error (quota_exceeded h) h.http_status "quota_exceeded" (
    text "quota exceeded for provider "
    ∷ quoted h.provider
    ∷ text "; user credential required"
    ∷ [])

abbrev pub AllProvidersExhausted : Text → ModelDispatcherError
AllProvidersExhausted = error all_providers_exhausted 503 "all_providers_exhausted"

abbrev pub NoProviderAvailableError : Text → ModelDispatcherError
NoProviderAvailableError = error no_provider_available 503 "no_provider_available"

abbrev pub DispatchTimeoutError : Text → ModelDispatcherError
DispatchTimeoutError = error dispatch_timeout 504 "dispatch_timeout"

abbrev pub ToolExecutionError : String → Text → ModelDispatcherError
ToolExecutionError tool_name = error (tool_execution tool_name) 500 "tool_execution_error"

-- What leaves a call: an error of the library, or one of Python's own.
pub data Exn : Type 0 where
  dispatcher : ModelDispatcherError → Exn
  value_error assertion_error : Text → Exn
  key_error : String → Exn
  index_error : ℕ → Exn
  -- the `LookupError` of `cheapest_capable`, with what its message names
  no_capable_provider : ModelTier → ProviderCapability → Exn

pub data Res (A : Type 0) : Type 0 where
  ok : A → Res A
  raised : Exn → Res A

-- An exception of the library, which has an HTTP status and a payload.
abbrev pub IsDispatcher : Exn → Type 0
IsDispatcher (dispatcher e) = Unit
IsDispatcher _ = ⊥

-- What a call raises, if it raises, is an exception of the library.
abbrev pub RaisesDispatcher : {A : Type 0} → Res A → Type 0
RaisesDispatcher (ok a) = Unit
RaisesDispatcher (raised e) = IsDispatcher e

-- An exception that may leave a dispatch: one of the library, or a ValueError.
abbrev pub IsServiceError : Exn → Type 0
IsServiceError (dispatcher e) = Unit
IsServiceError (value_error message) = Unit
IsServiceError _ = ⊥

abbrev pub RaisesServiceError : {A : Type 0} → Res A → Type 0
RaisesServiceError (ok a) = Unit
RaisesServiceError (raised e) = IsServiceError e

pub dispatcher-IsServiceError : (e : Exn) → IsDispatcher e → IsServiceError e
dispatcher-IsServiceError (dispatcher e) h = tt
dispatcher-IsServiceError (value_error m) h = tt
dispatcher-IsServiceError (assertion_error m) h = h
dispatcher-IsServiceError (key_error k) h = h
dispatcher-IsServiceError (index_error n) h = h
dispatcher-IsServiceError (no_capable_provider t c) h = h

-- A JSON body: its keys in order, each with a text.
abbrev pub Payload : Type 0
Payload = List (String × Text)

handoff_payload : HandoffResponse → Payload
handoff_payload h =
    ("error", text h.error ∷ [])
    ∷ ("provider", text h.provider ∷ [])
    ∷ ("action", text (action_value h.action) ∷ [])
    ∷ elim h.detail [ none ↦ [] | some detail ↦ ("detail", text detail ∷ []) ∷ [] ]

error_payload : ModelDispatcherError → Payload
error_payload e = ("error", e.error_code) ∷ ("detail", e.message) ∷ []

-- `to_payload`, as the class of the error defines it.
unfoldable pub to_payload : ModelDispatcherError → Payload
unfolding handoff_payload error_payload
to_payload e = elim e.kind [
  | quota_exceeded h ↦ handoff_payload h
  | tool_execution tool_name ↦ error_payload e ++ ("tool", text tool_name ∷ []) ∷ []
  | _ ↦ error_payload e
]
