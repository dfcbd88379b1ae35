-- ===== src/Providers/Mock.antt =====
-- src/model_dispatcher/providers/mock_provider.py: a provider that fails a number of times and then
-- gives scripted replies.
pub mod Recovery
use model_dispatcher.Prelude.{
  max, ℕ, zero, suc, ◌+◌, ◌*◌, String, ◌≡◌, Option, none, some, List, [], ◌∷◌, ◌++◌,
}
use model_dispatcher.Prelude.Text.{append, characters}
use model_dispatcher.Types.{
  assistant, ModelTier, ProviderCapability, ErrorClass, transient, error_class_value, Message,
  content_or_empty, CompletionRequest, CompletionResponse,
}
use model_dispatcher.Providers.RetryHints.{Floats, retry_after_seconds}
use model_dispatcher.Providers.Base.{
  Seconds, VendorError, python_error, Reply, completed, failed, ModelProvider,
}
use model_dispatcher.Quota.Tenant.{Ratio}
use model_dispatcher.Quota.Tokenizer.{ceil_div}

-- The part of the mock that its calls change.
pub record MockState : Type 0 where
  pub scripted : List Message
  pub remaining_failures : ℕ
  pub received_api_keys : List (Option String)

-- Where a mock's own state stands in the outside state.
pub record Cell (S : Type 0) : Type 0 where
  pub get : S → MockState
  pub set : MockState → S → S
  pub get_set : (m : MockState) (s : S) → get (set m s) ≡ m

-- The constructor's arguments that stay as they are.
pub record MockProvider : Type 0 where
  pub name : String
  pub tier : ModelTier
  pub capabilities : ProviderCapability
  pub reply : String
  pub fail_with : ErrorClass
  pub chars_per_token : Ratio

-- What `__init__` sets up.
abbrev pub initial_state : List Message → ℕ → MockState
initial_state scripted fail_times = record {
  scripted = scripted;
  remaining_failures = fail_times;
  received_api_keys = [];
}

abbrev pub mock_error : ErrorClass → VendorError
mock_error class =
    record (python_error "MockError" (append (append "mock " (error_class_value class)) " error")) {
      error_class = some class;
    }

-- `isinstance(exc, MockError)` is that the attribute is there.
abbrev pub classify_mock : VendorError → ErrorClass
classify_mock e = elim e.error_class [ none ↦ transient | some class ↦ class ]

contents_length : List Message → ℕ
contents_length [] = 0
contents_length (m ∷ ms) = characters (content_or_empty m) + contents_length ms

-- `math.ceil(chars / chars_per_token)`
abbrev tokens : Ratio → ℕ → ℕ
tokens ratio chars = ceil_div (chars * ratio.den) ratio.num

estimate_mock : MockProvider → CompletionRequest → ℕ
unfolding contents_length
estimate_mock mock r = max 1 (tokens mock.chars_per_token (contents_length r.messages))

-- `self._scripted.popleft() if self._scripted else Message(...)`, and what is left of the script.
next_message : MockProvider → List Message → Message × List Message
next_message mock [] = (
  record { role = assistant; content = some mock.reply; tool_calls = []; tool_result = none },
  [],
)
next_message mock (m ∷ ms) = (m, ms)

pub answer_with : MockProvider → CompletionRequest → Message → CompletionResponse
unfolding estimate_mock
answer_with mock r m = record {
  message = m;
  usage = record {
    prompt_tokens = estimate_mock mock r;
    completion_tokens = tokens mock.chars_per_token (characters (content_or_empty m));
  };
  provider_name = mock.name;
  tier = mock.tier;
  raw = none;
}

-- `complete`, on the mock's state; the key is recorded first.
pub reply_of : MockProvider → CompletionRequest → Option String → MockState → Reply × MockState
unfolding next_message answer_with
reply_of mock r key m =
    let keys = m.received_api_keys ++ key ∷ [] in
    elim m.remaining_failures [
      | zero ↦
          let (message, rest) = next_message mock m.scripted in
          (
            completed (answer_with mock r message),
            record { scripted = rest; remaining_failures = 0; received_api_keys = keys },
          )
      | suc n ↦ (
        failed (mock_error mock.fail_with),
        record { scripted = m.scripted; remaining_failures = n; received_api_keys = keys },
      )
    ]

module _ {S : Type 0} (cell : Cell S) where
  complete_mock : MockProvider → CompletionRequest → Option String → S → Reply × S
  unfolding reply_of
  complete_mock mock r key s =
      let (reply, m) = reply_of mock r key (cell.get s) in (reply, cell.set m s)

  -- `acomplete` awaits `complete`.
  unfoldable pub mock_provider : Floats Seconds → MockProvider → ModelProvider S
  unfolding retry_after_seconds complete_mock estimate_mock
  mock_provider floats mock = record {
    name = mock.name;
    tier = mock.tier;
    capabilities = mock.capabilities;
    estimate_tokens = estimate_mock mock;
    classify_error = classify_mock;
    retry_after = retry_after_seconds floats;
    complete = complete_mock mock;
    acomplete = complete_mock mock;
  }
