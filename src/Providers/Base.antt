-- ===== src/Providers/Base.antt =====
-- src/model_dispatcher/providers/base.py: the contract of a model backend. `S` is all that a call
-- can change: the vendor's side, the clock, and the quota counters.
use model_dispatcher.Prelude.{ℕ, String, Option, none, List}
use model_dispatcher.Types.{
  ModelTier, ProviderCapability, ErrorClass, CompletionRequest, CompletionResponse,
}
use model_dispatcher.Prelude.Int.{ℤ}
use model_dispatcher.Errors.{ModelDispatcherError}
use model_dispatcher.Onboarding.Handoff.{Text}

-- An exception that `complete` lets through: its class, the attributes that the program reads of
-- it, the headers of its response if it has them, and its text.
pub record VendorError : Type 0 where
  pub sdk_class : String
  pub status_code : ℕ
  pub code : Option String
  pub error_type : Option String
  pub error_class : Option ErrorClass
  pub headers : Option (List (String × String))
  pub text : String

-- An exception of Python's own, which has none of these attributes.
abbrev pub python_error : String → String → VendorError
python_error class text = record {
  sdk_class = class;
  status_code = 0;
  code = none;
  error_type = none;
  error_class = none;
  headers = none;
  text = text;
}

-- How a call of `complete` ends.
pub data Reply : Type 0 where
  completed : CompletionResponse → Reply
  failed : VendorError → Reply
  refused : ModelDispatcherError → Reply

-- A float of seconds: in milliseconds, or no number. An infinity counts as a number beyond every
-- bound.
pub data Seconds : Type 0 where
  millis : ℤ → Seconds
  nan : Seconds

-- What `retry_after_seconds` does: it returns a hint or `None`, or raises a ValueError.
pub data RetryAfter : Type 0 where
  wait_hint : Option Seconds → RetryAfter
  unreadable : Text → RetryAfter

pub record ModelProvider (S : Type 0) : Type 0 where
  pub name : String
  pub tier : ModelTier
  pub capabilities : ProviderCapability
  pub estimate_tokens : CompletionRequest → ℕ
  pub classify_error : VendorError → ErrorClass
  pub retry_after : VendorError → RetryAfter
  pub complete : CompletionRequest → Option String → S → Reply × S
  pub acomplete : CompletionRequest → Option String → S → Reply × S

-- `time.sleep` and `asyncio.sleep` for a number of milliseconds, and `time.monotonic`.
pub record Clock (S : Type 0) : Type 0 where
  pub sleep : ℕ → S → S
  pub async_sleep : ℕ → S → S
  pub monotonic : S → ℕ × S
