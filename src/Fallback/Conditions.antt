-- ===== src/Fallback/Conditions.antt =====
-- src/model_dispatcher/fallback/conditions.py: which failures are retried, passed on, or final.
use model_dispatcher.Prelude.{Bool, true, false}
use model_dispatcher.Types.{ErrorClass, rate_limit, quota, auth, transient, invalid, content}

abbrev pub is_retryable : ErrorClass → Bool
is_retryable transient = true
is_retryable _ = false

abbrev pub is_fallback_worthy : ErrorClass → Bool
is_fallback_worthy rate_limit = true
is_fallback_worthy quota = true
is_fallback_worthy _ = false

abbrev pub is_terminal : ErrorClass → Bool
is_terminal auth = true
is_terminal invalid = true
is_terminal content = true
is_terminal _ = false
