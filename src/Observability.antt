-- ===== src/Observability.antt =====
-- src/model_dispatcher/observability: structured logging behind the redaction, and the metrics hooks.
-- The standard library's logger is a parameter: what `info` does with an event's name and fields.
use model_dispatcher.Prelude.{String, Option, none, some, List, [], ◌∷◌}
use model_dispatcher.Prelude.Int.{ℤ}
use model_dispatcher.Types.Json.{JsonValue, object, Fields}
use model_dispatcher.Security.Redaction.{scrub}
use model_dispatcher.Security.Redaction.Scrubbed.{IsScrubbed, scrub_lem}

-- `StructuredLogger`
pub record StructuredLogger (S : Type 0) : Type 0 where
  pub info : String → JsonValue → S → S
  pub redactor : JsonValue → JsonValue

-- `__init__`: `redactor or SecretRedactor()`
abbrev pub structured_logger :
    {S : Type 0}
    → (String → JsonValue → S → S)
    → Option (JsonValue → JsonValue)
    → StructuredLogger S
structured_logger info none = record { info = info; redactor = scrub }
structured_logger info (some redactor) = record { info = info; redactor = redactor }

-- `MetricsSink`; a sample is kept as its text.
pub record MetricsSink (S : Type 0) : Type 0 where
  pub increment : String → ℤ → List (String × String) → S → S
  pub observe : String → String → List (String × String) → S → S

-- `NullMetricsSink`
abbrev pub null_metrics_sink : {S : Type 0} → MetricsSink S
null_metrics_sink = record { increment = λ name value tags s. s; observe = λ name value tags s. s }

module _ {S : Type 0} where
  -- `event`
  pub event : StructuredLogger S → String → Fields → S → S
  event logger name fields s = logger.info name (logger.redactor (object fields)) s

  -- Any number of events, one after another.
  pub events : StructuredLogger S → List (String × Fields) → S → S
  unfolding event
  events logger [] s = s
  events logger ((name, fields) ∷ rest) s = events logger rest (event logger name fields s)

  -- Whatever the log keeps true as long as it is only given scrubbed values, it keeps true through
  -- any events with any fields: nothing but scrubbed values reaches it, where every sensitive key
  -- has the mark and no text has a secret.
  pub events-keeps :
      (info : String → JsonValue → S → S) (P : S → Type 0)
      → ((name : String) (value : JsonValue) (s : S)
          → IsScrubbed value
          → P s
          → P (info name value s))
      → (es : List (String × Fields)) (s : S) → P s
      → P (events (structured_logger info none) es s)
  unfolding events event
  events-keeps info P keeps [] s h = h
  events-keeps info P keeps ((name, fields) ∷ es) s h =
      events-keeps info P keeps es (info name (scrub (object fields)) s)
        (keeps name (scrub (object fields)) s (scrub_lem (object fields)).0 h)
