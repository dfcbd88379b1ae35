-- ===== src/Providers/RetryHints.antt =====
-- src/model_dispatcher/providers/retry_hints.py: how long a vendor asks to wait, in seconds.
pub mod Durations
use model_dispatcher.Prelude.{
  ℕ, zero, suc, ◌-◌, String, Bool, not, ◌||◌, Option, none, some, List, [], ◌∷◌, eqb, if◌then◌else◌,
}
use model_dispatcher.Prelude.Text.{codes, is_nonempty, is_space}
use model_dispatcher.Prelude.Scan.{
  fold, span, is_digit, after_literal, after_spaces, search_for, found_some,
}
use model_dispatcher.Errors.{Res, ok, raised, value_error}
use model_dispatcher.Onboarding.Handoff.{text}
use model_dispatcher.Quota.Tenant.{Metadata, metadata_get}
use model_dispatcher.Providers.Base.{VendorError, Seconds, RetryAfter, wait_hint, unreadable}

-- Python's floats: `float(s)`, which raises ValueError on a text that is no number, and what is
-- computed with them.
pub record Floats (F : Type 0) : Type 0 where
  pub float_of : List ℕ → Option F
  pub of_ℕ : ℕ → F
  pub add : F → F → F
  pub times : F → F → F
  pub is_positive : F → Bool

-- The groups of `_DURATION_PATTERN`.
pub record Duration : Type 0 where
  pub hours : Option (List ℕ)
  pub minutes : Option (List ℕ)
  pub seconds : List ℕ

-- `(?:(\d+)u\s*)?`. With fewer digits, or without the group, the rest of the pattern cannot match,
-- for digits and then a unit other than s would be left.
unit_found : ℕ → List ℕ → List ℕ × List ℕ → Option (List ℕ) × List ℕ
unfolding span fold is_space
unit_found unit s (d ∷ ds, c ∷ rest) =
    if eqb (fold c) unit then (some (d ∷ ds), (span is_space rest).1) else (none, s)
unit_found unit s _ = (none, s)

unit_group : ℕ → List ℕ → Option (List ℕ) × List ℕ
unfolding span is_digit unit_found
unit_group unit s = unit_found unit s (span is_digit s)

-- `[\d.]`
unfoldable pub is_decimal : ℕ → Bool
unfolding is_digit
is_decimal c = is_digit c || eqb c b'.'

-- `([\d.]+)s`
seconds_found : List ℕ × List ℕ → Option (List ℕ)
unfolding fold
seconds_found (d ∷ ds, c ∷ rest) = if eqb (fold c) b's' then some (d ∷ ds) else none
seconds_found _ = none

seconds_group : List ℕ → Option (List ℕ)
unfolding span is_decimal seconds_found
seconds_group s = seconds_found (span is_decimal s)

duration_of : Option (List ℕ) → Option (List ℕ) → Option (List ℕ) → Option Duration
duration_of hours minutes none = none
duration_of hours minutes (some seconds) =
    some (record { hours = hours; minutes = minutes; seconds = seconds })

with_seconds : Option (List ℕ) → Option (List ℕ) × List ℕ → Option Duration
unfolding duration_of seconds_group
with_seconds hours (minutes, s) = duration_of hours minutes (seconds_group s)

with_minutes : Option (List ℕ) × List ℕ → Option Duration
unfolding with_seconds unit_group
with_minutes (hours, s) = with_seconds hours (unit_group b'm' s)

groups : List ℕ → Option Duration
unfolding with_minutes unit_group
groups s = with_minutes (unit_group b'h' s)

-- `_DURATION_PATTERN`, at one position
unfoldable pub duration_at : List ℕ → Option Duration
unfolding after_literal after_spaces groups
duration_at s = elim (after_literal (codes "try again in") s) [
  | none ↦ none
  | some rest ↦ elim (after_spaces rest) [ none ↦ none | some rest' ↦ groups rest' ]
]

-- `after\s+(\d+)`
after_number : List ℕ → Option (List ℕ)
unfolding after_literal after_spaces span is_digit
after_number s = elim (after_literal (codes "after") s) [
  | none ↦ none
  | some rest ↦ elim (after_spaces rest) [
    | none ↦ none
    | some rest' ↦ elim (found_some (span is_digit rest')) [
      | none ↦ none
      | some parts ↦ some parts.0
    ]
  ]
]

-- `.{0,n}` before it; the longest gap is tried first, and a dot is no line feed.
gap : ℕ → List ℕ → Option (List ℕ)
unfolding after_number
gap zero s = after_number s
gap (suc n) [] = after_number []
gap (suc n) (c ∷ s) =
    let longer = if eqb c b'\n' then none else gap n s in
    elim longer [ some found ↦ some found | none ↦ after_number (c ∷ s) ]

-- `_PLAIN_SECONDS_PATTERN`, at one position
unfoldable pub plain_at : List ℕ → Option (List ℕ)
unfolding after_literal gap
plain_at s = elim (after_literal (codes "retry") s) [ none ↦ none | some rest ↦ gap 10 rest ]

module _ {F : Type 0} (floats : Floats F) where
  -- `float(match.group(i))`
  convert : List ℕ → Res F
  convert s = elim (floats.float_of s) [
    | none ↦ raised (value_error (text "could not convert string to float" ∷ []))
    | some x ↦ ok x
  ]

  -- `float(match.group(i) or 0)`
  convert_group : Option (List ℕ) → Res F
  unfolding convert
  convert_group none = ok (floats.of_ℕ 0)
  convert_group (some s) = convert s

  -- The sum of the three products, converted from the left.
  total : Duration → Res F
  unfolding convert_group
  total d = elim (convert_group d.hours) [
    | raised e ↦ raised e
    | ok h ↦ elim (convert_group d.minutes) [
      | raised e ↦ raised e
      | ok m ↦ elim (convert d.seconds) [
        | raised e ↦ raised e
        | ok s ↦ ok (
            floats.add
              (floats.add (floats.times h (floats.of_ℕ 3600)) (floats.times m (floats.of_ℕ 60))) s)
      ]
    ]
  ]

  plain_hint : List ℕ → Res (Option F)
  unfolding plain_at convert
  plain_hint message = elim (search_for plain_at message) [
    | none ↦ ok none
    | some digits ↦ elim (convert digits) [ raised e ↦ raised e | ok x ↦ ok (some x) ]
  ]

  -- A duration that comes to nothing is passed over.
  positive_or_plain : List ℕ → Res F → Res (Option F)
  unfolding plain_hint
  positive_or_plain message (raised e) = raised e
  positive_or_plain message (ok x) =
      if floats.is_positive x then ok (some x) else plain_hint message

  after_search : List ℕ → Option Duration → Res (Option F)
  unfolding positive_or_plain total
  after_search message none = plain_hint message
  after_search message (some d) = positive_or_plain message (total d)

  -- `parse_retry_after_hint`
  unfoldable pub parse_retry_after_hint : List ℕ → Res (Option F)
  unfolding after_search duration_at
  parse_retry_after_hint message = after_search message (search_for duration_at message)

  -- `headers.get("retry-after") or headers.get("Retry-After")`
  header : Metadata → Option String
  header headers = elim (metadata_get "retry-after" headers) [
    | none ↦ metadata_get "Retry-After" headers
    | some raw ↦ if is_nonempty raw then some raw else metadata_get "Retry-After" headers
  ]

  -- `extract_retry_after_seconds`; `float(raw)` is tried, and its ValueError passed over.
  unfoldable pub extract_retry_after_seconds : VendorError → Res (Option F)
  unfolding header parse_retry_after_hint
  extract_retry_after_seconds e =
      let raw : Option String = elim e.headers [ none ↦ none | some headers ↦ header headers ] in
      let number : Option F = elim raw [
        | none ↦ none
        | some value ↦ floats.float_of (codes value)
      ] in
      elim number [ some x ↦ ok (some x) | none ↦ parse_retry_after_hint (codes e.text) ]

-- The call's outcome; it raises nothing but ValueErrors.
outcome_of : Res (Option Seconds) → RetryAfter
outcome_of (ok hint) = wait_hint hint
outcome_of (raised (value_error message)) = unreadable message
outcome_of (raised _) = unreadable []

-- `retry_after_seconds`, as every provider inherits it
unfoldable pub retry_after_seconds : Floats Seconds → VendorError → RetryAfter
unfolding outcome_of extract_retry_after_seconds
retry_after_seconds floats e = outcome_of (extract_retry_after_seconds floats e)
