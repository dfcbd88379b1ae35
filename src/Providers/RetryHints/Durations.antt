-- ===== src/Providers/RetryHints/Durations.antt =====
-- What is read from a message that tells a duration.
use model_dispatcher.Prelude.{
  ℕ, ◌≡◌, refl, ap, ◌∙◌, ◌⊎◌, inl, inr, true, false, none, some, List, [], ◌∷◌, ◌++◌, arith, eqb,
  Bool-cases, All,
}
use model_dispatcher.Prelude.Text.{codes, is_space}
use model_dispatcher.Prelude.Scan.{
  fold, span, is_digit, after_literal, after_spaces, span-append, span-stop, search_for-here,
  search_for-skips,
}
use model_dispatcher.Errors.{ok, raised, value_error}
use model_dispatcher.Onboarding.Handoff.{text}
use model_dispatcher.Providers.Base.{VendorError, Seconds, unreadable}
use model_dispatcher.Providers.RetryHints.{
  retry_after_seconds, outcome_of, extract_retry_after_seconds, Floats, duration_of, with_seconds,
  with_minutes, positive_or_plain, after_search, unit_found, unit_group, is_decimal, seconds_found,
  seconds_group, groups, duration_at, convert, convert_group, total, parse_retry_after_hint,
}

abbrev pub AllDigits : List ℕ → Type 0
AllDigits = All (λ d. is_digit d ≡ true)

abbrev pub AllDecimals : List ℕ → Type 0
AllDecimals = All (λ d. is_decimal d ≡ true)

-- `try again in `, with what follows
abbrev pub hint : List ℕ → List ℕ
hint rest = codes "try again in " ++ rest

-- `<seconds>s`, with what follows, and `<hours>h<minutes>m` before it
abbrev pub seconds_text : List ℕ → List ℕ → List ℕ
seconds_text seconds rest = seconds ++ b's' ∷ rest

abbrev pub units_text : List ℕ → List ℕ → List ℕ → List ℕ → List ℕ
units_text hours minutes seconds rest =
    hours ++ (b'h' ∷ (minutes ++ (b'm' ∷ seconds_text seconds rest)))

unit_group-here :
    (unit d : ℕ) (ds : List ℕ) (c : ℕ) (rest : List ℕ)
    → is_digit unit ≡ false
    → fold unit ≡ unit
    → AllDigits (d ∷ ds)
    → is_space c ≡ false
    → unit_group unit ((d ∷ ds) ++ unit ∷ c ∷ rest) ≡ (some (d ∷ ds), c ∷ rest)
unfolding unit_group unit_found
unit_group-here unit d ds c rest other same digits stops =
    rw
      (
        span-append is_digit (d ∷ ds) (unit ∷ c ∷ rest) digits
            (span-stop is_digit unit (c ∷ rest) other),
        same,
        span-stop is_space c rest stops,
      )
      (ground arith)

seconds_group-here :
    (d : ℕ) (ds rest : List ℕ)
    → AllDecimals (d ∷ ds)
    → seconds_group ((d ∷ ds) ++ b's' ∷ rest) ≡ some (d ∷ ds)
unfolding seconds_group seconds_found
seconds_group-here d ds rest decimals =
    rw
      (span-append is_decimal (d ∷ ds) (b's' ∷ rest) decimals (span-stop is_decimal b's' rest refl))
      refl

-- In front of a number of seconds there is no other unit: what stands behind its leading digits is
-- a point or the `s`.
leading_digits :
    (ds rest : List ℕ)
    → AllDecimals ds
    → (front : List ℕ) × (c : ℕ) × (back : List ℕ) × (span is_digit (ds ++ b's' ∷ rest)
        ≡ (front, c ∷ back))
      × ((c ≡ b'.') ⊎ (c ≡ b's'))
unfolding span is_digit is_decimal
leading_digits [] rest h = ([], b's', rest, refl, inr refl)
leading_digits (d ∷ ds) rest h = elim (Bool-cases (is_digit d)) [
  | inl e ↦
      let (front, c, back, eq, which) = leading_digits ds rest h.1 in
      (d ∷ front, c, back, rw (eq, e) refl, which)
  | inr e ↦ ([], d, ds ++ b's' ∷ rest, rw e refl, inl (ground (arith, h.0, e)))
]

unit_found-skips :
    (unit : ℕ) (s front : List ℕ) (c : ℕ) (back : List ℕ)
    → eqb b'.' unit ≡ false
    → eqb b's' unit ≡ false
    → (c ≡ b'.') ⊎ (c ≡ b's')
    → unit_found unit s (front, c ∷ back) ≡ (none, s)
unfolding unit_found fold
unit_found-skips unit s [] c back point other which = refl
unit_found-skips unit s (d ∷ ds) c back point other (inl e) = rw e (rw point refl)
unit_found-skips unit s (d ∷ ds) c back point other (inr e) = rw e (rw other refl)

unit_group-skips :
    (unit : ℕ) (ds rest : List ℕ)
    → eqb b'.' unit ≡ false
    → eqb b's' unit ≡ false
    → AllDecimals ds
    → unit_group unit (ds ++ b's' ∷ rest) ≡ (none, ds ++ b's' ∷ rest)
unfolding unit_group
unit_group-skips unit ds rest point s decimals =
    let (front, c, back, eq, which) = leading_digits ds rest decimals in
    rw eq (unit_found-skips unit (ds ++ b's' ∷ rest) front c back point s which)

groups-seconds :
    (d : ℕ) (ds rest : List ℕ)
    → AllDecimals (d ∷ ds)
    → groups ((d ∷ ds) ++ b's' ∷ rest)
      ≡ some (record { hours = none; minutes = none; seconds = d ∷ ds })
unfolding groups with_minutes with_seconds duration_of
groups-seconds d ds rest decimals =
    ap with_minutes (unit_group-skips b'h' (d ∷ ds) rest refl refl decimals)
    ∙ ap (with_seconds none) (unit_group-skips b'm' (d ∷ ds) rest refl refl decimals)
    ∙ ap (duration_of none none) (seconds_group-here d ds rest decimals)

decimal-not-space : (d : ℕ) → is_decimal d ≡ true → is_space d ≡ false
unfolding is_decimal is_digit is_space
decimal-not-space d h = ground arith

digit-not-space : (d : ℕ) → is_digit d ≡ true → is_space d ≡ false
unfolding is_digit is_space
digit-not-space d h = ground arith

-- A character that begins no hint: it is no T.
abbrev pub BeginsNone : ℕ → Type 0
BeginsNone c = eqb b't' (fold c) ≡ false

duration_at-none : (c : ℕ) (rest : List ℕ) → BeginsNone c → duration_at (c ∷ rest) ≡ none
unfolding duration_at after_literal
duration_at-none c rest h = rw (duration_at, h) refl

none_begin :
    (ahead : List ℕ)
    → All BeginsNone ahead
    → All (λ c. (rest : List ℕ) → duration_at (c ∷ rest) ≡ none) ahead
none_begin [] h = tt
none_begin (c ∷ ahead) h = ((λ rest. duration_at-none c rest h.0), none_begin ahead h.1)

duration_at-hint :
    (d : ℕ) (rest : List ℕ) → is_space d ≡ false → duration_at (hint (d ∷ rest)) ≡ groups (d ∷ rest)
unfolding duration_at after_literal after_spaces fold
duration_at-hint d rest h = rw (duration_at, after_spaces, span-stop is_space d rest h) refl

groups-units :
    (h m d : ℕ) (hs ms ds rest : List ℕ)
    → AllDigits (h ∷ hs)
    → AllDigits (m ∷ ms)
    → AllDecimals (d ∷ ds)
    → groups (units_text (h ∷ hs) (m ∷ ms) (d ∷ ds) rest)
      ≡ some (record { hours = some (h ∷ hs); minutes = some (m ∷ ms); seconds = d ∷ ds })
unfolding groups with_minutes with_seconds duration_of
groups-units h m d hs ms ds rest hours minutes decimals =
    ap with_minutes (
      unit_group-here b'h' h hs m (ms ++ b'm' ∷ seconds_text (d ∷ ds) rest) refl refl hours
        (digit-not-space m minutes.0))
    ∙ ap (with_seconds (some (h ∷ hs))) (
        unit_group-here b'm' m ms d (seconds_text ds rest) refl refl minutes
          (decimal-not-space d decimals.0))
    ∙ ap (duration_of (some (h ∷ hs)) (some (m ∷ ms))) (seconds_group-here d ds rest decimals)

module _ {F : Type 0} (floats : Floats F) where
  abbrev pub sum_seconds : F → F → F → F
  sum_seconds x y z =
      floats.add (floats.add (floats.times x (floats.of_ℕ 3600)) (floats.times y (floats.of_ℕ 60)))
        z

  -- A message in which no T stands ahead of `try again in `, and behind it hours, minutes and seconds,
  -- the seconds in digits and points that make a float, is read as their sum in seconds, if that is
  -- positive.
  pub parse-duration :
      (ahead : List ℕ) (h m d : ℕ) (hs ms ds rest : List ℕ) (x y z : F)
      → All BeginsNone ahead
      → AllDigits (h ∷ hs)
      → AllDigits (m ∷ ms)
      → AllDecimals (d ∷ ds)
      → floats.float_of (h ∷ hs) ≡ some x
      → floats.float_of (m ∷ ms) ≡ some y
      → floats.float_of (d ∷ ds) ≡ some z
      → floats.is_positive (sum_seconds x y z) ≡ true
      → parse_retry_after_hint floats (ahead ++ hint (units_text (h ∷ hs) (m ∷ ms) (d ∷ ds) rest))
        ≡ ok (some (sum_seconds x y z))
  unfolding parse_retry_after_hint after_search positive_or_plain total convert_group convert
  parse-duration ahead h m d hs ms ds rest x y z none_ahead hours minutes decimals fx fy fz
        positive =
      let told = hint (units_text (h ∷ hs) (m ∷ ms) (d ∷ ds) rest) in
      ap (after_search floats (ahead ++ told)) (
        search_for-skips duration_at ahead told (none_begin ahead none_ahead)
        ∙ search_for-here duration_at told _ (
            duration_at-hint h (units_text hs (m ∷ ms) (d ∷ ds) rest) (digit-not-space h hours.0)
            ∙ groups-units h m d hs ms ds rest hours minutes decimals))
      ∙ ground arith

  -- Where a text of digits and points is no float, a message in which no T stands ahead of a request
  -- to wait for it in seconds makes the parser raise ValueError.
  pub parse-raises :
      (ahead : List ℕ) (d : ℕ) (ds rest : List ℕ)
      → All BeginsNone ahead
      → AllDecimals (d ∷ ds)
      → floats.float_of (d ∷ ds) ≡ none
      → parse_retry_after_hint floats (ahead ++ hint (seconds_text (d ∷ ds) rest))
        ≡ raised (value_error (text "could not convert string to float" ∷ []))
  unfolding parse_retry_after_hint after_search positive_or_plain total convert_group convert
  parse-raises ahead d ds rest none_ahead decimals no_float =
      let told = hint (seconds_text (d ∷ ds) rest) in
      ap (after_search floats (ahead ++ told)) (
        search_for-skips duration_at ahead told (none_begin ahead none_ahead)
        ∙ search_for-here duration_at told _ (
            duration_at-hint d (seconds_text ds rest) (decimal-not-space d decimals.0)
            ∙ groups-seconds d ds rest decimals))
      ∙ ground arith

-- For an error without headers whose message asks to wait for digits and points that are no float,
-- with no T ahead of it, `retry_after_seconds` raises ValueError: it is not safe on every exception.
pub retry_after_seconds-raises :
    (floats : Floats Seconds) (e : VendorError) (ahead : List ℕ) (d : ℕ) (ds rest : List ℕ)
    → e.headers ≡ none
    → codes e.text ≡ ahead ++ hint (seconds_text (d ∷ ds) rest)
    → All BeginsNone ahead
    → AllDecimals (d ∷ ds)
    → floats.float_of (d ∷ ds) ≡ none
    → retry_after_seconds floats e ≡ unreadable (text "could not convert string to float" ∷ [])
unfolding retry_after_seconds outcome_of extract_retry_after_seconds
retry_after_seconds-raises floats e ahead d ds rest bare says none_ahead decimals no_float =
    rw (bare, says, parse-raises floats ahead d ds rest none_ahead decimals no_float) refl
