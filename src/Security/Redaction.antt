-- ===== src/Security/Redaction.antt =====
-- src/model_dispatcher/security/redaction.py: what is scrubbed from the values bound for logs.
pub mod Clean
pub mod Scrubbed
use model_dispatcher.Prelude.{
  ℕ, zero, suc, ◌+◌, ◌-◌, String, Bool, false, ◌&&◌, ◌||◌, Option, none, some, List, [], ◌∷◌, leb,
  eqb, if◌then◌else◌, is_some, length, any,
}
use model_dispatcher.Prelude.Text.{codes, is_space, append}
use model_dispatcher.Prelude.Scan.{span, is_digit, after_literal, search_for}
use model_dispatcher.Types.Json.{
  JsonValue, string, array, object, Items, nil, cons, Fields, end, field,
}

-- `_REDACTED`
abbrev pub redacted : String
redacted = "[REDACTED]"

-- `[_-]?`
abbrev without_dash : List ℕ → List ℕ
without_dash [] = []
without_dash (c ∷ s) = if eqb c b'_' || eqb c b'-' then s else c ∷ s

-- `first[_-]?second`; the second part begins with neither of the two.
compound_at : List ℕ → List ℕ → List ℕ → Bool
unfolding after_literal
compound_at first second s = elim (after_literal first s) [
  | none ↦ false
  | some rest ↦ is_some (after_literal second (without_dash rest))
]

abbrev sensitive_words : List (List ℕ)
sensitive_words =
    codes "authorization"
    ∷ codes "auth"
    ∷ codes "secret"
    ∷ codes "token"
    ∷ codes "password"
    ∷ codes "passwd"
    ∷ codes "bearer"
    ∷ codes "credential"
    ∷ []

-- The alternatives of `_SENSITIVE_KEYS`, at one position.
sensitive_at : List ℕ → Option (Unit {0})
unfolding compound_at after_literal
sensitive_at s =
    if compound_at (codes "api") (codes "key") s
      || any (λ word. is_some (after_literal word s)) sensitive_words
      || compound_at (codes "private") (codes "key") s
    then some tt
    else none

-- `_SENSITIVE_KEYS.search(key)`
pub is_sensitive : String → Bool
unfolding sensitive_at search_for
is_sensitive key = is_some (search_for sensitive_at (codes key))

-- `[A-Za-z0-9]`
is_alphanumeric : ℕ → Bool
unfolding is_digit
is_alphanumeric c = leb b'A' c && leb c b'Z' || leb b'a' c && leb c b'z' || is_digit c

-- `[A-Za-z0-9_\-]`
is_blob : ℕ → Bool
unfolding is_alphanumeric
is_blob c = is_alphanumeric c || eqb c b'_' || eqb c b'-'

-- `[A-Za-z0-9._\-]`
is_bearer : ℕ → Bool
unfolding is_blob
is_bearer c = is_blob c || eqb c b'.'

-- The length of a match of `class{least,}`.
run : (ℕ → Bool) → ℕ → List ℕ → Option ℕ
unfolding span
run class least s = let n = length (span class s).0 in if leb least n then some n else none

-- What is behind a literal.
behind : List ℕ → List ℕ → Option (List ℕ)
behind [] s = some s
behind (p ∷ ps) [] = none
behind (p ∷ ps) (c ∷ s) = let rest = behind ps s in if eqb p c then rest else none

abbrev after_prefix : ℕ → Option ℕ → Option ℕ
after_prefix k none = none
after_prefix k (some n) = some (k + n)

-- `sk-[A-Za-z0-9]{16,}`
key_at : List ℕ → Option ℕ
unfolding run behind is_alphanumeric
key_at s = elim (behind (codes "sk-") s) [
  | none ↦ none
  | some rest ↦ after_prefix 3 (run is_alphanumeric 16 rest)
]

-- `\s+[A-Za-z0-9._\-]{16,}`
spaced_token : List ℕ → Option ℕ
unfolding run span is_bearer is_space
spaced_token s =
    let (spaces, rest) = span is_space s in
    if leb 1 (length spaces) then after_prefix (length spaces) (run is_bearer 16 rest) else none

-- `Bearer\s+[A-Za-z0-9._\-]{16,}`
bearer_at : List ℕ → Option ℕ
unfolding spaced_token behind
bearer_at s = elim (behind (codes "Bearer") s) [
  | none ↦ none
  | some rest ↦ after_prefix 6 (spaced_token rest)
]

-- `_SECRET_VALUE` at one position: the length of the match of the first alternative that matches.
pub secret_at : List ℕ → Option ℕ
unfolding key_at bearer_at run is_blob
secret_at s = elim (key_at s) [
  | some n ↦ some n
  | none ↦ elim (bearer_at s) [ some n ↦ some n | none ↦ run is_blob 32 s ]
]

-- `_SECRET_VALUE.sub(_REDACTED, text)`; the number is how much of a match is still to be left out.
pub scrub_from : ℕ → String → String
unfolding secret_at append
scrub_from left String.[] = ""
scrub_from (suc left) (String.◌∷◌ c s) = scrub_from left s
scrub_from zero (String.◌∷◌ c s) = elim (secret_at (codes (String.◌∷◌ c s))) [
  | none ↦ String.◌∷◌ c (scrub_from zero s)
  | some n ↦ append redacted (scrub_from (n - 1) s)
]

-- `scrub_text`
pub scrub_text : String → String
unfolding scrub_from
scrub_text text = scrub_from 0 text

-- `scrub`; a dict has each key once.
mutual
  unfolding scrub_text is_sensitive

  pub scrub : JsonValue → JsonValue
  scrub (object fs) = object (scrub_fields fs)
  scrub (array xs) = array (scrub_items xs)
  scrub (string text) = string (scrub_text text)
  scrub value = value

  scrub_items : Items → Items
  scrub_items nil = nil
  scrub_items (cons x xs) = cons (scrub x) (scrub_items xs)

  scrub_fields : Fields → Fields
  scrub_fields end = end
  scrub_fields (field key item fs) =
      field key (if is_sensitive key then string redacted else scrub item) (scrub_fields fs)
