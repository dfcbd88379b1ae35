-- ===== src/Security/Redaction/Scrubbed.antt =====
-- What is left in a scrubbed value, and what is kept of it.
use Prim.Native.Char.{Char}
use model_dispatcher.Prelude.{
  ℕ, zero, suc, ◌-◌, String, ◌≡◌, refl, inl, inr, true, false, Option, none, some, if◌then◌else◌,
  Bool-cases,
}
use model_dispatcher.Prelude.Text.{codes, append}
use model_dispatcher.Types.Json.{
  JsonValue, null, boolean, integer, float, string, array, object, Items, nil, cons, Fields, end,
  field,
}
use model_dispatcher.Security.Redaction.{
  redacted, is_sensitive, secret_at, scrub_from, scrub_text, scrub, scrub_items, scrub_fields,
}
use model_dispatcher.Security.Redaction.Clean.{NoSecret, redacted-NoSecret, scrub_from-NoSecret}

-- What a scrubbed value is: the value of a sensitive key is the mark, and no text holds a secret.
mutual
  pub IsScrubbed : JsonValue → Type 0
  IsScrubbed (object fs) = FieldsScrubbed fs
  IsScrubbed (array xs) = ItemsScrubbed xs
  IsScrubbed (string text) = NoSecret (codes text)
  IsScrubbed _ = Unit

  ItemsScrubbed : Items → Type 0
  ItemsScrubbed nil = Unit
  ItemsScrubbed (cons x xs) = IsScrubbed x × ItemsScrubbed xs

  FieldsScrubbed : Fields → Type 0
  FieldsScrubbed end = Unit
  FieldsScrubbed (field key item fs) =
      (is_sensitive key ≡ true → item ≡ string redacted) × (IsScrubbed item × FieldsScrubbed fs)

field-IsScrubbed :
    (key : String) (item : JsonValue)
    → IsScrubbed (scrub item)
    → (is_sensitive key ≡ true
        → (if is_sensitive key then string redacted else scrub item) ≡ string redacted)
      × IsScrubbed (if is_sensitive key then string redacted else scrub item)
unfolding IsScrubbed append
field-IsScrubbed key item h = elim (Bool-cases (is_sensitive key)) [
  | inl e ↦ rw e (λ _. refl, redacted-NoSecret "" tt)
  | inr e ↦ rw e (λ no. absurd cc, h)
]

mutual
  unfolding IsScrubbed scrub scrub_text

  value-IsScrubbed : (v : JsonValue) → IsScrubbed (scrub v)
  value-IsScrubbed (object fs) = fields-IsScrubbed fs
  value-IsScrubbed (array xs) = items-IsScrubbed xs
  value-IsScrubbed (string text) = scrub_from-NoSecret 0 text
  value-IsScrubbed null = tt
  value-IsScrubbed (boolean b) = tt
  value-IsScrubbed (integer n) = tt
  value-IsScrubbed (float text) = tt

  items-IsScrubbed : (xs : Items) → ItemsScrubbed (scrub_items xs)
  items-IsScrubbed nil = tt
  items-IsScrubbed (cons x xs) = (value-IsScrubbed x, items-IsScrubbed xs)

  fields-IsScrubbed : (fs : Fields) → FieldsScrubbed (scrub_fields fs)
  fields-IsScrubbed end = tt
  fields-IsScrubbed (field key item fs) =
      let own = field-IsScrubbed key item (value-IsScrubbed item) in
      (own.0, (own.1, fields-IsScrubbed fs))

-- What is behind the first characters of a text.
abbrev without : ℕ → String → String
without zero s = s
without (suc n) String.[] = ""
without (suc n) (String.◌∷◌ c s) = without n s

-- The leftmost matches are replaced by the mark one after the other, and all else is kept.
pub data TextRedacted : String → String → Type 0 where
  done : TextRedacted "" ""
  kept :
      {s t : String} (c : Char)
      → secret_at (codes (String.◌∷◌ c s)) ≡ none
      → TextRedacted s t
      → TextRedacted (String.◌∷◌ c s) (String.◌∷◌ c t)
  marked :
      {s t : String} (c : Char) (n : ℕ)
      → secret_at (codes (String.◌∷◌ c s)) ≡ some n
      → TextRedacted (without (n - 1) s) t
      → TextRedacted (String.◌∷◌ c s) (append redacted t)

scrub_from-TextRedacted : (k : ℕ) (s : String) → TextRedacted (without k s) (scrub_from k s)
unfolding scrub_from
scrub_from-TextRedacted zero String.[] = done
scrub_from-TextRedacted (suc k) String.[] = done
scrub_from-TextRedacted (suc k) (String.◌∷◌ c s) = scrub_from-TextRedacted k s
scrub_from-TextRedacted zero (String.◌∷◌ c s) =
    go (secret_at (codes (String.◌∷◌ c s))) refl (λ k. scrub_from-TextRedacted k s)
  where
    go :
        (o : Option ℕ)
        → secret_at (codes (String.◌∷◌ c s)) ≡ o
        → ((k : ℕ) → TextRedacted (without k s) (scrub_from k s))
        → TextRedacted (String.◌∷◌ c s) (elim o [
          | none ↦ String.◌∷◌ c (scrub_from zero s)
          | some n ↦ append redacted (scrub_from (n - 1) s)
        ])
    go none e rest = kept c e (rest 0)
    go (some n) e rest = marked c n e (rest (n - 1))

-- The same value, but for its texts and for the values of sensitive keys.
mutual
  pub RedactedAs : JsonValue → JsonValue → Type 0
  RedactedAs (object fs) w = (gs : Fields) × (w ≡ object gs) × FieldsRedacted fs gs
  RedactedAs (array xs) w = (ys : Items) × (w ≡ array ys) × ItemsRedacted xs ys
  RedactedAs (string s) w = (t : String) × (w ≡ string t) × TextRedacted s t
  RedactedAs v w = v ≡ w

  ItemsRedacted : Items → Items → Type 0
  ItemsRedacted nil nil = Unit
  ItemsRedacted (cons x xs) (cons y ys) = RedactedAs x y × ItemsRedacted xs ys
  ItemsRedacted _ _ = ⊥

  FieldsRedacted : Fields → Fields → Type 0
  FieldsRedacted end end = Unit
  FieldsRedacted (field key item fs) (field key' item' gs) =
      (key ≡ key') × ((is_sensitive key ≡ false → RedactedAs item item') × FieldsRedacted fs gs)
  FieldsRedacted _ _ = ⊥

field-RedactedAs :
    (key : String) (item : JsonValue)
    → RedactedAs item (scrub item)
    → is_sensitive key ≡ false
    → RedactedAs item (if is_sensitive key then string redacted else scrub item)
field-RedactedAs key item h e = rw e h

mutual
  unfolding RedactedAs scrub scrub_text

  value-RedactedAs : (v : JsonValue) → RedactedAs v (scrub v)
  value-RedactedAs (object fs) = (scrub_fields fs, refl, fields-Redacted fs)
  value-RedactedAs (array xs) = (scrub_items xs, refl, items-Redacted xs)
  value-RedactedAs (string text) = (scrub_text text, refl, scrub_from-TextRedacted 0 text)
  value-RedactedAs null = refl
  value-RedactedAs (boolean b) = refl
  value-RedactedAs (integer n) = refl
  value-RedactedAs (float text) = refl

  items-Redacted : (xs : Items) → ItemsRedacted xs (scrub_items xs)
  items-Redacted nil = tt
  items-Redacted (cons x xs) = (value-RedactedAs x, items-Redacted xs)

  fields-Redacted : (fs : Fields) → FieldsRedacted fs (scrub_fields fs)
  fields-Redacted end = tt
  fields-Redacted (field key item fs) =
      (refl, (field-RedactedAs key item (value-RedactedAs item), fields-Redacted fs))

-- In a scrubbed value, at whatever depth, the value of every key with a sensitive name is
-- "[REDACTED]", and no text has, at any position, anything that the pattern of a secret matches.
-- All else is kept: the value has the same shape, the same keys in the same order and the same
-- numbers, and in its texts only the matches of that pattern, from the left, have been replaced by
-- "[REDACTED]".
pub scrub_lem : (v : JsonValue) → IsScrubbed (scrub v) × RedactedAs v (scrub v)
scrub_lem v = (value-IsScrubbed v, value-RedactedAs v)
