-- ===== src/Types/Json.antt =====
-- `JSONValue` of src/model_dispatcher/types.py, and the length of what `json.dumps` prints for it
-- (ASCII output, separators ", " and ": ").
use Prim.Native.Char.{code}
use model_dispatcher.Prelude.{
  ℕ, zero, suc, ◌+◌, ◌/◌, String, Bool, true, false, ◌||◌, eqb, ltb, leb, if◌then◌else◌,
}
use model_dispatcher.Prelude.Int.{ℤ, pos, negsuc}

-- A float is kept as the text that Python prints for it.
mutual
  pub data JsonValue : Type 0 where
    null : JsonValue
    boolean : Bool → JsonValue
    integer : ℤ → JsonValue
    float : String → JsonValue
    string : String → JsonValue
    array : Items → JsonValue
    object : Fields → JsonValue

  pub data Items : Type 0 where
    nil : Items
    cons : JsonValue → Items → Items

  pub data Fields : Type 0 where
    end : Fields
    field : String → JsonValue → Fields → Fields

-- The characters that `json.dumps` writes for one character of a string.
abbrev escaped_length : ℕ → ℕ
escaped_length c =
    if eqb c b'"' || eqb c 92 || eqb c 8 || eqb c 9 || eqb c 10 || eqb c 12 || eqb c 13
    then 2
    else if leb 32 c
    then (if ltb c 127 then 1 else if leb c 65535 then 6 else 12)
    else 6

escaped_string_length : String → ℕ
escaped_string_length String.[] = 0
escaped_string_length (String.◌∷◌ c s) = escaped_length (code c) + escaped_string_length s

-- Decimal digits; the fuel is the number itself, which has no more digits than that.
digits_from : ℕ → ℕ → ℕ
digits_from zero n = 1
digits_from (suc fuel) n =
    let rest = suc (digits_from fuel (n / 10)) in if ltb n 10 then 1 else rest

digits_count : ℕ → ℕ
unfolding digits_from
digits_count n = digits_from n n

integer_length : ℤ → ℕ
unfolding digits_count
integer_length (pos n) = digits_count n
integer_length (negsuc n) = 1 + digits_count (suc n)

abbrev float_length : String → ℕ
float_length String.[] = 0
float_length (String.◌∷◌ _ s) = 1 + float_length s

mutual
  unfolding escaped_string_length integer_length

  pub dumps_length : JsonValue → ℕ
  dumps_length null = 4
  dumps_length (boolean true) = 4
  dumps_length (boolean false) = 5
  dumps_length (integer n) = integer_length n
  dumps_length (float text) = float_length text
  dumps_length (string s) = 2 + escaped_string_length s
  dumps_length (array xs) = 2 + items_length xs
  dumps_length (object fs) = fields_length fs

  items_length : Items → ℕ
  items_length nil = 0
  items_length (cons x nil) = dumps_length x
  items_length (cons x (cons y xs)) = dumps_length x + 2 + items_length (cons y xs)

  -- `len(json.dumps(d))` of a dict
  pub fields_length : Fields → ℕ
  fields_length end = 2
  fields_length (field k v end) = 6 + escaped_string_length k + dumps_length v
  fields_length (field k v (field k' v' fs)) =
      6 + escaped_string_length k + dumps_length v + fields_length (field k' v' fs)
