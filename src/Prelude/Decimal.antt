-- ===== src/Prelude/Decimal.antt =====
-- `str(n)` of a number, that different numbers are printed differently, and `int(s)` of a text.
use Prim.Native.Char.{Char, code}
use model_dispatcher.Prelude.{
  ℕ, zero, suc, ◌+◌, ◌-◌, ◌*◌, ◌/◌, ◌%◌, ◌<◌, String, ◌≡◌, refl, sym, ap, ◌∙◌, inl, inr, arith, ltb,
  if◌then◌else◌, ltb→lt, Bool-cases, Bool, false, ◌&&◌, ◌||◌, Option, none, some, List, [], ◌∷◌,
  eqb,
}
use model_dispatcher.Prelude.Int.{ℤ, pos, sub_ℕ}
use model_dispatcher.Prelude.Text.{codes, strip}
use model_dispatcher.Prelude.Scan.{is_digit}

abbrev digit : ℕ → Char
digit zero = "0"
digit (suc zero) = "1"
digit (suc (suc zero)) = "2"
digit (suc (suc (suc zero))) = "3"
digit (suc (suc (suc (suc zero)))) = "4"
digit (suc (suc (suc (suc (suc zero))))) = "5"
digit (suc (suc (suc (suc (suc (suc zero)))))) = "6"
digit (suc (suc (suc (suc (suc (suc (suc zero))))))) = "7"
digit (suc (suc (suc (suc (suc (suc (suc (suc zero)))))))) = "8"
digit _ = "9"

-- The digits of `n` in front of `rest`.
digits : ℕ → ℕ → String → String
digits zero n rest = rest
digits (suc fuel) n rest =
    let more = digits fuel (n / 10) (String.◌∷◌ (digit (n % 10)) rest) in
    if ltb n 10 then String.◌∷◌ (digit n) rest else more

-- `str(n)`: `n` is not shorter than its digits.
unfoldable pub str : ℕ → String
unfolding digits
str n = digits (suc n) n ""

-- The number that a text of digits spells behind `n`.
abbrev read : ℕ → String → ℕ
read n String.[] = n
read n (String.◌∷◌ c s) = read (n * 10 + (code c - b'0')) s

digit-value : (d : ℕ) → d < 10 → code (digit d) - b'0' ≡ d
digit-value zero h = refl
digit-value (suc zero) h = refl
digit-value (suc (suc zero)) h = refl
digit-value (suc (suc (suc zero))) h = refl
digit-value (suc (suc (suc (suc zero)))) h = refl
digit-value (suc (suc (suc (suc (suc zero))))) h = refl
digit-value (suc (suc (suc (suc (suc (suc zero)))))) h = refl
digit-value (suc (suc (suc (suc (suc (suc (suc zero))))))) h = refl
digit-value (suc (suc (suc (suc (suc (suc (suc (suc zero)))))))) h = refl
digit-value (suc (suc (suc (suc (suc (suc (suc (suc (suc zero))))))))) h = refl
digit-value (suc (suc (suc (suc (suc (suc (suc (suc (suc (suc n)))))))))) h =
    absurd (omega (arith, h))

read-digits : (fuel n : ℕ) (rest : String) → n < fuel → read 0 (digits fuel n rest) ≡ read n rest
unfolding digits
read-digits zero n rest h = absurd (omega (arith, h))
read-digits (suc fuel) n rest h = elim (Bool-cases (ltb n 10)) [
  | inl small ↦ rw small (
      ap (λ d. read (0 * 10 + d) rest) (digit-value n (ltb→lt n 10 small))
      ∙ ap (λ k. read k rest) (omega arith))
  | inr large ↦ rw large (
      read-digits fuel (n / 10) (String.◌∷◌ (digit (n % 10)) rest) (ground (arith, h, large))
      ∙ ap (λ d. read (n / 10 * 10 + d) rest) (digit-value (n % 10) (omega arith))
      ∙ ap (λ k. read k rest) (omega arith))
]

pub str-injective : (m n : ℕ) → str m ≡ str n → m ≡ n
unfolding str
str-injective m n h =
    sym (read-digits (suc m) m "" (omega arith))
    ∙ ap (read 0) h
    ∙ read-digits (suc n) n "" (omega arith)

-- Digits, with single underscores between them, behind `n`.
number_from : ℕ → Bool → List ℕ → Option ℕ
unfolding is_digit
number_from n after_digit [] = if after_digit then some n else none
number_from n after_digit (c ∷ s) =
    let rest = number_from (if is_digit c then n * 10 + (c - b'0') else n) (is_digit c) s in
    if is_digit c || after_digit && eqb c b'_' then rest else none

with_sign : Bool → Option ℕ → Option ℤ
with_sign negative none = none
with_sign negative (some n) = some (if negative then sub_ℕ 0 n else pos n)

signed : List ℕ → Option ℤ
unfolding number_from with_sign
signed [] = none
signed (c ∷ s) =
    with_sign (eqb c b'-') (number_from 0 false (if eqb c b'-' || eqb c b'+' then s else c ∷ s))

-- `int(s)` of a text of Latin letters, whose only digits are the ASCII ones
unfoldable pub parse_int : String → Option ℤ
unfolding signed strip
parse_int s = signed (codes (strip s))
