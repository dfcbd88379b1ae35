-- ===== src/Prelude/Int.antt =====
-- Signed integers over the native numbers; a counter of the quota store can fall below zero.
use model_dispatcher.Prelude.{
  ℕ, suc, ◌+◌, ◌-◌, ◌*◌, ◌≤◌, ◌≡◌, ap, Bool, arith, ltb, leb, if◌then◌else◌,
}

-- `negsuc n` is -(n + 1).
pub data ℤ : Type 0 where
  pos : ℕ → ℤ
  negsuc : ℕ → ℤ

abbrev pub pos_part : ℤ → ℕ
pos_part (pos n) = n
pos_part (negsuc n) = 0

abbrev pub neg_part : ℤ → ℕ
neg_part (pos n) = 0
neg_part (negsuc n) = suc n

abbrev pub sub_ℕ : ℕ → ℕ → ℤ
sub_ℕ a b = if leb b a then pos (a - b) else negsuc (b - a - 1)

infixl 65 ◌+ℤ◌
infix 50 ◌≤ℤ◌
unfoldable pub ◌+ℤ◌ : ℤ → ℤ → ℤ
a +ℤ b = sub_ℕ (pos_part a + pos_part b) (neg_part a + neg_part b)

-- A multiple by a natural number.
abbrev pub scale : ℕ → ℤ → ℤ
scale k (pos n) = pos (k * n)
scale k (negsuc n) = sub_ℕ 0 (k * suc n)

abbrev pub ◌≤ℤ◌ : ℤ → ℤ → Type 0
a ≤ℤ b = pos_part a + neg_part b ≤ pos_part b + neg_part a

abbrev pub ltb_ℤ : ℤ → ℤ → Bool
ltb_ℤ a b = ltb (pos_part a + neg_part b) (pos_part b + neg_part a)

pub +ℤ_parts :
    (a b : ℤ)
    → pos_part (a +ℤ b) + neg_part a + neg_part b ≡ neg_part (a +ℤ b) + pos_part a + pos_part b
unfolding ◌+ℤ◌
+ℤ_parts a b = ground arith

pub eq_of_parts : (a b : ℤ) → pos_part a + neg_part b ≡ pos_part b + neg_part a → a ≡ b
eq_of_parts a b h = ground arith

pub ruleset int_laws = (arith, +ℤ_parts, eq_of_parts)

-- An equation between two shifted integers, on their parts.
pub shift_parts :
    (a b : ℤ) (m n : ℕ)
    → b +ℤ pos m ≡ a +ℤ pos n
    → pos_part b + neg_part a + m ≡ pos_part a + neg_part b + n
unfolding ◌+ℤ◌
shift_parts a b m n e =
    omega (arith, +ℤ_parts a (pos n), +ℤ_parts b (pos m), ap pos_part e, ap neg_part e)

pub parts_shift :
    (a b : ℤ) (m n : ℕ)
    → pos_part b + neg_part a + m ≡ pos_part a + neg_part b + n
    → b +ℤ pos m ≡ a +ℤ pos n
parts_shift a b m n e =
    eq_of_parts (b +ℤ pos m) (a +ℤ pos n) (omega (arith, +ℤ_parts a (pos n), +ℤ_parts b (pos m)))

pub add_zero : (a : ℤ) → a ≡ a +ℤ pos 0
add_zero a = omega int_laws
