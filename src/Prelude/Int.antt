-- ===== src/Prelude/Int.antt =====
-- Signed integers over the native numbers, with the casts and shifts of C's signed types.
use rmorie_bricklayer.Prelude.{
  ℕ, suc, ◌+◌, ◌-◌, ◌*◌, ◌/◌, ◌%◌, ◌^◌, ◌≤◌, ◌≡◌, ltb, leb, if◌then◌else◌, arith,
}

-- `negsuc n` is -(n + 1).
pub data ℤ : Type 0 where
  pos : ℕ → ℤ
  negsuc : ℕ → ℤ

abbrev pub pos_part : ℤ → ℕ
pos_part (pos n) = n
pos_part (negsuc n) = 0

abbrev pub neg_part : ℤ → ℕ
neg_part (pos n) = 0
neg_part (negsuc n) = suc n

-- a - b, as an integer.
abbrev pub sub_ℕ : ℕ → ℕ → ℤ
sub_ℕ a b = if leb b a then pos (a - b) else negsuc (b - a - 1)

infixl 65 ◌+ℤ◌ ◌-ℤ◌
infixl 70 ◌*ℤ◌
unfoldable pub ◌+ℤ◌ : ℤ → ℤ → ℤ
a +ℤ b = sub_ℕ (pos_part a + pos_part b) (neg_part a + neg_part b)

unfoldable pub ◌-ℤ◌ : ℤ → ℤ → ℤ
a -ℤ b = sub_ℕ (pos_part a + neg_part b) (neg_part a + pos_part b)

unfoldable pub ◌*ℤ◌ : ℤ → ℤ → ℤ
pos m *ℤ pos n = pos (m * n)
pos m *ℤ negsuc n = sub_ℕ 0 (m * suc n)
negsuc m *ℤ pos n = sub_ℕ 0 (suc m * n)
negsuc m *ℤ negsuc n = pos (suc m * suc n)

-- The distance from zero is at most, or below, a bound.
abbrev pub Within : ℕ → ℤ → Type 0
Within b a = (pos_part a ≤ b) × (neg_part a ≤ b)

-- The low 16 bits, as an unsigned number.
unfoldable pub low16 : ℤ → ℕ
low16 (pos n) = n % 65536
low16 (negsuc n) = 65535 - n % 65536

-- `static_cast<int16_t>`
unfoldable pub int16 : ℤ → ℤ
unfolding low16
int16 a = let u = low16 a in if ltb u 32768 then pos u else negsuc (65535 - u)

-- `a >> k` of a signed number: towards minus infinity.
unfoldable pub shift_right : ℕ → ℤ → ℤ
shift_right k (pos n) = pos (n / 2 ^ k)
shift_right k (negsuc n) = negsuc (n / 2 ^ k)

-- A cast of a number that fits changes nothing.
pub int16_fits : (a : ℤ) → Within 32767 a → int16 a ≡ a
unfolding int16
int16_fits (pos n) h = ground arith
int16_fits (negsuc n) h = ground arith
