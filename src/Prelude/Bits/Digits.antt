-- ===== src/Prelude/Bits/Digits.antt =====
-- The bit operators of the language mean a recursion on binary digits that has fuel to spare. The
-- equations here, one for the lowest digit of each operator, have none.
use Prim.Native.Nat.{digits, bitwise, bit_and-bitwise, bit_or-bitwise, bit_xor-bitwise, differ}
use rmorie_bricklayer.Prelude.{
  ℕ, zero, suc, ◌+◌, ◌*◌, ◌/◌, ◌%◌, ◌≤◌, ◌<◌, min, max, bit_and, bit_or, bit_xor, ◌≡◌, refl, arith,
  ap, ◌∙◌, leb, Bool-cases, inl, inr, leb→le,
}

module _ (rest : ℕ → ℕ) (op : ℕ → ℕ → ℕ) where
  -- Fuel beyond the number itself is not used.
  one_more : (fuel x y : ℕ) → x ≤ fuel → digits rest op (suc fuel) x y ≡ digits rest op fuel x y
  one_more zero zero y enough = refl
  one_more zero (suc x) y enough = absurd (omega arith)
  one_more (suc fuel) zero y enough = refl
  one_more (suc fuel) (suc x) y enough =
      ap (λ (upper : ℕ). upper * 2 + op (suc x % 2) (y % 2))
        (one_more fuel (suc x / 2) (y / 2) (omega arith))

  least_fuel : (fuel x y : ℕ) → x ≤ fuel → digits rest op fuel x y ≡ bitwise rest op x y
  least_fuel zero x y enough =
      ap (λ (fuel : ℕ). digits rest op fuel x y) (let e : 0 ≡ x = omega arith in e)
  least_fuel (suc fuel) x y enough = elim (Bool-cases (leb x fuel)) [
    | inl less ↦ one_more fuel x y (leb→le x fuel less) ∙ least_fuel fuel x y (leb→le x fuel less)
    | inr same ↦ ap (λ (k : ℕ). digits rest op k x y) (let e : suc fuel ≡ x = ground arith in e)
  ]

  lowest_digit :
      (x y : ℕ)
      → bitwise rest op (suc x) y ≡ bitwise rest op (suc x / 2) (y / 2) * 2 + op (suc x % 2) (y % 2)
  lowest_digit x y =
      ap (λ (upper : ℕ). upper * 2 + op (suc x % 2) (y % 2))
        (least_fuel x (suc x / 2) (y / 2) (omega arith))

pub zero-bit_or : (b : ℕ) → bit_or 0 b ≡ b
zero-bit_or b = bit_or-bitwise 0 b

pub zero-bit_xor : (b : ℕ) → bit_xor 0 b ≡ b
zero-bit_xor b = bit_xor-bitwise 0 b

pub bit_or_step : (x y : ℕ) → bit_or x y ≡ bit_or (x / 2) (y / 2) * 2 + max (x % 2) (y % 2)
bit_or_step zero y = rw (zero-bit_or y, zero-bit_or (y / 2)) (omega arith)
bit_or_step (suc x) y = simp bit_or-bitwise (lowest_digit (λ t. t) max x y)

pub bit_and_step : (x y : ℕ) → bit_and x y ≡ bit_and (x / 2) (y / 2) * 2 + min (x % 2) (y % 2)
bit_and_step zero y = rw (bit_and-bitwise 0 y, bit_and-bitwise 0 (y / 2)) (omega arith)
bit_and_step (suc x) y = simp bit_and-bitwise (lowest_digit (λ t. 0) min x y)

differ-digits : (x y : ℕ) → x < 2 → y < 2 → differ x y ≡ (x + y) % 2
differ-digits zero y p q = omega arith
differ-digits (suc zero) zero p q = refl
differ-digits (suc zero) (suc zero) p q = refl
differ-digits (suc zero) (suc (suc y)) p q = absurd (omega arith)
differ-digits (suc (suc x)) y p q = absurd (omega arith)

pub bit_xor_step : (x y : ℕ) → bit_xor x y ≡ bit_xor (x / 2) (y / 2) * 2 + (x % 2 + y % 2) % 2
bit_xor_step zero y = rw (zero-bit_xor y, zero-bit_xor (y / 2)) (omega arith)
bit_xor_step (suc x) y =
    rw (← differ-digits (suc x % 2) (y % 2) (omega arith) (omega arith))
      (simp bit_xor-bitwise (lowest_digit (λ t. t) differ x y))
