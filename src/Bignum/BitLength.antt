-- ===== src/Bignum/BitLength.antt =====
-- `bit_length` is the number of significant bits.
use native.Mathlib.Nat.{pow-suc, mul-le-mul_left}
use rmorie_bricklayer.Prelude.{
  ℕ, zero, suc, ◌+◌, ◌*◌, ◌/◌, ◌^◌, ◌≤◌, ◌<◌, ◌≡◌, ◌≢◌, ap, ◌∙◌, inl, inr, arith, length, get_or,
  ◌==◌, ==_iff, Bool-cases,
}
use rmorie_bricklayer.Prelude.Numbers.{pow-add}
use rmorie_bricklayer.Bignum.{Big, word_bits, bit_length, bit_length_from}
use rmorie_bricklayer.Bignum.Value.{val, IsLimbs, low, low-lt, low-eq-val, weight, get_or-lt}

-- `n` has `b` binary digits, the highest of them 1.
abbrev pub HasBits : ℕ → ℕ → Type 0
HasBits n b = (n < 2 ^ b) × (2 ^ b ≤ 2 * n + 1)

-- Counting from `b` on, a 32-bit word `v` adds its own number of bits.
word_bits_lem :
    (rounds v b : ℕ) → v < 2 ^ rounds → (k : ℕ) × (word_bits rounds v b ≡ b + k) × (HasBits v k)
unfolding word_bits
word_bits_lem zero v b h = (0, omega arith, omega arith)
word_bits_lem (suc rounds) v b h =
    let ih = word_bits_lem rounds (v / 2) (b + 1) (omega (arith, pow-suc 2 rounds)) in
    elim (Bool-cases (v == 0)) [
      | inl e ↦ rw e (0, omega arith, ground arith)
      | inr e ↦ rw e (
        suc ih.0,
        omega (arith, ih.1),
        (omega (arith, ih.2, pow-suc 2 ih.0), upper ih.0 (ground arith) ih.2),
      )
    ]
  where
    upper : (k : ℕ) → v ≢ 0 → HasBits (v / 2) k → 2 ^ suc k ≤ 2 * v + 1
    upper zero p b = omega arith
    upper (suc k) p b = omega (arith, pow-suc 2 (suc k), pow-suc 2 k)

HasBits-pos : (v k : ℕ) → v ≢ 0 → HasBits v k → 2 ^ k ≤ 2 * v
HasBits-pos v zero p h = omega arith
HasBits-pos v (suc k) p h = omega (arith, pow-suc 2 k)

-- The highest non-zero limb `v` of weight `w`, above a rest `u`.
HasBits-limb :
    (i u v k : ℕ) → v ≢ 0 → u < weight i → HasBits v k → HasBits (u + v * weight i) (i * 32 + k)
HasBits-limb i u v k p hu h =
    let e =
      ap (λ (n : ℕ). 2 ^ n) (let e : i * 32 + k ≡ 32 * i + k = omega arith in e)
      ∙ pow-add 2 (32 * i) k in
    (
      omega (arith, e, mul-le-mul_left (weight i) h.0),
      omega (arith, e, mul-le-mul_left (weight i) (HasBits-pos v k p h)),
    )

module _ (a : Big) (ha : IsLimbs a) where
  bit_length_from_lem : (i : ℕ) → HasBits (low a i) (bit_length_from i a)
  unfolding bit_length_from
  bit_length_from_lem zero = omega arith
  bit_length_from_lem (suc i) =
      let v = get_or a i 0 in
      elim (Bool-cases (v == 0)) [
        | inl e ↦
            rw (e, (==_iff v 0).0 e)
              (let t : low a i + 0 * weight i ≡ low a i = omega arith in
                rw t (bit_length_from_lem i))
        | inr e ↦ rw e (
            let w = word_bits_lem 32 v 0 (get_or-lt a i ha) in
            let t : word_bits 32 v 0 ≡ w.0 = omega (arith, w.1) in
            rw t (HasBits-limb i (low a i) v w.0 (ground arith) (low-lt a i ha) w.2))
      ]

  -- `bit_length` is the number of binary digits up to the highest 1, and 0 for zero.
  pub bit_length_lem : HasBits (val a) (bit_length a)
  unfolding bit_length
  bit_length_lem = rw (low-eq-val a (length a) (omega arith)) at (bit_length_from_lem (length a))
