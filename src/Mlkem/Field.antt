-- ===== src/Mlkem/Field.antt =====
-- The transforms of FIPS 203 on numbers below q, and the blocks of src/rmbl_mlkem_arith.h.
use rmorie_bricklayer.Prelude.{
  ℕ, zero, suc, ◌+◌, ◌-◌, ◌*◌, ◌/◌, ◌%◌, ◌^◌, ◌≤◌, ◌<◌, ◌≡◌, refl, ap, sym, ◌∙◌, true, ◌&&◌, leb,
  ◌==◌, arith,
}
use native.Mathlib.Nat.{mul-le-mul}
use rmorie_bricklayer.Prelude.Numbers.{mul-mod_left}
use rmorie_bricklayer.Prelude.Bytes.{all_below, all_below_sound}
use rmorie_bricklayer.Prelude.Int.{ℤ, pos, negsuc, pos_part, neg_part, ◌*ℤ◌, Within}
use rmorie_bricklayer.Mlkem.{q, montgomery_reduce}
use rmorie_bricklayer.Mlkem.Ntt.{zeta}
use rmorie_bricklayer.Mlkem.Reduce.{residue, montgomery_reduce_lem}
use rmorie_bricklayer.Mlkem.Residue.{residue-lt, residue-mul}

-- The first `n` bits of `k` in reverse order.
unfoldable pub reversed : ℕ → ℕ → ℕ
reversed zero k = 0
reversed (suc n) k = k % 2 * 2 ^ n + reversed n (k / 2)

-- The powers of the root of unity that FIPS 203 takes.
unfoldable pub zeta_q : ℕ → ℕ
unfolding reversed
zeta_q k = 17 ^ reversed 7 k % q

zeta_table :
    all_below 128 (λ k.
      leb (pos_part (zeta k)) 1664
      && leb (neg_part (zeta k)) 1664
      && residue (zeta k) == zeta_q k * 65536 % q)
    ≡ true
unfolding all_below zeta residue zeta_q
zeta_table = refl

pub zeta_lem : (k : ℕ) → k < 128 → Within 1664 (zeta k) × (residue (zeta k) ≡ zeta_q k * 65536 % q)
zeta_lem k h =
    let t =
      all_below_sound 128
        (λ k.
          leb (pos_part (zeta k)) 1664
          && leb (neg_part (zeta k)) 1664
          && residue (zeta k) == zeta_q k * 65536 % q)
        k zeta_table h in
    ground arith

pub residue-montgomery :
    (a : ℤ) → Within (2 ^ 15 * q - 1) a → residue (montgomery_reduce a) ≡ residue a * 169 % q
unfolding residue
residue-montgomery a h =
    let m = montgomery_reduce a in
    let e : residue m * (65536 % q) % q ≡ residue a =
      sym (residue-mul m (pos 65536)) ∙ (montgomery_reduce_lem a h).1 in
    omega (arith, residue-lt m)

product-le : (a b c d : ℕ) → a ≤ c → b ≤ d → a * b ≤ c * d
product-le a b c d h k = mul-le-mul h k

pub mul-Within : (a b : ℤ) (m n : ℕ) → Within m a → Within n b → Within (m * n) (a *ℤ b)
unfolding ◌*ℤ◌
mul-Within (pos a) (pos b) m n h k = (product-le a b m n h.0 k.0, omega arith)
mul-Within (pos a) (negsuc b) m n h k = ground (arith, product-le a (suc b) m n h.0 k.1)
mul-Within (negsuc a) (pos b) m n h k = ground (arith, product-le (suc a) b m n h.1 k.0)
mul-Within (negsuc a) (negsuc b) m n h k = (product-le (suc a) (suc b) m n h.1 k.1, omega arith)

-- A factor in Montgomery form times a coefficient, reduced: the product of the two residues.
pub twiddle :
    (k : ℕ) (y : ℤ)
    → k < 128
    → Within 32767 y
    → Within (q - 1) (montgomery_reduce (zeta k *ℤ y))
      × (residue (montgomery_reduce (zeta k *ℤ y)) ≡ zeta_q k * residue y % q)
twiddle k y hk hy =
    let (small, z) = zeta_lem k hk in
    let p = mul-Within (zeta k) y 1664 32767 small hy in
    let fits : Within (2 ^ 15 * q - 1) (zeta k *ℤ y) = omega arith in
    (
      (montgomery_reduce_lem (zeta k *ℤ y) fits).0,
      residue-montgomery (zeta k *ℤ y) fits
          ∙ ap (λ (r : ℕ). r * 169 % q) (residue-mul (zeta k) y)
          ∙ ap (λ (r : ℕ). r * residue y % q * 169 % q) z
          ∙ scaled (zeta_q k) (residue y),
    )
  where
    scaled : (z r : ℕ) → z * 65536 % q * r % q * 169 % q ≡ z * r % q
    scaled z r = let e = mul-mod_left (z * 65536) r q in omega arith
