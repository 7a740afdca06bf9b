-- ===== src/Mlkem/Product.antt =====
-- poly_basemul of src/rmbl_mlkem_arith.h against the products of FIPS 203.
use rmorie_bricklayer.Prelude.{
  ℕ, zero, suc, ◌+◌, ◌-◌, ◌*◌, ◌%◌, ◌^◌, ◌≤◌, ◌<◌, ◌≡◌, refl, ap, ◌∙◌, List, [], ◌∷◌, map, arith,
  length, Bool, true, ◌&&◌, leb, ◌==◌,
}
use mathlib.Core.Path.{ap₂}
use rmorie_bricklayer.Prelude.Numbers.{mul-mod_left, mul-mod_right}
use rmorie_bricklayer.Prelude.Bytes.{all_below, all_below_sound}
use rmorie_bricklayer.Prelude.Int.{
  ℤ, pos, pos_part, neg_part, ◌+ℤ◌, ◌-ℤ◌, ◌*ℤ◌, Within, int16, int16_fits,
}
use rmorie_bricklayer.Mlkem.{q, montgomery_reduce}
use rmorie_bricklayer.Mlkem.Ntt.{zeta, basemul, basemul_loop, poly_basemul}
use rmorie_bricklayer.Mlkem.Reduce.{residue, montgomery_reduce_lem}
use rmorie_bricklayer.Mlkem.Residue.{residue-mul, residue-add}
use rmorie_bricklayer.Mlkem.Field.{reversed, mul-Within, residue-montgomery}
use rmorie_bricklayer.Mlkem.Blocks.{AllWithin, sum-Within}

-- The factor of the j-th product in Algorithm 11 of FIPS 203.
unfoldable pub gamma : ℕ → ℕ
unfolding reversed
gamma j = 17 ^ (2 * reversed 7 j + 1) % q

-- Algorithm 12, the product of two polynomials of degree one modulo X ^ 2 - g.
unfoldable pub base_case : ℕ → ℕ → ℕ → ℕ → ℕ → ℕ × ℕ
base_case x0 x1 y0 y1 g = ((x0 * y0 + x1 * y1 % q * g) % q, (x0 * y1 + x1 * y0) % q)

-- Algorithm 11 from the j-th product on, each coefficient times 2 ^ -16, which is 169.
unfoldable pub multiply_from : ℕ → List ℕ → List ℕ → List ℕ
unfolding base_case gamma
multiply_from j (x0 ∷ x1 ∷ x) (y0 ∷ y1 ∷ y) =
    let rest = multiply_from (j + 1) x y in
    let (c0, c1) = base_case x0 x1 y0 y1 (gamma j) in c0 * 169 % q ∷ c1 * 169 % q ∷ rest
multiply_from j x y = []

-- The factors that the code takes for two products, in Montgomery form.
abbrev even_factor : ℕ → ℤ
even_factor i = zeta (64 + i)

abbrev odd_factor : ℕ → ℤ
odd_factor i = int16 (pos 0 -ℤ zeta (64 + i))

abbrev is_factor : ℤ → ℕ → Bool
is_factor z g = leb (pos_part z) 1664 && leb (neg_part z) 1664 && residue z == g * 65536 % q

factor_table :
    all_below 64 (λ i.
      is_factor (even_factor i) (gamma (2 * i)) && is_factor (odd_factor i) (gamma (2 * i + 1)))
    ≡ true
unfolding all_below zeta residue gamma int16 ◌-ℤ◌
factor_table = refl

abbrev Factor : ℤ → ℕ → Type 0
Factor z g = Within 1664 z × (residue z ≡ g * 65536 % q)

factors :
    (i : ℕ)
    → i < 64
    → Factor (even_factor i) (gamma (2 * i)) × Factor (odd_factor i) (gamma (2 * i + 1))
factors i h =
    let t =
      all_below_sound 64
        (λ i.
          is_factor (even_factor i) (gamma (2 * i)) && is_factor (odd_factor i) (gamma (2 * i + 1)))
        i factor_table h in
    ground arith

-- A reduced product of coefficients within 3328.
reduced :
    (a b : ℤ)
    → Within 3328 a
    → Within 3328 b
    → Within 3328 (montgomery_reduce (a *ℤ b))
      × (residue (montgomery_reduce (a *ℤ b)) ≡ residue a * residue b % q * 169 % q)
reduced a b ha hb =
    let w = mul-Within a b 3328 3328 ha hb in
    let fits : Within (2 ^ 15 * q - 1) (a *ℤ b) = omega arith in
    (
      (montgomery_reduce_lem (a *ℤ b) fits).0,
      residue-montgomery (a *ℤ b) fits ∙ ap (λ (r : ℕ). r * 169 % q) (residue-mul a b),
    )

abbrev SameResidues : ℤ × ℤ → ℕ × ℕ → Type 0
SameResidues (r0, r1) (c0, c1) =
    Within 6656 r0 × Within 6656 r1 × (residue r0 ≡ c0 * 169 % q) × (residue r1 ≡ c1 * 169 % q)

-- The numbers of a base case: the reductions' factors 2 ^ -16 and the Montgomery form of the factor.
low_sum :
    (x0 x1 y0 y1 g : ℕ)
    → (x1 * y1 % q * 169 % q * (g * 65536 % q) % q * 169 % q + x0 * y0 % q * 169 % q) % q
      ≡ (x0 * y0 + x1 * y1 % q * g) % q * 169 % q
low_sum x0 x1 y0 y1 g =
    let p : ℕ = x1 * y1 % q in
    let e = mul-mod_left (p * 169) (g * 65536 % q) q in
    let f = mul-mod_right (p * 169) (g * 65536) q in omega arith

basemul_lem :
    (a0 a1 b0 b1 z : ℤ) (g : ℕ)
    → Within 3328 a0
    → Within 3328 a1
    → Within 3328 b0
    → Within 3328 b1
    → Factor z g
    → SameResidues
        (basemul a0 a1 b0 b1 z)
        (base_case (residue a0) (residue a1) (residue b0) (residue b1) g)
unfolding basemul base_case
basemul_lem a0 a1 b0 b1 z g h0 h1 k0 k1 (hz, ez) =
    let m = montgomery_reduce (a1 *ℤ b1) in
    let r = montgomery_reduce (m *ℤ z) in
    let s = montgomery_reduce (a0 *ℤ b0) in
    let u = montgomery_reduce (a0 *ℤ b1) in
    let v = montgomery_reduce (a1 *ℤ b0) in
    let (bm, em) = reduced a1 b1 h1 k1 in
    let (br, er) = reduced m z bm (omega arith) in
    let (bs, es) = reduced a0 b0 h0 k0 in
    let (bu, eu) = reduced a0 b1 h0 k1 in
    let (bv, ev) = reduced a1 b0 h1 k0 in
    let w0 = sum-Within r s 3328 3328 br bs in
    let w1 = sum-Within u v 3328 3328 bu bv in
    let fit0 = int16_fits (r +ℤ s) (omega arith) in
    let fit1 = int16_fits (u +ℤ v) (omega arith) in
    (
      rw fit0 w0,
      rw fit1 w1,
      ap residue fit0
          ∙ residue-add r s
          ∙ ap₂ (λ (x y : ℕ). (x + y) % q) (er ∙ ap₂ (λ (x y : ℕ). x * y % q * 169 % q) em ez) es
          ∙ low_sum (residue a0) (residue a1) (residue b0) (residue b1) g,
      ap residue fit1 ∙ residue-add u v ∙ ap₂ (λ (x y : ℕ). (x + y) % q) eu ev ∙ omega arith,
    )

basemul_loop_lem :
    (n i : ℕ) (a b : List ℤ)
    → i + n ≤ 64
    → length a ≡ 4 * n
    → length b ≡ 4 * n
    → AllWithin 3328 a
    → AllWithin 3328 b
    → AllWithin 6656 (basemul_loop i a b)
      × (map residue (basemul_loop i a b) ≡ multiply_from (2 * i) (map residue a) (map residue b))
unfolding basemul_loop multiply_from
basemul_loop_lem zero i [] [] hi la lb ha hb = (tt, refl)
basemul_loop_lem (suc n) i (a0 ∷ a1 ∷ a2 ∷ a3 ∷ a) (b0 ∷ b1 ∷ b2 ∷ b3 ∷ b) hi la lb
      (h0, (h1, (h2, (h3, ha)))) (k0, (k1, (k2, (k3, hb)))) =
    let (even, odd) = factors i (omega arith) in
    let (w0, w1, e0, e1) =
      basemul_lem a0 a1 b0 b1 (even_factor i) (gamma (2 * i)) h0 h1 k0 k1 even in
    let (w2, w3, e2, e3) =
      basemul_lem a2 a3 b2 b3 (odd_factor i) (gamma (2 * i + 1)) h2 h3 k2 k3 odd in
    let (bt, et) = basemul_loop_lem n (i + 1) a b (omega arith) (omega arith) (omega arith) ha hb in
    let later : 2 * (i + 1) ≡ 2 * i + 1 + 1 = omega arith in
    (
      (w0, (w1, (w2, (w3, bt)))),
      λ t.
          e0 t
          ∷ e1 t
          ∷ e2 t
          ∷ e3 t
          ∷ (et ∙ ap (λ (j : ℕ). multiply_from j (map residue a) (map residue b)) later) t,
    )
basemul_loop_lem n i a b hi la lb ha hb = absurd (omega arith)

-- For two polynomials of 256 coefficients between -3328 and 3328 poly_basemul gives coefficients
-- between -6656 and 6656 whose residues are 2 ^ -16 times the products of Algorithm 11 of FIPS
-- 203: no sum wraps.
pub poly_basemul_lem :
    (a b : List ℤ)
    → length a ≡ 256
    → length b ≡ 256
    → AllWithin 3328 a
    → AllWithin 3328 b
    → AllWithin 6656 (poly_basemul a b)
      × (map residue (poly_basemul a b) ≡ multiply_from 0 (map residue a) (map residue b))
unfolding poly_basemul
poly_basemul_lem a b la lb ha hb =
    basemul_loop_lem 64 0 a b (omega arith) (la ∙ omega arith) (lb ∙ omega arith) ha hb
