-- ===== src/Rsa/Mul.antt =====
-- Schoolbook multiplication: no 64-bit sum wraps, the carry is never lost, and the product of the
-- numbers comes out.
use native.Mathlib.Nat.{mul-le-mul}
use rmorie_bricklayer.Prelude.{
  ℕ, zero, suc, ◌+◌, ◌*◌, ◌/◌, ◌^◌, ◌<◌, ◌≡◌, refl, ap, ◌∙◌, inl, inr, arith, length, ◌==◌,
  Bool-cases, [], ◌∷◌, replicate, length-replicate,
}
use rmorie_bricklayer.Prelude.Numbers.{pow-add}
use rmorie_bricklayer.Bignum.{Big}
use rmorie_bricklayer.Bignum.Value.{val, IsLimbs, weight, weight-suc, val-lt}
use rmorie_bricklayer.Bignum.Trim.{val-trim, trim-IsLimbs}
use rmorie_bricklayer.Rsa.{carry_loop, row_loop, mul_loop, mul, u64}

val-carry_loop :
    (r : Big) (carry : ℕ)
    → IsLimbs r
    → carry < 2 ^ 32
    → val r + carry < weight (length r)
    → val (carry_loop r carry) ≡ val r + carry
unfolding carry_loop
val-carry_loop [] carry h c fit = omega arith
val-carry_loop (x ∷ r) carry h c fit =
    ground (arith, weight-suc (length r), val-carry_loop r (u64 (x + carry) / 2 ^ 32))

carry_loop_shape :
    (r : Big) (carry : ℕ)
    → IsLimbs r
    → IsLimbs (carry_loop r carry) × (length (carry_loop r carry) ≡ length r)
unfolding carry_loop
carry_loop_shape [] carry h = (tt, refl)
carry_loop_shape (x ∷ r) carry h = elim (Bool-cases (carry == 0)) [
  | inl e ↦ rw e (h, refl)
  | inr e ↦ rw e (
      let ih = carry_loop_shape r (u64 (x + carry) / 2 ^ 32) h.1 in
      ((omega arith, ih.0), ap suc ih.1))
]

-- `x * y + z + carry` of 32-bit numbers fits 64 bits.
cur-lt : (x y z c : ℕ) → x < 2 ^ 32 → y < 2 ^ 32 → z < 2 ^ 32 → c < 2 ^ 32 → x * y + z + c < 2 ^ 64
cur-lt x y z c hx hy hz hc = omega (
  arith,
  mul-le-mul {n₁ = x} {m₁ = y} {n₂ = 4294967295} {m₂ = 4294967295} (omega arith) (omega arith),
)

val-row_loop :
    (x : ℕ) (b r : Big) (carry : ℕ)
    → x < 2 ^ 32
    → IsLimbs b
    → IsLimbs r
    → carry < 2 ^ 32
    → x * val b + val r + carry < weight (length r)
    → val (row_loop x b r carry) ≡ x * val b + val r + carry
unfolding row_loop
val-row_loop x [] r carry hx hb hr hc fit = omega (arith, val-carry_loop r carry hr hc)
val-row_loop x (y ∷ b) [] carry hx hb hr hc fit = omega arith
val-row_loop x (y ∷ b) (z ∷ r) carry hx hb hr hc fit =
    let fits = cur-lt x y z carry hx hb.0 hr.0 hc in
    omega (
      arith,
      fits,
      weight-suc (length r),
      val-row_loop x b r (u64 (x * y + z + carry) / 2 ^ 32) hx hb.1 hr.1 (omega arith),
    )

row_loop_shape :
    (x : ℕ) (b r : Big) (carry : ℕ)
    → IsLimbs r
    → IsLimbs (row_loop x b r carry) × (length (row_loop x b r carry) ≡ length r)
unfolding row_loop
row_loop_shape x [] r carry h = carry_loop_shape r carry h
row_loop_shape x (y ∷ b) [] carry h = (tt, refl)
row_loop_shape x (y ∷ b) (z ∷ r) carry h =
    let ih = row_loop_shape x b r (u64 (x * y + z + carry) / 2 ^ 32) h.1 in
    ((omega arith, ih.0), ap suc ih.1)

val-mul_loop :
    (a b r : Big)
    → IsLimbs a
    → IsLimbs b
    → IsLimbs r
    → val a * val b + val r < weight (length r)
    → (val (mul_loop a b r) ≡ val a * val b + val r) × IsLimbs (mul_loop a b r)
unfolding mul_loop
val-mul_loop [] b r ha hb hr fit = (omega arith, hr)
val-mul_loop (x ∷ a) b r ha hb hr fit =
    go (λ s. val-mul_loop a b s ha.1 hb) (row_loop x b r 0) (row_loop_shape x b r 0 hr)
      (val-row_loop x b r 0 ha.0 hb hr (omega arith) (grind arith))
  where
    go :
        ((s : Big)
          → IsLimbs s
          → val a * val b + val s < weight (length s)
          → (val (mul_loop a b s) ≡ val a * val b + val s) × IsLimbs (mul_loop a b s))
        → (s : Big) → IsLimbs s × (length s ≡ length r)
        → val s ≡ x * val b + val r + 0
        → (val (elim s [ [] ↦ [] | z ∷ r' ↦ z ∷ mul_loop a b r' ])
            ≡ (x + 2 ^ 32 * val a) * val b + val r)
          × IsLimbs (elim s [ [] ↦ [] | z ∷ r' ↦ z ∷ mul_loop a b r' ])
    go ih [] p e = (omega (arith, ap weight p.1), tt)
    go ih (z ∷ s) p e =
        let rest = ih s p.0.1 (omega (arith, ap weight p.1, weight-suc (length s), e)) in
        (omega (arith, rest.0, e), (p.0.0, rest.1))

zeros-IsLimbs : (n : ℕ) → IsLimbs (replicate n 0)
zeros-IsLimbs zero = tt
zeros-IsLimbs (suc n) = (omega arith, zeros-IsLimbs n)

val-zeros : (n : ℕ) → val (replicate n 0) ≡ 0
val-zeros zero = refl
val-zeros (suc n) = omega (arith, val-zeros n)

product-lt : (a b : Big) → IsLimbs a → IsLimbs b → val a * val b < weight (length a + length b)
product-lt a b ha hb =
    let e : weight (length a + length b) ≡ weight (length a) * weight (length b) =
      ap (λ (n : ℕ). 2 ^ n) (omega arith) ∙ pow-add 2 (32 * length a) (32 * length b) in
    rw e (strict (val-lt a ha) (val-lt b hb))
  where
    strict : {m n k l : ℕ} → m < k → n < l → m * n < k * l
    strict p q = grind arith

module _ (a b : Big) (ha : IsLimbs a) (hb : IsLimbs b) where
  product :
      (val (mul_loop a b (replicate (length a + length b) 0)) ≡ val a * val b)
      × IsLimbs (mul_loop a b (replicate (length a + length b) 0))
  product =
      let n = length a + length b in
      let m = val-mul_loop a b (replicate n 0) ha hb (zeros-IsLimbs n) (
        omega
          (arith, val-zeros n, product-lt a b ha hb, ap weight (length-replicate {A = ℕ} n 0))) in
      (omega (arith, m.0, val-zeros n), m.1)

  -- `mul` multiplies.
  pub val-mul : val (mul a b) ≡ val a * val b
  unfolding mul
  val-mul = val-trim _ ∙ product.0

  pub mul-IsLimbs : IsLimbs (mul a b)
  unfolding mul
  mul-IsLimbs = trim-IsLimbs _ product.1
