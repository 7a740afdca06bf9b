-- ===== src/Bignum/Compare.antt =====
-- `cmp` compares the numbers, whatever the numbers of limbs.
use native.Mathlib.Nat.{mul-le-mul_right}
use rmorie_bricklayer.Prelude.{
  ℕ, zero, suc, ◌+◌, ◌*◌, ◌≤◌, ◌<◌, ◌≡◌, refl, arith, length, get_or, ltb, ◌==◌, ==_iff, ltb→lt,
  Bool-cases, inl, inr, ap,
}
use rmorie_bricklayer.Bignum.{Big, Cmp, below, same, above, cmp, cmp_from}
use rmorie_bricklayer.Bignum.Value.{val, IsLimbs, low, low-lt, low-eq-val, weight}

-- What a result of `cmp` says of two numbers.
abbrev pub Says : Cmp → ℕ → ℕ → Type 0
Says below x y = x < y
Says same x y = x ≡ y
Says above x y = y < x

-- The higher digit decides.
digit_decides : (x y u v w : ℕ) → x < y → u < w → u + x * w < v + y * w
digit_decides x y u v w h k = omega (arith, mul-le-mul_right w h)

module _ (a b : Big) (ha : IsLimbs a) (hb : IsLimbs b) where
  cmp_from_lem : (i : ℕ) → Says (cmp_from i a b) (low a i) (low b i)
  unfolding cmp_from
  cmp_from_lem zero = refl
  cmp_from_lem (suc i) =
      let x = get_or a i 0 in
      let y = get_or b i 0 in
      elim (Bool-cases (x == y)) [
        | inl e ↦ rw e (keep (cmp_from i a b) ((==_iff x y).0 e) (cmp_from_lem i))
        | inr e ↦ rw e (elim (Bool-cases (ltb x y)) [
          | inl l ↦
              rw l (digit_decides x y (low a i) (low b i) (weight i) (ltb→lt x y l) (low-lt a i ha))
          | inr g ↦
              rw g (digit_decides y x (low b i) (low a i) (weight i) (ground arith) (low-lt b i hb))
        ])
      ]
    where
      keep :
          (c : Cmp)
          → get_or a i 0 ≡ get_or b i 0
          → Says c (low a i) (low b i)
          → Says c (low a (suc i)) (low b (suc i))
      keep below e h = omega (arith, ap (λ (t : ℕ). t * weight i) e)
      keep same e h = omega (arith, ap (λ (t : ℕ). t * weight i) e)
      keep above e h = omega (arith, ap (λ (t : ℕ). t * weight i) e)

  -- `cmp` gives -1, 0 or 1 as the first number is less than, equal to or greater than the second,
  -- also where the vectors differ in length or have high zero limbs.
  pub cmp_lem : Says (cmp a b) (val a) (val b)
  unfolding cmp
  cmp_lem = elim (Bool-cases (ltb (length b) (length a))) [
    | inl e ↦ rw e (to_val (length a) (omega arith) (ground arith))
    | inr e ↦ rw e (to_val (length b) (ground arith) (omega arith))
  ]
    where
      to_val : (i : ℕ) → length a ≤ i → length b ≤ i → Says (cmp_from i a b) (val a) (val b)
      to_val i p q = rw (low-eq-val a i p, low-eq-val b i q) at (cmp_from_lem i)
