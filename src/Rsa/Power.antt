-- ===== src/Rsa/Power.antt =====
-- `modexp`, square and multiply from the highest bit of the exponent, is modular exponentiation.
use native.Mathlib.Nat.{mod-mod, div-eq_of_lt, pow-suc, pow-zero, one-le-pow}
use rmorie_bricklayer.Prelude.{
  ℕ, zero, suc, ◌+◌, ◌*◌, ◌/◌, ◌%◌, ◌^◌, ◌<◌, ◌≡◌, refl, ap, sym, ◌∙◌, inl, inr, arith, ◌==◌,
  Bool-cases, [], ◌∷◌, if◌then◌else◌, Bool,
}
use rmorie_bricklayer.Prelude.Numbers.{pow-add, mul-mod-mod}
use rmorie_bricklayer.Bignum.{Big, bit_length}
use rmorie_bricklayer.Bignum.Value.{val, IsLimbs}
use rmorie_bricklayer.Bignum.BitLength.{HasBits, bit_length_lem}
use rmorie_bricklayer.Rsa.{modexp, modexp_loop, modexp_step, mod_big, mul, bit}
use rmorie_bricklayer.Rsa.Words.{digit, digit_next, bit_lem}
use rmorie_bricklayer.Rsa.Mul.{val-mul, mul-IsLimbs}
use rmorie_bricklayer.Rsa.Mod.{val-mod_big, mod_big-IsLimbs}

-- Residues multiply.
mod-mul_cong : (x y u v m : ℕ) → x % m ≡ u % m → y % m ≡ v % m → x * y % m ≡ u * v % m
mod-mul_cong x y u v m p q =
    sym (mul-mod-mod x y m)
    ∙ ap (λ (t : ℕ). t * (y % m) % m) p
    ∙ ap (λ (t : ℕ). u % m * t % m) q
    ∙ mul-mod-mod u v m

-- Only zero has no bits.
pub zero_bits : (v n : ℕ) → HasBits v n → (n == 0) ≡ (v == 0)
zero_bits v zero h = ground arith
zero_bits v (suc n) h = ground (arith, pow-suc 2 n, one-le-pow n 2)

module _ (m : Big) (hm : IsLimbs m) (pos : 0 < val m) where
  -- A product reduced, with the residue that it stands for.
  mul_mod :
      (a b : Big) (x y : ℕ)
      → IsLimbs a
      → IsLimbs b
      → val a % val m ≡ x % val m
      → val b % val m ≡ y % val m
      → IsLimbs (mod_big (mul a b) m) × (val (mod_big (mul a b) m) ≡ x * y % val m)
  mul_mod a b x y ha hb p q =
      let h = mul-IsLimbs a b ha hb in
      (
        mod_big-IsLimbs (mul a b) m h hm pos,
        val-mod_big (mul a b) m h hm pos
            ∙ ap (λ (t : ℕ). t % val m) (val-mul a b ha hb)
            ∙ mod-mul_cong (val a) (val b) x y (val m) p q,
      )

  module _ (base exp : Big) (hbase : IsLimbs base) (hexp : IsLimbs exp) where
    b : Big
    b = mod_big base m

    -- `r` is congruent to the power by the digits of the exponent from `i` on.
    abbrev power : ℕ → ℕ
    power i = val base ^ (val exp / 2 ^ i)

    modexp_step_lem :
        (i : ℕ) (r : Big)
        → IsLimbs r
        → val r % val m ≡ power (suc i) % val m
        → IsLimbs (modexp_step b exp m i r) × (val (modexp_step b exp m i r) ≡ power i % val m)
    unfolding modexp_step b
    modexp_step_lem i r h e = elim (Bool-cases (bit exp i)) [
      | inl t ↦ rw t (
          let u = product in
          (u.0, u.1 ∙ ap (λ (x : ℕ). x % val m) (odd (rw t at (bit_lem exp i hexp)))))
      | inr t ↦
          rw t
            (squared.0, squared.1 ∙ ap (λ (x : ℕ). x % val m) (even (rw t at (bit_lem exp i hexp))))
    ]
      where
        q : ℕ
        q = val exp / 2 ^ suc i

        squared :
            IsLimbs (mod_big (mul r r) m)
            × (val (mod_big (mul r r) m) ≡ power (suc i) * power (suc i) % val m)
        squared = mul_mod r r (power (suc i)) (power (suc i)) h h e e

        product :
            IsLimbs (mod_big (mul (mod_big (mul r r) m) (mod_big base m)) m)
            × (val (mod_big (mul (mod_big (mul r r) m) (mod_big base m)) m)
                ≡ power (suc i) * power (suc i) * val base % val m)
        product =
            mul_mod (mod_big (mul r r) m) (mod_big base m) (power (suc i) * power (suc i))
              (val base) squared.0 (mod_big-IsLimbs base m hbase hm pos)
              (ap (λ (x : ℕ). x % val m) squared.1 ∙ mod-mod _ (val m))
              (ap (λ (x : ℕ). x % val m) (val-mod_big base m hbase hm pos) ∙ mod-mod _ (val m))

        even : 0 ≡ digit (val exp) i → power (suc i) * power (suc i) ≡ power i
        even d =
            sym (pow-add (val base) q q)
            ∙ ap (λ (k : ℕ). val base ^ k) (omega (arith, digit_next (val exp) i))

        odd : 1 ≡ digit (val exp) i → power (suc i) * power (suc i) * val base ≡ power i
        odd d =
            ap (λ (t : ℕ). t * val base) (sym (pow-add (val base) q q))
            ∙ sym (pow-suc (val base) (q + q))
            ∙ ap (λ (k : ℕ). val base ^ k) (omega (arith, digit_next (val exp) i))

    modexp_loop_lem :
        (i : ℕ) (r : Big)
        → IsLimbs r
        → val r ≡ power i % val m
        → IsLimbs (modexp_loop b exp m i r) × (val (modexp_loop b exp m i r) ≡ power 0 % val m)
    unfolding modexp_loop
    modexp_loop_lem zero r h e = (h, e)
    modexp_loop_lem (suc i) r h e =
        let s = modexp_step_lem i r h (ap (λ (x : ℕ). x % val m) e ∙ mod-mod _ (val m)) in
        modexp_loop_lem i (modexp_step b exp m i r) s.0 s.1

    -- The first round also reduces the initial 1.
    entered :
        (n : ℕ)
        → HasBits (val exp) n
        → IsLimbs (modexp_loop b exp m n (1 ∷ []))
          × (val (modexp_loop b exp m n (1 ∷ [])) ≡ (if n == 0 then 1 else power 0 % val m))
    unfolding modexp_loop
    entered zero h = (omega arith, refl)
    entered (suc n) h =
        let s = modexp_step_lem n (1 ∷ []) (omega arith) (
          ap (λ (t : ℕ). t % val m) (sym (pow-zero (val base)))
          ∙ ap (λ (k : ℕ). val base ^ k % val m) (sym (div-eq_of_lt h.0))) in
        let t = modexp_loop_lem n (modexp_step b exp m n (1 ∷ [])) s.0 s.1 in
        (t.0, t.1 ∙ ground arith)

  -- `modexp` computes the power modulo `m`, and is 1 for the exponent zero, also modulo 1.
  pub modexp_lem :
      (base exp : Big)
      → IsLimbs base
      → IsLimbs exp
      → IsLimbs (modexp base exp m)
        × (val (modexp base exp m) ≡ (if val exp == 0 then 1 else val base ^ val exp % val m))
  unfolding modexp b
  modexp_lem base exp hbase hexp =
      let n = bit_length exp in
      let h = bit_length_lem exp hexp in
      let t = entered base exp hbase hexp n h in
      (
        t.0,
        t.1
            ∙ ap (λ (z : Bool). if z then 1 else val base ^ (val exp / 1) % val m)
                (zero_bits (val exp) n h)
            ∙ ap (λ (k : ℕ). if val exp == 0 then 1 else val base ^ k % val m) (omega arith),
      )
