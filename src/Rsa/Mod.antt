-- ===== src/Rsa/Mod.antt =====
-- `mod` by shift and subtract is the remainder.
use native.Mathlib.Nat.{mod-eq_of_lt, mod-eq-sub-mod, mod-add-mod, mod-lt, div-eq_of_lt, zero-mod}
use rmorie_bricklayer.Prelude.Numbers.{mul-mod_right}
use rmorie_bricklayer.Prelude.{
  ℕ, zero, suc, ◌+◌, ◌-◌, ◌*◌, ◌/◌, ◌%◌, ◌^◌, ◌≤◌, ◌<◌, ◌≡◌, ap, sym, ◌∙◌, inl, inr, arith,
  Bool-cases, [], ◌∷◌, if◌then◌else◌,
}
use rmorie_bricklayer.Bignum.{Big, Cmp, below, same, above, cmp, bit_length, trim}
use rmorie_bricklayer.Bignum.Value.{val, IsLimbs}
use rmorie_bricklayer.Bignum.Trim.{val-trim, trim-IsLimbs}
use rmorie_bricklayer.Bignum.Compare.{Says, cmp_lem}
use rmorie_bricklayer.Bignum.BitLength.{bit_length_lem}
use rmorie_bricklayer.Rsa.{mod_step, mod_loop, mod_big, not_below, shl1, bit, set_low, sub_in_place}
use rmorie_bricklayer.Rsa.Words.{
  digit, digit_next, bit_lem, val-shl1, shl1-IsLimbs, val-set_low, set_low-IsLimbs,
  val-sub_in_place, sub_in_place-IsLimbs,
}

mod_once : {v w m : ℕ} → v < 2 * m → m ≤ v → w + m ≡ v → w ≡ v % m
mod_once {v} {w} {m} p q e =
    let t : v - m ≡ w = omega arith in sym (mod-eq-sub-mod q ∙ mod-eq_of_lt (omega arith) ∙ t)

-- One subtraction brings a number below `2 * m` under `m`.
reduce_once :
    (r m : Big)
    → IsLimbs r
    → IsLimbs m
    → val r < 2 * val m
    → (val (if not_below (cmp r m) then sub_in_place r m else r) ≡ val r % val m)
      × IsLimbs (if not_below (cmp r m) then sub_in_place r m else r)
unfolding not_below
reduce_once r m hr hm h = go (cmp r m) (cmp_lem r m hr hm)
  where
    go :
        (c : Cmp)
        → Says c (val r) (val m)
        → (val (if not_below c then sub_in_place r m else r) ≡ val r % val m)
          × IsLimbs (if not_below c then sub_in_place r m else r)
    go below s = (sym (mod-eq_of_lt s), hr)
    go same s = (
      mod_once h (omega arith) (val-sub_in_place r m hr hm (omega arith)),
      sub_in_place-IsLimbs r m,
    )
    go above s = (
      mod_once h (omega arith) (val-sub_in_place r m hr hm (omega arith)),
      sub_in_place-IsLimbs r m,
    )

-- Shifting a digit into a remainder.
shift_in : (q d m : ℕ) → (2 * (q % m) + d) % m ≡ (2 * q + d) % m
shift_in q d m =
    sym (mod-add-mod (2 * (q % m)) m d)
    ∙ ap (λ (t : ℕ). (t + d) % m) (mul-mod_right 2 q m)
    ∙ mod-add-mod (2 * q) m d

module _ (a m : Big) (ha : IsLimbs a) (hm : IsLimbs m) (pos : 0 < val m) where
  -- `r` is the remainder of the digits of `a` from `i` on.
  abbrev IsRemainder : ℕ → Big → Type 0
  IsRemainder i r = IsLimbs r × (val r ≡ val a / 2 ^ i % val m)

  shifted :
      (i : ℕ) (r : Big)
      → IsLimbs r
      → let r2 = if bit a i then set_low (shl1 r) else shl1 r in
        IsLimbs r2 × (val r2 ≡ 2 * val r + digit (val a) i)
  shifted i r h = elim (Bool-cases (bit a i)) [
    | inl e ↦ rw e (
      set_low-IsLimbs (shl1 r) (shl1-IsLimbs r h) (omega (arith, val-shl1 r h)),
      omega (
        arith,
        val-set_low (shl1 r) (omega (arith, val-shl1 r h)),
        val-shl1 r h,
        sym (rw e at (bit_lem a i ha)),
      ),
    )
    | inr e ↦ rw e (shl1-IsLimbs r h, omega (arith, val-shl1 r h, sym (rw e at (bit_lem a i ha))))
  ]

  mod_step_lem : (i : ℕ) (r : Big) → IsRemainder (suc i) r → IsRemainder i (mod_step a m i r)
  unfolding mod_step
  mod_step_lem i r (h, e) =
      let r1 = shl1 r in
      let r2 = if bit a i then set_low r1 else r1 in
      let s = shifted i r h in
      let t = reduce_once r2 m s.0 hm (omega (arith, s.1, e, mod-lt (val a / 2 ^ suc i) pos)) in
      (
        t.1,
        t.0
            ∙ ap (λ (x : ℕ). x % val m) (s.1 ∙ ap (λ (x : ℕ). 2 * x + digit (val a) i) e)
            ∙ shift_in (val a / 2 ^ suc i) (digit (val a) i) (val m)
            ∙ ap (λ (x : ℕ). x % val m) (sym (digit_next (val a) i)),
      )

  mod_loop_lem : (i : ℕ) (r : Big) → IsRemainder i r → IsRemainder 0 (mod_loop a m i r)
  unfolding mod_loop
  mod_loop_lem zero r h = h
  mod_loop_lem (suc i) r h = mod_loop_lem i (mod_step a m i r) (mod_step_lem i r h)

  looped : IsRemainder 0 (mod_loop a m (bit_length a) (0 ∷ []))
  looped = mod_loop_lem (bit_length a) (0 ∷ []) (
    omega arith,
    sym (ap (λ (t : ℕ). t % val m) (div-eq_of_lt (bit_length_lem a ha).0) ∙ zero-mod (val m)),
  )

  mod_big_lem : IsLimbs (mod_big a m) × (val (mod_big a m) ≡ val a % val m)
  unfolding mod_big not_below
  mod_big_lem = go (cmp a m) (cmp_lem a m ha hm)
    where
      long : Big
      long = trim (mod_loop a m (bit_length a) (0 ∷ []))

      done : IsLimbs long × (val long ≡ val a % val m)
      done =
          (trim-IsLimbs _ looped.0, val-trim _ ∙ looped.1 ∙ ap (λ (t : ℕ). t % val m) (omega arith))

      go :
          (c : Cmp)
          → Says c (val a) (val m)
          → IsLimbs (if not_below c then long else a)
            × (val (if not_below c then long else a) ≡ val a % val m)
      go below s = (ha, sym (mod-eq_of_lt s))
      go same s = done
      go above s = done

-- `mod` gives the remainder by any modulus but zero.
pub val-mod_big :
    (a m : Big) → IsLimbs a → IsLimbs m → 0 < val m → val (mod_big a m) ≡ val a % val m
val-mod_big a m ha hm pos = (mod_big_lem a m ha hm pos).1

pub mod_big-IsLimbs : (a m : Big) → IsLimbs a → IsLimbs m → 0 < val m → IsLimbs (mod_big a m)
mod_big-IsLimbs a m ha hm pos = (mod_big_lem a m ha hm pos).0
