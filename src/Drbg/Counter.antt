-- ===== src/Drbg/Counter.antt =====
-- src/rmbl_drbg_core.h, `increment`: the counter as a big-endian number.
use native.Mathlib.Nat.{mod-lt, add-mul-mod_self_left, mul-le-mul_right, mod-eq_of_lt}
use rmorie_bricklayer.Prelude.{
  ℕ, suc, ◌+◌, ◌*◌, ◌/◌, ◌%◌, ◌^◌, ◌<◌, ◌≤◌, List, [], ◌∷◌, length, ◌≡◌, refl, sym, ap, ◌∙◌, arith,
}
use rmorie_bricklayer.Prelude.Bytes.{IsBytes, be_val}
use rmorie_bricklayer.Prelude.Numbers.{byte_weight-suc}
use rmorie_bricklayer.Drbg.{increment_loop, increment}

pub be_val-lt : (v : List ℕ) → IsBytes v → be_val v < 2 ^ (8 * length v)
be_val-lt [] h = omega arith
be_val-lt (b ∷ v) h =
    let below : b * 2 ^ (8 * length v) ≤ 255 * 2 ^ (8 * length v) =
      mul-le-mul_right (2 ^ (8 * length v)) (let e : b ≤ 255 = omega (arith, h.0) in e) in
    omega (arith, be_val-lt v h.1, byte_weight-suc (length v), below)

-- The bytes and the carry out of them are the number and one more.
loop_lem :
    (v : List ℕ)
    → IsBytes v
    → (be_val (increment_loop v).0 + (increment_loop v).1 * 2 ^ (8 * length v) ≡ be_val v + 1)
      × IsBytes (increment_loop v).0
      × (length (increment_loop v).0 ≡ length v)
unfolding increment_loop
loop_lem [] h = (refl, tt, refl)
loop_lem (b ∷ v) h =
    let ih = loop_lem v h.1 in
    let s = b + (increment_loop v).1 in
    let split : s ≡ s % 256 + 256 * (s / 256) = omega arith in
    let size : s % 256 * 2 ^ (8 * length (increment_loop v).0) ≡ s % 256 * 2 ^ (8 * length v) =
      rw ih.2 refl in
    let sum : s % 256 * 2 ^ (8 * length (increment_loop v).0)
          + be_val (increment_loop v).0
          + s / 256 * 2 ^ (8 * suc (length v))
        ≡ b * 2 ^ (8 * length v) + be_val v + 1 =
      omega (
        arith,
        ih.0,
        ap (λ (t : ℕ). t * 2 ^ (8 * length v)) split,
        ap (λ (t : ℕ). s / 256 * t) (byte_weight-suc (length v)),
        size,
      ) in
    (sum, (mod-lt s {m = 256} (omega arith), ih.1), ap suc ih.2)

-- The counter of bytes counts: one more, modulo 256 to the number of its bytes (2 ^ 128 for
-- sixteen), and as many bytes again.
pub be_val-increment :
    (v : List ℕ)
    → IsBytes v
    → (be_val (increment v) ≡ (be_val v + 1) % 2 ^ (8 * length v))
      × IsBytes (increment v)
      × (length (increment v) ≡ length v)
unfolding increment
be_val-increment v h =
    let loop = loop_lem v h in
    let small : be_val (increment_loop v).0 < 2 ^ (8 * length v) =
      rw loop.2 at (be_val-lt (increment_loop v).0 loop.1) in
    (
      sym (mod-eq_of_lt small)
          ∙ sym (
              add-mul-mod_self_left (be_val (increment_loop v).0) (2 ^ (8 * length v))
                (increment_loop v).1)
          ∙ ap (λ (t : ℕ). t % 2 ^ (8 * length v)) (omega (arith, loop.0)),
      loop.1,
      loop.2,
    )
