-- ===== src/Mlkem.antt =====
-- src/rmbl_mlkem_arith.h: the ring arithmetic of ML-KEM. An `int` is an integer: no value here leaves
-- the 32 bits; a cast to int16_t is written out.
pub mod Reduce
pub mod Ntt
pub mod Residue
pub mod Field
pub mod Blocks
pub mod Layers
pub mod Inverse
pub mod Transform
pub mod RoundTrip
pub mod Product
use rmorie_bricklayer.Prelude.{
  ℕ, zero, suc, ◌+◌, ◌-◌, ◌*◌, ◌/◌, ◌%◌, ◌^◌, bit_and, bit_or, List, [], ◌∷◌, ◌++◌, length, get_or,
  set, ltb, leb, ◌==◌, if◌then◌else◌,
}
use rmorie_bricklayer.Prelude.Int.{ℤ, pos, negsuc, ◌+ℤ◌, ◌-ℤ◌, ◌*ℤ◌, low16, int16, shift_right}

abbrev pub q : ℕ
q = 3329

abbrev pub q_inv : ℕ
q_inv = 62209

unfoldable pub montgomery_reduce : ℤ → ℤ
unfolding low16 int16 shift_right ◌-ℤ◌ ◌*ℤ◌
montgomery_reduce a =
    let t = int16 (pos (low16 a * q_inv % 2 ^ 32 % 2 ^ 16)) in
    int16 (shift_right 16 (a -ℤ t *ℤ pos q))

unfoldable pub barrett_reduce : ℤ → ℤ
unfolding int16 shift_right ◌+ℤ◌ ◌-ℤ◌ ◌*ℤ◌
barrett_reduce a =
    let v = int16 (pos ((2 ^ 26 + q / 2) / q)) in
    let t = int16 (shift_right 26 (v *ℤ a +ℤ pos (2 ^ 25))) in int16 (a -ℤ int16 (t *ℤ pos q))

unfoldable pub div_q : ℕ → ℕ
div_q n = n * 10321340 % 2 ^ 64 / 2 ^ 35 % 2 ^ 32

unfoldable pub mod_q : ℕ → ℕ
unfolding div_q
mod_q n = (n + 2 ^ 32 - 3329 * div_q n % 2 ^ 32) % 2 ^ 32

-- `& kQ` of a number that is 0 or -1, whose bits are those of 2 ^ 32 - 1.
unfoldable pub and_q : ℤ → ℕ
and_q (pos n) = bit_and n q
and_q (negsuc n) = bit_and (2 ^ 32 - 1 - n) q

unfoldable pub to_positive : ℤ → ℤ
unfolding shift_right and_q int16 ◌+ℤ◌
to_positive a = int16 (a +ℤ pos (and_q (shift_right 15 a)))
