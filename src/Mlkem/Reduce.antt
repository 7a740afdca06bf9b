-- ===== src/Mlkem/Reduce.antt =====
-- The reductions of src/rmbl_mlkem_arith.h against residues modulo q.
use rmorie_bricklayer.Prelude.{ℕ, ◌-◌, ◌*◌, ◌/◌, ◌%◌, ◌^◌, ◌<◌, ◌≡◌, arith}
use rmorie_bricklayer.Prelude.Int.{ℤ, pos, negsuc, ◌*ℤ◌, Within, shift_right}
use rmorie_bricklayer.Mlkem.{q, montgomery_reduce, barrett_reduce, div_q, mod_q, to_positive}

-- The class of an integer modulo q, as the number below q in it.
unfoldable pub residue : ℤ → ℕ
residue (pos n) = n % q
residue (negsuc n) = q - 1 - n % q

-- For n < 2 ^ 23 the multiplications and shifts of div_q and mod_q give the quotient and the
-- remainder of n by 3329.
pub div_q_lem : (n : ℕ) → n < 2 ^ 23 → (div_q n ≡ n / 3329) × (mod_q n ≡ n % 3329)
unfolding div_q mod_q
div_q_lem n h = omega arith

-- For |a| <= 32767 barrett_reduce gives a number between -1664 and 1664 that is a modulo q.
pub barrett_reduce_lem :
    (a : ℤ)
    → Within 32767 a
    → Within 1664 (barrett_reduce a) × (residue (barrett_reduce a) ≡ residue a)
unfolding barrett_reduce residue
barrett_reduce_lem (pos n) h = ground arith
barrett_reduce_lem (negsuc n) h = ground arith

-- For |a| < 2 ^ 15 * q montgomery_reduce gives a number between -3328 and 3328 that, times 2 ^ 16, is
-- a modulo q.
pub montgomery_reduce_lem :
    (a : ℤ)
    → Within (2 ^ 15 * q - 1) a
    → Within (q - 1) (montgomery_reduce a)
      × (residue (montgomery_reduce a *ℤ pos 65536) ≡ residue a)
unfolding montgomery_reduce residue ◌*ℤ◌
montgomery_reduce_lem (pos n) h = ground arith
montgomery_reduce_lem (negsuc n) h = ground arith

-- Between -3328 and 3328 to_positive gives the representative that is not negative.
pub to_positive_lem : (a : ℤ) → Within (q - 1) a → to_positive a ≡ pos (residue a)
unfolding to_positive residue
to_positive_lem (pos n) h =
    let e : n / 2 ^ 15 ≡ 0 = omega arith in rw (shift_right, e) (ground arith)
to_positive_lem (negsuc n) h =
    let e : n / 2 ^ 15 ≡ 0 = omega arith in rw (shift_right, e) (ground arith)
