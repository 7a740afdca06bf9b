-- ===== src/Bignum/Trim.antt =====
-- `trim` drops high zero limbs only: the number, and that it has limbs, is kept.
use rmorie_bricklayer.Prelude.{
  ℕ, zero, suc, ◌+◌, ◌≤◌, ◌≡◌, refl, inl, inr, ◌&&◌, [], ◌∷◌, arith, length, ltb, ◌==◌, Bool-cases,
}
use rmorie_bricklayer.Bignum.{Big, back, pop_back, trim, trim_rounds}
use rmorie_bricklayer.Bignum.Value.{val, IsLimbs}

val-pop_back : (a : Big) → back a ≡ 0 → val (pop_back a) ≡ val a
unfolding back pop_back
val-pop_back [] h = refl
val-pop_back (x ∷ []) h = omega arith
val-pop_back (x ∷ y ∷ a) h = omega (arith, val-pop_back (y ∷ a) h)

pop_back-IsLimbs : (a : Big) → IsLimbs a → IsLimbs (pop_back a)
unfolding pop_back
pop_back-IsLimbs [] h = tt
pop_back-IsLimbs (x ∷ []) h = tt
pop_back-IsLimbs (x ∷ y ∷ a) h = (h.0, pop_back-IsLimbs (y ∷ a) h.1)

length-pop_back : (a : Big) → length (pop_back a) + 1 ≤ length a + 1
unfolding pop_back
length-pop_back [] = omega arith
length-pop_back (x ∷ []) = omega arith
length-pop_back (x ∷ y ∷ a) = omega (arith, length-pop_back (y ∷ a))

val-trim_rounds : (rounds : ℕ) (a : Big) → val (trim_rounds rounds a) ≡ val a
unfolding trim_rounds
val-trim_rounds zero a = refl
val-trim_rounds (suc rounds) a = ground (arith, val-trim_rounds rounds (pop_back a), val-pop_back a)

trim_rounds-IsLimbs : (rounds : ℕ) (a : Big) → IsLimbs a → IsLimbs (trim_rounds rounds a)
unfolding trim_rounds
trim_rounds-IsLimbs zero a h = h
trim_rounds-IsLimbs (suc rounds) a h = elim (Bool-cases (ltb 1 (length a) && back a == 0)) [
  | inl e ↦ rw e (trim_rounds-IsLimbs rounds (pop_back a) (pop_back-IsLimbs a h))
  | inr e ↦ rw e h
]

pub val-trim : (a : Big) → val (trim a) ≡ val a
unfolding trim
val-trim a = val-trim_rounds (length a) a

pub trim-IsLimbs : (a : Big) → IsLimbs a → IsLimbs (trim a)
unfolding trim
trim-IsLimbs a = trim_rounds-IsLimbs (length a) a
