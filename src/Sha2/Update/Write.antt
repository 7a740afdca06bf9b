-- ===== src/Sha2/Update/Write.antt =====
-- `memcpy` into an array.
use rmorie_bricklayer.Prelude.{
  ℕ, zero, suc, ◌+◌, ◌≤◌, List, [], ◌∷◌, ◌++◌, length, take, take_all, ◌≡◌, refl, sym, ap, ◌∙◌,
  arith,
}
use rmorie_bricklayer.Sha2.{write}

pub length-write : (buf : List ℕ) (i : ℕ) (src : List ℕ) → length (write buf i src) ≡ length buf
unfolding write
length-write [] i src = refl
length-write (x ∷ buf) (suc i) src = ap suc (length-write buf i src)
length-write (x ∷ buf) zero [] = refl
length-write (x ∷ buf) zero (b ∷ src) = ap suc (length-write buf zero src)

pub take-write :
    (buf : List ℕ) (i : ℕ) (src : List ℕ) (n : ℕ)
    → n ≡ i + length src
    → n ≤ length buf
    → take n (write buf i src) ≡ take i buf ++ src
unfolding write
take-write [] zero [] zero e h = refl
take-write [] zero (b ∷ src) zero e h = absurd (omega (arith, e))
take-write [] (suc i) src zero e h = absurd (omega (arith, e))
take-write [] i src (suc n) e h = absurd (omega arith)
take-write (x ∷ buf) (suc i) src zero e h = absurd (omega (arith, e))
take-write (x ∷ buf) (suc i) src (suc n) e h =
    ap (λ (t : List ℕ). x ∷ t) (take-write buf i src n (omega (arith, e)) (omega arith))
take-write (x ∷ buf) zero [] zero e h = refl
take-write (x ∷ buf) zero [] (suc n) e h = absurd (omega (arith, e))
take-write (x ∷ buf) zero (b ∷ src) zero e h = absurd (omega (arith, e))
take-write (x ∷ buf) zero (b ∷ src) (suc n) e h =
    ap (λ (t : List ℕ). b ∷ t) (take-write buf zero src n (omega (arith, e)) (omega arith))

-- A write up to the end of the array.
pub write_full :
    (buf : List ℕ) (i : ℕ) (src : List ℕ)
    → i + length src ≡ length buf
    → write buf i src ≡ take i buf ++ src
write_full buf i src h =
    sym (take_all (length buf) (write buf i src) (omega (arith, length-write buf i src)))
    ∙ take-write buf i src (length buf) (sym h) (omega arith)
