-- ===== src/Bignum/Value.antt =====
-- The number that a vector of limbs stands for, and its digits in base 2 ^ 32.
use rmorie_bricklayer.Prelude.{
  ℕ, zero, suc, ◌+◌, ◌*◌, ◌^◌, ◌≤◌, ◌<◌, ◌≡◌, refl, ap, ◌∙◌, List, [], ◌∷◌, ◌++◌, arith, length,
  get_or,
}
use rmorie_bricklayer.Prelude.Numbers.{pow-add}

-- The specification: little-endian digits.
abbrev pub val : List ℕ → ℕ
val [] = 0
val (x ∷ a) = x + 2 ^ 32 * val a

abbrev pub IsLimbs : List ℕ → Type 0
IsLimbs [] = Unit
IsLimbs (x ∷ a) = (x < 2 ^ 32) × IsLimbs a

-- The weight of limb `i`.
abbrev pub weight : ℕ → ℕ
weight i = 2 ^ (32 * i)

pub weight-suc : (i : ℕ) → weight (suc i) ≡ 2 ^ 32 * weight i
weight-suc i =
    ap (λ (k : ℕ). 2 ^ k) (let e : 32 * suc i ≡ 32 + 32 * i = omega arith in e)
    ∙ pow-add 2 32 (32 * i)

pub val-lt : (a : List ℕ) → IsLimbs a → val a < weight (length a)
val-lt [] h = omega arith
val-lt (x ∷ a) h = omega (arith, weight-suc (length a), val-lt a h.1)

pub get_or-lt : (a : List ℕ) (i : ℕ) → IsLimbs a → get_or a i 0 < 2 ^ 32
get_or-lt [] i h = omega arith
get_or-lt (x ∷ a) zero h = h.0
get_or-lt (x ∷ a) (suc i) h = get_or-lt a i h.1

-- The value of the first `i` limbs, a missing limb counting as 0.
abbrev pub low : List ℕ → ℕ → ℕ
low a zero = 0
low a (suc i) = low a i + get_or a i 0 * weight i

pub low-nil : (i : ℕ) → low [] i ≡ 0
low-nil zero = refl
low-nil (suc i) = omega (arith, low-nil i)

pub low-cons : (x : ℕ) (a : List ℕ) (i : ℕ) → low (x ∷ a) (suc i) ≡ x + 2 ^ 32 * low a i
low-cons x a zero = omega arith
low-cons x a (suc i) =
    omega (arith, low-cons x a i, ap (λ (w : ℕ). get_or a i 0 * w) (weight-suc i))

pub low-eq-val : (a : List ℕ) (i : ℕ) → length a ≤ i → low a i ≡ val a
low-eq-val [] i h = low-nil i
low-eq-val (x ∷ a) zero h = absurd (omega arith)
low-eq-val (x ∷ a) (suc i) h = omega (arith, low-cons x a i, low-eq-val a i (omega arith))

pub low-lt : (a : List ℕ) (i : ℕ) → IsLimbs a → low a i < weight i
low-lt a zero h = omega arith
low-lt a (suc i) h = grind (arith, weight-suc i, low-lt a i h, get_or-lt a i h)

pub val-append : (a b : List ℕ) → val (a ++ b) ≡ val a + weight (length a) * val b
val-append [] b = omega arith
val-append (x ∷ a) b =
    omega (arith, val-append a b, ap (λ (w : ℕ). w * val b) (weight-suc (length a)))

pub IsLimbs-append : (a b : List ℕ) → IsLimbs a → IsLimbs b → IsLimbs (a ++ b)
IsLimbs-append [] b h k = k
IsLimbs-append (x ∷ a) b h k = (h.0, IsLimbs-append a b h.1 k)
