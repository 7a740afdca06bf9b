-- ===== src/Prelude/Numbers.antt =====
-- Laws of powers, quotients and remainders that the libraries do not have for the native numbers.
use native.Mathlib.Nat.{
  pow-suc, pow-zero, add-zero, mul_assoc, mul_comm, add-mul-mod_self_left, mul-le-mul_left,
  mod-add-div, mod-eq_of_lt, mod-lt,
}
use rmorie_bricklayer.Prelude.{ℕ, zero, suc, ◌+◌, ◌*◌, ◌/◌, ◌%◌, ◌^◌, ◌<◌, ◌≡◌, ap, sym, ◌∙◌, arith}

pub pow-add : (a n m : ℕ) → a ^ (n + m) ≡ a ^ n * a ^ m
pow-add a n zero = rw (add-zero, pow-zero) (omega arith)
pow-add a n (suc m) =
    ap (λ (k : ℕ). a ^ k) (let e : n + suc m ≡ suc (n + m) = omega arith in e)
    ∙ pow-suc a (n + m)
    ∙ ap (λ (t : ℕ). t * a) (pow-add a n m)
    ∙ mul_assoc (a ^ n) (a ^ m) a
    ∙ ap (λ (t : ℕ). a ^ n * t) (sym (pow-suc a m))

pub mul-mod_left : (a b m : ℕ) → (a % m) * b % m ≡ a * b % m
mul-mod_left a b m =
    sym (add-mul-mod_self_left (a % m * b) m (a / m * b))
    ∙ ap (λ (t : ℕ). t % m) (omega (arith, ap (λ (t : ℕ). t * b) (mod-add-div a m)))

pub mul-mod_right : (a b m : ℕ) → a * (b % m) % m ≡ a * b % m
mul-mod_right a b m =
    ap (λ (t : ℕ). t % m) (mul_comm a (b % m))
    ∙ mul-mod_left b a m
    ∙ ap (λ (t : ℕ). t % m) (mul_comm b a)

-- Both factors of a product may be reduced first.
pub mul-mod-mod : (a b m : ℕ) → (a % m) * (b % m) % m ≡ a * b % m
mul-mod-mod a b m = mul-mod_left a (b % m) m ∙ mul-mod_right a b m

-- The remainder by a product, digit by digit.
pub mod-mul : (v p k : ℕ) → 0 < p → 0 < k → v % (p * k) ≡ v % p + p * (v / p % k)
mod-mul v p k hp hk =
    ap (λ (t : ℕ). t % (p * k)) whole
    ∙ add-mul-mod_self_left small (p * k) (v / p / k)
    ∙ mod-eq_of_lt small-lt
  where
    d : ℕ
    d = v / p % k

    small : ℕ
    small = v % p + p * d

    small-lt : small < p * k
    small-lt = omega (arith, mod-lt v hp, mul-le-mul_left p (mod-lt (v / p) hk))

    whole : v ≡ small + p * k * (v / p / k)
    whole = omega (arith, mod-add-div v p, ap (λ (t : ℕ). p * t) (mod-add-div (v / p) k))

-- The weight of byte `i`.
pub byte_weight-suc : (i : ℕ) → 2 ^ (8 * suc i) ≡ 256 * 2 ^ (8 * i)
byte_weight-suc i =
    ap (λ (k : ℕ). 2 ^ k) (let e : 8 * suc i ≡ 8 + 8 * i = omega arith in e) ∙ pow-add 2 8 (8 * i)
