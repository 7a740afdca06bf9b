-- ===== src/Rsa/Words.antt =====
-- Subtraction, doubling and reading a bit, limb by limb, against the number of a vector.
use rmorie_bricklayer.Prelude.{
  ℕ, zero, suc, ◌+◌, ◌-◌, ◌*◌, ◌/◌, ◌%◌, ◌^◌, ◌≤◌, ◌<◌, ◌≡◌, refl, ap, ◌∙◌, inl, inr, arith, length,
  get_or, ◌==◌, Bool-cases, [], ◌∷◌, bit_or, bit_and, ltb, if◌then◌else◌, not, leb, sym, leb→le,
}
use native.Mathlib.Nat.{div-div-eq-div-mul, zero-div, add-mul-div_left, pow-suc, one-le-pow}
use rmorie_bricklayer.Prelude.Numbers.{pow-add}
use rmorie_bricklayer.Prelude.Bits.{bit_or_fields, bit_and_mask}
use rmorie_bricklayer.Bignum.{Big}
use rmorie_bricklayer.Bignum.Value.{val, IsLimbs, weight, weight-suc}
use rmorie_bricklayer.Bignum.Trim.{val-trim, trim-IsLimbs}
use rmorie_bricklayer.Rsa.{sub_loop, sub_in_place, shl_loop, shl1, bit, set_low, u64}

val-sub_loop :
    (a b : Big) (borrow : ℕ)
    → IsLimbs a
    → IsLimbs b
    → borrow ≤ 1
    → val b + borrow ≤ val a
    → val (sub_loop a b borrow) + (val b + borrow) ≡ val a
unfolding sub_loop
val-sub_loop [] [] borrow ha hb c h = omega arith
val-sub_loop [] (y ∷ b) borrow ha hb c h = omega arith
val-sub_loop (x ∷ a) [] borrow ha hb c h =
    ground (arith, val-sub_loop a [] (if ltb x borrow then 1 else 0))
val-sub_loop (x ∷ a) (y ∷ b) borrow ha hb c h =
    ground (arith, val-sub_loop a b (if ltb x (u64 (y + borrow)) then 1 else 0))

sub_loop-IsLimbs : (a b : Big) (borrow : ℕ) → IsLimbs (sub_loop a b borrow)
unfolding sub_loop
sub_loop-IsLimbs [] b borrow = tt
sub_loop-IsLimbs (x ∷ a) [] borrow = (omega arith, sub_loop-IsLimbs a [] _)
sub_loop-IsLimbs (x ∷ a) (y ∷ b) borrow = (omega arith, sub_loop-IsLimbs a b _)

val-shl_loop :
    (a : Big) (carry : ℕ) → IsLimbs a → carry ≤ 1 → val (shl_loop a carry) ≡ 2 * val a + carry
unfolding shl_loop
val-shl_loop [] carry ha c = ground arith
val-shl_loop (x ∷ a) carry ha c = omega (
  arith,
  val-shl_loop a (x / 2 ^ 31) ha.1,
  bit_or_fields 1 (x % 2 ^ 31) carry (omega arith),
  even,
)
  where
    even : bit_or (x * 2 ^ 1 % 2 ^ 32) carry ≡ bit_or (x % 2 ^ 31 * 2 ^ 1) carry
    even = ap (λ (t : ℕ). bit_or t carry) (omega arith)

shl_loop-IsLimbs : (a : Big) (carry : ℕ) → IsLimbs a → carry ≤ 1 → IsLimbs (shl_loop a carry)
unfolding shl_loop
shl_loop-IsLimbs [] carry ha c = ground arith
shl_loop-IsLimbs (x ∷ a) carry ha c = (
  omega (arith, bit_or_fields 1 (x % 2 ^ 31) carry (omega arith), even),
  shl_loop-IsLimbs a (x / 2 ^ 31) ha.1 (omega arith),
)
  where
    even : bit_or (x * 2 ^ 1 % 2 ^ 32) carry ≡ bit_or (x % 2 ^ 31 * 2 ^ 1) carry
    even = ap (λ (t : ℕ). bit_or t carry) (omega arith)

-- `a -= b` for `b` at most `a`.
pub val-sub_in_place :
    (a b : Big) → IsLimbs a → IsLimbs b → val b ≤ val a → val (sub_in_place a b) + val b ≡ val a
unfolding sub_in_place
val-sub_in_place a b ha hb h = omega (arith, val-sub_loop a b 0 ha hb, val-trim (sub_loop a b 0))

pub sub_in_place-IsLimbs : (a b : Big) → IsLimbs (sub_in_place a b)
unfolding sub_in_place
sub_in_place-IsLimbs a b = trim-IsLimbs _ (sub_loop-IsLimbs a b 0)

pub val-shl1 : (a : Big) → IsLimbs a → val (shl1 a) ≡ 2 * val a
unfolding shl1
val-shl1 a h = omega (arith, val-shl_loop a 0 h)

pub shl1-IsLimbs : (a : Big) → IsLimbs a → IsLimbs (shl1 a)
unfolding shl1
shl1-IsLimbs a h = shl_loop-IsLimbs a 0 h (omega arith)

or_one : (x : ℕ) → x % 2 ≡ 0 → bit_or x 1 ≡ x + 1
or_one x h =
    ap (λ (t : ℕ). bit_or t 1) (let e : x ≡ x / 2 * 2 ^ 1 = omega arith in e)
    ∙ bit_or_fields 1 (x / 2) 1 (omega arith)
    ∙ omega arith

-- `r[0] |= 1` adds one to an even number.
pub val-set_low : (r : Big) → val r % 2 ≡ 0 → val (set_low r) ≡ val r + 1
unfolding set_low
val-set_low [] h = omega arith
val-set_low (x ∷ r) h = omega (arith, or_one x (omega arith))

pub set_low-IsLimbs : (r : Big) → IsLimbs r → val r % 2 ≡ 0 → IsLimbs (set_low r)
unfolding set_low
set_low-IsLimbs [] h e = omega arith
set_low-IsLimbs (x ∷ r) h e = (omega (arith, or_one x (omega arith)), h.1)

-- Binary digit `i` of a number.
abbrev pub digit : ℕ → ℕ → ℕ
digit v i = v / 2 ^ i % 2

limb_of_val : (a : Big) (l : ℕ) → IsLimbs a → get_or a l 0 ≡ val a / weight l % 2 ^ 32
limb_of_val [] l h = omega (arith, zero-div (weight l))
limb_of_val (x ∷ a) zero h = omega arith
limb_of_val (x ∷ a) (suc l) h =
    let shifted : (x + 2 ^ 32 * val a) / 2 ^ 32 ≡ val a = omega arith in
    rw (weight-suc l, ← div-div-eq-div-mul, shifted) (limb_of_val a l h.1)

-- A digit below the 32nd is a digit of the low 32 bits.
digit-mod : (v k : ℕ) → k < 32 → digit (v % 2 ^ 32) k ≡ digit v k
digit-mod v k h = omega (
  arith,
  add-mul-div_left (v % 2 ^ 32) (v / 2 ^ 32 * (2 * high)) (one-le-pow k 2 (omega arith)),
  ap (λ (t : ℕ). t / 2 ^ k) whole,
)
  where
    high : ℕ
    high = 2 ^ (31 - k)

    split : 2 ^ 32 ≡ 2 ^ k * (2 * high)
    split =
        ap (λ (n : ℕ). 2 ^ n) (let e : 32 ≡ k + suc (31 - k) = omega arith in e)
        ∙ pow-add 2 k (suc (31 - k))
        ∙ ap (λ (t : ℕ). 2 ^ k * t) (omega (arith, pow-suc 2 (31 - k)))

    whole : v ≡ v % 2 ^ 32 + 2 ^ k * (v / 2 ^ 32 * (2 * high))
    whole = omega (arith, ap (λ (t : ℕ). v / 2 ^ 32 * t) split)

bit_test : (n : ℕ) → (if not (bit_and n 1 == 0) then 1 else 0) ≡ n % 2
bit_test n = ground (arith, bit_and_mask 1 n)

limb_digit : (a : Big) (i : ℕ) → IsLimbs a → digit (get_or a (i / 32) 0) (i % 32) ≡ digit (val a) i
limb_digit a i h =
    ap (λ (t : ℕ). digit t (i % 32)) (limb_of_val a (i / 32) h)
    ∙ digit-mod (val a / weight (i / 32)) (i % 32) (omega arith)
    ∙ ap (λ (t : ℕ). t % 2) (div-div-eq-div-mul (val a) (weight (i / 32)) (2 ^ (i % 32)))
    ∙ ap (λ (t : ℕ). val a / t % 2) (sym (pow-add 2 (32 * (i / 32)) (i % 32)))
    ∙ ap (λ (t : ℕ). digit (val a) t) (omega arith)

get_or_end : (a : Big) (i : ℕ) → length a ≤ i → get_or a i 0 ≡ 0
get_or_end [] i h = refl
get_or_end (x ∷ a) zero h = absurd (omega arith)
get_or_end (x ∷ a) (suc i) h = get_or_end a i (omega arith)

-- `bit` reads a binary digit of the number, 0 beyond the last limb.
pub bit_lem : (a : Big) (i : ℕ) → IsLimbs a → (if bit a i then 1 else 0) ≡ digit (val a) i
unfolding bit
bit_lem a i h = elim (Bool-cases (leb (length a) (i / 32))) [
  | inl e ↦ rw e (
      sym (
        sym (limb_digit a i h)
        ∙ rw (get_or_end a (i / 32) (leb→le _ _ e)) (omega (arith, zero-div (2 ^ (i % 32))))))
  | inr e ↦ rw e (bit_test (get_or a (i / 32) 0 / 2 ^ (i % 32)) ∙ limb_digit a i h)
]

-- A number in terms of its digits from `i` on.
pub digit_next : (v i : ℕ) → v / 2 ^ i ≡ 2 * (v / 2 ^ suc i) + digit v i
digit_next v i =
    let e : v / 2 ^ suc i ≡ v / 2 ^ i / 2 =
      ap (λ (t : ℕ). v / t) (pow-suc 2 i) ∙ sym (div-div-eq-div-mul v (2 ^ i) 2) in
    omega (arith, e)
