-- ===== src/Prelude/Bits.antt =====
-- The bit operators at variables: each is one step on the lowest binary digit, so a low mask is a
-- remainder, and `|` and `^` of disjoint fields are sums, at every width.
mod Digits
pub use Digits.{bit_or_step, bit_and_step, bit_xor_step, zero-bit_or, zero-bit_xor}
use mathlib.Core.WellFounded
use native.Mathlib.Nat.{pow-suc, pow-zero, mul-one, one-le-pow, mod-lt, mod-add-div}
use rmorie_bricklayer.Prelude.{
  ℕ, zero, suc, ◌+◌, ◌-◌, ◌*◌, ◌/◌, ◌%◌, ◌^◌, ◌≤◌, ◌<◌, bit_and, bit_or, bit_xor, ◌≡◌, refl, ap,
  sym, ◌∙◌, arith,
}
use rmorie_bricklayer.Prelude.Order.{lt_wf}

-- Strong induction from `a / 2` to `a`.
halving_induction {ℓ} :
    (P : ℕ → Type ℓ) → P 0 → ((a : ℕ) → P (suc a / 2) → P (suc a)) → (a : ℕ) → P a
halving_induction P base step a = WellFounded.induction lt_wf {C = P} a go
  where
    go : (n : ℕ) → ((m : ℕ) → m < n → P m) → P n
    go zero ih = base
    go (suc n) ih = step n (ih (suc n / 2) (omega arith))

pub bit_or-zero : (a : ℕ) → bit_or a 0 ≡ a
bit_or-zero =
    halving_induction (λ a. bit_or a 0 ≡ a) refl λ a ih. omega (arith, bit_or_step (suc a) 0, ih)

pub bit_xor-zero : (a : ℕ) → bit_xor a 0 ≡ a
bit_xor-zero =
    halving_induction (λ a. bit_xor a 0 ≡ a) refl λ a ih. omega (arith, bit_xor_step (suc a) 0, ih)

pub bit_and-zero : (a : ℕ) → bit_and a 0 ≡ 0
bit_and-zero =
    halving_induction (λ a. bit_and a 0 ≡ 0) refl λ a ih. omega (arith, bit_and_step (suc a) 0, ih)

pub bit_xor_self : (a : ℕ) → bit_xor a a ≡ 0
bit_xor_self =
    halving_induction (λ a. bit_xor a a ≡ 0) refl
      λ a ih. omega (arith, bit_xor_step (suc a) (suc a), ih)

-- A shift by one more place doubles.
shift-suc : (v w : ℕ) → v * 2 ^ suc w ≡ 2 * (v * 2 ^ w)
shift-suc v w = omega (arith, ap (λ (weight : ℕ). v * weight) (pow-suc 2 w))

-- `(q << k) | r` is a sum when `r` fits `k` bits.
pub bit_or_fields : (w high low : ℕ) → low < 2 ^ w → bit_or (high * 2 ^ w) low ≡ high * 2 ^ w + low
bit_or_fields zero high low fits = ground (arith, bit_or-zero high)
bit_or_fields (suc w) high low fits = ground (
  arith,
  bit_or_step (high * 2 ^ suc w) low,
  shift-suc high w,
  bit_or_fields w high (low / 2) (omega arith),
)

pub bit_xor_fields :
    (w high low : ℕ) → low < 2 ^ w → bit_xor (high * 2 ^ w) low ≡ high * 2 ^ w + low
bit_xor_fields zero high low fits = ground (arith, bit_xor-zero high)
bit_xor_fields (suc w) high low fits = ground (
  arith,
  bit_xor_step (high * 2 ^ suc w) low,
  shift-suc high w,
  bit_xor_fields w high (low / 2) (omega arith),
)

bit_and_fields : (w high low : ℕ) → low < 2 ^ w → bit_and (high * 2 ^ w + low) (2 ^ w - 1) ≡ low
bit_and_fields zero high low fits = ground (arith, bit_and-zero (high * 1 + low))
bit_and_fields (suc w) high low fits = ground (
  arith,
  bit_and_step (high * 2 ^ suc w + low) (2 ^ suc w - 1),
  shift-suc high w,
  pow-suc 2 w,
  bit_and_fields w high (low / 2) (omega arith),
)

-- A mask of the low bits is a remainder.
pub bit_and_mask : (width v : ℕ) → bit_and v (2 ^ width - 1) ≡ v % 2 ^ width
bit_and_mask width v =
    let low : v % 2 ^ width < 2 ^ width = mod-lt v (one-le-pow width 2 (omega arith)) in
    let whole : v / 2 ^ width * 2 ^ width + v % 2 ^ width ≡ v =
      omega (arith, mod-add-div v (2 ^ width)) in
    rw whole at (bit_and_fields width (v / 2 ^ width) (v % 2 ^ width) low)

pub bit_or_comm : (a b : ℕ) → bit_or a b ≡ bit_or b a
bit_or_comm =
    halving_induction (λ a. (b : ℕ) → bit_or a b ≡ bit_or b a)
      (λ b. zero-bit_or b ∙ sym (bit_or-zero b))
      λ a ih b. omega (arith, bit_or_step (suc a) b, bit_or_step b (suc a), ih (b / 2))

-- `r | (q << k)` for an `r` of `k` bits.
pub bit_or_above : (k q r : ℕ) → r < 2 ^ k → bit_or r (q * 2 ^ k) ≡ r + q * 2 ^ k
bit_or_above k q r fits = omega (arith, bit_or_comm r (q * 2 ^ k), bit_or_fields k q r fits)

pub le-bit_or : (a b : ℕ) → a ≤ bit_or a b
le-bit_or =
    halving_induction (λ a. (b : ℕ) → a ≤ bit_or a b) (λ b. omega arith)
      λ a ih b. omega (arith, bit_or_step (suc a) b, ih (b / 2))

pub bit_xor_comm : (a b : ℕ) → bit_xor a b ≡ bit_xor b a
bit_xor_comm =
    halving_induction (λ a. (b : ℕ) → bit_xor a b ≡ bit_xor b a)
      (λ b. zero-bit_xor b ∙ sym (bit_xor-zero b))
      λ a ih b. omega (arith, bit_xor_step (suc a) b, bit_xor_step b (suc a), ih (b / 2))

-- `^` acts on the upper digits alone.
pub bit_xor-half : (a b : ℕ) → bit_xor a b / 2 ≡ bit_xor (a / 2) (b / 2)
bit_xor-half a b = omega (arith, bit_xor_step a b)

pub bit_xor_assoc : (a b c : ℕ) → bit_xor (bit_xor a b) c ≡ bit_xor a (bit_xor b c)
bit_xor_assoc =
    halving_induction (λ a. (b c : ℕ) → bit_xor (bit_xor a b) c ≡ bit_xor a (bit_xor b c))
      (λ b c. rw (zero-bit_xor b, zero-bit_xor (bit_xor b c)))
      λ a ih b c.
        let left : bit_xor (bit_xor (suc a) b / 2) (c / 2)
            ≡ bit_xor (bit_xor (suc a / 2) (b / 2)) (c / 2) =
          ap (λ (t : ℕ). bit_xor t (c / 2)) (bit_xor-half (suc a) b) in
        let right : bit_xor (suc a / 2) (bit_xor b c / 2)
            ≡ bit_xor (suc a / 2) (bit_xor (b / 2) (c / 2)) =
          ap (λ (t : ℕ). bit_xor (suc a / 2) t) (bit_xor-half b c) in
        omega (
          arith,
          bit_xor_step (suc a) b,
          bit_xor_step b c,
          bit_xor_step (bit_xor (suc a) b) c,
          bit_xor_step (suc a) (bit_xor b c),
          left,
          right,
          ih (b / 2) (c / 2),
        )

-- `|` and `^` of disjoint fields agree.
pub bit_or-eq-bit_xor : (k q r : ℕ) → r < 2 ^ k → bit_or r (q * 2 ^ k) ≡ bit_xor r (q * 2 ^ k)
bit_or-eq-bit_xor k q r fits =
    omega (arith, bit_or_above k q r fits, bit_xor_comm r (q * 2 ^ k), bit_xor_fields k q r fits)

-- `^` of two shifted numbers.
pub bit_xor-shift : (k a b : ℕ) → bit_xor (a * 2 ^ k) (b * 2 ^ k) ≡ bit_xor a b * 2 ^ k
bit_xor-shift zero a b = rw (pow-zero, mul-one a, mul-one b, mul-one (bit_xor a b)) refl
bit_xor-shift (suc k) a b =
    rw (shift-suc a k, shift-suc b k, shift-suc (bit_xor a b) k)
      (omega (arith, bit_xor_step (2 * (a * 2 ^ k)) (2 * (b * 2 ^ k)), halves, bit_xor-shift k a b))
  where
    halves : bit_xor (2 * (a * 2 ^ k) / 2) (2 * (b * 2 ^ k) / 2) ≡ bit_xor (a * 2 ^ k) (b * 2 ^ k)
    halves =
        rw
          (
            let e : 2 * (a * 2 ^ k) / 2 ≡ a * 2 ^ k = omega arith in e,
            let e : 2 * (b * 2 ^ k) / 2 ≡ b * 2 ^ k = omega arith in e,
          )
          refl

-- `^` needs no more bits than its operands.
pub bit_xor-lt : (w a b : ℕ) → a < 2 ^ w → b < 2 ^ w → bit_xor a b < 2 ^ w
bit_xor-lt zero a b ha hb =
    let za : a ≡ 0 = omega arith in let zb : b ≡ 0 = omega arith in rw (za, zb) (omega arith)
bit_xor-lt (suc w) a b ha hb = omega (
  arith,
  pow-suc 2 w,
  bit_xor_step a b,
  bit_xor-lt w (a / 2) (b / 2) (omega (arith, pow-suc 2 w)) (omega (arith, pow-suc 2 w)),
)

-- Nor does `|`.
pub bit_or-lt : (w a b : ℕ) → a < 2 ^ w → b < 2 ^ w → bit_or a b < 2 ^ w
bit_or-lt zero a b ha hb =
    let za : a ≡ 0 = omega arith in let zb : b ≡ 0 = omega arith in rw (za, zb) (omega arith)
bit_or-lt (suc w) a b ha hb = omega (
  arith,
  pow-suc 2 w,
  bit_or_step a b,
  bit_or-lt w (a / 2) (b / 2) (omega (arith, pow-suc 2 w)) (omega (arith, pow-suc 2 w)),
)

-- A number is its low field and its high field.
pub bit_xor_split : (k x : ℕ) → bit_xor (x % 2 ^ k) (x / 2 ^ k * 2 ^ k) ≡ x
bit_xor_split k x =
    let low : x % 2 ^ k < 2 ^ k = mod-lt x (one-le-pow k 2 (omega arith)) in
    bit_xor_comm (x % 2 ^ k) (x / 2 ^ k * 2 ^ k)
    ∙ bit_xor_fields k (x / 2 ^ k) (x % 2 ^ k) low
    ∙ omega (arith, mod-add-div x (2 ^ k))

-- The upper digits pass an operand of eight bits.
pub bit_xor_above : (a b : ℕ) → b < 2 ^ 8 → bit_xor a b / 2 ^ 8 ≡ a / 2 ^ 8
bit_xor_above a b h =
    let low : ℕ = bit_xor (a % 2 ^ 8) b in
    let fits : low < 2 ^ 8 = bit_xor-lt 8 (a % 2 ^ 8) b (omega arith) h in
    let fields : bit_xor (a / 2 ^ 8 * 2 ^ 8) low ≡ a / 2 ^ 8 * 2 ^ 8 + low =
      bit_xor_fields 8 (a / 2 ^ 8) low fits in
    let whole : bit_xor (a / 2 ^ 8 * 2 ^ 8) low ≡ bit_xor a b =
      sym (bit_xor_assoc (a / 2 ^ 8 * 2 ^ 8) (a % 2 ^ 8) b)
      ∙ ap (λ (t : ℕ). bit_xor t b)
          (bit_xor_comm (a / 2 ^ 8 * 2 ^ 8) (a % 2 ^ 8) ∙ bit_xor_split 8 a) in
    omega (arith, fits, fields, whole)
