-- ===== src/Rsa/Bytes.antt =====
-- `from_bytes` reads a big-endian number.
use mathlib.Core.List.{reverse, reverse-cons}
use native.Mathlib.Nat.{mod-eq_of_lt}
use rmorie_bricklayer.Prelude.{
  ℕ, ◌+◌, ◌*◌, ◌%◌, ◌^◌, ◌<◌, ◌≡◌, refl, ap, ◌∙◌, arith, length, [], ◌∷◌, ◌++◌, List, length-append,
  bit_or,
}
use rmorie_bricklayer.Prelude.Numbers.{byte_weight-suc}
use rmorie_bricklayer.Prelude.Bits.{bit_or_fields, bit_or_above, zero-bit_or}
use rmorie_bricklayer.Prelude.Bytes.{IsBytes-append, IsBytes, be_val}
use rmorie_bricklayer.Bignum.{Big}
use rmorie_bricklayer.Bignum.Value.{val, IsLimbs}
use rmorie_bricklayer.Bignum.Trim.{val-trim, trim-IsLimbs}
use rmorie_bricklayer.Rsa.{from_bytes, from_bytes_loop, fold_bytes, or_zero}

le_val : List ℕ → ℕ
le_val [] = 0
le_val (b ∷ p) = b + 256 * le_val p

reverse-IsBytes : (p : List ℕ) → IsBytes p → IsBytes (reverse p)
reverse-IsBytes [] h = tt
reverse-IsBytes (b ∷ p) h =
    rw reverse-cons (IsBytes-append (reverse p) (b ∷ []) (reverse-IsBytes p h.1) (h.0, tt))

length-reverse : (p : List ℕ) → length (reverse p) ≡ length p
length-reverse [] = refl
length-reverse (b ∷ p) =
    rw reverse-cons (omega (arith, length-append (reverse p) (b ∷ []), length-reverse p))

le_val-snoc : (p : List ℕ) (b : ℕ) → le_val (p ++ b ∷ []) ≡ le_val p + b * 2 ^ (8 * length p)
unfolding le_val
le_val-snoc [] b = omega arith
le_val-snoc (c ∷ p) b =
    omega (arith, le_val-snoc p b, ap (λ (t : ℕ). b * t) (byte_weight-suc (length p)))

le_val-reverse : (p : List ℕ) → le_val (reverse p) ≡ be_val p
unfolding le_val
le_val-reverse [] = refl
le_val-reverse (b ∷ p) = rw reverse-cons (
    omega (
      arith,
      le_val-snoc (reverse p) b,
      le_val-reverse p,
      ap (λ (n : ℕ). b * 2 ^ (8 * n)) (length-reverse p),
    ))

-- A byte shifted above what is there.
or_at : (k q r : ℕ) → r < 2 ^ k → q * 2 ^ k < 2 ^ 32 → bit_or r (q * 2 ^ k % 2 ^ 32) ≡ r + q * 2 ^ k
or_at k q r hr hq = ap (bit_or r) (mod-eq_of_lt hq) ∙ bit_or_above k q r hr

word_val :
    (b0 b1 b2 b3 : ℕ)
    → b0 < 256
    → b1 < 256
    → b2 < 256
    → b3 < 256
    → bit_or
        (bit_or (bit_or b0 (b1 * 2 ^ 8 % 2 ^ 32)) (b2 * 2 ^ 16 % 2 ^ 32))
        (b3 * 2 ^ 24 % 2 ^ 32)
      ≡ b0 + b1 * 2 ^ 8 + b2 * 2 ^ 16 + b3 * 2 ^ 24
word_val b0 b1 b2 b3 h0 h1 h2 h3 =
    ap (λ (t : ℕ). bit_or (bit_or t (b2 * 2 ^ 16 % 2 ^ 32)) (b3 * 2 ^ 24 % 2 ^ 32))
      (or_at 8 b1 b0 (omega arith) (omega arith))
    ∙ ap (λ (t : ℕ). bit_or t (b3 * 2 ^ 24 % 2 ^ 32))
        (or_at 16 b2 (b0 + b1 * 2 ^ 8) (omega arith) (omega arith))
    ∙ or_at 24 b3 (b0 + b1 * 2 ^ 8 + b2 * 2 ^ 16) (omega arith) (omega arith)

-- `(v << 8) | b`.
fold_val : (v b : ℕ) → v < 2 ^ 24 → b < 256 → bit_or (v * 2 ^ 8 % 2 ^ 32) b ≡ v * 2 ^ 8 + b
fold_val v b hv hb =
    ap (λ (t : ℕ). bit_or t b) (mod-eq_of_lt {n = v * 2 ^ 8} {m = 2 ^ 32} (omega arith))
    ∙ bit_or_fields 8 v b hb

loop_val :
    (p : List ℕ) → IsBytes p → (val (from_bytes_loop p) ≡ le_val p) × IsLimbs (from_bytes_loop p)
unfolding from_bytes_loop fold_bytes le_val
loop_val [] h = (refl, tt)
loop_val (b0 ∷ []) h = rw (zero-bit_or b0) (omega arith)
loop_val (b0 ∷ b1 ∷ []) h = rw (zero-bit_or b1, fold_val b1 b0 (omega arith) h.0) (omega arith)
loop_val (b0 ∷ b1 ∷ b2 ∷ []) h =
    rw
      (
        zero-bit_or b2,
        fold_val b2 b1 (omega arith) h.1.0,
        fold_val (b2 * 2 ^ 8 + b1) b0 (omega arith) h.0,
      )
      (omega arith)
loop_val (b0 ∷ b1 ∷ b2 ∷ b3 ∷ p) h =
    let ih = loop_val p h.1.1.1.1 in
    let w = word_val b0 b1 b2 b3 h.0 h.1.0 h.1.1.0 h.1.1.1.0 in
    (omega (arith, w, ih.0), (omega (arith, w), ih.1))

val-or_zero : (a : Big) → IsLimbs a → (val (or_zero a) ≡ val a) × IsLimbs (or_zero a)
unfolding or_zero
val-or_zero [] h = omega arith
val-or_zero (x ∷ a) h = (refl, h)

-- The limbs of `from_bytes` stand for the big-endian number of the bytes.
pub val-from_bytes : (p : List ℕ) → IsBytes p → val (from_bytes p) ≡ be_val p
unfolding from_bytes
val-from_bytes p h =
    let l = loop_val (reverse p) (reverse-IsBytes p h) in
    val-trim _ ∙ (val-or_zero (from_bytes_loop (reverse p)) l.1).0 ∙ l.0 ∙ le_val-reverse p

pub from_bytes-IsLimbs : (p : List ℕ) → IsBytes p → IsLimbs (from_bytes p)
unfolding from_bytes
from_bytes-IsLimbs p h =
    trim-IsLimbs _
      (val-or_zero (from_bytes_loop (reverse p)) (loop_val (reverse p) (reverse-IsBytes p h)).1).1
