-- ===== src/Keccak/Lanes.antt =====
-- src/rmbl_keccak.cpp: that the whole-lane path of `rmbl_keccak_absorb` does what the byte loop
-- does.
use native.Mathlib.Nat.{pow-le-pow_right, mod-eq_of_lt, mul-le-mul_right, one-le-pow}
use mathlib.Core.Path.{subst}
use rmorie_bricklayer.Prelude.{
  ℕ, zero, suc, ◌+◌, ◌*◌, ◌/◌, ◌%◌, ◌^◌, ◌<◌, ◌≤◌, bit_or, bit_xor, List, [], ◌∷◌, ◌++◌, Bool-cases,
  inl, inr, ==_iff, ◌==◌, length, length-take, length-drop, take-append-drop, take, drop, ◌≡◌, refl,
  sym, ap, ◌∙◌, arith,
}
use rmorie_bricklayer.Prelude.Bits.{bit_or_above, bit_xor_assoc, bit_or-eq-bit_xor, bit_xor-zero}
use rmorie_bricklayer.Prelude.Bytes.{IsBytes, IsBytes-take, IsBytes-drop}
use rmorie_bricklayer.Prelude.Numbers.{byte_weight-suc}
use rmorie_bricklayer.Keccak.{xor_at, byte_loop, load_lane, lane_loop, absorb_block}

pub xor_at-zero : (s : List ℕ) (i : ℕ) → xor_at s i 0 ≡ s
unfolding xor_at
xor_at-zero [] i = refl
xor_at-zero (x ∷ s) zero = rw (bit_xor-zero x)
xor_at-zero (x ∷ s) (suc i) = ap (λ (t : List ℕ). x ∷ t) (xor_at-zero s i)

pub xor_at-xor_at : (s : List ℕ) (i v w : ℕ) → xor_at (xor_at s i v) i w ≡ xor_at s i (bit_xor v w)
unfolding xor_at
xor_at-xor_at [] i v w = refl
xor_at-xor_at (x ∷ s) zero v w = rw (bit_xor_assoc x v w)
xor_at-xor_at (x ∷ s) (suc i) v w = ap (λ (t : List ℕ). x ∷ t) (xor_at-xor_at s i v w)

pub byte_loop-append :
    (s : List ℕ) (j : ℕ) (xs ys : List ℕ)
    → byte_loop s j (xs ++ ys) ≡ byte_loop (byte_loop s j xs) (j + length xs) ys
unfolding byte_loop
byte_loop-append s j [] ys = ap (λ (t : ℕ). byte_loop s t ys) (let e : j ≡ j + 0 = omega arith in e)
byte_loop-append s j (x ∷ xs) ys =
    byte_loop-append (xor_at s (j / 8) (x * 2 ^ (8 * (j % 8)) % 2 ^ 64)) (j + 1) xs ys
    ∙ ap
        (λ (t : ℕ).
          byte_loop (byte_loop (xor_at s (j / 8) (x * 2 ^ (8 * (j % 8)) % 2 ^ 64)) (j + 1) xs) t ys)
        (let e : j + 1 + length xs ≡ j + suc (length xs) = omega arith in e)

byte_below : (b w : ℕ) → b < 256 → b * w ≤ 255 * w
byte_below b w h = mul-le-mul_right {n = 255} w (omega arith)

pub byte-shift : (b k : ℕ) → b < 256 → k < 8 → b * 2 ^ (8 * k) % 2 ^ 64 ≡ b * 2 ^ (8 * k)
byte-shift b k hb hk = mod-eq_of_lt (omega (arith, weight, below, one-le-pow (8 * k) 2))
  where
    weight : 256 * 2 ^ (8 * k) ≤ 2 ^ 64
    weight = omega (
      arith,
      byte_weight-suc k,
      pow-le-pow_right {n = 2} (omega arith) {i = 8 * suc k} {j = 64} (omega arith),
    )

    below : b * 2 ^ (8 * k) ≤ 255 * 2 ^ (8 * k)
    below = byte_below b (2 ^ (8 * k)) hb

-- The lower `k` bytes, or the lower `k + 1`.
field-lt : (v b k : ℕ) → v < 2 ^ (8 * k) → b < 256 → bit_or v (b * 2 ^ (8 * k)) < 2 ^ (8 * suc k)
field-lt v b k hv hb =
    omega (arith, bit_or_above (8 * k) b v hv, byte_weight-suc k, byte_below b (2 ^ (8 * k)) hb)

-- One round of the byte loop puts its byte above the ones in the lane.
lane_byte :
    (s : List ℕ) (i k v b : ℕ)
    → k < 8
    → v < 2 ^ (8 * k)
    → b < 256
    → xor_at (xor_at s i v) ((8 * i + k) / 8) (b * 2 ^ (8 * ((8 * i + k) % 8)) % 2 ^ 64)
      ≡ xor_at s i (bit_or v (b * 2 ^ (8 * k)))
lane_byte s i k v b hk hv hb = rw (
  quotient,
  remainder,
  byte-shift b k hb hk,
  xor_at-xor_at s i v (b * 2 ^ (8 * k)),
  bit_or-eq-bit_xor (8 * k) b v hv,
)
  where
    quotient : (8 * i + k) / 8 ≡ i
    quotient = omega arith

    remainder : (8 * i + k) % 8 ≡ k
    remainder = omega arith

-- From byte `k` of lane `i` on, with the lower bytes `v` in the lane already.
byte_loop-lane :
    (s : List ℕ) (i k v : ℕ) (bs : List ℕ)
    → k + length bs ≤ 8
    → v < 2 ^ (8 * k)
    → IsBytes bs
    → byte_loop (xor_at s i v) (8 * i + k) bs ≡ xor_at s i (load_lane k v bs)
unfolding byte_loop load_lane
byte_loop-lane s i k v [] h hv hb = refl
byte_loop-lane s i k v (b ∷ bs) h hv (hb, hbs) =
    rw (lane_byte s i k v b (omega arith) hv hb, byte-shift b k hb (omega arith), next)
      (byte_loop-lane s i (k + 1) (bit_or v (b * 2 ^ (8 * k))) bs (omega arith) fits hbs)
  where
    next : 8 * i + k + 1 ≡ 8 * i + (k + 1)
    next = omega arith

    fits : bit_or v (b * 2 ^ (8 * k)) < 2 ^ (8 * (k + 1))
    fits =
        subst (λ (t : ℕ). bit_or v (b * 2 ^ (8 * k)) < 2 ^ (8 * t))
          (let e : suc k ≡ k + 1 = omega arith in e) (field-lt v b k hv hb)

whole_lane :
    (s : List ℕ) (i : ℕ) (bs : List ℕ)
    → length bs ≡ 8
    → IsBytes bs
    → byte_loop s (8 * i) bs ≡ xor_at s i (load_lane 0 0 bs)
whole_lane s i bs h hb =
    ap (λ (t : List ℕ). byte_loop t (8 * i) bs) (sym (xor_at-zero s i))
    ∙ ap (λ (t : ℕ). byte_loop (xor_at s i 0) t bs) (let e : 8 * i ≡ 8 * i + 0 = omega arith in e)
    ∙ byte_loop-lane s i 0 0 bs (omega arith) (omega arith) hb

lane_loop-byte_loop :
    (n : ℕ) (s : List ℕ) (i : ℕ) (bs : List ℕ)
    → 8 * n ≤ length bs
    → IsBytes bs
    → lane_loop n s (8 * i) bs ≡ byte_loop s (8 * i) bs
unfolding lane_loop
lane_loop-byte_loop zero s i bs h hb = refl
lane_loop-byte_loop (suc n) s i bs h hb =
    rw (index, next)
      (lane_loop-byte_loop n (xor_at s i (load_lane 0 0 (take 8 bs))) (i + 1) (drop 8 bs)
          (omega (arith, length-drop 8 bs)) (IsBytes-drop 8 bs hb)
        ∙ ap (λ (t : List ℕ). byte_loop t (8 * (i + 1)) (drop 8 bs))
            (sym (whole_lane s i (take 8 bs) eight (IsBytes-take 8 bs hb)))
        ∙ ap (λ (t : ℕ). byte_loop (byte_loop s (8 * i) (take 8 bs)) t (drop 8 bs))
            (let e : 8 * (i + 1) ≡ 8 * i + length (take 8 bs) = omega (arith, eight) in e)
        ∙ sym (byte_loop-append s (8 * i) (take 8 bs) (drop 8 bs))
        ∙ ap (byte_loop s (8 * i)) (take-append-drop 8 bs))
  where
    index : 8 * i / 8 ≡ i
    index = omega arith

    next : 8 * i + 8 ≡ 8 * (i + 1)
    next = omega arith

    eight : length (take 8 bs) ≡ 8
    eight = omega (arith, length-take 8 bs)

-- The two paths of a block agree.
pub absorb_block_lem :
    (s : List ℕ) (pos : ℕ) (block : List ℕ)
    → IsBytes block
    → absorb_block s pos block ≡ byte_loop s pos block
unfolding absorb_block
absorb_block_lem s pos block hb = elim (Bool-cases (pos % 8 == 0)) [
  | inl e ↦ rw e (aligned ((==_iff _ _).0 e))
  | inr e ↦ rw e refl
]
  where
    aligned : pos % 8 ≡ 0 → lane_loop (length block / 8) s pos block ≡ byte_loop s pos block
    aligned e =
        let whole : pos ≡ 8 * (pos / 8) = omega (arith, e) in
        rw whole (lane_loop-byte_loop (length block / 8) s (pos / 8) block (omega arith) hb)
