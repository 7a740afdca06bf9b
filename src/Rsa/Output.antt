-- ===== src/Rsa/Output.antt =====
-- `to_bytes` writes the low bytes of a number, left-padded.
use native.Mathlib.Nat.{
  div-div-eq-div-mul, div-eq_of_lt, one-le-pow, mul_comm, lt_of_lt_of_le, pow-le-pow_right,
}
use native.Mathlib.Numerals.{add-one}
use mathlib.Core.Path.{subst}
use Prim.Native.Nat.add
use rmorie_bricklayer.Prelude.{
  ℕ, zero, suc, ◌+◌, ◌-◌, ◌*◌, ◌/◌, ◌%◌, ◌^◌, ◌≤◌, ◌<◌, ◌≡◌, refl, ap, sym, ◌∙◌, inl, inr, arith,
  length, ◌==◌, ==_iff, Bool-cases, [], ◌∷◌, List, false, ltb, leb, get_or, set, length-set,
  get_or-set_self, get_or-set_ne, leb→le, ltb→lt, replicate, length-replicate,
}
use rmorie_bricklayer.Prelude.Numbers.{pow-add, mod-mul, byte_weight-suc}
use rmorie_bricklayer.Prelude.Bytes.{be_val}
use rmorie_bricklayer.Bignum.{Big}
use rmorie_bricklayer.Bignum.Value.{val, IsLimbs, weight, weight-suc, val-lt}
use rmorie_bricklayer.Rsa.{put_byte, put_limbs, to_bytes}

-- Byte `i` of a number, from the low end.
abbrev byte : ℕ → ℕ → ℕ
byte v i = v / 2 ^ (8 * i) % 256

-- A vector whose byte `i` from the end is byte `i` of `v` holds the low bytes of `v`.
be_val_of_bytes :
    (v : ℕ) (out : List ℕ)
    → ((i : ℕ) → i < length out → get_or out (length out - 1 - i) 0 ≡ byte v i)
    → be_val out ≡ v % 2 ^ (8 * length out)
be_val_of_bytes v [] h = omega arith
be_val_of_bytes v (b ∷ out) h =
    let n = length out in
    let head : b ≡ byte v n =
      ap (λ (k : ℕ). get_or (b ∷ out) k 0) (let e : 0 ≡ suc n - 1 - n = omega arith in e)
      ∙ h n (omega arith) in
    let tail = be_val_of_bytes v out λ i lt.
      ap (λ (k : ℕ). get_or (b ∷ out) k 0)
        (let e : suc (n - 1 - i) ≡ suc n - 1 - i = omega arith in e)
      ∙ h i (omega arith) in
    let whole =
      ap (λ (t : ℕ). v % t) (byte_weight-suc n ∙ mul_comm 256 (2 ^ (8 * n)))
      ∙ mod-mul v (2 ^ (8 * n)) 256 (one-le-pow (8 * n) 2 (omega arith)) (omega arith) in
    omega (arith, whole, tail, ap (λ (t : ℕ). t * 2 ^ (8 * n)) head)

low_byte : (w b : ℕ) → b < 4 → w % 2 ^ 32 / 2 ^ (8 * b) % 2 ^ 8 ≡ w / 2 ^ (8 * b) % 256
low_byte w zero h = omega arith
low_byte w (suc zero) h = omega arith
low_byte w (suc (suc zero)) h = omega arith
low_byte w (suc (suc (suc zero))) h = omega arith
low_byte w (suc (suc (suc (suc b)))) h = absurd (omega arith)

module _ (v n : ℕ) where
  -- The bytes below position `k` from the end are written, the others are still 0.
  record Written (k : ℕ) (out : List ℕ) : Type 0 where
    size : length out ≡ n
    below : (i : ℕ) → i < n → i < k → get_or out (n - 1 - i) 0 ≡ byte v i
    rest : (i : ℕ) → i < n → k ≤ i → get_or out (n - 1 - i) 0 ≡ 0

  put_byte-Written :
      (limb i b : ℕ) (out : List ℕ)
      → limb / 2 ^ (8 * b) % 2 ^ 8 ≡ byte v (i * 4 + b)
      → Written (i * 4 + b) out
      → Written (i * 4 + b + 1) (put_byte n limb i b out)
  unfolding put_byte
  put_byte-Written limb i b out e w = elim (Bool-cases (leb n pos)) [
    | inl full ↦ rw full (record {
      size = w.size;
      below = λ j p q. w.below j p (omega (arith, leb→le n pos full));
      rest = λ j p q. w.rest j p (omega arith);
    })
    | inr room ↦ rw room (record {
      size = length-set out (n - 1 - pos) x ∙ w.size;
      below = λ j p q. elim (Bool-cases (j == pos)) [
        | inl here ↦ written room j ((==_iff j pos).0 here)
        | inr other ↦
            get_or-set_ne out (n - 1 - pos) (n - 1 - j) x 0 (ground arith)
            ∙ w.below j p (ground arith)
      ];
      rest = λ j p q.
          get_or-set_ne out (n - 1 - pos) (n - 1 - j) x 0 (omega arith) ∙ w.rest j p (omega arith);
    })
  ]
    where
      pos : ℕ
      pos = i * 4 + b

      x : ℕ
      x = limb / 2 ^ (8 * b) % 2 ^ 8

      written :
          leb n pos ≡ false
          → (j : ℕ) → j ≡ pos
          → get_or (set out (n - 1 - pos) x) (n - 1 - j) 0 ≡ byte v j
      written room j e' =
          ap (λ (k : ℕ). get_or (set out (n - 1 - pos) x) (n - 1 - k) 0) e'
          ∙ get_or-set_self out (n - 1 - pos) x 0
              (let lt : pos < n = ground arith in omega (arith, w.size))
          ∙ e
          ∙ ap (byte v) (sym e')

  -- Byte `b` of limb `i` is byte `4 * i + b` of the number.
  byte_of_limb :
      (limb i b : ℕ)
      → b < 4
      → limb ≡ v / weight i % 2 ^ 32
      → limb / 2 ^ (8 * b) % 2 ^ 8 ≡ byte v (i * 4 + b)
  byte_of_limb limb i b h e =
      ap (λ (t : ℕ). t / 2 ^ (8 * b) % 2 ^ 8) e
      ∙ low_byte (v / weight i) b h
      ∙ ap (λ (t : ℕ). t % 256) (div-div-eq-div-mul v (weight i) (2 ^ (8 * b)))
      ∙ ap (λ (t : ℕ). v / t % 256) (sym (pow-add 2 (32 * i) (8 * b)))
      ∙ ap (λ (k : ℕ). v / 2 ^ k % 256) (omega arith)

  put_limbs-Written :
      (i k : ℕ) (a : Big) (out : List ℕ)
      → IsLimbs a
      → v / weight i ≡ val a
      → k ≡ i * 4
      → Written k out
      → Written ((i + length a) * 4) (put_limbs n i a out)
  unfolding put_limbs
  put_limbs-Written i k [] out h e q w = subst (λ (j : ℕ). Written j out) (omega arith) w
  put_limbs-Written i k (limb ∷ a) out h e q w =
      subst (λ (j : ℕ). Written j (put_limbs n i (limb ∷ a) out)) (omega arith)
        (put_limbs-Written (i + 1) (i * 4 + 3 + 1) a _ h.1 next (omega arith) w4)
    where
      this : limb ≡ v / weight i % 2 ^ 32
      this = omega arith

      next : v / weight (i + 1) ≡ val a
      next =
          ap (λ (t : ℕ). v / t)
            (ap weight (add-one i) ∙ weight-suc i ∙ mul_comm (2 ^ 32) (weight i))
          ∙ sym (div-div-eq-div-mul v (weight i) (2 ^ 32))
          ∙ omega arith

      at :
          (b : ℕ) (o : List ℕ) (j : ℕ)
          → b < 4
          → j ≡ i * 4 + b
          → Written j o
          → Written (i * 4 + b + 1) (put_byte n limb i b o)
      at b o j lt e' u =
          put_byte-Written limb i b o (byte_of_limb limb i b lt this)
            (subst (λ (t : ℕ). Written t o) e' u)

      w4 : Written (i * 4 + 3 + 1) (
          put_byte n limb i 3 (put_byte n limb i 2 (put_byte n limb i 1 (put_byte n limb i 0 out))))
      w4 = at 3 _ _ (omega arith) (omega arith) (
          at 2 _ _ (omega arith) (omega arith)
            (at 1 _ _ (omega arith) (omega arith) (at 0 _ _ (omega arith) (omega arith) w)))

get_or-zeros : (n i : ℕ) → get_or {A = ℕ} (replicate n 0) i 0 ≡ 0
get_or-zeros zero i = refl
get_or-zeros (suc n) zero = refl
get_or-zeros (suc n) (suc i) = get_or-zeros n i

module _ (a : Big) (n : ℕ) (h : IsLimbs a) where
  filled : Written (val a) n (length a * 4) (to_bytes a n)
  unfolding to_bytes
  filled =
      subst (λ (k : ℕ). Written (val a) n (k * 4) (put_limbs n 0 a (replicate n 0)))
        (add.zero (length a))
        (put_limbs-Written (val a) n 0 0 a (replicate n 0) h (omega arith) refl (record {
          size = length-replicate n 0;
          below = λ i p q. absurd (omega arith);
          rest = λ i p q. get_or-zeros n (n - 1 - i);
        }))

  pub length-to_bytes : length (to_bytes a n) ≡ n
  length-to_bytes = filled.size

  byte_above : (i : ℕ) → length a * 4 ≤ i → byte (val a) i ≡ 0
  byte_above i p =
      ap (λ (t : ℕ). t % 256)
        (div-eq_of_lt (
          lt_of_lt_of_le (val-lt a h) (
            pow-le-pow_right {n = 2} (omega arith)
              (let q : 32 * length a ≤ 8 * i = omega arith in q))))

  -- `to_bytes` writes the number modulo `256 ^ n`: all of it where `n` bytes are enough.
  pub be_val-to_bytes : be_val (to_bytes a n) ≡ val a % 2 ^ (8 * n)
  be_val-to_bytes =
      be_val_of_bytes (val a) (to_bytes a n) (λ i p.
        ap (λ (m : ℕ). get_or (to_bytes a n) (m - 1 - i) 0) filled.size
        ∙ at i (subst (λ (m : ℕ). i < m) filled.size p))
      ∙ ap (λ (m : ℕ). val a % 2 ^ (8 * m)) filled.size
    where
      at : (i : ℕ) → i < n → get_or (to_bytes a n) (n - 1 - i) 0 ≡ byte (val a) i
      at i p = elim (Bool-cases (ltb i (length a * 4))) [
        | inl e ↦ filled.below i p (ltb→lt _ _ e)
        | inr e ↦ filled.rest i p (ground arith) ∙ sym (byte_above i (ground arith))
      ]
