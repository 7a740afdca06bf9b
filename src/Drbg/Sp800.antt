-- ===== src/Drbg/Sp800.antt =====
-- src/rmbl_drbg_core.h: the counter mode and the update of the state as SP 800-90A (10.2.1) writes
-- them, with V a number, against the loops.
use native.Mathlib.Nat.{mul-add-div_right, div-eq_of_lt, one-le-pow}
use mathlib.Core.Path.{ap₂}
use rmorie_bricklayer.Prelude.{
  ℕ, zero, suc, ◌+◌, ◌-◌, ◌*◌, ◌/◌, ◌%◌, ◌^◌, ◌<◌, bit_xor, List, [], ◌∷◌, ◌++◌, length, take, drop,
  replicate, ◌≡◌, refl, sym, ap, ◌∙◌, arith,
}
use rmorie_bricklayer.Prelude.Bytes.{IsBytes, be_val, be_bytes}
use rmorie_bricklayer.Prelude.Numbers.{byte_weight-suc}
use rmorie_bricklayer.Drbg.{BlockCipher, CtrDrbg, increment, overlay, padded}
use rmorie_bricklayer.Drbg.Aes.{xor_bytes}
use rmorie_bricklayer.Drbg.Counter.{be_val-lt, be_val-increment}
use rmorie_bricklayer.Drbg.Stream.{IsBlock, increment-IsBlock, counter, stream}

be_bytes-eq :
    (p : List ℕ) (w : ℕ) → IsBytes p → be_bytes (length p) (be_val p + w * 2 ^ (8 * length p)) ≡ p
unfolding be_bytes
be_bytes-eq [] w h = refl
be_bytes-eq (b ∷ p) w (hb, h) =
    let weight : ℕ = 2 ^ (8 * length p) in
    let total : ℕ = b * weight + be_val p + w * 2 ^ (8 * suc (length p)) in
    let regroup : total ≡ (b + w * 256) * weight + be_val p =
      omega (arith, ap (λ (t : ℕ). w * t) (byte_weight-suc (length p))) in
    let some_weight : 0 < weight = one-le-pow (8 * length p) 2 (omega arith) in
    let above : total / weight ≡ b + w * 256 =
      ap (λ (t : ℕ). t / weight) regroup
      ∙ mul-add-div_right some_weight (b + w * 256) (be_val p)
      ∙ omega (arith, div-eq_of_lt (be_val-lt p h)) in
    let digit : total / weight % 256 ≡ b =
      ap (λ (t : ℕ). t % 256) above ∙ (let e : (b + w * 256) % 256 ≡ b = omega arith in e) in
    let below : total ≡ be_val p + (b + w * 256) * weight = omega (arith, regroup) in
    ap₂ (λ (x : ℕ) (xs : List ℕ). x ∷ xs) digit
      (ap (be_bytes (length p)) below ∙ be_bytes-eq p (b + w * 256) h)

be_bytes-be_val : (p : List ℕ) → IsBytes p → be_bytes (length p) (be_val p) ≡ p
be_bytes-be_val p h =
    ap (be_bytes (length p))
      (let e : be_val p ≡ be_val p + 0 * 2 ^ (8 * length p) = omega arith in e)
    ∙ be_bytes-eq p 0 h

-- The exclusive or of two strings of one length.
unfoldable pub xored : List ℕ → List ℕ → List ℕ
xored [] ys = []
xored (x ∷ xs) [] = []
xored (x ∷ xs) (y ∷ ys) = bit_xor x y ∷ xored xs ys

pub xor_bytes-eq : (xs ys : List ℕ) → length xs ≡ length ys → xor_bytes xs ys ≡ xored xs ys
unfolding xor_bytes xored
xor_bytes-eq [] ys e = refl
xor_bytes-eq (x ∷ xs) [] e = absurd (omega (arith, e))
xor_bytes-eq (x ∷ xs) (y ∷ ys) e =
    ap (λ (t : List ℕ). bit_xor x y ∷ t) (xor_bytes-eq xs ys (omega (arith, e)))

-- Additional bytes with zeros up to 48.
unfoldable pub seed_bytes : List ℕ → List ℕ
seed_bytes add = take 48 add ++ replicate (48 - length add) 0

overlay-zeros :
    (n : ℕ) (add : List ℕ)
    → overlay (replicate n 0) add ≡ take n add ++ replicate (n - length add) 0
unfolding overlay
overlay-zeros zero add =
    ap (λ (k : ℕ). replicate k 0) (let e : 0 ≡ 0 - length add = omega arith in e)
overlay-zeros (suc n) [] =
    ap (λ (k : ℕ). replicate k 0) (let e : suc n ≡ suc n - 0 = omega arith in e)
overlay-zeros (suc n) (y ∷ add) =
    ap (λ (t : List ℕ). y ∷ t)
      (overlay-zeros n add
        ∙ ap (λ (k : ℕ). take n add ++ replicate k 0)
            (let e : n - length add ≡ suc n - suc (length add) = omega arith in e))

pub padded-seed_bytes : (add : List ℕ) → padded add ≡ seed_bytes add
unfolding seed_bytes
padded-seed_bytes add = overlay-zeros 48 add

-- A block holds a number modulo 2 ^ 128.
abbrev pub Holds : List ℕ → ℕ → Type 0
Holds v k = IsBlock v × (be_val v ≡ k % 2 ^ 128)

pub Holds-self : (v : List ℕ) → IsBlock v → Holds v (be_val v)
Holds-self v (size, h) =
    let small : be_val v < 2 ^ 128 = rw size at (be_val-lt v h) in ((size, h), omega arith)

increment-Holds : (v : List ℕ) (k : ℕ) → Holds v k → Holds (increment v) (k + 1)
increment-Holds v k ((size, h), e) =
    let one : be_val (increment v) ≡ (be_val v + 1) % 2 ^ 128 =
      rw size at (be_val-increment v h).0 in
    (increment-IsBlock v (size, h), omega (arith, one, e))

Holds-bytes : (v : List ℕ) (k : ℕ) → Holds v k → v ≡ be_bytes 16 (k % 2 ^ 128)
Holds-bytes v k ((size, h), e) =
    sym (be_bytes-be_val v h) ∙ ap (λ (n : ℕ). be_bytes n (be_val v)) size ∙ ap (be_bytes 16) e

pub counter-Holds : (i : ℕ) (v : List ℕ) (k : ℕ) → Holds v k → Holds (counter i v) (k + i)
unfolding counter
counter-Holds zero v k h = let e : k + 0 ≡ k = omega arith in rw e h
counter-Holds (suc i) v k h =
    let e : k + suc i ≡ k + 1 + i = omega arith in
    rw e (counter-Holds i (increment v) (k + 1) (increment-Holds v k h))

module _ (cipher : BlockCipher) where
  -- The cipher of the numbers after V, modulo 2 ^ 128.
  unfoldable pub ctr_blocks : ℕ → List ℕ → ℕ → List ℕ
  ctr_blocks zero key v = []
  ctr_blocks (suc n) key v =
      cipher.encrypt key (be_bytes 16 ((v + 1) % 2 ^ 128)) ++ ctr_blocks n key (v + 1)

  -- CTR_DRBG_Update: the key and V of 48 bytes of the counter mode, xored with the provided ones.
  unfoldable pub renewed : List ℕ → ℕ → List ℕ → CtrDrbg
  renewed key v provided =
      let temp = xored (ctr_blocks 3 key v) provided in
      record { key = take 32 temp; v = drop 32 temp }

  -- The state that the output is made from: updated where there are additional bytes.
  unfoldable pub prepared : CtrDrbg → List ℕ → CtrDrbg
  prepared st [] = st
  prepared st (a ∷ add) = renewed st.key (be_val st.v) (seed_bytes (a ∷ add))

  pub stream-eq-ctr_blocks :
      (n : ℕ) (key v : List ℕ) (k : ℕ) → Holds v k → stream cipher n key v ≡ ctr_blocks n key k
  unfolding stream ctr_blocks
  stream-eq-ctr_blocks zero key v k h = refl
  stream-eq-ctr_blocks (suc n) key v k h =
      let next = increment-Holds v k h in
      ap (λ (t : List ℕ). cipher.encrypt key (increment v) ++ t)
        (stream-eq-ctr_blocks n key (increment v) (k + 1) next)
      ∙ ap (λ (b : List ℕ). cipher.encrypt key b ++ ctr_blocks n key (k + 1))
          (Holds-bytes (increment v) (k + 1) next)
