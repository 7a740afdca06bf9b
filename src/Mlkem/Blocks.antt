-- ===== src/Mlkem/Blocks.antt =====
-- The blocks of the transforms of src/rmbl_mlkem_arith.h on residues.
use rmorie_bricklayer.Prelude.{
  ℕ, ◌+◌, ◌-◌, ◌*◌, ◌%◌, ◌≤◌, ◌<◌, ◌≡◌, refl, ap, ◌∙◌, List, [], ◌∷◌, map, arith,
}
use mathlib.Core.Path.{ap₂}
use rmorie_bricklayer.Prelude.Int.{ℤ, ◌+ℤ◌, ◌-ℤ◌, ◌*ℤ◌, Within, int16_fits}
use rmorie_bricklayer.Mlkem.{q, montgomery_reduce, barrett_reduce}
use rmorie_bricklayer.Mlkem.Ntt.{zeta, ntt_block, invntt_block}
use rmorie_bricklayer.Mlkem.Reduce.{residue, barrett_reduce_lem}
use rmorie_bricklayer.Mlkem.Residue.{residue-add, residue-sub}
use rmorie_bricklayer.Mlkem.Field.{zeta_q, twiddle}

abbrev pub AllWithin : ℕ → List ℤ → Type 0
AllWithin b [] = Unit
AllWithin b (x ∷ xs) = Within b x × AllWithin b xs

-- The inner loop of Algorithm 9 of FIPS 203 on the halves of a block.
unfoldable pub forward : ℕ → List ℕ → List ℕ → List ℕ × List ℕ
forward z [] hi = ([], hi)
forward z (x ∷ lo) [] = (x ∷ lo, [])
forward z (x ∷ lo) (y ∷ hi) =
    let (us, ws) = forward z lo hi in
    let t = z * y % q in ((x + t) % q ∷ us, (x + (q - t)) % q ∷ ws)

-- That of Algorithm 10.
unfoldable pub backward : ℕ → List ℕ → List ℕ → List ℕ × List ℕ
backward z [] hi = ([], hi)
backward z (x ∷ lo) [] = (x ∷ lo, [])
backward z (x ∷ lo) (y ∷ hi) =
    let (us, ws) = backward z lo hi in ((x + y) % q ∷ us, z * ((y + (q - x)) % q) % q ∷ ws)

pub sum-Within : (a b : ℤ) (m n : ℕ) → Within m a → Within n b → Within (m + n) (a +ℤ b)
unfolding ◌+ℤ◌
sum-Within a b m n h k = ground arith

difference-Within : (a b : ℤ) (m n : ℕ) → Within m a → Within n b → Within (m + n) (a -ℤ b)
unfolding ◌-ℤ◌
difference-Within a b m n h k = ground arith

pub AllWithin-weaken : (a b : ℕ) (r : List ℤ) → a ≤ b → AllWithin a r → AllWithin b r
AllWithin-weaken a b [] le h = tt
AllWithin-weaken a b (x ∷ r) le (hx, h) = (omega arith, AllWithin-weaken a b r le h)

cons_eq : (x y : ℕ) (xs ys : List ℕ) → x ≡ y → xs ≡ ys → x ∷ xs ≡ y ∷ ys
cons_eq x y xs ys e f = ap₂ (λ (a : ℕ) (as' : List ℕ). a ∷ as') e f

-- With coefficients within b the sums fit 16 bits, and are within b + q - 1.
pub ntt_block_lem :
    (k b : ℕ) (lo hi : List ℤ)
    → k < 128
    → b ≤ 29439
    → AllWithin b lo
    → AllWithin b hi
    → AllWithin (b + 3328) (ntt_block (zeta k) lo hi).0
      × AllWithin (b + 3328) (ntt_block (zeta k) lo hi).1
      × (map residue (ntt_block (zeta k) lo hi).0
          ≡ (forward (zeta_q k) (map residue lo) (map residue hi)).0)
      × (map residue (ntt_block (zeta k) lo hi).1
          ≡ (forward (zeta_q k) (map residue lo) (map residue hi)).1)
unfolding ntt_block forward
ntt_block_lem k b [] hi hk hb hl hh =
    (tt, AllWithin-weaken b (b + 3328) hi (omega arith) hh, refl, refl)
ntt_block_lem k b (x ∷ lo) [] hk hb hl hh =
    (AllWithin-weaken b (b + 3328) (x ∷ lo) (omega arith) hl, tt, refl, refl)
ntt_block_lem k b (x ∷ lo) (y ∷ hi) hk hb (hx, hl) (hy, hh) =
    let (bl, bh, el, eh) = ntt_block_lem k b lo hi hk hb hl hh in
    let (small, e) = twiddle k y hk (omega arith) in
    let t = montgomery_reduce (zeta k *ℤ y) in
    let s = sum-Within x t b 3328 hx small in
    let d = difference-Within x t b 3328 hx small in
    let fit_s = int16_fits (x +ℤ t) (omega arith) in
    let fit_d = int16_fits (x -ℤ t) (omega arith) in
    (
      (rw fit_s s, bl),
      (rw fit_d d, bh),
      cons_eq _ _ _ _ (ap residue fit_s ∙ residue-add x t ∙ ap (λ (r : ℕ). (residue x + r) % q) e)
          el,
      cons_eq _ _ _ _
          (ap residue fit_d ∙ residue-sub x t ∙ ap (λ (r : ℕ). (residue x + (q - r)) % q) e) eh,
    )

-- With coefficients below q every sum and difference fits 16 bits, and so are the new ones.
pub invntt_block_lem :
    (k : ℕ) (lo hi : List ℤ)
    → k < 128
    → AllWithin 3328 lo
    → AllWithin 3328 hi
    → AllWithin 3328 (invntt_block (zeta k) lo hi).0
      × AllWithin 3328 (invntt_block (zeta k) lo hi).1
      × (map residue (invntt_block (zeta k) lo hi).0
          ≡ (backward (zeta_q k) (map residue lo) (map residue hi)).0)
      × (map residue (invntt_block (zeta k) lo hi).1
          ≡ (backward (zeta_q k) (map residue lo) (map residue hi)).1)
unfolding invntt_block backward
invntt_block_lem k [] hi hk hl hh = (tt, hh, refl, refl)
invntt_block_lem k (x ∷ lo) [] hk hl hh = (hl, tt, refl, refl)
invntt_block_lem k (x ∷ lo) (y ∷ hi) hk (hx, hl) (hy, hh) =
    let (bl, bh, el, eh) = invntt_block_lem k lo hi hk hl hh in
    let s = sum-Within x y 3328 3328 hx hy in
    let d = difference-Within y x 3328 3328 hy hx in
    let fit_s = int16_fits (x +ℤ y) (omega arith) in
    let fit_d = int16_fits (y -ℤ x) (omega arith) in
    let (bs, es) = barrett_reduce_lem (x +ℤ y) (omega arith) in
    let (bd, ed) = twiddle k (y -ℤ x) hk (omega arith) in
    (
      (rw fit_s (omega arith), bl),
      (rw fit_d bd, bh),
      cons_eq _ _ _ _ (ap (λ (a : ℤ). residue (barrett_reduce a)) fit_s ∙ es ∙ residue-add x y) el,
      cons_eq _ _ _ _
          (ap (λ (a : ℤ). residue (montgomery_reduce (zeta k *ℤ a))) fit_d
            ∙ ed
            ∙ ap (λ (r : ℕ). zeta_q k * r % q) (residue-sub y x))
          eh,
    )
