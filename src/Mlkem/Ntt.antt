-- ===== src/Mlkem/Ntt.antt =====
-- The twiddle factors, the transforms and the products of src/rmbl_mlkem_arith.h. The rounds of an
-- inner loop touch disjoint pairs of coefficients, so a block is given by its two halves; the result
-- of a product does not overlap its factors.
use rmorie_bricklayer.Prelude.{
  ℕ, zero, suc, ◌+◌, ◌-◌, ◌*◌, ◌/◌, ◌%◌, ◌^◌, bit_and, bit_or, List, [], ◌∷◌, ◌++◌, map, get_or,
  take, drop, ltb, if◌then◌else◌,
}
use rmorie_bricklayer.Prelude.Int.{ℤ, pos, ◌+ℤ◌, ◌-ℤ◌, ◌*ℤ◌, int16}
use rmorie_bricklayer.Mlkem.{q, montgomery_reduce, barrett_reduce}

-- The loop of brv7, with `rounds` bits to go.
unfoldable pub brv_loop : ℕ → ℕ → ℕ → ℕ
brv_loop zero i r = r
brv_loop (suc rounds) i r =
    let b = 6 - rounds in brv_loop rounds i (bit_or r (bit_and (i / 2 ^ b) 1 * 2 ^ (6 - b)))

unfoldable pub brv7 : ℕ → ℕ
unfolding brv_loop
brv7 i = brv_loop 7 i 0

-- The powers of the root in Montgomery form, from `p` on.
unfoldable pub mont_powers : ℕ → ℕ → List ℕ
mont_powers zero p = []
mont_powers (suc rounds) p = p * 65536 % q ∷ mont_powers rounds (p * 17 % q)

-- The second loop of zetas, from index `i` on.
unfoldable pub zetas_from : ℕ → ℕ → List ℤ
unfolding mont_powers brv7 int16 ◌-ℤ◌
zetas_from zero i = []
zetas_from (suc rounds) i =
    let v = get_or (mont_powers 128 1) (brv7 i) 0 in
    int16 (if ltb (q / 2) v then pos v -ℤ pos q else pos v) ∷ zetas_from rounds (i + 1)

unfoldable pub zeta : ℕ → ℤ
unfolding zetas_from
zeta k = get_or (zetas_from 128 0) k (pos 0)

abbrev pub zeta_f : ℤ
zeta_f = pos 1441

-- The inner loop of ntt on the halves of a block.
unfoldable pub ntt_block : ℤ → List ℤ → List ℤ → List ℤ × List ℤ
unfolding montgomery_reduce int16 ◌+ℤ◌ ◌-ℤ◌ ◌*ℤ◌
ntt_block z [] hi = ([], hi)
ntt_block z (x ∷ lo) [] = (x ∷ lo, [])
ntt_block z (x ∷ lo) (y ∷ hi) =
    let (us, ws) = ntt_block z lo hi in
    let t = montgomery_reduce (z *ℤ y) in (int16 (x +ℤ t) ∷ us, int16 (x -ℤ t) ∷ ws)

-- The loop over the blocks of a layer, with the index of the next factor.
unfoldable pub ntt_layer : ℕ → ℕ → ℕ → List ℤ → List ℤ
unfolding ntt_block zeta
ntt_layer zero len k r = r
ntt_layer (suc blocks) len k r =
    let (lo, hi) = ntt_block (zeta k) (take len r) (take len (drop len r)) in
    lo ++ (hi ++ ntt_layer blocks len (k + 1) (drop len (drop len r)))

-- The loop over the layers: a layer of blocks of 2 * len coefficients has 256 / (2 * len).
unfoldable pub ntt_loop : ℕ → ℕ → ℕ → List ℤ → List ℤ
unfolding ntt_layer
ntt_loop zero len k r = r
ntt_loop (suc rounds) len k r =
    let blocks = 256 / (2 * len) in
    ntt_loop rounds (len / 2) (k + blocks) (ntt_layer blocks len k r)

unfoldable pub ntt : List ℤ → List ℤ
unfolding ntt_loop barrett_reduce
ntt r = map barrett_reduce (ntt_loop 7 128 1 r)

unfoldable pub invntt_block : ℤ → List ℤ → List ℤ → List ℤ × List ℤ
unfolding montgomery_reduce barrett_reduce int16 ◌+ℤ◌ ◌-ℤ◌ ◌*ℤ◌
invntt_block z [] hi = ([], hi)
invntt_block z (x ∷ lo) [] = (x ∷ lo, [])
invntt_block z (x ∷ lo) (y ∷ hi) =
    let (us, ws) = invntt_block z lo hi in
    (barrett_reduce (int16 (x +ℤ y)) ∷ us, montgomery_reduce (z *ℤ int16 (y -ℤ x)) ∷ ws)

-- Here the index of the factors goes down.
unfoldable pub invntt_layer : ℕ → ℕ → ℕ → List ℤ → List ℤ
unfolding invntt_block zeta
invntt_layer zero len k r = r
invntt_layer (suc blocks) len k r =
    let (lo, hi) = invntt_block (zeta k) (take len r) (take len (drop len r)) in
    lo ++ (hi ++ invntt_layer blocks len (k - 1) (drop len (drop len r)))

unfoldable pub invntt_loop : ℕ → ℕ → ℕ → List ℤ → List ℤ
unfolding invntt_layer
invntt_loop zero len k r = r
invntt_loop (suc rounds) len k r =
    let blocks = 256 / (2 * len) in
    invntt_loop rounds (2 * len) (k - blocks) (invntt_layer blocks len k r)

unfoldable pub invntt : List ℤ → List ℤ
unfolding invntt_loop montgomery_reduce ◌*ℤ◌
invntt r = map (λ a. montgomery_reduce (zeta_f *ℤ a)) (invntt_loop 7 2 127 r)

-- One degree-one base case, with `z` the factor in Montgomery form.
unfoldable pub basemul : ℤ → ℤ → ℤ → ℤ → ℤ → ℤ × ℤ
unfolding montgomery_reduce int16 ◌+ℤ◌ ◌*ℤ◌
basemul a0 a1 b0 b1 z =
    let r = montgomery_reduce (montgomery_reduce (a1 *ℤ b1) *ℤ z) in
    (
      int16 (r +ℤ montgomery_reduce (a0 *ℤ b0)),
      int16 (montgomery_reduce (a0 *ℤ b1) +ℤ montgomery_reduce (a1 *ℤ b0)),
    )

-- The loop of poly_basemul from round `i` on, over four coefficients of each.
unfoldable pub basemul_loop : ℕ → List ℤ → List ℤ → List ℤ
unfolding basemul zeta ◌-ℤ◌
basemul_loop i (a0 ∷ a1 ∷ a2 ∷ a3 ∷ a) (b0 ∷ b1 ∷ b2 ∷ b3 ∷ b) =
    let rest = basemul_loop (i + 1) a b in
    let (r0, r1) = basemul a0 a1 b0 b1 (zeta (64 + i)) in
    let (r2, r3) = basemul a2 a3 b2 b3 (int16 (pos 0 -ℤ zeta (64 + i))) in r0 ∷ r1 ∷ r2 ∷ r3 ∷ rest
basemul_loop i a b = []

unfoldable pub poly_basemul : List ℤ → List ℤ → List ℤ
unfolding basemul_loop
poly_basemul a b = basemul_loop 0 a b
