-- ===== src/Mlkem/RoundTrip.antt =====
-- The whole transforms of src/rmbl_mlkem_arith.h.
use rmorie_bricklayer.Prelude.{
  ℕ, zero, suc, ◌+◌, ◌-◌, ◌*◌, ◌/◌, ◌%◌, ◌^◌, ◌≤◌, ◌<◌, ◌≡◌, refl, ap, ◌∙◌, List, [], ◌∷◌, map,
  arith, length, length-map, true, ◌==◌, ==_iff,
}
use mathlib.Core.Path.{ap₂}
use rmorie_bricklayer.Prelude.Bytes.{all_below, all_below_sound}
use rmorie_bricklayer.Prelude.Int.{ℤ, ◌*ℤ◌, Within}
use rmorie_bricklayer.Mlkem.{q, montgomery_reduce, barrett_reduce}
use rmorie_bricklayer.Mlkem.Ntt.{
  zeta_f, ntt_layer, ntt_loop, ntt, invntt_layer, invntt_loop, invntt,
}
use rmorie_bricklayer.Mlkem.Reduce.{residue, montgomery_reduce_lem, barrett_reduce_lem}
use rmorie_bricklayer.Mlkem.Residue.{residue-lt, residue-mul}
use rmorie_bricklayer.Mlkem.Field.{zeta_q, mul-Within, residue-montgomery}
use rmorie_bricklayer.Mlkem.Blocks.{AllWithin, AllWithin-weaken}
use rmorie_bricklayer.Mlkem.Layers.{
  forward_layer, backward_layer, AllBelow, double, double-AllBelow,
}
use rmorie_bricklayer.Mlkem.Inverse.{Paired, layer_back, layer_double, forward_layer_lem}
use rmorie_bricklayer.Mlkem.Transform.{ntt_layer_lem, invntt_layer_lem}

-- Algorithm 9 of FIPS 203 from the layer of blocks of 2 * len on, with `k` blocks.
unfoldable pub fips_loop : ℕ → ℕ → ℕ → List ℕ → List ℕ
unfolding forward_layer
fips_loop zero len k r = r
fips_loop (suc rounds) len k r = fips_loop rounds (len / 2) (2 * k) (forward_layer k len k r)

unfoldable pub fips_ntt : List ℕ → List ℕ
unfolding fips_loop
fips_ntt r = fips_loop 7 128 1 r

barrett_all :
    (b : ℕ) (r : List ℤ)
    → b ≤ 32767
    → AllWithin b r
    → AllWithin 1664 (map barrett_reduce r) × (map residue (map barrett_reduce r) ≡ map residue r)
barrett_all b [] le h = (tt, refl)
barrett_all b (x ∷ r) le (hx, h) =
    let (bx, ex) = barrett_reduce_lem x (omega arith) in
    let (br, er) = barrett_all b r le h in ((bx, br), ap₂ (λ (y : ℕ) (s : List ℕ). y ∷ s) ex er)

-- One round of the loop over the layers.
forward_round :
    (rounds len k b : ℕ) (r : List ℤ)
    → 256 / (2 * len) ≡ k
    → 2 * k ≤ 128
    → b ≤ 29439
    → AllWithin b r
    → ((s : List ℤ)
        → AllWithin (b + 3328) s
        → AllWithin 26624 (ntt_loop rounds (len / 2) (2 * k) s)
          × (map residue (ntt_loop rounds (len / 2) (2 * k) s)
              ≡ fips_loop rounds (len / 2) (2 * k) (map residue s)))
    → AllWithin 26624 (ntt_loop (suc rounds) len k r)
      × (map residue (ntt_loop (suc rounds) len k r) ≡ fips_loop (suc rounds) len k (map residue r))
unfolding ntt_loop fips_loop
forward_round rounds len k b r blocks hk hb h rest =
    let twice : k + k ≡ 2 * k = omega arith in
    let (bs, es) = ntt_layer_lem k len k b r (omega arith) hb h in
    let (bt, et) = rest (ntt_layer k len k r) bs in
    rw (ntt_loop, blocks, twice) (bt, et ∙ ap (fips_loop rounds (len / 2) (2 * k)) es)

forward_end :
    (r : List ℤ)
    → AllWithin 26624 r
    → AllWithin 26624 (ntt_loop 0 1 128 r)
      × (map residue (ntt_loop 0 1 128 r) ≡ fips_loop 0 1 128 (map residue r))
unfolding ntt_loop fips_loop
forward_end r h = (h, refl)

forward_loop :
    (r : List ℤ)
    → AllWithin 3328 r
    → AllWithin 26624 (ntt_loop 7 128 1 r)
      × (map residue (ntt_loop 7 128 1 r) ≡ fips_loop 7 128 1 (map residue r))
forward_loop r h = forward_round 6 128 1 3328 r refl (omega arith) (omega arith) h λ s2 h2.
    forward_round 5 64 2 6656 s2 refl (omega arith) (omega arith) h2 λ s3 h3.
      forward_round 4 32 4 9984 s3 refl (omega arith) (omega arith) h3 λ s4 h4.
        forward_round 3 16 8 13312 s4 refl (omega arith) (omega arith) h4 λ s5 h5.
          forward_round 2 8 16 16640 s5 refl (omega arith) (omega arith) h5 λ s6 h6.
            forward_round 1 4 32 19968 s6 refl (omega arith) (omega arith) h6 λ s7 h7.
              forward_round 0 2 64 23296 s7 refl (omega arith) (omega arith) h7
                λ s h. forward_end s h

-- For coefficients between -3328 and 3328 ntt gives coefficients between -1664 and 1664 whose
-- residues are those of Algorithm 9 of FIPS 203, with the powers 17 ^ BitRev7(k): no sum wraps.
pub ntt_lem :
    (r : List ℤ)
    → AllWithin 3328 r
    → AllWithin 1664 (ntt r) × (map residue (ntt r) ≡ fips_ntt (map residue r))
unfolding ntt fips_ntt
ntt_lem r h =
    let (b, e) = forward_loop r h in
    let (bs, es) = barrett_all 26624 (ntt_loop 7 128 1 r) (omega arith) b in (bs, es ∙ e)

-- Algorithm 10 of FIPS 203 from the layer of `blocks` blocks of 2 * len on, without its last factor.
unfoldable pub fips_back : ℕ → ℕ → ℕ → List ℕ → List ℕ
unfolding backward_layer
fips_back zero len blocks r = r
fips_back (suc rounds) len blocks r =
    fips_back rounds (2 * len) (blocks / 2) (backward_layer blocks len (2 * blocks - 1) r)

backward_round :
    (rounds len blocks k k' : ℕ) (r : List ℤ)
    → 256 / (2 * len) ≡ blocks
    → k ≡ 2 * blocks - 1
    → k - blocks ≡ k'
    → k < 128
    → AllWithin 3328 r
    → ((s : List ℤ)
        → AllWithin 3328 s
        → AllWithin 3328 (invntt_loop rounds (2 * len) k' s)
          × (map residue (invntt_loop rounds (2 * len) k' s)
              ≡ fips_back rounds (2 * len) (blocks / 2) (map residue s)))
    → AllWithin 3328 (invntt_loop (suc rounds) len k r)
      × (map residue (invntt_loop (suc rounds) len k r)
          ≡ fips_back (suc rounds) len blocks (map residue r))
unfolding invntt_loop fips_back
backward_round rounds len blocks k k' r eb ek ek' hk h rest =
    let (bs, es) = invntt_layer_lem blocks len k r hk h in
    let (bt, et) = rest (invntt_layer blocks len k r) bs in
    rw (invntt_loop, eb, ek')
      (
        bt,
        et
            ∙ ap (fips_back rounds (2 * len) (blocks / 2)) es
            ∙ ap
                (λ (j : ℕ).
                  fips_back rounds (2 * len) (blocks / 2)
                    (backward_layer blocks len j (map residue r)))
                ek,
      )

backward_end :
    (r : List ℤ)
    → AllWithin 3328 r
    → AllWithin 3328 (invntt_loop 0 256 0 r)
      × (map residue (invntt_loop 0 256 0 r) ≡ fips_back 0 256 0 (map residue r))
unfolding invntt_loop fips_back
backward_end r h = (h, refl)

backward_loop :
    (r : List ℤ)
    → AllWithin 3328 r
    → AllWithin 3328 (invntt_loop 7 2 127 r)
      × (map residue (invntt_loop 7 2 127 r) ≡ fips_back 7 2 64 (map residue r))
backward_loop r h = backward_round 6 2 64 127 63 r refl refl refl (omega arith) h λ s2 h2.
    backward_round 5 4 32 63 31 s2 refl refl refl (omega arith) h2 λ s3 h3.
      backward_round 4 8 16 31 15 s3 refl refl refl (omega arith) h3 λ s4 h4.
        backward_round 3 16 8 15 7 s4 refl refl refl (omega arith) h4 λ s5 h5.
          backward_round 2 32 4 7 3 s5 refl refl refl (omega arith) h5 λ s6 h6.
            backward_round 1 64 2 3 1 s6 refl refl refl (omega arith) h6 λ s7 h7.
              backward_round 0 128 1 1 0 s7 refl refl refl (omega arith) h7
                λ s h'. backward_end s h'

-- Doubling n times.
unfoldable pub doubles : ℕ → List ℕ → List ℕ
doubles zero s = s
doubles (suc n) s = doubles n (map double s)

doubles_lem :
    (n blocks len k : ℕ) (s : List ℕ)
    → length s ≡ blocks * (2 * len)
    → AllBelow s
    → backward_layer blocks len k (doubles n s) ≡ doubles n (backward_layer blocks len k s)
unfolding doubles
doubles_lem zero blocks len k s l h = refl
doubles_lem (suc n) blocks len k s l h =
    doubles_lem n blocks len k (map double s) (length-map s double ∙ l) (double-AllBelow s)
    ∙ ap (doubles n) (layer_double blocks len k s l h)

-- A layer backward after the same layer forward doubles once more.
undo :
    (n blocks len k k' : ℕ) (s : List ℕ)
    → Paired blocks k k'
    → length s ≡ blocks * (2 * len)
    → AllBelow s
    → backward_layer blocks len k' (doubles n (forward_layer blocks len k s)) ≡ doubles (suc n) s
unfolding doubles
undo n blocks len k k' s pairs l h =
    let (lf, hf) = forward_layer_lem blocks len k s l h in
    doubles_lem n blocks len k' (forward_layer blocks len k s) (lf ∙ l) hf
    ∙ ap (doubles n) (layer_back blocks len k k' s pairs l h)

paired :
    (blocks k k' : ℕ)
    → all_below blocks (λ i. (zeta_q (k + i) * zeta_q (k' - i) + 1) % q == 0) ≡ true
    → Paired blocks k k'
paired blocks k k' table i lt =
    (==_iff _ _).0
      (all_below_sound blocks (λ i. (zeta_q (k + i) * zeta_q (k' - i) + 1) % q == 0) i table lt)

pairs_1 : Paired 1 1 1
unfolding all_below zeta_q
pairs_1 = paired 1 1 1 refl

pairs_2 : Paired 2 2 3
unfolding all_below zeta_q
pairs_2 = paired 2 2 3 refl

pairs_4 : Paired 4 4 7
unfolding all_below zeta_q
pairs_4 = paired 4 4 7 refl

pairs_8 : Paired 8 8 15
unfolding all_below zeta_q
pairs_8 = paired 8 8 15 refl

pairs_16 : Paired 16 16 31
unfolding all_below zeta_q
pairs_16 = paired 16 16 31 refl

pairs_32 : Paired 32 32 63
unfolding all_below zeta_q
pairs_32 = paired 32 32 63 refl

pairs_64 : Paired 64 64 127
unfolding all_below zeta_q
pairs_64 = paired 64 64 127 refl

undo_all :
    (s0 : List ℕ) → length s0 ≡ 256 → AllBelow s0 → fips_back 7 2 64 (fips_ntt s0) ≡ doubles 7 s0
unfolding fips_back fips_ntt doubles
undo_all s0 e0 h0 =
    let s1 = forward_layer 1 128 1 s0 in
    let (l1, h1) = forward_layer_lem 1 128 1 s0 (e0) h0 in
    let e1 : length s1 ≡ 256 = l1 ∙ e0 in
    let s2 = forward_layer 2 64 2 s1 in
    let (l2, h2) = forward_layer_lem 2 64 2 s1 (e1) h1 in
    let e2 : length s2 ≡ 256 = l2 ∙ e1 in
    let s3 = forward_layer 4 32 4 s2 in
    let (l3, h3) = forward_layer_lem 4 32 4 s2 (e2) h2 in
    let e3 : length s3 ≡ 256 = l3 ∙ e2 in
    let s4 = forward_layer 8 16 8 s3 in
    let (l4, h4) = forward_layer_lem 8 16 8 s3 (e3) h3 in
    let e4 : length s4 ≡ 256 = l4 ∙ e3 in
    let s5 = forward_layer 16 8 16 s4 in
    let (l5, h5) = forward_layer_lem 16 8 16 s4 (e4) h4 in
    let e5 : length s5 ≡ 256 = l5 ∙ e4 in
    let s6 = forward_layer 32 4 32 s5 in
    let (l6, h6) = forward_layer_lem 32 4 32 s5 (e5) h5 in
    let e6 : length s6 ≡ 256 = l6 ∙ e5 in
    let s7 = forward_layer 64 2 64 s6 in
    let (l7, h7) = forward_layer_lem 64 2 64 s6 (e6) h6 in
    let e7 : length s7 ≡ 256 = l7 ∙ e6 in
    ap (fips_back 6 4 32) (undo 0 64 2 64 127 s6 pairs_64 e6 h6)
    ∙ ap (fips_back 5 8 16) (undo 1 32 4 32 63 s5 pairs_32 e5 h5)
    ∙ ap (fips_back 4 16 8) (undo 2 16 8 16 31 s4 pairs_16 e4 h4)
    ∙ ap (fips_back 3 32 4) (undo 3 8 16 8 15 s3 pairs_8 e3 h3)
    ∙ ap (fips_back 2 64 2) (undo 4 4 32 4 7 s2 pairs_4 e2 h2)
    ∙ ap (fips_back 1 128 1) (undo 5 2 64 2 3 s1 pairs_2 e1 h1)
    ∙ ap (fips_back 0 256 0) (undo 6 1 128 1 1 s0 pairs_1 e0 h0)

-- The last factor takes the doublings back and leaves 2 ^ 16.
last :
    (r : List ℤ)
    → AllWithin 3328 r
    → AllWithin 3328 (map (λ a. montgomery_reduce (zeta_f *ℤ a)) r)
      × (map residue (map (λ a. montgomery_reduce (zeta_f *ℤ a)) r)
          ≡ map (λ x. 1441 * x % q * 169 % q) (map residue r))
unfolding residue
last [] h = (tt, refl)
last (a ∷ r) (ha, h) =
    let (bt, et) = last r h in
    let w = mul-Within zeta_f a 1441 3328 (omega arith) ha in
    let fits : Within (2 ^ 15 * q - 1) (zeta_f *ℤ a) = omega arith in
    (
      ((montgomery_reduce_lem (zeta_f *ℤ a) fits).0, bt),
      ap₂ (λ (y : ℕ) (s : List ℕ). y ∷ s)
          (residue-montgomery (zeta_f *ℤ a) fits
            ∙ ap (λ (y : ℕ). y * 169 % q) (residue-mul zeta_f a))
          et,
    )

scaled :
    (r : List ℤ)
    → map (λ x. 1441 * x % q * 169 % q) (doubles 7 (map residue r))
      ≡ map (λ a. residue a * 65536 % q) r
unfolding doubles
scaled [] = refl
scaled (a ∷ r) = ap₂ (λ (y : ℕ) (s : List ℕ). y ∷ s) (omega arith) (scaled r)

residues-AllBelow : (r : List ℤ) → AllBelow (map residue r)
residues-AllBelow [] = tt
residues-AllBelow (a ∷ r) = (residue-lt a, residues-AllBelow r)

-- For 256 coefficients between -3328 and 3328 the inverse transform of the transform gives
-- coefficients between -3328 and 3328, each 2 ^ 16 times the given one modulo q.
pub invntt-ntt :
    (r : List ℤ)
    → length r ≡ 256
    → AllWithin 3328 r
    → AllWithin 3328 (invntt (ntt r))
      × (map residue (invntt (ntt r)) ≡ map (λ a. residue a * 65536 % q) r)
unfolding invntt
invntt-ntt r l h =
    let (bn, en) = ntt_lem r h in
    let (bi, ei) = backward_loop (ntt r) (AllWithin-weaken 1664 3328 (ntt r) (omega arith) bn) in
    let (bt, et) = last (invntt_loop 7 2 127 (ntt r)) bi in
    (
      bt,
      et
          ∙ ap (map (λ x. 1441 * x % q * 169 % q)) (
              ei
              ∙ ap (fips_back 7 2 64) en
              ∙ undo_all (map residue r) (length-map r residue ∙ l) (residues-AllBelow r))
          ∙ scaled r,
    )
