-- ===== src/Mlkem/Transform.antt =====
-- ntt and invntt of src/rmbl_mlkem_arith.h are the transforms of FIPS 203 on residues, and invntt
-- undoes ntt.
use rmorie_bricklayer.Prelude.{
  ℕ, zero, suc, ◌+◌, ◌-◌, ◌≤◌, ◌<◌, ◌≡◌, refl, ap, ◌∙◌, List, [], ◌∷◌, ◌++◌, map, arith, take, drop,
}
use mathlib.Core.List.{map-append}
use rmorie_bricklayer.Prelude.Int.{ℤ}
use rmorie_bricklayer.Mlkem.Ntt.{zeta, ntt_block, ntt_layer, invntt_block, invntt_layer}
use rmorie_bricklayer.Mlkem.Reduce.{residue}
use rmorie_bricklayer.Mlkem.Field.{zeta_q}
use rmorie_bricklayer.Mlkem.Blocks.{
  AllWithin, AllWithin-weaken, forward, backward, ntt_block_lem, invntt_block_lem,
}
use rmorie_bricklayer.Mlkem.Layers.{forward_layer, backward_layer}
use rmorie_bricklayer.Mlkem.Inverse.{append_cong}

AllWithin-append :
    (b : ℕ) (xs ys : List ℤ) → AllWithin b xs → AllWithin b ys → AllWithin b (xs ++ ys)
AllWithin-append b [] ys h k = k
AllWithin-append b (x ∷ xs) ys (hx, h) k = (hx, AllWithin-append b xs ys h k)

AllWithin-take : (b n : ℕ) (xs : List ℤ) → AllWithin b xs → AllWithin b (take n xs)
AllWithin-take b zero xs h = tt
AllWithin-take b (suc n) [] h = tt
AllWithin-take b (suc n) (x ∷ xs) (hx, h) = (hx, AllWithin-take b n xs h)

AllWithin-drop : (b n : ℕ) (xs : List ℤ) → AllWithin b xs → AllWithin b (drop n xs)
AllWithin-drop b zero xs h = h
AllWithin-drop b (suc n) [] h = tt
AllWithin-drop b (suc n) (x ∷ xs) (hx, h) = AllWithin-drop b n xs h

map-take : (n : ℕ) (xs : List ℤ) → map residue (take n xs) ≡ take n (map residue xs)
map-take zero xs = refl
map-take (suc n) [] = refl
map-take (suc n) (x ∷ xs) = ap (λ (s : List ℕ). residue x ∷ s) (map-take n xs)

map-drop : (n : ℕ) (xs : List ℤ) → map residue (drop n xs) ≡ drop n (map residue xs)
map-drop zero xs = refl
map-drop (suc n) [] = refl
map-drop (suc n) (x ∷ xs) = map-drop n xs

map_three :
    (a b c : List ℤ)
    → map residue (a ++ (b ++ c)) ≡ map residue a ++ (map residue b ++ map residue c)
map_three a b c = simp (map-append)

-- The three parts of a list of coefficients.
module _ (b len : ℕ) (r : List ℤ) (h : AllWithin b r) where
  bound_lo : AllWithin b (take len r)
  bound_lo = AllWithin-take b len r h

  bound_hi : AllWithin b (take len (drop len r))
  bound_hi = AllWithin-take b len (drop len r) (AllWithin-drop b len r h)

  bound_rest : AllWithin b (drop len (drop len r))
  bound_rest = AllWithin-drop b len (drop len r) (AllWithin-drop b len r h)

  residues_hi : map residue (take len (drop len r)) ≡ take len (drop len (map residue r))
  residues_hi = map-take len (drop len r) ∙ ap (take len) (map-drop len r)

  residues_rest : map residue (drop len (drop len r)) ≡ drop len (drop len (map residue r))
  residues_rest = map-drop len (drop len r) ∙ ap (drop len) (map-drop len r)

pub ntt_layer_lem :
    (blocks len k b : ℕ) (r : List ℤ)
    → k + blocks ≤ 128
    → b ≤ 29439
    → AllWithin b r
    → AllWithin (b + 3328) (ntt_layer blocks len k r)
      × (map residue (ntt_layer blocks len k r) ≡ forward_layer blocks len k (map residue r))
unfolding ntt_layer forward_layer
ntt_layer_lem zero len k b r hk hb h = (AllWithin-weaken b (b + 3328) r (omega arith) h, refl)
ntt_layer_lem (suc blocks) len k b r hk hb h =
    let lo = take len r in
    let hi = take len (drop len r) in
    let rest = drop len (drop len r) in
    let (bl, bh, el, eh) =
      ntt_block_lem k b lo hi (omega arith) hb (bound_lo b len r h) (bound_hi b len r h) in
    let (bt, et) =
      ntt_layer_lem blocks len (k + 1) b rest (omega arith) hb (bound_rest b len r h) in
    let t = ntt_layer blocks len (k + 1) rest in
    let f = ntt_block (zeta k) lo hi in
    (
      AllWithin-append (b + 3328) f.0 (f.1 ++ t) bl (AllWithin-append (b + 3328) f.1 t bh bt),
      map_three f.0 f.1 t ∙ append_cong _ _ _ _ _ _ el eh et ∙ (λ i.
          let x = map-take len r i in
          let y = residues_hi b len r h i in
          let s = residues_rest b len r h i in
          (forward (zeta_q k) x y).0
          ++ ((forward (zeta_q k) x y).1 ++ forward_layer blocks len (k + 1) s)),
    )

pub invntt_layer_lem :
    (blocks len k : ℕ) (r : List ℤ)
    → k < 128
    → AllWithin 3328 r
    → AllWithin 3328 (invntt_layer blocks len k r)
      × (map residue (invntt_layer blocks len k r) ≡ backward_layer blocks len k (map residue r))
unfolding invntt_layer backward_layer
invntt_layer_lem zero len k r hk h = (h, refl)
invntt_layer_lem (suc blocks) len k r hk h =
    let lo = take len r in
    let hi = take len (drop len r) in
    let rest = drop len (drop len r) in
    let (bl, bh, el, eh) =
      invntt_block_lem k lo hi hk (bound_lo 3328 len r h) (bound_hi 3328 len r h) in
    let (bt, et) =
      invntt_layer_lem blocks len (k - 1) rest (omega arith) (bound_rest 3328 len r h) in
    let t = invntt_layer blocks len (k - 1) rest in
    let f = invntt_block (zeta k) lo hi in
    (
      AllWithin-append 3328 f.0 (f.1 ++ t) bl (AllWithin-append 3328 f.1 t bh bt),
      map_three f.0 f.1 t ∙ append_cong _ _ _ _ _ _ el eh et ∙ (λ i.
          let x = map-take len r i in
          let y = residues_hi 3328 len r h i in
          let s = residues_rest 3328 len r h i in
          (backward (zeta_q k) x y).0
          ++ ((backward (zeta_q k) x y).1 ++ backward_layer blocks len (k - 1) s)),
    )
