-- ===== src/Xmss/Tree.antt =====
-- src/rmbl_pqc.cpp: the authentication path leads from its leaf to the root.
use native.Mathlib.Nat.{pow-suc, pow-zero, one-le-pow}
use rmorie_bricklayer.Prelude.{
  ℕ, zero, suc, ◌+◌, ◌-◌, ◌*◌, ◌/◌, ◌%◌, ◌^◌, ◌<◌, List, [], ◌∷◌, length, get_or, ◌==◌, ==_true,
  ==_false, ltb, lt→ltb, if◌then◌else◌, true, false, ◌≡◌, ◌⊎◌, inl, inr, refl, sym, ap, ◌∙◌, arith,
}
use rmorie_bricklayer.Xmss.{Adrs, rand_hash, set_tree_index, tree_adrs, tree_level, root_loop}
use rmorie_bricklayer.Xmss.Scheme.{climb}

pub length-tree_level :
    (seed : List ℕ) (adrs : Adrs) (i : ℕ) (lvl : List (List ℕ))
    → length (tree_level seed adrs i lvl) ≡ length lvl / 2
unfolding tree_level
length-tree_level seed adrs i [] = refl
length-tree_level seed adrs i (last ∷ []) = refl
length-tree_level seed adrs i (l ∷ r ∷ lvl) = omega (arith, length-tree_level seed adrs (i + 1) lvl)

-- The node over leaves `2 * q` and `2 * q + 1`.
above :
    (seed : List ℕ) (adrs : Adrs) (q i : ℕ) (lvl : List (List ℕ))
    → 2 * q + 1 < length lvl
    → get_or (tree_level seed adrs i lvl) q []
      ≡ rand_hash
          (get_or lvl (2 * q) [])
          (get_or lvl (2 * q + 1) [])
          seed
          (set_tree_index (i + q) adrs)
unfolding tree_level
above seed adrs q i [] h = absurd (omega arith)
above seed adrs q i (last ∷ []) h = absurd (omega arith)
above seed adrs zero i (l ∷ r ∷ lvl) h = let here : i + 0 ≡ i = omega arith in rw here refl
above seed adrs (suc q) i (l ∷ r ∷ lvl) h =
    let even : 2 * suc q ≡ suc (suc (2 * q)) = omega arith in
    let odd : 2 * suc q + 1 ≡ suc (suc (2 * q + 1)) = omega arith in
    let place : i + suc q ≡ i + 1 + q = omega arith in
    rw (odd, even, place) (above seed adrs q (i + 1) lvl (omega arith))

-- One turn of `climb` on a level's own sibling.
turn :
    (seed : List ℕ) (k pos : ℕ) (lvl : List (List ℕ)) (m : ℕ)
    → length lvl ≡ 2 * m
    → pos < length lvl
    → (if pos % 2 == 0
        then rand_hash
            (get_or lvl pos [])
            (get_or lvl (if pos % 2 == 0 then pos + 1 else pos - 1) [])
            seed
            (set_tree_index (pos / 2) (tree_adrs k))
        else rand_hash
            (get_or lvl (if pos % 2 == 0 then pos + 1 else pos - 1) [])
            (get_or lvl pos [])
            seed
            (set_tree_index (pos / 2) (tree_adrs k)))
      ≡ get_or (tree_level seed (tree_adrs k) 0 lvl) (pos / 2) []
turn seed k pos lvl m even inside =
    let first : 0 + pos / 2 ≡ pos / 2 = omega arith in
    let node : get_or (tree_level seed (tree_adrs k) 0 lvl) (pos / 2) []
        ≡ rand_hash (get_or lvl (2 * (pos / 2)) []) (get_or lvl (2 * (pos / 2) + 1) []) seed
            (set_tree_index (pos / 2) (tree_adrs k)) =
      above seed (tree_adrs k) (pos / 2) 0 lvl (omega arith)
      ∙ ap
          (λ (i : ℕ).
            rand_hash (get_or lvl (2 * (pos / 2)) []) (get_or lvl (2 * (pos / 2) + 1) []) seed
              (set_tree_index i (tree_adrs k)))
          first in
    elim (parity pos) [
      | inl zero_bit ↦
          let on : (pos % 2 == 0) ≡ true = ==_true (pos % 2) 0 (omega arith) in
          let left : 2 * (pos / 2) ≡ pos = zero_bit in rw on (rw left at (sym node))
      | inr one_bit ↦
          let off : (pos % 2 == 0) ≡ false = ==_false (pos % 2) 0 (λ e. omega arith) in
          let right : 2 * (pos / 2) ≡ pos - 1 = omega arith in
          let here : pos - 1 + 1 ≡ pos = omega arith in rw off (rw (right, here) at (sym node))
    ]
  where
    parity : (p : ℕ) → (2 * (p / 2) ≡ p) ⊎ (2 * (p / 2) + 1 ≡ p)
    parity p = omega arith

-- From any leaf of a level of `2 ^ h` nodes, the climb along the siblings that the loop collects
-- ends at the node that the loop ends at.
pub root_loop-climb :
    (seed : List ℕ) (h k pos : ℕ) (lvl : List (List ℕ))
    → length lvl ≡ 2 ^ h
    → pos < length lvl
    → climb seed k pos (get_or lvl pos []) (root_loop seed h k pos lvl).1
      ≡ get_or (root_loop seed h k pos lvl).0 0 []
unfolding root_loop climb
root_loop-climb seed zero k pos lvl count inside =
    let first : pos ≡ 0 = omega (arith, pow-zero 2) in rw first refl
root_loop-climb seed (suc h) k pos lvl count inside =
    let up = tree_level seed (tree_adrs k) 0 lvl in
    let half : length up ≡ 2 ^ h =
      omega (arith, length-tree_level seed (tree_adrs k) 0 lvl, pow-suc 2 h) in
    let size : length lvl ≡ 2 * 2 ^ h = omega (arith, pow-suc 2 h) in
    let many : ltb 1 (length lvl) ≡ true =
      lt→ltb 1 (length lvl) (omega (arith, one-le-pow h 2 (omega arith))) in
    rw many (
      ap
        (λ (node : List ℕ).
          climb seed (k + 1) (pos / 2) node (root_loop seed h (k + 1) (pos / 2) up).1)
        (turn seed k pos lvl (2 ^ h) size inside)
      ∙ root_loop-climb seed h (k + 1) (pos / 2) up half (omega arith))

-- The loop ends at one node, and at the same one whatever the leaf that it collects siblings for.
pub root_loop-ends :
    (seed : List ℕ) (h k pos : ℕ) (lvl : List (List ℕ))
    → length lvl ≡ 2 ^ h
    → (length (root_loop seed h k pos lvl).0 ≡ 1)
      × ((pos' : ℕ) → (root_loop seed h k pos lvl).0 ≡ (root_loop seed h k pos' lvl).0)
      × (length (root_loop seed h k pos lvl).1 ≡ h)
unfolding root_loop
root_loop-ends seed zero k pos lvl count = (omega (arith, pow-zero 2), λ pos'. refl, refl)
root_loop-ends seed (suc h) k pos lvl count =
    let up = tree_level seed (tree_adrs k) 0 lvl in
    let half : length up ≡ 2 ^ h =
      omega (arith, length-tree_level seed (tree_adrs k) 0 lvl, pow-suc 2 h) in
    let many : ltb 1 (length lvl) ≡ true =
      lt→ltb 1 (length lvl) (omega (arith, pow-suc 2 h, one-le-pow h 2 (omega arith))) in
    let rest = root_loop-ends seed h (k + 1) (pos / 2) up half in
    rw many (rest.0, λ pos'. rest.1 (pos' / 2), ap suc rest.2)
