-- ===== src/Merkle/Level.antt =====
-- src/rmbl_digest.cpp: the nodes of one Merkle level, and the loop's end.
use rmorie_bricklayer.Prelude.{
  ℕ, zero, suc, ◌+◌, ◌*◌, ◌/◌, ◌<◌, ◌≤◌, List, [], ◌∷◌, length, get_or, ltb, ltb-false, ltb→lt,
  Bool-cases, inl, inr, ◌≡◌, refl, arith,
}
use rmorie_bricklayer.Merkle.{interior, merkle_reduce, root_loop}

pub length-merkle_reduce :
    (sc : ℕ) (lvl : List (List ℕ)) → length (merkle_reduce sc lvl) ≡ (length lvl + 1) / 2
unfolding merkle_reduce
length-merkle_reduce sc [] = refl
length-merkle_reduce sc (last ∷ []) = refl
length-merkle_reduce sc (left ∷ right ∷ lvl) = omega (arith, length-merkle_reduce sc lvl)

-- Two neighbours are hashed to one node.
pub paired :
    (sc : ℕ) (lvl : List (List ℕ)) (k : ℕ)
    → 2 * k + 1 < length lvl
    → get_or (merkle_reduce sc lvl) k []
      ≡ interior sc (get_or lvl (2 * k) []) (get_or lvl (2 * k + 1) [])
unfolding merkle_reduce
paired sc [] k h = absurd (omega arith)
paired sc (last ∷ []) k h = absurd (omega arith)
paired sc (left ∷ right ∷ lvl) zero h = refl
paired sc (left ∷ right ∷ lvl) (suc k) h =
    let even : 2 * suc k ≡ suc (suc (2 * k)) = omega arith in
    let odd : 2 * suc k + 1 ≡ suc (suc (2 * k + 1)) = omega arith in
    rw (odd, even) (paired sc lvl k (omega arith))

-- The node without a neighbour stays.
pub promoted :
    (sc : ℕ) (lvl : List (List ℕ)) (k : ℕ)
    → 2 * k + 1 ≡ length lvl
    → get_or (merkle_reduce sc lvl) k [] ≡ get_or lvl (2 * k) []
unfolding merkle_reduce
promoted sc [] k h = absurd (omega arith)
promoted sc (last ∷ []) zero h = refl
promoted sc (last ∷ []) (suc k) h = absurd (omega arith)
promoted sc (left ∷ right ∷ lvl) zero h = absurd (omega arith)
promoted sc (left ∷ right ∷ lvl) (suc k) h =
    let even : 2 * suc k ≡ suc (suc (2 * k)) = omega arith in
    rw even (promoted sc lvl k (omega arith))

-- With the length of a level that is not empty as fuel, the loop ends at one node.
pub root_loop-single :
    (fuel sc : ℕ) (lvl : List (List ℕ))
    → 1 ≤ length lvl
    → length lvl ≤ fuel
    → length (root_loop fuel sc lvl) ≡ 1
unfolding root_loop
root_loop-single zero sc lvl h enough = omega arith
root_loop-single (suc fuel) sc lvl h enough =
    let half = length-merkle_reduce sc lvl in
    elim (Bool-cases (ltb 1 (length lvl))) [
      | inl more ↦
          let many = ltb→lt 1 (length lvl) more in
          rw more (root_loop-single fuel sc (merkle_reduce sc lvl) (omega arith) (omega arith))
      | inr done ↦ rw done (omega (arith, ltb-false 1 (length lvl) done))
    ]
