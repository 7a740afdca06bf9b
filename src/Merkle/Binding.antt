-- ===== src/Merkle/Binding.antt =====
-- src/rmbl_digest.cpp: a Merkle root binds the chunks, as far as SHA-256 has no known collision.
use native.Mathlib.Decide.{ℕ_discrete}
use mathlib.Core.Path.{subst}
use mathlib.Core.List.{List-discrete, head-eq_of_cons-eq, tail-eq_of_cons-eq}
use rmorie_bricklayer.Prelude.{
  ℕ, zero, suc, ◌+◌, ◌/◌, List, [], ◌∷◌, ◌++◌, length, ◌==◌, ltb, if◌then◌else◌, Bool, true, false,
  inl, inr, ◌⊎◌, ◌≡◌, refl, sym, ap, ◌∙◌, arith, map, length-map, append_split,
}
use rmorie_bricklayer.Sha2.Sha256.{sha256_raw}
use rmorie_bricklayer.Sha2.Sha256.Digest.{length-sha256_raw}
use rmorie_bricklayer.Merkle.Messages.{
  leaf_message, node_message, OfPair, pair, later, OfLevels, level, higher, OfChunk, this, other,
  OfTree, of_chunk, of_node, Clash, Collision, widened, interior_lem, leaf_lem,
  merkle_reduce-eq-parents, leaves_lem,
}
use rmorie_bricklayer.Merkle.{tagged, interior, merkle_reduce, root_loop, leaf}
use rmorie_bricklayer.Merkle.Level.{length-merkle_reduce}

same_digest :
    {P Q : List ℕ → Type 0} (a b : List ℕ)
    → P a
    → Q b
    → sha256_raw a ≡ sha256_raw b
    → (a ≡ b) ⊎ Clash P Q
same_digest a b p q e = elim (List-discrete ℕ_discrete a b) [
  | yes same ↦ inl same
  | no apart ↦ inr (a, b, p, q, apart, e)
]

-- Every node is a digest.
IsLevel : List (List ℕ) → Type 0
IsLevel [] = Unit
IsLevel (node ∷ lvl) = (length node ≡ 32) × IsLevel lvl

same_node :
    (sc : ℕ) (a b c d : List ℕ) → node_message sc a b ≡ node_message sc c d → a ++ b ≡ c ++ d
unfolding node_message
same_node sc a b c d e = split (sc == 2) e
  where
    split :
        (two : Bool)
        → (if two then 1 ∷ (a ++ b) else a ++ b) ≡ (if two then 1 ∷ (c ++ d) else c ++ d)
        → a ++ b ≡ c ++ d
    split true e = tail-eq_of_cons-eq e
    split false e = e

same_leaf : (sc : ℕ) (a b : List ℕ) → leaf_message sc a ≡ leaf_message sc b → a ≡ b
unfolding leaf_message
same_leaf sc a b e = split (sc == 2) e
  where
    split : (two : Bool) → (if two then 0 ∷ a else a) ≡ (if two then 0 ∷ b else b) → a ≡ b
    split true e = tail-eq_of_cons-eq e
    split false e = e

same_interior :
    {P Q : List ℕ → Type 0} (sc : ℕ) (a b c d : List ℕ)
    → P (node_message sc a b)
    → Q (node_message sc c d)
    → length a ≡ length c
    → interior sc a b ≡ interior sc c d
    → ((a ≡ c) × (b ≡ d)) ⊎ Clash P Q
same_interior sc a b c d p q h e =
    let e' = sym (interior_lem sc a b) ∙ e ∙ interior_lem sc c d in
    elim (same_digest (node_message sc a b) (node_message sc c d) p q e') [
      | inl same ↦ inl (append_split a c h (same_node sc a b c d same))
      | inr found ↦ inr found
    ]

length-interior : (sc : ℕ) (a b : List ℕ) → length (interior sc a b) ≡ 32
unfolding interior
length-interior sc a b = length-sha256_raw (tagged sc 0x01 (a ++ b))

merkle_reduce-IsLevel :
    (sc : ℕ) (lvl : List (List ℕ)) → IsLevel lvl → IsLevel (merkle_reduce sc lvl)
unfolding merkle_reduce IsLevel
merkle_reduce-IsLevel sc [] h = h
merkle_reduce-IsLevel sc (last ∷ []) h = h
merkle_reduce-IsLevel sc (left ∷ right ∷ lvl) (hl, (hr, h)) =
    (length-interior sc left right, merkle_reduce-IsLevel sc lvl h)

-- One level binds the level below.
reduced :
    (sc : ℕ) (xs ys : List (List ℕ))
    → length xs ≡ length ys
    → IsLevel xs
    → IsLevel ys
    → merkle_reduce sc xs ≡ merkle_reduce sc ys
    → (xs ≡ ys) ⊎ Clash (OfPair sc xs) (OfPair sc ys)
unfolding merkle_reduce IsLevel
reduced sc [] [] n hx hy e = inl refl
reduced sc [] (y ∷ ys) n hx hy e = absurd (omega arith)
reduced sc (x ∷ xs) [] n hx hy e = absurd (omega arith)
reduced sc (x ∷ []) (y ∷ []) n hx hy e = inl e
reduced sc (x ∷ []) (y ∷ y' ∷ ys) n hx hy e = absurd (omega arith)
reduced sc (x ∷ x' ∷ xs) (y ∷ []) n hx hy e = absurd (omega arith)
reduced sc (x ∷ x' ∷ xs) (y ∷ y' ∷ ys) n (hx, (hx', hxs)) (hy, (hy', hys)) e =
    joined (same_interior sc x x' y y' (pair x x') (pair y y') (hx ∙ sym hy) (head-eq_of_cons-eq e))
      (reduced sc xs ys (omega arith) hxs hys (tail-eq_of_cons-eq e))
  where
    joined :
        ((x ≡ y) × (x' ≡ y')) ⊎ Clash (OfPair sc (x ∷ x' ∷ xs)) (OfPair sc (y ∷ y' ∷ ys))
        → (xs ≡ ys) ⊎ Clash (OfPair sc xs) (OfPair sc ys)
        → (x ∷ x' ∷ xs ≡ y ∷ y' ∷ ys) ⊎ Clash (OfPair sc (x ∷ x' ∷ xs)) (OfPair sc (y ∷ y' ∷ ys))
    joined (inr found) rest = inr found
    joined (inl both) (inr found) = inr (widened (λ m. later x x') (λ m. later y y') found)
    joined (inl both) (inl rest) = inl (rw (both.0, both.1, rest) refl)

above_reduced :
    (sc : ℕ) (lvl : List (List ℕ)) {m : List ℕ}
    → OfLevels sc (merkle_reduce sc lvl) m
    → OfLevels sc lvl m
above_reduced sc lvl {m = m} h =
    higher (subst (λ (up : List (List ℕ)). OfLevels sc up m) (merkle_reduce-eq-parents sc lvl) h)

-- One turn of the loop on both levels.
turn :
    (more : Bool) (sc : ℕ) (xs ys top_xs top_ys : List (List ℕ))
    → length xs ≡ length ys
    → IsLevel xs
    → IsLevel ys
    → (top_xs ≡ top_ys
        → (merkle_reduce sc xs ≡ merkle_reduce sc ys)
          ⊎ Clash (OfLevels sc (merkle_reduce sc xs)) (OfLevels sc (merkle_reduce sc ys)))
    → (if more then top_xs else xs) ≡ (if more then top_ys else ys)
    → (xs ≡ ys) ⊎ Clash (OfLevels sc xs) (OfLevels sc ys)
turn false sc xs ys top_xs top_ys n hx hy above e = inl e
turn true sc xs ys top_xs top_ys n hx hy above e = elim (above e) [
  | inl same ↦ elim (reduced sc xs ys n hx hy same) [
    | inl equal ↦ inl equal
    | inr found ↦ inr (widened (λ m. level) (λ m. level) found)
  ]
  | inr found ↦ inr (widened (λ m. above_reduced sc xs) (λ m. above_reduced sc ys) found)
]

rooted :
    (fuel sc : ℕ) (xs ys : List (List ℕ))
    → length xs ≡ length ys
    → IsLevel xs
    → IsLevel ys
    → root_loop fuel sc xs ≡ root_loop fuel sc ys
    → (xs ≡ ys) ⊎ Clash (OfLevels sc xs) (OfLevels sc ys)
unfolding root_loop
rooted zero sc xs ys n hx hy e = inl e
rooted (suc fuel) sc xs ys n hx hy e =
    let up = merkle_reduce sc xs in
    let up' = merkle_reduce sc ys in
    let count =
      length-merkle_reduce sc xs
      ∙ ap (λ (k : ℕ). (k + 1) / 2) n
      ∙ sym (length-merkle_reduce sc ys) in
    turn (ltb 1 (length xs)) sc xs ys (root_loop fuel sc up) (root_loop fuel sc up') n hx hy
      (rooted fuel sc up up' count (merkle_reduce-IsLevel sc xs hx)
        (merkle_reduce-IsLevel sc ys hy))
      (rw (sym n) at e)

leaf-IsLevel : (sc : ℕ) (x : List (List ℕ)) → IsLevel (map (leaf sc) x)
unfolding IsLevel leaf
leaf-IsLevel sc [] = tt
leaf-IsLevel sc (e ∷ x) = (length-sha256_raw (tagged sc 0x00 e), leaf-IsLevel sc x)

leaves_bind :
    (sc : ℕ) (x y : List (List ℕ))
    → length x ≡ length y
    → map (leaf sc) x ≡ map (leaf sc) y
    → (x ≡ y) ⊎ Clash (OfChunk sc x) (OfChunk sc y)
leaves_bind sc [] [] n e = inl refl
leaves_bind sc [] (c ∷ y) n e = absurd (omega arith)
leaves_bind sc (c ∷ x) [] n e = absurd (omega arith)
leaves_bind sc (c ∷ x) (d ∷ y) n e =
    let e' = sym (leaf_lem sc c) ∙ head-eq_of_cons-eq e ∙ leaf_lem sc d in
    joined (same_digest (leaf_message sc c) (leaf_message sc d) (this c) (this d) e')
      (leaves_bind sc x y (omega arith) (tail-eq_of_cons-eq e))
  where
    joined :
        (leaf_message sc c ≡ leaf_message sc d) ⊎ Clash (OfChunk sc (c ∷ x)) (OfChunk sc (d ∷ y))
        → (x ≡ y) ⊎ Clash (OfChunk sc x) (OfChunk sc y)
        → (c ∷ x ≡ d ∷ y) ⊎ Clash (OfChunk sc (c ∷ x)) (OfChunk sc (d ∷ y))
    joined (inr found) rest = inr found
    joined (inl same) (inr found) = inr (widened (λ m. other c) (λ m. other d) found)
    joined (inl same) (inl rest) = inl (rw (same_leaf sc c d same, rest) refl)

of_level :
    (sc : ℕ) (x : List (List ℕ)) {m : List ℕ} → OfLevels sc (map (leaf sc) x) m → OfTree sc x m
of_level sc x {m = m} h =
    of_node (subst (λ (lvl : List (List ℕ)). OfLevels sc lvl m) (leaves_lem sc x) h)

-- Two lists of equally many chunks whose trees, of either scheme, end at the same level are
-- equal, or two different messages have the same SHA-256 digest, one that is hashed in the tree of
-- the first and one in that of the second.
pub root_loop-binds :
    (sc : ℕ) (x y : List (List ℕ))
    → length x ≡ length y
    → root_loop (length x) sc (map (leaf sc) x) ≡ root_loop (length y) sc (map (leaf sc) y)
    → (x ≡ y) ⊎ Collision sc x y
root_loop-binds sc x y n e =
    let count = length-map x (leaf sc) ∙ n ∙ sym (length-map y (leaf sc)) in
    elim (rooted (length x) sc (map (leaf sc) x) (map (leaf sc) y) count (leaf-IsLevel sc x)
      (leaf-IsLevel sc y) (rw (sym n) at e)) [
        | inl same ↦ elim (leaves_bind sc x y n same) [
          | inl equal ↦ inl equal
          | inr found ↦ inr (widened (λ m. of_chunk) (λ m. of_chunk) found)
        ]
        | inr found ↦ inr (widened (λ m. of_level sc x) (λ m. of_level sc y) found)
      ]
