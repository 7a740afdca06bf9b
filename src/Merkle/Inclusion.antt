-- ===== src/Merkle/Inclusion.antt =====
-- src/rmbl_digest.cpp: the inclusion proof leads from a chunk's leaf to the root.
use rmorie_bricklayer.Prelude.{
  ℕ, zero, suc, ◌+◌, ◌-◌, ◌*◌, ◌/◌, ◌%◌, ◌<◌, ◌≤◌, List, [], ◌∷◌, length, get_or, ◌==◌, ==_true,
  ==_false, &&_false, ==_iff, ltb, ltb-false, ltb→lt, lt→ltb, ltb_ge, Bool-cases, if◌then◌else◌,
  true, false, inl, inr, ◌⊎◌, ◌≡◌, refl, sym, ap, ◌∙◌, arith, some, ◌&&◌, ◌||◌, map, length-map,
}
use rmorie_bricklayer.Hex.{hexlify}
use rmorie_bricklayer.Merkle.{
  interior, merkle_reduce, root_loop, Proof, push, proof_step, proof_loop, raw, leaf,
  leaves_from_chunks, vector, returned, with_leaves, check_chunk_list, merkle_root, merkle_proof,
  position,
}
use rmorie_bricklayer.Merkle.Level.{length-merkle_reduce, paired, promoted}

-- A checker's walk: each sibling is hashed with the node on its side.
unfoldable pub walk : ℕ → List (List ℕ × ℕ) → List ℕ → List ℕ
walk sc [] node = node
walk sc ((sibling, side) ∷ path) node =
    walk sc path (if side == 1 then interior sc node sibling else interior sc sibling node)

-- The proof that is returned for the path.
unfoldable pub printed : List (List ℕ × ℕ) → Proof
printed [] = record { sibling = []; side = [] }
printed ((sibling, side) ∷ path) = push sibling side (printed path)

-- The proof is the path of a walk from `node` to `root`.
abbrev pub IsProof : ℕ → Proof → List ℕ → List ℕ → Type 0
IsProof sc p node root =
    (path : List (List ℕ × ℕ)) × (printed path ≡ p) × (walk sc path node ≡ root)

module _ (sc : ℕ) (lvl : List (List ℕ)) (rest : Proof) (root : List ℕ) where
  last_step :
      (k : ℕ)
      → 2 * k + 1 ≡ length lvl
      → IsProof sc rest (get_or (merkle_reduce sc lvl) k []) root
      → IsProof sc (proof_step lvl (2 * k) rest) (get_or lvl (2 * k) []) root
  unfolding proof_step
  last_step k single (path, shown, reached) =
      let at_end : (2 * k + 1 == length lvl) ≡ true = ==_true (2 * k + 1) (length lvl) single in
      let odd : (length lvl % 2 == 1) ≡ true = ==_true (length lvl % 2) 1 (omega arith) in
      rw (at_end, odd) (path, shown, ap (walk sc path) (sym (promoted sc lvl k single)) ∙ reached)

  left_step :
      (k : ℕ)
      → 2 * k + 1 < length lvl
      → IsProof sc rest (get_or (merkle_reduce sc lvl) k []) root
      → IsProof sc (proof_step lvl (2 * k) rest) (get_or lvl (2 * k) []) root
  unfolding proof_step walk printed
  left_step k inside (path, shown, reached) =
      let inner : (2 * k + 1 == length lvl) ≡ false =
        ==_false (2 * k + 1) (length lvl) (λ e. omega arith) in
      let even : (2 * k % 2 == 0) ≡ true = ==_true (2 * k % 2) 0 (omega arith) in
      rw (inner, even)
        (
          ((get_or lvl (2 * k + 1) [], 1) ∷ path),
          ap (push (get_or lvl (2 * k + 1) []) 1) shown,
          ap (walk sc path) (sym (paired sc lvl k inside)) ∙ reached,
        )

  even_step :
      (k : ℕ)
      → 2 * k < length lvl
      → IsProof sc rest (get_or (merkle_reduce sc lvl) k []) root
      → IsProof sc (proof_step lvl (2 * k) rest) (get_or lvl (2 * k) []) root
  even_step k inside reached = elim (Bool-cases (ltb (2 * k + 1) (length lvl))) [
    | inl more ↦ left_step k (ltb→lt (2 * k + 1) (length lvl) more) reached
    | inr done ↦
        let over = ltb-false (2 * k + 1) (length lvl) done in last_step k (omega arith) reached
  ]

  right_step :
      (k : ℕ)
      → 2 * k + 1 < length lvl
      → IsProof sc rest (get_or (merkle_reduce sc lvl) k []) root
      → IsProof sc (proof_step lvl (2 * k + 1) rest) (get_or lvl (2 * k + 1) []) root
  unfolding proof_step walk printed
  right_step k inside (path, shown, reached) =
      let parity : (length lvl % 2 == 1) ≡ true → (2 * k + 1 + 1 == length lvl) ≡ false = λ odd.
        ==_false (2 * k + 1 + 1) (length lvl)
          (λ e. let o = (==_iff (length lvl % 2) 1).0 odd in omega arith) in
      let inner : ((2 * k + 1 + 1 == length lvl) && (length lvl % 2 == 1)) ≡ false =
        elim (Bool-cases (length lvl % 2 == 1)) [
          | inl odd ↦ rw (parity odd) refl
          | inr even ↦ rw even (&&_false (2 * k + 1 + 1 == length lvl))
        ] in
      let odd : ((2 * k + 1) % 2 == 0) ≡ false = ==_false ((2 * k + 1) % 2) 0 (λ e. omega arith) in
      let before : 2 * k + 1 - 1 ≡ 2 * k = omega arith in
      rw (inner, odd, before)
        (
          ((get_or lvl (2 * k) [], 0) ∷ path),
          ap (push (get_or lvl (2 * k) []) 0) shown,
          ap (walk sc path) (sym (paired sc lvl k inside)) ∙ reached,
        )

parity : (p : ℕ) → (2 * (p / 2) + 1 ≡ p) ⊎ (2 * (p / 2) ≡ p)
parity p = omega arith

-- One turn of the loop, at every position.
step :
    (sc : ℕ) (lvl : List (List ℕ)) (rest : Proof) (root : List ℕ) (p : ℕ)
    → p < length lvl
    → IsProof sc rest (get_or (merkle_reduce sc lvl) (p / 2) []) root
    → IsProof sc (proof_step lvl p rest) (get_or lvl p []) root
step sc lvl rest root p inside reached = elim (parity p) [
  | inl odd ↦ rw odd at (right_step sc lvl rest root (p / 2) (omega arith) reached)
  | inr even ↦ rw even at (even_step sc lvl rest root (p / 2) (omega arith) reached)
]

proof_loop-leads :
    (fuel sc p : ℕ) (lvl : List (List ℕ))
    → p < length lvl
    → length lvl ≤ fuel
    → IsProof sc (proof_loop fuel sc p lvl) (get_or lvl p []) (get_or (root_loop fuel sc lvl) 0 [])
unfolding proof_loop root_loop printed walk
proof_loop-leads zero sc p lvl inside enough = absurd (omega arith)
proof_loop-leads (suc fuel) sc p lvl inside enough = elim (Bool-cases (ltb 1 (length lvl))) [
  | inl more ↦
      let many = ltb→lt 1 (length lvl) more in
      let half = length-merkle_reduce sc lvl in
      let up = merkle_reduce sc lvl in
      rw more (
        step sc lvl (proof_loop fuel sc (p / 2) up) (get_or (root_loop fuel sc up) 0 []) p inside
          (proof_loop-leads fuel sc (p / 2) up (omega arith) (omega arith)))
  | inr done ↦
      let few = ltb-false 1 (length lvl) done in
      let first : p ≡ 0 = omega arith in rw (done, first) ([], refl, refl)
]

leaves : (sc : ℕ) (x : List (List ℕ)) → leaves_from_chunks sc (map raw x) ≡ some (map (leaf sc) x)
unfolding leaves_from_chunks
leaves sc [] = refl
leaves sc (e ∷ x) = rw (leaves sc x) refl

get_or-map :
    (f : List ℕ → List ℕ) (x : List (List ℕ)) (i : ℕ)
    → i < length x
    → get_or (map f x) i [] ≡ f (get_or x i [])
get_or-map f [] i h = absurd (omega arith)
get_or-map f (e ∷ x) zero h = refl
get_or-map f (e ∷ x) (suc i) h = get_or-map f x i (omega arith)

known : (sc : ℕ) → (sc ≡ 1) ⊎ (sc ≡ 2) → ((sc == 1) || (sc == 2)) ≡ true
known sc (inl one) = rw one refl
known sc (inr two) = rw two refl

proof_entry :
    (sc pos : ℕ) (x : List (List ℕ))
    → (sc ≡ 1) ⊎ (sc ≡ 2)
    → pos < length x
    → merkle_proof (vector (map raw x)) (some (suc pos)) sc
      ≡ returned (proof_loop (length x) sc pos (map (leaf sc) x))
unfolding merkle_proof check_chunk_list with_leaves position
proof_entry sc pos x scheme inside =
    let count = length-map x raw in
    let digests = length-map x (leaf sc) in
    let below : ltb pos (length (map raw x)) ≡ true =
      lt→ltb pos (length (map raw x)) (omega arith) in
    rw (known sc scheme, below, leaves sc x, digests) refl

root_entry :
    (sc : ℕ) (x : List (List ℕ))
    → (sc ≡ 1) ⊎ (sc ≡ 2)
    → 1 ≤ length x
    → merkle_root (vector (map raw x)) sc
      ≡ returned (some (hexlify (get_or (root_loop (length x) sc (map (leaf sc) x)) 0 [])))
unfolding merkle_root check_chunk_list with_leaves
root_entry sc x scheme some_chunk =
    let count = length-map x raw in
    let digests = length-map x (leaf sc) in
    let present : ltb (length (map raw x)) 1 ≡ false =
      ltb_ge (length (map raw x)) 1 (omega arith) in
    rw (known sc scheme, present, leaves sc x, digests) refl

-- For raw chunks, an index from 1 to their number and scheme 1 or 2, the entry for proofs returns
-- siblings and sides by which the walk from the chunk's leaf ends at the root that the entry for
-- roots returns.
pub merkle_proof-merkle_root :
    (sc pos : ℕ) (x : List (List ℕ))
    → (sc ≡ 1) ⊎ (sc ≡ 2)
    → pos < length x
    → (path : List (List ℕ × ℕ)) × (merkle_proof (vector (map raw x)) (some (suc pos)) sc
        ≡ returned (printed path))
      × (merkle_root (vector (map raw x)) sc
          ≡ returned (some (hexlify (walk sc path (leaf sc (get_or x pos []))))))
merkle_proof-merkle_root sc pos x scheme inside =
    let digests = length-map x (leaf sc) in
    let found : (path : List (List ℕ × ℕ)) × (printed path
          ≡ proof_loop (length x) sc pos (map (leaf sc) x))
        × (walk sc path (get_or (map (leaf sc) x) pos [])
            ≡ get_or (root_loop (length x) sc (map (leaf sc) x)) 0 []) =
      proof_loop-leads (length x) sc pos (map (leaf sc) x) (omega arith) (omega arith) in
    (
      found.0,
      proof_entry sc pos x scheme inside ∙ ap (λ (p : Proof). returned p) (sym found.1),
      root_entry sc x scheme (omega arith)
          ∙ ap (λ (root : List ℕ). returned (some (hexlify root)))
              (sym found.2 ∙ ap (walk sc found.0) (get_or-map (leaf sc) x pos inside)),
    )
