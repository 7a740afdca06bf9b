-- ===== src/Merkle/Messages.antt =====
-- src/rmbl_digest.cpp: the messages that are hashed in a Merkle tree, and two of one digest.
use rmorie_bricklayer.Prelude.{ℕ, List, [], ◌∷◌, ◌++◌, ◌==◌, if◌then◌else◌, map, ◌≢◌, ◌≡◌, refl}
use rmorie_bricklayer.Sha2.Sha256.{sha256_raw}
use rmorie_bricklayer.Merkle.{tagged, interior, merkle_reduce, leaf}

-- What is hashed for a leaf and for a node: scheme 2 puts 0 before a chunk and 1 before two nodes.
unfoldable pub leaf_message : ℕ → List ℕ → List ℕ
leaf_message sc chunk = if sc == 2 then 0 ∷ chunk else chunk

unfoldable pub node_message : ℕ → List ℕ → List ℕ → List ℕ
node_message sc left right = if sc == 2 then 1 ∷ (left ++ right) else left ++ right

-- The level above a level: two neighbours are hashed, and a node without one stays.
unfoldable pub parents : ℕ → List (List ℕ) → List (List ℕ)
parents sc [] = []
parents sc (node ∷ []) = node ∷ []
parents sc (left ∷ right ∷ lvl) = sha256_raw (node_message sc left right) ∷ parents sc lvl

-- A message of two neighbours of a level.
pub data OfPair (sc : ℕ) : List (List ℕ) → List ℕ → Type 0 where
  pair : (l r : List ℕ) {lvl : List (List ℕ)} → OfPair sc (l ∷ r ∷ lvl) (node_message sc l r)
  later :
      (l r : List ℕ) {lvl : List (List ℕ)} {m : List ℕ}
      → OfPair sc lvl m
      → OfPair sc (l ∷ r ∷ lvl) m

-- A message of a level or of one above it.
pub data OfLevels (sc : ℕ) : List (List ℕ) → List ℕ → Type 0 where
  level : {lvl : List (List ℕ)} {m : List ℕ} → OfPair sc lvl m → OfLevels sc lvl m
  higher : {lvl : List (List ℕ)} {m : List ℕ} → OfLevels sc (parents sc lvl) m → OfLevels sc lvl m

-- A message of a chunk.
pub data OfChunk (sc : ℕ) : List (List ℕ) → List ℕ → Type 0 where
  this : (c : List ℕ) {x : List (List ℕ)} → OfChunk sc (c ∷ x) (leaf_message sc c)
  other : (c : List ℕ) {x : List (List ℕ)} {m : List ℕ} → OfChunk sc x m → OfChunk sc (c ∷ x) m

-- The messages of the tree over chunks: those of the chunks, and those of the levels over their
-- digests.
pub data OfTree (sc : ℕ) (x : List (List ℕ)) : List ℕ → Type 0 where
  of_chunk : {m : List ℕ} → OfChunk sc x m → OfTree sc x m
  of_node :
      {m : List ℕ} → OfLevels sc (map (λ c. sha256_raw (leaf_message sc c)) x) m → OfTree sc x m

-- Two different messages of one digest, one of each kind.
abbrev pub Clash : (List ℕ → Type 0) → (List ℕ → Type 0) → Type 0
Clash P Q = (a : List ℕ) × (b : List ℕ) × P a × Q b × (a ≢ b) × (sha256_raw a ≡ sha256_raw b)

-- Two messages, one of each tree.
abbrev pub Collision : ℕ → List (List ℕ) → List (List ℕ) → Type 0
Collision sc x y = Clash (OfTree sc x) (OfTree sc y)

pub widened :
    {P P' Q Q' : List ℕ → Type 0}
    → ((m : List ℕ) → P m → P' m)
    → ((m : List ℕ) → Q m → Q' m)
    → Clash P Q
    → Clash P' Q'
widened f g (a, b, p, q, apart, e) = (a, b, f a p, g b q, apart, e)

-- The code hashes these messages.
pub interior_lem : (sc : ℕ) (l r : List ℕ) → interior sc l r ≡ sha256_raw (node_message sc l r)
unfolding interior tagged node_message
interior_lem sc l r = refl

pub leaf_lem : (sc : ℕ) (c : List ℕ) → leaf sc c ≡ sha256_raw (leaf_message sc c)
unfolding leaf tagged leaf_message
leaf_lem sc c = refl

pub merkle_reduce-eq-parents :
    (sc : ℕ) (lvl : List (List ℕ)) → merkle_reduce sc lvl ≡ parents sc lvl
unfolding merkle_reduce parents
merkle_reduce-eq-parents sc [] = refl
merkle_reduce-eq-parents sc (node ∷ []) = refl
merkle_reduce-eq-parents sc (left ∷ right ∷ lvl) =
    rw (interior_lem sc left right, merkle_reduce-eq-parents sc lvl) refl

pub leaves_lem :
    (sc : ℕ) (x : List (List ℕ)) → map (leaf sc) x ≡ map (λ c. sha256_raw (leaf_message sc c)) x
leaves_lem sc [] = refl
leaves_lem sc (c ∷ x) = rw (leaf_lem sc c, leaves_lem sc x) refl
