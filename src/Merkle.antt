-- ===== src/Merkle.antt =====
-- src/rmbl_digest.cpp: Merkle trees over raw chunks: leaves, roots and inclusion proofs.
-- A level is the list of its digests, each of 32 bytes in the source's one buffer.
pub mod Level
pub mod Inclusion
pub mod Messages
pub mod Binding
use mathlib.Core.Option
use rmorie_bricklayer.Prelude.{
  ℕ, zero, suc, ◌+◌, ◌-◌, ◌/◌, ◌%◌, List, [], ◌∷◌, ◌++◌, length, get_or, ◌==◌, ltb, leb,
  if◌then◌else◌, Bool, ◌&&◌, ◌||◌, map, Option, none, some,
}
use rmorie_bricklayer.Hex.{hexlify}
use rmorie_bricklayer.Sha2.Sha256.{sha256_raw}

-- Scheme 2 prefixes the input of a node by a byte.
unfoldable pub tagged : ℕ → ℕ → List ℕ → List ℕ
tagged scheme tag bytes = if scheme == 2 then tag ∷ bytes else bytes

unfoldable pub interior : ℕ → List ℕ → List ℕ → List ℕ
interior scheme left right = sha256_raw (tagged scheme 0x01 (left ++ right))

-- An unpaired node is promoted unchanged.
unfoldable pub merkle_reduce : ℕ → List (List ℕ) → List (List ℕ)
merkle_reduce scheme [] = []
merkle_reduce scheme (last ∷ []) = last ∷ []
merkle_reduce scheme (left ∷ right ∷ lvl) = interior scheme left right ∷ merkle_reduce scheme lvl

-- An element of R's list of chunks.
pub data Element : Type 0 where
  raw : List ℕ → Element
  other : Element

unfoldable pub leaf : ℕ → List ℕ → List ℕ
leaf scheme e = sha256_raw (tagged scheme 0x00 e)

-- Nothing is returned at an element that is not a raw vector.
unfoldable pub leaves_from_chunks : ℕ → List Element → Option (List (List ℕ))
leaves_from_chunks scheme [] = some []
leaves_from_chunks scheme (raw e ∷ x) =
    Option.map (λ (lvl : List (List ℕ)). leaf scheme e ∷ lvl) (leaves_from_chunks scheme x)
leaves_from_chunks scheme (other ∷ x) = none

-- The two messages of `RMBL_ARG_ERROR` on the list and on the scheme, that on an element, and
-- that on the index.
pub data Error : Type 0 where
  not_a_list scheme_not_1_or_2 chunk_not_raw index_out_of_range : Error

pub data Checked (A : Type 0) : Type 0 where
  failed : Error → Checked A
  returned : A → Checked A

-- R's argument: a list, or another object.
pub data Chunks : Type 0 where
  vector : List Element → Chunks
  object : Chunks

unfoldable pub check_chunk_list : {A : Type 0} → Chunks → ℕ → (List Element → Checked A) → Checked A
check_chunk_list object sc run = failed not_a_list
check_chunk_list (vector x) sc run =
    if (sc == 1) || (sc == 2) then run x else failed scheme_not_1_or_2

abbrev pub with_level :
    {A : Type 0} → Option (List (List ℕ)) → (List (List ℕ) → Checked A) → Checked A
with_level none run = failed chunk_not_raw
with_level (some lvl) run = run lvl

unfoldable pub with_leaves :
    {A : Type 0} → ℕ → List Element → (List (List ℕ) → Checked A) → Checked A
with_leaves sc x run = with_level (leaves_from_chunks sc x) run

-- `while (lvl.size() > 32) lvl = merkle_reduce(lvl, sc);`, on fuel.
unfoldable pub root_loop : ℕ → ℕ → List (List ℕ) → List (List ℕ)
root_loop zero sc lvl = lvl
root_loop (suc fuel) sc lvl =
    let rest = root_loop fuel sc (merkle_reduce sc lvl) in if ltb 1 (length lvl) then rest else lvl

-- The siblings as they are printed, and their sides: 0 is left and 1 is right.
pub record Proof : Type 0 where
  sibling : List (List ℕ)
  side : List ℕ

unfoldable pub push : List ℕ → ℕ → Proof → Proof
push node s p = record { sibling = hexlify node ∷ p.sibling; side = s ∷ p.side }

-- One turn's output for the position `p` of a level.
unfoldable pub proof_step : List (List ℕ) → ℕ → Proof → Proof
proof_step lvl p rest =
    if (p + 1 == length lvl) && (length lvl % 2 == 1)
    then rest
    else if p % 2 == 0
    then push (get_or lvl (p + 1) []) 1 rest
    else push (get_or lvl (p - 1) []) 0 rest

unfoldable pub proof_loop : ℕ → ℕ → ℕ → List (List ℕ) → Proof
proof_loop zero sc p lvl = record { sibling = []; side = [] }
proof_loop (suc fuel) sc p lvl =
    let rest = proof_loop fuel sc (p / 2) (merkle_reduce sc lvl) in
    if ltb 1 (length lvl) then proof_step lvl p rest else record { sibling = []; side = [] }

-- The entry points. Without a chunk the root is R's missing string, here `none`.
unfoldable pub merkle_root : Chunks → ℕ → Checked (Option (List ℕ))
merkle_root x scheme = check_chunk_list x scheme λ (elements : List Element).
    if ltb (length elements) 1
    then returned none
    else with_leaves scheme elements λ (lvl : List (List ℕ)).
      returned (some (hexlify (get_or (root_loop (length lvl) scheme lvl) 0 [])))

unfoldable pub merkle_leaves : Chunks → ℕ → Checked (List (List ℕ))
merkle_leaves x scheme = check_chunk_list x scheme λ (elements : List Element).
    with_leaves scheme elements λ (lvl : List (List ℕ)). returned (map hexlify lvl)

-- The index counts from 1; `none` is a missing or a negative one.
unfoldable pub position : Option ℕ → ℕ → Option ℕ
position none n = none
position (some zero) n = none
position (some (suc pos)) n = if ltb pos n then some pos else none

abbrev pub located : ℕ → List Element → Option ℕ → Checked Proof
located sc elements none = failed index_out_of_range
located sc elements (some pos) =
    with_leaves sc elements λ (lvl : List (List ℕ)). returned (proof_loop (length lvl) sc pos lvl)

unfoldable pub merkle_proof : Chunks → Option ℕ → ℕ → Checked Proof
merkle_proof x index scheme =
    check_chunk_list x scheme
      λ (elements : List Element). located scheme elements (position index (length elements))
