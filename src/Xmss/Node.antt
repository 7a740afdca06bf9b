-- ===== src/Xmss/Node.antt =====
-- src/rmbl_pqc.cpp: every vector of nodes holds strings of 32 bytes, and is read back node by node.
use rmorie_bricklayer.Prelude.{
  ℕ, zero, suc, ◌+◌, ◌-◌, ◌*◌, ◌/◌, ◌%◌, ◌^◌, ◌==◌, ◌<◌, ◌≤◌, min, List, [], ◌∷◌, ◌++◌, length,
  get_or, ltb, if◌then◌else◌, true, Bool-cases, lt→ltb, ltb→lt, ltb-false, ◌≡◌, inl, inr, refl, ap,
  arith,
}
use rmorie_bricklayer.Prelude.Bytes.{IsBytes}
use rmorie_bricklayer.Sha2.Sha256.{sha256_raw}
use rmorie_bricklayer.Sha2.Sha256.Digest.{length-sha256_raw, sha256_raw-IsBytes}
use rmorie_bricklayer.Xmss.{
  Adrs, to_byte32, fn_f, fn_h, hash_dom, fn_prf_keygen, rand_hash, chain_step, chain_loop, chain,
  wots_sk, ots_adrs, wots_pk, ltree_level, ltree_loop, ltree, compute_leaf, leaves, tree_level,
  tree_adrs, root_loop, set_tree_index, set_tree_height, set_ltree, set_type, no_adrs,
}
use native.Mathlib.Nat.{pow-suc, one-le-pow}
use rmorie_bricklayer.Xmss.Scheme.{wots_sign}
use rmorie_bricklayer.Xmss.Tree.{length-tree_level}

abbrev pub IsNode : List ℕ → Type 0
IsNode node = (length node ≡ 32) × IsBytes node

abbrev pub IsNodes : List (List ℕ) → Type 0
IsNodes [] = Unit
IsNodes (node ∷ nodes) = IsNode node × IsNodes nodes

pub sha256_raw-IsNode : (bytes : List ℕ) → IsNode (sha256_raw bytes)
sha256_raw-IsNode bytes = (length-sha256_raw bytes, sha256_raw-IsBytes bytes)

pub hash_dom-IsNode : (dom : ℕ) (key msg : List ℕ) → IsNode (hash_dom dom key msg)
unfolding hash_dom
hash_dom-IsNode dom key msg = sha256_raw-IsNode (to_byte32 dom ++ (key ++ msg))

chain_loop-IsNode :
    (seed : List ℕ) (adrs : Adrs) (n j : ℕ) (out : List ℕ)
    → IsNode out
    → IsNode (chain_loop seed adrs n j out)
unfolding chain_loop chain_step fn_f
chain_loop-IsNode seed adrs zero j out h = h
chain_loop-IsNode seed adrs (suc n) j out h =
    chain_loop-IsNode seed adrs n (j + 1) (chain_step seed adrs j out) (hash_dom-IsNode 0 _ _)

rand_hash-IsNode : (l r seed : List ℕ) (adrs : Adrs) → IsNode (rand_hash l r seed adrs)
unfolding rand_hash fn_h
rand_hash-IsNode l r seed adrs = hash_dom-IsNode 1 _ _

wots_sk-IsNode : (sk_seed pub_seed : List ℕ) (idx i : ℕ) → IsNode (wots_sk sk_seed pub_seed idx i)
unfolding wots_sk fn_prf_keygen
wots_sk-IsNode sk_seed pub_seed idx i = sha256_raw-IsNode _

chain-IsNode :
    (x : List ℕ) (i s : ℕ) (seed : List ℕ) (adrs : Adrs) → IsNode x → IsNode (chain x i s seed adrs)
unfolding chain
chain-IsNode x i s seed adrs h = chain_loop-IsNode seed adrs (min s (16 - i)) i x h

pub wots_sign-IsNodes :
    (sk_seed pub_seed : List ℕ) (idx i : ℕ) (digits : List ℕ)
    → IsNodes (wots_sign sk_seed pub_seed idx i digits)
      × (length (wots_sign sk_seed pub_seed idx i digits) ≡ length digits)
unfolding wots_sign
wots_sign-IsNodes sk_seed pub_seed idx i [] = (tt, refl)
wots_sign-IsNodes sk_seed pub_seed idx i (d ∷ digits) =
    let rest = wots_sign-IsNodes sk_seed pub_seed idx (i + 1) digits in
    let sk = wots_sk-IsNode sk_seed pub_seed idx i in
    (
      (chain-IsNode (wots_sk sk_seed pub_seed idx i) 0 d pub_seed (ots_adrs idx i) sk, rest.0),
      ap suc rest.1,
    )

wots_pk-IsNodes :
    (sk_seed pub_seed : List ℕ) (idx n i : ℕ)
    → IsNodes (wots_pk sk_seed pub_seed idx n i) × (length (wots_pk sk_seed pub_seed idx n i) ≡ n)
unfolding wots_pk
wots_pk-IsNodes sk_seed pub_seed idx zero i = (tt, refl)
wots_pk-IsNodes sk_seed pub_seed idx (suc n) i =
    let rest = wots_pk-IsNodes sk_seed pub_seed idx n (i + 1) in
    let sk = wots_sk-IsNode sk_seed pub_seed idx i in
    (
      (chain-IsNode (wots_sk sk_seed pub_seed idx i) 0 15 pub_seed (ots_adrs idx i) sk, rest.0),
      ap suc rest.1,
    )

pub get_or-IsNode :
    (nodes : List (List ℕ)) (i : ℕ) → IsNodes nodes → i < length nodes → IsNode (get_or nodes i [])
get_or-IsNode [] i h inside = absurd (omega arith)
get_or-IsNode (node ∷ nodes) zero (hn, h) inside = hn
get_or-IsNode (node ∷ nodes) (suc i) (hn, h) inside = get_or-IsNode nodes i h (omega arith)

-- One round of an L-tree halves the nodes, rounding up.
ltree_level-IsNodes :
    (seed : List ℕ) (adrs : Adrs) (i : ℕ) (pk : List (List ℕ))
    → IsNodes pk
    → IsNodes (ltree_level seed adrs i pk)
      × (length (ltree_level seed adrs i pk) ≡ (length pk + 1) / 2)
unfolding ltree_level
ltree_level-IsNodes seed adrs i [] h = (tt, refl)
ltree_level-IsNodes seed adrs i (last ∷ []) h = (h, refl)
ltree_level-IsNodes seed adrs i (l ∷ r ∷ pk) (hl, (hr, h)) =
    let rest = ltree_level-IsNodes seed adrs (i + 1) pk h in
    ((rand_hash-IsNode l r seed (set_tree_index i adrs), rest.0), omega (arith, rest.1))

-- The loop of `ltree` ends at one node, with as many turns as nodes.
pub ltree_loop-single :
    (seed : List ℕ) (adrs : Adrs) (fuel height : ℕ) (pk : List (List ℕ))
    → IsNodes pk
    → 1 ≤ length pk
    → length pk ≤ fuel
    → IsNodes (ltree_loop seed adrs fuel height pk)
      × (length (ltree_loop seed adrs fuel height pk) ≡ 1)
unfolding ltree_loop
ltree_loop-single seed adrs zero height pk h some_node enough = absurd (omega arith)
ltree_loop-single seed adrs (suc fuel) height pk h some_node enough =
    let up = ltree_level seed (set_tree_height height adrs) 0 pk in
    let level = ltree_level-IsNodes seed (set_tree_height height adrs) 0 pk h in
    let half = level.1 in
    elim (Bool-cases (ltb 1 (length pk))) [
      | inl more ↦
          let many = ltb→lt 1 (length pk) more in
          rw more
            (ltree_loop-single seed adrs fuel (height + 1) up level.0 (omega arith) (omega arith))
      | inr done ↦ let few = ltb-false 1 (length pk) done in rw done (h, omega arith)
    ]

compute_leaf-IsNode :
    (sk_seed pub_seed : List ℕ) (idx : ℕ) → IsNode (compute_leaf sk_seed pub_seed idx)
unfolding compute_leaf ltree
compute_leaf-IsNode sk_seed pub_seed idx =
    let pk : List (List ℕ) = wots_pk sk_seed pub_seed idx 67 0 in
    let made = wots_pk-IsNodes sk_seed pub_seed idx 67 0 in
    let count = made.1 in
    let adrs : Adrs = set_ltree idx (set_type 1 no_adrs) in
    let end = ltree_loop-single pub_seed adrs (length pk) 0 pk made.0 (omega arith) (omega arith) in
    get_or-IsNode (ltree_loop pub_seed adrs (length pk) 0 pk) 0 end.0 (omega (arith, end.1))

pub leaves-IsNodes :
    (sk_seed pub_seed : List ℕ) (n i : ℕ)
    → IsNodes (leaves sk_seed pub_seed n i) × (length (leaves sk_seed pub_seed n i) ≡ n)
unfolding leaves
leaves-IsNodes sk_seed pub_seed zero i = (tt, refl)
leaves-IsNodes sk_seed pub_seed (suc n) i =
    let rest = leaves-IsNodes sk_seed pub_seed n (i + 1) in
    ((compute_leaf-IsNode sk_seed pub_seed i, rest.0), ap suc rest.1)

pub get_or-leaves :
    (sk_seed pub_seed : List ℕ) (n i pos : ℕ)
    → pos < n
    → get_or (leaves sk_seed pub_seed n i) pos [] ≡ compute_leaf sk_seed pub_seed (i + pos)
unfolding leaves
get_or-leaves sk_seed pub_seed zero i pos inside = absurd (omega arith)
get_or-leaves sk_seed pub_seed (suc n) i zero inside =
    let here : i + 0 ≡ i = omega arith in rw here refl
get_or-leaves sk_seed pub_seed (suc n) i (suc pos) inside =
    let there : i + suc pos ≡ i + 1 + pos = omega arith in
    rw there (get_or-leaves sk_seed pub_seed n (i + 1) pos (omega arith))

tree_level-IsNodes :
    (seed : List ℕ) (adrs : Adrs) (i : ℕ) (lvl : List (List ℕ))
    → IsNodes (tree_level seed adrs i lvl)
unfolding tree_level
tree_level-IsNodes seed adrs i [] = tt
tree_level-IsNodes seed adrs i (last ∷ []) = tt
tree_level-IsNodes seed adrs i (l ∷ r ∷ lvl) =
    (rand_hash-IsNode l r seed (set_tree_index i adrs), tree_level-IsNodes seed adrs (i + 1) lvl)

sibling_inside :
    (pos count half : ℕ)
    → count ≡ 2 * half
    → pos < count
    → (if pos % 2 == 0 then pos + 1 else pos - 1) < count
sibling_inside pos count half even inside = ground arith

-- Every sibling that the loop of `tree_root` collects is a node, and so is the one that it ends at.
pub root_loop-IsNodes :
    (seed : List ℕ) (h k pos : ℕ) (lvl : List (List ℕ))
    → length lvl ≡ 2 ^ h
    → pos < length lvl
    → IsNodes lvl
    → IsNodes (root_loop seed h k pos lvl).0 × IsNodes (root_loop seed h k pos lvl).1
unfolding root_loop
root_loop-IsNodes seed zero k pos lvl count inside nodes = (nodes, tt)
root_loop-IsNodes seed (suc h) k pos lvl count inside nodes =
    let up = tree_level seed (tree_adrs k) 0 lvl in
    let sib = if pos % 2 == 0 then pos + 1 else pos - 1 in
    let half : length up ≡ 2 ^ h =
      omega (arith, length-tree_level seed (tree_adrs k) 0 lvl, pow-suc 2 h) in
    let many : ltb 1 (length lvl) ≡ true =
      lt→ltb 1 (length lvl) (omega (arith, pow-suc 2 h, one-le-pow h 2 (omega arith))) in
    let rest =
      root_loop-IsNodes seed h (k + 1) (pos / 2) up half (omega arith)
        (tree_level-IsNodes seed (tree_adrs k) 0 lvl) in
    let near : sib < length lvl =
      sibling_inside pos (length lvl) (2 ^ h) (omega (arith, pow-suc 2 h)) inside in
    rw many (rest.0, (get_or-IsNode lvl sib nodes near, rest.1))
