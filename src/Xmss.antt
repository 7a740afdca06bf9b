-- ===== src/Xmss.antt =====
-- src/rmbl_pqc.cpp: XMSS signatures (RFC 8391) over SHA-256. A vector of nodes of 32 bytes is the
-- list
-- of its nodes; `Entry` reads and writes it as one string.
pub mod Scheme
pub mod Digits
pub mod Chain
pub mod Tree
pub mod Node
pub mod Entry
pub mod Encoding
pub mod Sound
use rmorie_bricklayer.Prelude.{
  ℕ, zero, suc, ◌+◌, ◌-◌, ◌*◌, ◌/◌, ◌%◌, ◌^◌, bit_and, bit_xor, min, List, [], ◌∷◌, ◌++◌, length,
  take, get_or, replicate, ◌==◌, ltb, if◌then◌else◌, Bool, true, false,
}
use rmorie_bricklayer.Prelude.Bytes.{be_bytes}
use rmorie_bricklayer.Kdf.{xor_bytes}
use rmorie_bricklayer.Sha2.Sha256.{sha256_raw}

unfoldable pub to_byte32 : ℕ → List ℕ
to_byte32 x = replicate 24 0 ++ be_bytes 8 x

unfoldable pub hash_dom : ℕ → List ℕ → List ℕ → List ℕ
hash_dom dom key msg = sha256_raw (to_byte32 dom ++ (key ++ msg))

unfoldable pub fn_f : List ℕ → List ℕ → List ℕ
fn_f key m = hash_dom 0 key m

unfoldable pub fn_h : List ℕ → List ℕ → List ℕ
fn_h key m64 = hash_dom 1 key m64

unfoldable pub fn_hmsg_bound : List ℕ → List ℕ → ℕ → List ℕ → List ℕ
fn_hmsg_bound r root idx m = sha256_raw (to_byte32 2 ++ (r ++ (root ++ (to_byte32 idx ++ m))))

unfoldable pub fn_prf_keygen : List ℕ → List ℕ → List ℕ → List ℕ
fn_prf_keygen key pub_seed adrs_bytes =
    sha256_raw (to_byte32 4 ++ (key ++ (pub_seed ++ adrs_bytes)))

unfoldable pub fn_prf : List ℕ → List ℕ → List ℕ
fn_prf key m32 = hash_dom 3 key m32

-- The eight words of a hash address.
pub record Adrs : Type 0 where
  pub w0 : ℕ
  pub w1 : ℕ
  pub w2 : ℕ
  pub w3 : ℕ
  pub w4 : ℕ
  pub w5 : ℕ
  pub w6 : ℕ
  pub w7 : ℕ

abbrev pub no_adrs : Adrs
no_adrs = record { w0 = 0; w1 = 0; w2 = 0; w3 = 0; w4 = 0; w5 = 0; w6 = 0; w7 = 0 }

unfoldable pub adrs_bytes : Adrs → List ℕ
adrs_bytes a =
    be_bytes 4 a.w0
    ++ (be_bytes 4 a.w1
        ++ (be_bytes 4 a.w2
            ++ (be_bytes 4 a.w3
                ++ (be_bytes 4 a.w4 ++ (be_bytes 4 a.w5 ++ (be_bytes 4 a.w6 ++ be_bytes 4 a.w7))))))

abbrev pub set_type : ℕ → Adrs → Adrs
set_type t a = record a { w3 = t; w4 = 0; w5 = 0; w6 = 0; w7 = 0 }

abbrev pub set_ots : ℕ → Adrs → Adrs
set_ots i a = record a { w4 = i }

abbrev pub set_chain : ℕ → Adrs → Adrs
set_chain i a = record a { w5 = i }

abbrev pub set_hash : ℕ → Adrs → Adrs
set_hash i a = record a { w6 = i }

abbrev pub set_key_and_mask : ℕ → Adrs → Adrs
set_key_and_mask i a = record a { w7 = i }

abbrev pub set_ltree : ℕ → Adrs → Adrs
set_ltree i a = record a { w4 = i }

abbrev pub set_tree_height : ℕ → Adrs → Adrs
set_tree_height i a = record a { w5 = i }

abbrev pub set_tree_index : ℕ → Adrs → Adrs
set_tree_index i a = record a { w6 = i }

unfoldable pub rand_hash : List ℕ → List ℕ → List ℕ → Adrs → List ℕ
rand_hash l r seed adrs =
    let key = fn_prf seed (adrs_bytes (set_key_and_mask 0 adrs)) in
    let bm0 = fn_prf seed (adrs_bytes (set_key_and_mask 1 adrs)) in
    let bm1 = fn_prf seed (adrs_bytes (set_key_and_mask 2 adrs)) in
    fn_h key (xor_bytes l bm0 ++ xor_bytes r bm1)

-- One turn of the loop of `chain`; the address's hash and mask words are set anew in each.
unfoldable pub chain_step : List ℕ → Adrs → ℕ → List ℕ → List ℕ
chain_step seed adrs j out =
    let at_j = set_hash j adrs in
    let key = fn_prf seed (adrs_bytes (set_key_and_mask 0 at_j)) in
    let bm = fn_prf seed (adrs_bytes (set_key_and_mask 1 at_j)) in fn_f key (xor_bytes out bm)

unfoldable pub chain_loop : List ℕ → Adrs → ℕ → ℕ → List ℕ → List ℕ
chain_loop seed adrs zero j out = out
chain_loop seed adrs (suc n) j out = chain_loop seed adrs n (j + 1) (chain_step seed adrs j out)

-- `j` runs from `i` while it is below `i + s` and below 16.
unfoldable pub chain : List ℕ → ℕ → ℕ → List ℕ → Adrs → List ℕ
chain x i s seed adrs = chain_loop seed adrs (min s (16 - i)) i x

unfoldable pub base_w : ℕ → List ℕ → List ℕ
base_w zero bytes = []
base_w (suc k) [] = []
base_w (suc zero) (b ∷ bytes) = bit_and (b / 2 ^ 4) 0x0f ∷ []
base_w (suc (suc k)) (b ∷ bytes) = bit_and (b / 2 ^ 4) 0x0f ∷ bit_and b 0x0f ∷ base_w k bytes

unfoldable pub checksum : List ℕ → ℕ
checksum [] = 0
checksum (d ∷ digits) = 15 - d + checksum digits

unfoldable pub checksum_digits : ℕ → List ℕ
checksum_digits sum =
    let csum = sum * 2 ^ 4 in
    take 3 (base_w 4 (bit_and (csum / 2 ^ 8) 0xff ∷ bit_and csum 0xff ∷ []))

unfoldable pub wots_digits : List ℕ → List ℕ
wots_digits msg32 = let digits = base_w 64 msg32 in digits ++ checksum_digits (checksum digits)

unfoldable pub wots_sk : List ℕ → List ℕ → ℕ → ℕ → List ℕ
wots_sk sk_seed pub_seed ots_index i =
    let adrs = set_chain i (set_ots ots_index (set_type 0 no_adrs)) in
    fn_prf_keygen sk_seed pub_seed (adrs_bytes (set_key_and_mask 0 (set_hash 0 adrs)))

abbrev pub ots_adrs : ℕ → ℕ → Adrs
ots_adrs ots_index i = set_chain i (set_ots ots_index (set_type 0 no_adrs))

-- The chains from `i` on, `n` of them.
unfoldable pub wots_pk : List ℕ → List ℕ → ℕ → ℕ → ℕ → List (List ℕ)
wots_pk sk_seed pub_seed ots_index zero i = []
wots_pk sk_seed pub_seed ots_index (suc n) i =
    chain (wots_sk sk_seed pub_seed ots_index i) 0 15 pub_seed (ots_adrs ots_index i)
    ∷ wots_pk sk_seed pub_seed ots_index n (i + 1)

-- One round of the L-tree from pair `i` on: an odd last node moves up.
unfoldable pub ltree_level : List ℕ → Adrs → ℕ → List (List ℕ) → List (List ℕ)
ltree_level pub_seed adrs i [] = []
ltree_level pub_seed adrs i (last ∷ []) = last ∷ []
ltree_level pub_seed adrs i (l ∷ r ∷ pk) =
    rand_hash l r pub_seed (set_tree_index i adrs) ∷ ltree_level pub_seed adrs (i + 1) pk

-- `while (len > 1)`, on fuel.
unfoldable pub ltree_loop : List ℕ → Adrs → ℕ → ℕ → List (List ℕ) → List (List ℕ)
ltree_loop pub_seed adrs zero height pk = pk
ltree_loop pub_seed adrs (suc fuel) height pk =
    let up = ltree_level pub_seed (set_tree_height height adrs) 0 pk in
    let rest = ltree_loop pub_seed adrs fuel (height + 1) up in
    if ltb 1 (length pk) then rest else pk

unfoldable pub ltree : List (List ℕ) → List ℕ → ℕ → List ℕ
ltree pk pub_seed ots_index =
    get_or (ltree_loop pub_seed (set_ltree ots_index (set_type 1 no_adrs)) (length pk) 0 pk) 0 []

unfoldable pub compute_leaf : List ℕ → List ℕ → ℕ → List ℕ
compute_leaf sk_seed pub_seed idx = ltree (wots_pk sk_seed pub_seed idx 67 0) pub_seed idx

unfoldable pub leaves : List ℕ → List ℕ → ℕ → ℕ → List (List ℕ)
leaves sk_seed pub_seed zero i = []
leaves sk_seed pub_seed (suc n) i =
    compute_leaf sk_seed pub_seed i ∷ leaves sk_seed pub_seed n (i + 1)

-- One level of the tree from pair `i` on.
unfoldable pub tree_level : List ℕ → Adrs → ℕ → List (List ℕ) → List (List ℕ)
tree_level pub_seed adrs i [] = []
tree_level pub_seed adrs i (last ∷ []) = []
tree_level pub_seed adrs i (l ∷ r ∷ lvl) =
    rand_hash l r pub_seed (set_tree_index i adrs) ∷ tree_level pub_seed adrs (i + 1) lvl

abbrev pub tree_adrs : ℕ → Adrs
tree_adrs height = set_tree_height height (set_type 2 no_adrs)

-- `while (len > 1)` of `tree_root`, on fuel: the last level, and the siblings on the way.
unfoldable pub root_loop : List ℕ → ℕ → ℕ → ℕ → List (List ℕ) → List (List ℕ) × List (List ℕ)
root_loop pub_seed zero height pos lvl = (lvl, [])
root_loop pub_seed (suc fuel) height pos lvl =
    let up = tree_level pub_seed (tree_adrs height) 0 lvl in
    let rest = root_loop pub_seed fuel (height + 1) (pos / 2) up in
    let sib = if pos % 2 == 0 then pos + 1 else pos - 1 in
    if ltb 1 (length lvl) then (rest.0, get_or lvl sib [] ∷ rest.1) else (lvl, [])

-- The root and the authentication path of leaf `leaf_idx`.
unfoldable pub tree_root : List ℕ → List ℕ → ℕ → ℕ → List ℕ × List (List ℕ)
tree_root sk_seed pub_seed h leaf_idx =
    let run = root_loop pub_seed h 0 leaf_idx (leaves sk_seed pub_seed (2 ^ h) 0) in
    (get_or run.0 0 [], run.1)
