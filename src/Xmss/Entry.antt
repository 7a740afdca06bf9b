-- ===== src/Xmss/Entry.antt =====
-- src/rmbl_pqc.cpp: the entry points for keys, signatures and their verification, on strings of
-- hex.
-- An interrupt during a tree ends the call, and is left out.
use rmorie_bricklayer.Prelude.{
  ℕ, zero, suc, ◌*◌, ◌%◌, ◌^◌, List, [], ◌∷◌, ◌++◌, length, take, drop, ◌==◌, ltb, if◌then◌else◌,
  Bool, false, ◌||◌, Option, none, some,
}
use rmorie_bricklayer.Prelude.Bytes.{be_bytes}
use rmorie_bricklayer.Hex.{hexlify, unhexlify as decode_pairs}
use rmorie_bricklayer.Mac.{difference}
use rmorie_bricklayer.Xmss.{to_byte32, fn_prf, fn_hmsg_bound, wots_digits, ltree, tree_root}
use rmorie_bricklayer.Xmss.Scheme.{wots_sign, pk_from_sig, climb}

-- The file's own `unhexlify`, which refuses an odd length.
unfoldable pub unhexlify : List ℕ → Option (List ℕ)
unhexlify s = if length s % 2 == 0 then decode_pairs s else none

-- Nodes one behind the other, and read back: `data() + i * kN`.
unfoldable pub joined : List (List ℕ) → List ℕ
joined [] = []
joined (node ∷ nodes) = node ++ joined nodes

unfoldable pub nodes_at : ℕ → List ℕ → List (List ℕ)
nodes_at zero bytes = []
nodes_at (suc n) bytes = take 32 bytes ∷ nodes_at n (drop 32 bytes)

-- The argument that `rmbl::fail` is called for.
pub data Refusal : Type 0 where
  skseed skprf pubseed height index : Refusal

pub data Answer (A : Type 0) : Type 0 where
  failed : Refusal → Answer A
  returned : A → Answer A

-- An argument of 64 hex characters.
abbrev pub seed_of : {A : Type 0} → Refusal → Option (List ℕ) → (List ℕ → Answer A) → Answer A
seed_of why none run = failed why
seed_of why (some bytes) run = if length bytes == 32 then run bytes else failed why

-- A height below 1 stands for zero, negative and missing ones.
abbrev pub height_of : {A : Type 0} → ℕ → Answer A → Answer A
height_of h run = if ltb h 1 || ltb 16 h then failed height else run

unfoldable pub xmss_keygen : List ℕ → List ℕ → ℕ → Answer (List ℕ)
xmss_keygen sk_seed_hex pub_seed_hex h = seed_of skseed (unhexlify sk_seed_hex) λ (sks : List ℕ).
    seed_of pubseed (unhexlify pub_seed_hex)
      λ (pubs : List ℕ). height_of h (returned (hexlify (tree_root sks pubs h 0).0))

pub record Signature : Type 0 where
  pub wots : List ℕ
  pub auth : List ℕ
  pub at_index : ℕ
  pub root : List ℕ
  pub randomizer : List ℕ
  pub wire : List ℕ

-- The body of `C_rmbl_xmss_sign_impl` behind its tests.
unfoldable pub sign_message : List ℕ → List ℕ → List ℕ → ℕ → ℕ → List ℕ → Signature
sign_message sks prfs pubs h idx mb =
    let tree = tree_root sks pubs h idx in
    let rnd = fn_prf prfs (to_byte32 idx) in
    let dig = fn_hmsg_bound rnd tree.0 idx mb in
    let sig = joined (wots_sign sks pubs idx 0 (wots_digits dig)) in
    let path = joined tree.1 in
    record {
      wots = hexlify sig;
      auth = hexlify path;
      at_index = idx;
      root = hexlify tree.0;
      randomizer = hexlify rnd;
      wire = hexlify (be_bytes 4 idx ++ (rnd ++ (sig ++ path)));
    }

-- The index is the `uint32_t` that the source casts it to.
unfoldable pub xmss_sign : List ℕ → List ℕ → List ℕ → ℕ → ℕ → List ℕ → Answer Signature
xmss_sign sk_seed_hex sk_prf_hex pub_seed_hex h idx mb =
    seed_of skseed (unhexlify sk_seed_hex) λ (sks : List ℕ).
      seed_of skprf (unhexlify sk_prf_hex) λ (prfs : List ℕ).
        seed_of pubseed (unhexlify pub_seed_hex) λ (pubs : List ℕ).
          height_of h (
            if ltb idx (2 ^ h)
            then returned (sign_message sks prfs pubs h idx mb)
            else failed index)

-- The body of `C_rmbl_xmss_verify_impl` behind its tests.
unfoldable pub verify_message : List ℕ → List ℕ → ℕ → ℕ → List ℕ → List ℕ → List ℕ → List ℕ → Bool
verify_message pubs root h idx mb sig auth rnd =
    let dig = fn_hmsg_bound rnd root idx mb in
    let pk = pk_from_sig pubs idx 0 (wots_digits dig) (nodes_at 67 sig) in
    let node = climb pubs 0 idx (ltree pk pubs idx) (nodes_at h auth) in difference 0 node root == 0

-- A string of hex for so many bytes; any other one does not verify.
abbrev pub bytes_of : ℕ → Option (List ℕ) → (List ℕ → Bool) → Bool
bytes_of size none run = false
bytes_of size (some bytes) run = if length bytes == size then run bytes else false

unfoldable pub xmss_verify : List ℕ → List ℕ → ℕ → ℕ → List ℕ → List ℕ → List ℕ → List ℕ → Bool
xmss_verify pub_seed_hex root_hex h idx mb sig_hex auth_hex r_hex =
    bytes_of 32 (unhexlify pub_seed_hex) λ (pubs : List ℕ).
      bytes_of 32 (unhexlify root_hex) λ (root : List ℕ).
        bytes_of (67 * 32) (unhexlify sig_hex) λ (sig : List ℕ).
          if ltb h 1 || ltb 16 h
          then false
          else bytes_of (h * 32) (unhexlify auth_hex) λ (auth : List ℕ).
            if ltb idx (2 ^ h)
            then (bytes_of 32 (unhexlify r_hex)
                λ (rnd : List ℕ). verify_message pubs root h idx mb sig auth rnd)
            else false
