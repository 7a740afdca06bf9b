-- ===== src/Xmss/Sound.antt =====
-- src/rmbl_pqc.cpp: what signing returns, verification accepts.
use rmorie_bricklayer.Prelude.{
  ℕ, ◌+◌, ◌*◌, ◌^◌, ◌<◌, ◌≤◌, List, [], length, get_or, ==_true, ltb, lt→ltb, ltb_ge, Bool, true,
  false, some, ◌≡◌, refl, sym, ap, ◌∙◌, arith,
}
use rmorie_bricklayer.Prelude.Bytes.{IsBytes}
use rmorie_bricklayer.Hex.{hexlify}
use rmorie_bricklayer.Mac.{difference}
use rmorie_bricklayer.Mac.Mask.{difference_lem}
use rmorie_bricklayer.Xmss.{
  to_byte32, fn_prf, fn_hmsg_bound, wots_digits, wots_pk, ltree, compute_leaf, leaves, root_loop,
  tree_root,
}
use rmorie_bricklayer.Xmss.Scheme.{wots_sign, pk_from_sig, climb}
use rmorie_bricklayer.Xmss.Digits.{wots_digits-IsDigits, length-wots_digits}
use rmorie_bricklayer.Xmss.Chain.{pk_from_sig-wots_sign}
use rmorie_bricklayer.Xmss.Tree.{root_loop-climb, root_loop-ends}
use rmorie_bricklayer.Xmss.Node.{
  IsNode, IsNodes, sha256_raw-IsNode, hash_dom-IsNode, wots_sign-IsNodes, get_or-IsNode,
  leaves-IsNodes, get_or-leaves, root_loop-IsNodes,
}
use rmorie_bricklayer.Xmss.Entry.{
  unhexlify, joined, nodes_at, Refusal, skseed, skprf, pubseed, seed_of, bytes_of, Answer, returned,
  Signature, sign_message, xmss_keygen, xmss_sign, verify_message, xmss_verify,
}
use rmorie_bricklayer.Xmss.Encoding.{decoded, joined-IsBytes, length-joined, nodes_at-joined}

-- What a tree of `2 ^ h` leaves gives for a leaf of it.
tree_root_lem :
    (sks pubs : List ℕ) (h idx : ℕ)
    → idx < 2 ^ h
    → IsNode (tree_root sks pubs h idx).0
      × IsNodes (tree_root sks pubs h idx).1
      × (length (tree_root sks pubs h idx).1 ≡ h)
      × (climb pubs 0 idx (compute_leaf sks pubs idx) (tree_root sks pubs h idx).1
          ≡ (tree_root sks pubs h idx).0)
      × ((tree_root sks pubs h 0).0 ≡ (tree_root sks pubs h idx).0)
unfolding tree_root
tree_root_lem sks pubs h idx inside =
    let lvl : List (List ℕ) = leaves sks pubs (2 ^ h) 0 in
    let made = leaves-IsNodes sks pubs (2 ^ h) 0 in
    let count : length lvl ≡ 2 ^ h = made.1 in
    let within : idx < length lvl = omega (arith, count) in
    let nodes = root_loop-IsNodes pubs h 0 idx lvl count within made.0 in
    let single = root_loop-ends pubs h 0 idx lvl count in
    let leaf : get_or lvl idx [] ≡ compute_leaf sks pubs idx =
      get_or-leaves sks pubs (2 ^ h) 0 idx inside
      ∙ ap (compute_leaf sks pubs) (let e : 0 + idx ≡ idx = omega arith in e) in
    (
      get_or-IsNode (root_loop pubs h 0 idx lvl).0 0 nodes.0 (omega (arith, single.0)),
      nodes.1,
      single.2,
      ap (λ (node : List ℕ). climb pubs 0 idx node (root_loop pubs h 0 idx lvl).1) (sym leaf)
          ∙ root_loop-climb pubs h 0 idx lvl count within,
      ap (λ (top : List (List ℕ)). get_or top 0 []) (sym (single.1 0)),
    )

no_difference : (a : List ℕ) → IsBytes a → difference 0 a a ≡ 0
no_difference a h = (difference_lem 0 a a (omega arith) h h refl).1 (refl, refl)

fn_hmsg_bound-IsNode :
    (r root : List ℕ) (idx : ℕ) (m : List ℕ) → IsNode (fn_hmsg_bound r root idx m)
unfolding fn_hmsg_bound
fn_hmsg_bound-IsNode r root idx m = sha256_raw-IsNode _

compute_leaf_opened :
    (sks pubs : List ℕ) (idx : ℕ)
    → ltree (wots_pk sks pubs idx 67 0) pubs idx ≡ compute_leaf sks pubs idx
unfolding compute_leaf
compute_leaf_opened sks pubs idx = refl

-- The chains of a signature and its path lead to the root.
accepted :
    (sks pubs rnd mb : List ℕ) (h idx : ℕ)
    → idx < 2 ^ h
    → verify_message pubs
        (tree_root sks pubs h idx).0
        h
        idx
        mb
        (joined (
          wots_sign sks pubs idx 0
            (wots_digits (fn_hmsg_bound rnd (tree_root sks pubs h idx).0 idx mb))))
        (joined (tree_root sks pubs h idx).1)
        rnd
      ≡ true
unfolding verify_message
accepted sks pubs rnd mb h idx inside =
    let tree = tree_root_lem sks pubs h idx inside in
    let root : List ℕ = (tree_root sks pubs h idx).0 in
    let auth : List (List ℕ) = (tree_root sks pubs h idx).1 in
    let dig : List ℕ = fn_hmsg_bound rnd root idx mb in
    let digits : List ℕ = wots_digits dig in
    let sig : List (List ℕ) = wots_sign sks pubs idx 0 digits in
    let made = wots_sign-IsNodes sks pubs idx 0 digits in
    let places : length digits ≡ 67 =
      length-wots_digits dig (fn_hmsg_bound-IsNode rnd root idx mb).0 in
    let chains : nodes_at 67 (joined sig) ≡ sig =
      nodes_at-joined 67 sig (omega (arith, made.1, places)) made.0 in
    let path : nodes_at h (joined auth) ≡ auth = nodes_at-joined h auth tree.2 tree.1 in
    let keys : pk_from_sig pubs idx 0 digits sig ≡ wots_pk sks pubs idx 67 0 =
      pk_from_sig-wots_sign sks pubs idx 0 digits (wots_digits-IsDigits dig)
      ∙ ap (λ (n : ℕ). wots_pk sks pubs idx n 0) places in
    let leaf : ltree (pk_from_sig pubs idx 0 digits (nodes_at 67 (joined sig))) pubs idx
        ≡ compute_leaf sks pubs idx =
      ap (λ (pk : List (List ℕ)). ltree pk pubs idx)
        (ap (pk_from_sig pubs idx 0 digits) chains ∙ keys)
      ∙ compute_leaf_opened sks pubs idx in
    let top : climb pubs 0 idx
          (ltree (pk_from_sig pubs idx 0 digits (nodes_at 67 (joined sig))) pubs idx)
          (nodes_at h (joined auth))
        ≡ root =
      ap (λ (node : List ℕ). climb pubs 0 idx node (nodes_at h (joined auth))) leaf
      ∙ ap (climb pubs 0 idx (compute_leaf sks pubs idx)) path
      ∙ tree.3 in
    ==_true
      (difference 0
        (climb pubs 0 idx
          (ltree (pk_from_sig pubs idx 0 digits (nodes_at 67 (joined sig))) pubs idx)
          (nodes_at h (joined auth)))
        root)
      0 (ap (λ (node : List ℕ). difference 0 node root) top ∙ no_difference root tree.0.1)

-- A seed given in hex passes its test.
seeded :
    {A : Type 0} (why : Refusal) (hex bytes : List ℕ) (run : List ℕ → Answer A)
    → unhexlify hex ≡ some bytes
    → length bytes ≡ 32
    → seed_of why (unhexlify hex) run ≡ run bytes
seeded why hex bytes run e n = rw (e, ==_true (length bytes) 32 n) refl

known_seed :
    (hex bytes : List ℕ) (run : List ℕ → Bool)
    → unhexlify hex ≡ some bytes
    → length bytes ≡ 32
    → bytes_of 32 (unhexlify hex) run ≡ run bytes
known_seed hex bytes run e n = rw (e, ==_true (length bytes) 32 n) refl

fn_prf-IsNode : (key m : List ℕ) → IsNode (fn_prf key m)
unfolding fn_prf
fn_prf-IsNode key m = hash_dom-IsNode 3 key m

-- Hex that the signer wrote passes the verifier's test.
written :
    (size : ℕ) (bytes : List ℕ) (run : List ℕ → Bool)
    → IsBytes bytes
    → length bytes ≡ size
    → bytes_of size (unhexlify (hexlify bytes)) run ≡ run bytes
written size bytes run h n = rw (decoded bytes h, ==_true (length bytes) size n) refl

-- For seeds of 64 hex characters, a height from 1 to 16 and an index below the number of leaves:
-- signing any message returns a signature, whose root is the one that key generation returns, and
-- verification accepts the message with the signature's chains, path and randomizer under that
-- root.
pub xmss_verify-xmss_sign :
    (sk_seed_hex sk_prf_hex pub_seed_hex mb sks prfs pubs : List ℕ) (h idx : ℕ)
    → unhexlify sk_seed_hex ≡ some sks
    → length sks ≡ 32
    → unhexlify sk_prf_hex ≡ some prfs
    → length prfs ≡ 32
    → unhexlify pub_seed_hex ≡ some pubs
    → length pubs ≡ 32
    → 1 ≤ h
    → h ≤ 16
    → idx < 2 ^ h
    → (s : Signature) × (xmss_sign sk_seed_hex sk_prf_hex pub_seed_hex h idx mb ≡ returned s)
      × (xmss_keygen sk_seed_hex pub_seed_hex h ≡ returned s.root)
      × (xmss_verify pub_seed_hex s.root h idx mb s.wots s.auth s.randomizer ≡ true)
unfolding xmss_sign xmss_keygen xmss_verify sign_message
xmss_verify-xmss_sign sk_seed_hex sk_prf_hex pub_seed_hex mb sks prfs pubs h idx es ns ep np eb nb
      low high inside =
    let tree = tree_root_lem sks pubs h idx inside in
    let root : List ℕ = (tree_root sks pubs h idx).0 in
    let auth : List (List ℕ) = (tree_root sks pubs h idx).1 in
    let rnd : List ℕ = fn_prf prfs (to_byte32 idx) in
    let digits : List ℕ = wots_digits (fn_hmsg_bound rnd root idx mb) in
    let sig : List (List ℕ) = wots_sign sks pubs idx 0 digits in
    let made = wots_sign-IsNodes sks pubs idx 0 digits in
    let node = fn_hmsg_bound-IsNode rnd root idx mb in
    let places : length sig ≡ 67 =
      made.1 ∙ length-wots_digits (fn_hmsg_bound rnd root idx mb) node.0 in
    let small : ltb h 1 ≡ false = ltb_ge h 1 low in
    let large : ltb 16 h ≡ false = ltb_ge 16 h high in
    let within : ltb idx (2 ^ h) ≡ true = lt→ltb idx (2 ^ h) inside in
    (
      sign_message sks prfs pubs h idx mb,
      seeded skseed sk_seed_hex sks _ es ns
          ∙ seeded skprf sk_prf_hex prfs _ ep np
          ∙ seeded pubseed pub_seed_hex pubs _ eb nb
          ∙ rw (small, large, within) refl,
      seeded skseed sk_seed_hex sks _ es ns
          ∙ seeded pubseed pub_seed_hex pubs _ eb nb
          ∙ rw (small, large, tree.4) refl,
      known_seed pub_seed_hex pubs _ eb nb
          ∙ written 32 root _ tree.0.1 tree.0.0
          ∙ written (67 * 32) (joined sig) _ (joined-IsBytes sig made.0)
              (length-joined sig made.0 ∙ ap (λ (n : ℕ). n * 32) places)
          ∙ rw (small, large)
              (written (h * 32) (joined auth) _ (joined-IsBytes auth tree.1)
                  (length-joined auth tree.1 ∙ ap (λ (n : ℕ). n * 32) tree.2)
                ∙ rw within (
                    written 32 rnd _ (fn_prf-IsNode prfs (to_byte32 idx)).1
                      (fn_prf-IsNode prfs (to_byte32 idx)).0
                    ∙ accepted sks pubs rnd mb h idx inside)),
    )
