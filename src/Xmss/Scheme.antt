-- ===== src/Xmss/Scheme.antt =====
-- src/rmbl_pqc.cpp: the loops of signing and of verification over the chains and the levels.
use rmorie_bricklayer.Prelude.{ℕ, ◌+◌, ◌-◌, ◌/◌, ◌%◌, List, [], ◌∷◌, ◌==◌, if◌then◌else◌}
use rmorie_bricklayer.Xmss.{chain, wots_sk, ots_adrs, rand_hash, set_tree_index, tree_adrs}

-- The chains of the signature from chain `i` on.
unfoldable pub wots_sign : List ℕ → List ℕ → ℕ → ℕ → List ℕ → List (List ℕ)
wots_sign sk_seed pub_seed idx i [] = []
wots_sign sk_seed pub_seed idx i (d ∷ digits) =
    chain (wots_sk sk_seed pub_seed idx i) 0 d pub_seed (ots_adrs idx i)
    ∷ wots_sign sk_seed pub_seed idx (i + 1) digits

-- Each chain of a signature is walked the remaining way.
unfoldable pub pk_from_sig : List ℕ → ℕ → ℕ → List ℕ → List (List ℕ) → List (List ℕ)
pk_from_sig pub_seed idx i [] sig = []
pk_from_sig pub_seed idx i (d ∷ digits) [] = []
pk_from_sig pub_seed idx i (d ∷ digits) (s ∷ sig) =
    chain s d (15 - d) pub_seed (ots_adrs idx i) ∷ pk_from_sig pub_seed idx (i + 1) digits sig

-- The loop from the leaf to the root along the authentication path.
unfoldable pub climb : List ℕ → ℕ → ℕ → List ℕ → List (List ℕ) → List ℕ
climb pub_seed k pos node [] = node
climb pub_seed k pos node (sibling ∷ auth) =
    let tadrs = set_tree_index (pos / 2) (tree_adrs k) in
    let up =
      if pos % 2 == 0
      then rand_hash node sibling pub_seed tadrs
      else rand_hash sibling node pub_seed tadrs in
    climb pub_seed (k + 1) (pos / 2) up auth
