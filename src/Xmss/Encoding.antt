-- ===== src/Xmss/Encoding.antt =====
-- src/rmbl_pqc.cpp: nodes and hex strings are read back as they were written.
use rmorie_bricklayer.Prelude.{
  ℕ, zero, suc, ◌+◌, ◌*◌, ◌%◌, List, [], ◌∷◌, ◌++◌, length, take, length-append, take-append_le,
  drop-append, take_all, ◌==◌, ==_true, true, some, ◌≡◌, refl, ◌∙◌, arith,
}
use rmorie_bricklayer.Prelude.Bytes.{IsBytes, IsBytes-append}
use rmorie_bricklayer.Hex.{hexlify}
use rmorie_bricklayer.Hex.RoundTrip.{unhexlify-hexlify}
use rmorie_bricklayer.Xmss.Node.{IsNodes}
use rmorie_bricklayer.Xmss.Entry.{unhexlify, joined, nodes_at}

length-hexlify : (b : List ℕ) → length (hexlify b) ≡ length b + length b
unfolding hexlify
length-hexlify [] = refl
length-hexlify (x ∷ b) = omega (arith, length-hexlify b)

pub decoded : (b : List ℕ) → IsBytes b → unhexlify (hexlify b) ≡ some b
unfolding unhexlify
decoded b h =
    let even : (length (hexlify b) % 2 == 0) ≡ true =
      ==_true (length (hexlify b) % 2) 0 (omega (arith, length-hexlify b)) in
    rw even (unhexlify-hexlify b h)

pub joined-IsBytes : (nodes : List (List ℕ)) → IsNodes nodes → IsBytes (joined nodes)
unfolding joined
joined-IsBytes [] h = tt
joined-IsBytes (node ∷ nodes) (hn, h) =
    IsBytes-append node (joined nodes) hn.1 (joined-IsBytes nodes h)

pub length-joined :
    (nodes : List (List ℕ)) → IsNodes nodes → length (joined nodes) ≡ length nodes * 32
unfolding joined
length-joined [] h = omega arith
length-joined (node ∷ nodes) (hn, h) =
    omega (arith, length-append node (joined nodes), length-joined nodes h, hn.0)

-- Nodes written one behind the other are read back.
pub nodes_at-joined :
    (n : ℕ) (nodes : List (List ℕ))
    → length nodes ≡ n
    → IsNodes nodes
    → nodes_at n (joined nodes) ≡ nodes
unfolding nodes_at joined
nodes_at-joined zero [] n h = refl
nodes_at-joined (suc n) [] count h = absurd (omega arith)
nodes_at-joined zero (node ∷ nodes) count h = absurd (omega arith)
nodes_at-joined (suc n) (node ∷ nodes) count (hn, h) =
    let size = hn.0 in
    let first : take 32 (node ++ joined nodes) ≡ node =
      take-append_le 32 node (joined nodes) (omega arith) ∙ take_all 32 node (omega arith) in
    rw (first, drop-append 32 node (joined nodes) size, nodes_at-joined n nodes (omega arith) h)
      refl
