-- ===== src/Xmss/Chain.antt =====
-- src/rmbl_pqc.cpp: the chains of a signature, walked to their ends, are the public chains.
use rmorie_bricklayer.Prelude.{
  ℕ, zero, suc, ◌+◌, ◌-◌, ◌<◌, min, List, [], ◌∷◌, length, ◌≡◌, refl, sym, ap, ◌∙◌, arith,
}
use rmorie_bricklayer.Xmss.{Adrs, chain_step, chain_loop, chain, wots_sk, ots_adrs, wots_pk}
use rmorie_bricklayer.Xmss.Scheme.{wots_sign, pk_from_sig}
use rmorie_bricklayer.Xmss.Digits.{IsDigits}

chain_loop-add :
    (seed : List ℕ) (adrs : Adrs) (m n j : ℕ) (x : List ℕ)
    → chain_loop seed adrs n (j + m) (chain_loop seed adrs m j x) ≡ chain_loop seed adrs (m + n) j x
unfolding chain_loop
chain_loop-add seed adrs zero n j x =
    let start : j + 0 ≡ j = omega arith in
    let count : 0 + n ≡ n = omega arith in rw (start, count) refl
chain_loop-add seed adrs (suc m) n j x =
    let start : j + suc m ≡ j + 1 + m = omega arith in
    let count : suc m + n ≡ suc (m + n) = omega arith in
    rw (start, count) (chain_loop-add seed adrs m n (j + 1) (chain_step seed adrs j x))

-- `d` steps and then the remaining ones are all fifteen.
chain-chain :
    (x seed : List ℕ) (adrs : Adrs) (d : ℕ)
    → d < 16
    → chain (chain x 0 d seed adrs) d (15 - d) seed adrs ≡ chain x 0 15 seed adrs
unfolding chain
chain-chain x seed adrs d small =
    let first : min d (16 - 0) ≡ d = omega arith in
    let second : min (15 - d) (16 - d) ≡ 15 - d = omega arith in
    let start : 0 + d ≡ d = omega arith in
    let total : d + (15 - d) ≡ 15 = omega arith in
    rw (first, second)
      (ap (λ (j : ℕ). chain_loop seed adrs (15 - d) j (chain_loop seed adrs d 0 x)) (sym start)
        ∙ chain_loop-add seed adrs d (15 - d) 0 x
        ∙ ap (λ (n : ℕ). chain_loop seed adrs n 0 x) total)

-- The chains that a verifier computes from a signature of any digits below sixteen are the public
-- ones.
pub pk_from_sig-wots_sign :
    (sk_seed pub_seed : List ℕ) (idx i : ℕ) (digits : List ℕ)
    → IsDigits digits
    → pk_from_sig pub_seed idx i digits (wots_sign sk_seed pub_seed idx i digits)
      ≡ wots_pk sk_seed pub_seed idx (length digits) i
unfolding pk_from_sig wots_sign wots_pk
pk_from_sig-wots_sign sk_seed pub_seed idx i [] h = refl
pk_from_sig-wots_sign sk_seed pub_seed idx i (d ∷ digits) (hd, h) =
    rw
      (
        chain-chain (wots_sk sk_seed pub_seed idx i) pub_seed (ots_adrs idx i) d hd,
        pk_from_sig-wots_sign sk_seed pub_seed idx (i + 1) digits h,
      )
      refl
