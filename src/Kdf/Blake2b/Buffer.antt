-- ===== src/Kdf/Blake2b/Buffer.antt =====
-- src/rmbl_kdf.cpp: the buffer of BLAKE2b, bytes with zeros behind.
use rmorie_bricklayer.Prelude.{
  ℕ, zero, suc, ◌+◌, ◌-◌, ◌<◌, ◌≤◌, List, [], ◌∷◌, ◌++◌, length, set, replicate, length-append,
  length-replicate, ◌≡◌, refl, ap, ◌∙◌, arith,
}
use rmorie_bricklayer.Kdf.Blake2b.{zero_fill}

-- A block of at most 128 bytes with zeros behind.
abbrev pub padded_block : List ℕ → List ℕ
padded_block bytes = bytes ++ replicate (128 - length bytes) 0

pub length-padded_block : (bytes : List ℕ) → length bytes ≤ 128 → length (padded_block bytes) ≡ 128
length-padded_block bytes short =
    let zeros : List ℕ = replicate (128 - length bytes) 0 in
    let count : length zeros ≡ 128 - length bytes =
      length-replicate {A = ℕ} (128 - length bytes) 0 in
    length-append bytes zeros ∙ omega (arith, count)

set_after : (xs ys : List ℕ) (y b : ℕ) → set (xs ++ (y ∷ ys)) (length xs) b ≡ (xs ++ (b ∷ [])) ++ ys
set_after [] ys y b = refl
set_after (x ∷ xs) ys y b = ap (λ (t : List ℕ). x ∷ t) (set_after xs ys y b)

-- A byte written behind the input.
pub set_next :
    (input : List ℕ) (b : ℕ)
    → length input < 128
    → set (padded_block input) (length input) b ≡ padded_block (input ++ (b ∷ []))
set_next input b room =
    let zeros : 128 - length input ≡ suc (128 - length (input ++ (b ∷ []))) =
      omega (arith, length-append input (b ∷ [])) in
    rw zeros (set_after input (replicate (128 - length (input ++ (b ∷ []))) 0) 0 b)

set_zero :
    (xs : List ℕ) (m k i : ℕ)
    → i ≡ length xs + k
    → k < m
    → set (xs ++ replicate m 0) i 0 ≡ xs ++ replicate m 0
set_zero [] zero k i e h = absurd (omega arith)
set_zero [] (suc m) k zero e h = refl
set_zero [] (suc m) zero (suc i) e h = absurd (omega arith)
set_zero [] (suc m) (suc k) (suc i) e h =
    ap (λ (t : List ℕ). 0 ∷ t) (set_zero [] m k i (omega (arith, e)) (omega arith))
set_zero (x ∷ xs) m k zero e h = absurd (omega arith)
set_zero (x ∷ xs) m k (suc i) e h =
    ap (λ (t : List ℕ). x ∷ t) (set_zero xs m k i (omega (arith, e)) h)

-- Zeros written over zeros change nothing.
pub zero_fill_lem :
    (n m k i : ℕ) (xs : List ℕ)
    → i ≡ length xs + k
    → k + n ≤ m
    → zero_fill n i (xs ++ replicate m 0) ≡ xs ++ replicate m 0
unfolding zero_fill
zero_fill_lem zero m k i xs e h = refl
zero_fill_lem (suc n) m k i xs e h =
    rw (set_zero xs m k i e (omega arith))
      (zero_fill_lem n m (k + 1) (i + 1) xs (omega (arith, e)) (omega arith))
