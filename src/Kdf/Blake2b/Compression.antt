-- ===== src/Kdf/Blake2b/Compression.antt =====
-- src/rmbl_kdf.cpp: b2b_compress against the function F of RFC 7693 (3.1, 3.2).
use mathlib.Core.Path.{subst}
use rmorie_bricklayer.Prelude.{
  ℕ, zero, suc, ◌+◌, ◌-◌, ◌*◌, ◌/◌, ◌%◌, ◌^◌, bit_xor, List, [], ◌∷◌, ◌++◌, length, take, drop,
  get_or, set, length-set, length-append, true, false, if◌then◌else◌, Bool, ◌≡◌, refl, ap, ◌∙◌,
  arith,
}
use rmorie_bricklayer.Prelude.Bytes.{IsBytes, IsBytes-take, IsBytes-drop}
use rmorie_bricklayer.Prelude.Bits.{bit_or_fields}
use rmorie_bricklayer.Sha2.Sha512.{rotr64}
use rmorie_bricklayer.Kdf.Blake2b.{
  add_word, add_pair, mix_word, b2b_g, b2b_round, b2b_rounds, le_word, le_words, fold_words,
  b2b_compress, k_sigma,
}

-- The function G, with its sums modulo 2 ^ 64 and its rotations by 32, 24, 16 and 63.
unfoldable pub mixing : ℕ → ℕ → ℕ → ℕ → ℕ → ℕ → List ℕ → List ℕ
mixing a b c d x y v =
    let a1 = (get_or v a 0 + get_or v b 0 + x) % 2 ^ 64 in
    let d1 = rotr64 (bit_xor (get_or v d 0) a1) 32 in
    let c1 = (get_or v c 0 + d1) % 2 ^ 64 in
    let b1 = rotr64 (bit_xor (get_or v b 0) c1) 24 in
    let a2 = (a1 + b1 + y) % 2 ^ 64 in
    let d2 = rotr64 (bit_xor d1 a2) 16 in
    let c2 = (c1 + d2) % 2 ^ 64 in
    let b2 = rotr64 (bit_xor b1 c2) 63 in set (set (set (set v a a2) b b2) c c2) d d2

module _ (v0 v1 v2 v3 v4 v5 v6 v7 v8 v9 v10 v11 v12 v13 v14 v15 x y : ℕ) where
  abbrev words : List ℕ
  words = v0 ∷ v1 ∷ v2 ∷ v3 ∷ v4 ∷ v5 ∷ v6 ∷ v7 ∷ v8 ∷ v9 ∷ v10 ∷ v11 ∷ v12 ∷ v13 ∷ v14 ∷ v15 ∷ []

  column0 : b2b_g 0 4 8 12 x y words ≡ mixing 0 4 8 12 x y words
  unfolding b2b_g add_word add_pair mix_word mixing
  column0 = refl

  column1 : b2b_g 1 5 9 13 x y words ≡ mixing 1 5 9 13 x y words
  unfolding b2b_g add_word add_pair mix_word mixing
  column1 = refl

  column2 : b2b_g 2 6 10 14 x y words ≡ mixing 2 6 10 14 x y words
  unfolding b2b_g add_word add_pair mix_word mixing
  column2 = refl

  column3 : b2b_g 3 7 11 15 x y words ≡ mixing 3 7 11 15 x y words
  unfolding b2b_g add_word add_pair mix_word mixing
  column3 = refl

  diagonal0 : b2b_g 0 5 10 15 x y words ≡ mixing 0 5 10 15 x y words
  unfolding b2b_g add_word add_pair mix_word mixing
  diagonal0 = refl

  diagonal1 : b2b_g 1 6 11 12 x y words ≡ mixing 1 6 11 12 x y words
  unfolding b2b_g add_word add_pair mix_word mixing
  diagonal1 = refl

  diagonal2 : b2b_g 2 7 8 13 x y words ≡ mixing 2 7 8 13 x y words
  unfolding b2b_g add_word add_pair mix_word mixing
  diagonal2 = refl

  diagonal3 : b2b_g 3 4 9 14 x y words ≡ mixing 3 4 9 14 x y words
  unfolding b2b_g add_word add_pair mix_word mixing
  diagonal3 = refl

-- A list of sixteen is one of sixteen words.
abbrev heads : ℕ → List ℕ → List ℕ
heads zero v = []
heads (suc n) v = get_or v 0 0 ∷ heads n (drop 1 v)

heads_lem : (n : ℕ) (v : List ℕ) → length v ≡ n → heads n v ≡ v
heads_lem zero [] e = refl
heads_lem zero (w ∷ v) e = absurd (omega (arith, e))
heads_lem (suc n) [] e = absurd (omega (arith, e))
heads_lem (suc n) (w ∷ v) e = ap (λ (t : List ℕ). w ∷ t) (heads_lem n v (omega (arith, e)))

abbrev Agree : (ℕ → ℕ → List ℕ → List ℕ) → (ℕ → ℕ → List ℕ → List ℕ) → Type 0
Agree f g = (x y : ℕ) (v : List ℕ) → length v ≡ 16 → f x y v ≡ g x y v

any_column0 : Agree (b2b_g 0 4 8 12) (mixing 0 4 8 12)
any_column0 x y v e =
    subst (λ (w : List ℕ). b2b_g 0 4 8 12 x y w ≡ mixing 0 4 8 12 x y w) (heads_lem 16 v e)
      (column0 _ _ _ _ _ _ _ _ _ _ _ _ _ _ _ _ x y)

any_column1 : Agree (b2b_g 1 5 9 13) (mixing 1 5 9 13)
any_column1 x y v e =
    subst (λ (w : List ℕ). b2b_g 1 5 9 13 x y w ≡ mixing 1 5 9 13 x y w) (heads_lem 16 v e)
      (column1 _ _ _ _ _ _ _ _ _ _ _ _ _ _ _ _ x y)

any_column2 : Agree (b2b_g 2 6 10 14) (mixing 2 6 10 14)
any_column2 x y v e =
    subst (λ (w : List ℕ). b2b_g 2 6 10 14 x y w ≡ mixing 2 6 10 14 x y w) (heads_lem 16 v e)
      (column2 _ _ _ _ _ _ _ _ _ _ _ _ _ _ _ _ x y)

any_column3 : Agree (b2b_g 3 7 11 15) (mixing 3 7 11 15)
any_column3 x y v e =
    subst (λ (w : List ℕ). b2b_g 3 7 11 15 x y w ≡ mixing 3 7 11 15 x y w) (heads_lem 16 v e)
      (column3 _ _ _ _ _ _ _ _ _ _ _ _ _ _ _ _ x y)

any_diagonal0 : Agree (b2b_g 0 5 10 15) (mixing 0 5 10 15)
any_diagonal0 x y v e =
    subst (λ (w : List ℕ). b2b_g 0 5 10 15 x y w ≡ mixing 0 5 10 15 x y w) (heads_lem 16 v e)
      (diagonal0 _ _ _ _ _ _ _ _ _ _ _ _ _ _ _ _ x y)

any_diagonal1 : Agree (b2b_g 1 6 11 12) (mixing 1 6 11 12)
any_diagonal1 x y v e =
    subst (λ (w : List ℕ). b2b_g 1 6 11 12 x y w ≡ mixing 1 6 11 12 x y w) (heads_lem 16 v e)
      (diagonal1 _ _ _ _ _ _ _ _ _ _ _ _ _ _ _ _ x y)

any_diagonal2 : Agree (b2b_g 2 7 8 13) (mixing 2 7 8 13)
any_diagonal2 x y v e =
    subst (λ (w : List ℕ). b2b_g 2 7 8 13 x y w ≡ mixing 2 7 8 13 x y w) (heads_lem 16 v e)
      (diagonal2 _ _ _ _ _ _ _ _ _ _ _ _ _ _ _ _ x y)

any_diagonal3 : Agree (b2b_g 3 4 9 14) (mixing 3 4 9 14)
any_diagonal3 x y v e =
    subst (λ (w : List ℕ). b2b_g 3 4 9 14 x y w ≡ mixing 3 4 9 14 x y w) (heads_lem 16 v e)
      (diagonal3 _ _ _ _ _ _ _ _ _ _ _ _ _ _ _ _ x y)

-- The permutations of the message words, one for each of ten rounds.
abbrev sigma : List (List ℕ)
sigma =
    (0 ∷ 1 ∷ 2 ∷ 3 ∷ 4 ∷ 5 ∷ 6 ∷ 7 ∷ 8 ∷ 9 ∷ 10 ∷ 11 ∷ 12 ∷ 13 ∷ 14 ∷ 15 ∷ [])
    ∷ (14 ∷ 10 ∷ 4 ∷ 8 ∷ 9 ∷ 15 ∷ 13 ∷ 6 ∷ 1 ∷ 12 ∷ 0 ∷ 2 ∷ 11 ∷ 7 ∷ 5 ∷ 3 ∷ [])
    ∷ (11 ∷ 8 ∷ 12 ∷ 0 ∷ 5 ∷ 2 ∷ 15 ∷ 13 ∷ 10 ∷ 14 ∷ 3 ∷ 6 ∷ 7 ∷ 1 ∷ 9 ∷ 4 ∷ [])
    ∷ (7 ∷ 9 ∷ 3 ∷ 1 ∷ 13 ∷ 12 ∷ 11 ∷ 14 ∷ 2 ∷ 6 ∷ 5 ∷ 10 ∷ 4 ∷ 0 ∷ 15 ∷ 8 ∷ [])
    ∷ (9 ∷ 0 ∷ 5 ∷ 7 ∷ 2 ∷ 4 ∷ 10 ∷ 15 ∷ 14 ∷ 1 ∷ 11 ∷ 12 ∷ 6 ∷ 8 ∷ 3 ∷ 13 ∷ [])
    ∷ (2 ∷ 12 ∷ 6 ∷ 10 ∷ 0 ∷ 11 ∷ 8 ∷ 3 ∷ 4 ∷ 13 ∷ 7 ∷ 5 ∷ 15 ∷ 14 ∷ 1 ∷ 9 ∷ [])
    ∷ (12 ∷ 5 ∷ 1 ∷ 15 ∷ 14 ∷ 13 ∷ 4 ∷ 10 ∷ 0 ∷ 7 ∷ 6 ∷ 3 ∷ 9 ∷ 2 ∷ 8 ∷ 11 ∷ [])
    ∷ (13 ∷ 11 ∷ 7 ∷ 14 ∷ 12 ∷ 1 ∷ 3 ∷ 9 ∷ 5 ∷ 0 ∷ 15 ∷ 4 ∷ 8 ∷ 6 ∷ 2 ∷ 10 ∷ [])
    ∷ (6 ∷ 15 ∷ 14 ∷ 9 ∷ 11 ∷ 3 ∷ 0 ∷ 8 ∷ 12 ∷ 2 ∷ 13 ∷ 7 ∷ 1 ∷ 4 ∷ 10 ∷ 5 ∷ [])
    ∷ (10 ∷ 2 ∷ 8 ∷ 4 ∷ 7 ∷ 6 ∷ 1 ∷ 5 ∷ 15 ∷ 11 ∷ 9 ∷ 14 ∷ 3 ∷ 12 ∷ 13 ∷ 0 ∷ [])
    ∷ []

-- A round: G on the columns and on the diagonals.
unfoldable pub rfc_round : List ℕ → List ℕ → List ℕ → List ℕ
rfc_round m s v =
    let w = λ (i : ℕ). get_or m (get_or s i 0) 0 in
    mixing 3 4 9 14 (w 14) (w 15) (
      mixing 2 7 8 13 (w 12) (w 13) (
        mixing 1 6 11 12 (w 10) (w 11) (
          mixing 0 5 10 15 (w 8) (w 9) (
            mixing 3 7 11 15 (w 6) (w 7) (
              mixing 2 6 10 14 (w 4) (w 5)
                (mixing 1 5 9 13 (w 2) (w 3) (mixing 0 4 8 12 (w 0) (w 1) v)))))))

-- The rounds from `i` on, `n` of them.
unfoldable pub rfc_rounds : ℕ → ℕ → List ℕ → List ℕ → List ℕ
rfc_rounds zero i m v = v
rfc_rounds (suc n) i m v = rfc_rounds n (i + 1) m (rfc_round m (get_or sigma (i % 10) []) v)

-- The words of a block, the lowest byte first.
unfoldable pub le_number : List ℕ → ℕ
le_number [] = 0
le_number (b ∷ bytes) = b + 2 ^ 8 * le_number bytes

unfoldable pub message_words : ℕ → List ℕ → List ℕ
message_words zero bytes = []
message_words (suc n) bytes = le_number (take 8 bytes) ∷ message_words n (drop 8 bytes)

-- Word `i` of the state and the two halves of the mixed words, from `i` on.
unfoldable pub fed : ℕ → ℕ → List ℕ → List ℕ → List ℕ
fed zero i h v = []
fed (suc n) i h v =
    bit_xor (get_or h i 0) (bit_xor (get_or v i 0) (get_or v (i + 8) 0)) ∷ fed n (i + 1) h v

abbrev pub initial_words : List ℕ
initial_words =
    0x6a09e667f3bcc908 ∷ 0xbb67ae8584caa73b ∷ 0x3c6ef372fe94f82b ∷ 0xa54ff53a5f1d36f1
    ∷ 0x510e527fade682d1 ∷ 0x9b05688c2b3e6c1f ∷ 0x1f83d9abfb41bd6b ∷ 0x5be0cd19137e2179 ∷ []

-- The working words: the counter of 128 bits is added to words 12 and 13, and the last block turns
-- the bits of word 14.
unfoldable pub working : List ℕ → ℕ → Bool → List ℕ
working h t last =
    let v = h ++ initial_words in
    let low = set v 12 (bit_xor (get_or v 12 0) (t % 2 ^ 64)) in
    let high = set low 13 (bit_xor (get_or low 13 0) (t / 2 ^ 64 % 2 ^ 64)) in
    if last then set high 14 (2 ^ 64 - 1 - get_or high 14 0) else high

-- The function F: twelve rounds.
unfoldable pub rfc_compress : List ℕ → ℕ → List ℕ → Bool → List ℕ
rfc_compress h t block last =
    fed 8 0 h (rfc_rounds 12 0 (message_words 16 block) (working h t last))

length-mixing : (a b c d x y : ℕ) (v : List ℕ) → length (mixing a b c d x y v) ≡ length v
unfolding mixing
length-mixing a b c d x y v = rw (length-set, length-set, length-set, length-set) refl

-- The words of the code and those of the RFC.
abbrev Same : List ℕ → List ℕ → Type 0
Same v w = (v ≡ w) × (length w ≡ 16)

one_mixing :
    (a b c d : ℕ) (x y : ℕ) {v w : List ℕ}
    → Agree (b2b_g a b c d) (mixing a b c d)
    → Same v w
    → Same (b2b_g a b c d x y v) (mixing a b c d x y w)
one_mixing a b c d x y {v = v} {w = w} agree (e, size) =
    (ap (b2b_g a b c d x y) e ∙ agree x y w size, length-mixing a b c d x y w ∙ size)

round_lem : (m s : List ℕ) {v w : List ℕ} → Same v w → Same (b2b_round m s v) (rfc_round m s w)
unfolding b2b_round rfc_round
round_lem m s h = one_mixing 3 4 9 14 _ _ any_diagonal3 (
    one_mixing 2 7 8 13 _ _ any_diagonal2 (
      one_mixing 1 6 11 12 _ _ any_diagonal1 (
        one_mixing 0 5 10 15 _ _ any_diagonal0 (
          one_mixing 3 7 11 15 _ _ any_column3 (
            one_mixing 2 6 10 14 _ _ any_column2
              (one_mixing 1 5 9 13 _ _ any_column1 (one_mixing 0 4 8 12 _ _ any_column0 h)))))))

rounds_lem :
    (m : List ℕ) {v w : List ℕ} → Same v w → Same (b2b_rounds m k_sigma v) (rfc_rounds 12 0 m w)
unfolding b2b_rounds rfc_rounds
rounds_lem m h =
    let r : (s : List ℕ) (v w : List ℕ) → Same v w → Same (b2b_round m s v) (rfc_round m s w) =
      λ s v w. round_lem m s in
    r _ _ _ (
      r _ _ _ (
        r _ _ _ (
          r _ _ _
            (r _ _ _ (r _ _ _ (r _ _ _ (r _ _ _ (r _ _ _ (r _ _ _ (r _ _ _ (r _ _ _ h)))))))))))

le_word-le_number : (bytes : List ℕ) → IsBytes bytes → le_word bytes ≡ le_number bytes
unfolding le_word le_number
le_word-le_number [] h = refl
le_word-le_number (b ∷ bytes) (hb, h) =
    bit_or_fields 8 (le_word bytes) b hb ∙ omega (arith, le_word-le_number bytes h)

words_lem : (n : ℕ) (bytes : List ℕ) → IsBytes bytes → le_words n bytes ≡ message_words n bytes
unfolding le_words message_words
words_lem zero bytes h = refl
words_lem (suc n) bytes h =
    rw
      (
        le_word-le_number (take 8 bytes) (IsBytes-take 8 bytes h),
        words_lem n (drop 8 bytes) (IsBytes-drop 8 bytes h),
      )
      refl

fed_lem : (h v : List ℕ) → length h ≡ 8 → fold_words h v 0 ≡ fed 8 0 h v
unfolding fold_words fed
fed_lem h v e = subst (λ (w : List ℕ). fold_words w v 0 ≡ fed 8 0 w v) (heads_lem 8 h e) refl

length-working : (h : List ℕ) (t : ℕ) (last : Bool) → length h ≡ 8 → length (working h t last) ≡ 16
unfolding working
length-working h t true e =
    rw (length-set, length-set, length-set, length-append h initial_words) (omega (arith, e))
length-working h t false e =
    rw (length-set, length-set, length-append h initial_words) (omega (arith, e))

pub length-rfc_compress :
    (h : List ℕ) (t : ℕ) (block : List ℕ) (last : Bool) → length (rfc_compress h t block last) ≡ 8
unfolding rfc_compress fed
length-rfc_compress h t block last = refl

-- b2b_compress is F, for a state of eight words and a block of bytes.
pub b2b_compress_lem :
    (h : List ℕ) (t : ℕ) (block : List ℕ) (last : Bool)
    → length h ≡ 8
    → IsBytes block
    → b2b_compress h (t % 2 ^ 64) (t / 2 ^ 64 % 2 ^ 64) block last ≡ rfc_compress h t block last
unfolding b2b_compress rfc_compress working
b2b_compress_lem h t block last e hb =
    fed_lem h _ e
    ∙ ap (fed 8 0 h) (
        ap (λ (m : List ℕ). b2b_rounds m k_sigma (working h t last)) (words_lem 16 block hb)
        ∙ (rounds_lem (message_words 16 block) {v = working h t last} {w = working h t last}
            (refl, length-working h t last e)).0)
