-- ===== src/Kdf/Blake2b.antt =====
-- src/rmbl_kdf.cpp: BLAKE2b (RFC 7693).
pub mod Buffer
pub mod Compression
pub mod Blocks
pub mod Rfc
use rmorie_bricklayer.Prelude.{
  ℕ, zero, suc, ◌+◌, ◌-◌, ◌*◌, ◌/◌, ◌%◌, ◌^◌, bit_and, bit_or, bit_xor, List, [], ◌∷◌, ◌++◌, length,
  take, drop, get_or, set, replicate, ◌==◌, ltb, if◌then◌else◌, Bool, true, false, ◌||◌, Option,
  none, some,
}
use rmorie_bricklayer.Sha2.Sha512.{rotr64}

abbrev pub u64 : ℕ → ℕ
u64 v = v % 2 ^ 64

abbrev pub k_iv : List ℕ
k_iv =
    0x6a09e667f3bcc908 ∷ 0xbb67ae8584caa73b ∷ 0x3c6ef372fe94f82b ∷ 0xa54ff53a5f1d36f1
    ∷ 0x510e527fade682d1 ∷ 0x9b05688c2b3e6c1f ∷ 0x1f83d9abfb41bd6b ∷ 0x5be0cd19137e2179 ∷ []

abbrev pub k_sigma : List (List ℕ)
k_sigma =
    (0 ∷ 1 ∷ 2 ∷ 3 ∷ 4 ∷ 5 ∷ 6 ∷ 7 ∷ 8 ∷ 9 ∷ 10 ∷ 11 ∷ 12 ∷ 13 ∷ 14 ∷ 15 ∷ [])
    ∷ (14 ∷ 10 ∷ 4 ∷ 8 ∷ 9 ∷ 15 ∷ 13 ∷ 6 ∷ 1 ∷ 12 ∷ 0 ∷ 2 ∷ 11 ∷ 7 ∷ 5 ∷ 3 ∷ [])
    ∷ (11 ∷ 8 ∷ 12 ∷ 0 ∷ 5 ∷ 2 ∷ 15 ∷ 13 ∷ 10 ∷ 14 ∷ 3 ∷ 6 ∷ 7 ∷ 1 ∷ 9 ∷ 4 ∷ [])
    ∷ (7 ∷ 9 ∷ 3 ∷ 1 ∷ 13 ∷ 12 ∷ 11 ∷ 14 ∷ 2 ∷ 6 ∷ 5 ∷ 10 ∷ 4 ∷ 0 ∷ 15 ∷ 8 ∷ [])
    ∷ (9 ∷ 0 ∷ 5 ∷ 7 ∷ 2 ∷ 4 ∷ 10 ∷ 15 ∷ 14 ∷ 1 ∷ 11 ∷ 12 ∷ 6 ∷ 8 ∷ 3 ∷ 13 ∷ [])
    ∷ (2 ∷ 12 ∷ 6 ∷ 10 ∷ 0 ∷ 11 ∷ 8 ∷ 3 ∷ 4 ∷ 13 ∷ 7 ∷ 5 ∷ 15 ∷ 14 ∷ 1 ∷ 9 ∷ [])
    ∷ (12 ∷ 5 ∷ 1 ∷ 15 ∷ 14 ∷ 13 ∷ 4 ∷ 10 ∷ 0 ∷ 7 ∷ 6 ∷ 3 ∷ 9 ∷ 2 ∷ 8 ∷ 11 ∷ [])
    ∷ (13 ∷ 11 ∷ 7 ∷ 14 ∷ 12 ∷ 1 ∷ 3 ∷ 9 ∷ 5 ∷ 0 ∷ 15 ∷ 4 ∷ 8 ∷ 6 ∷ 2 ∷ 10 ∷ [])
    ∷ (6 ∷ 15 ∷ 14 ∷ 9 ∷ 11 ∷ 3 ∷ 0 ∷ 8 ∷ 12 ∷ 2 ∷ 13 ∷ 7 ∷ 1 ∷ 4 ∷ 10 ∷ 5 ∷ [])
    ∷ (10 ∷ 2 ∷ 8 ∷ 4 ∷ 7 ∷ 6 ∷ 1 ∷ 5 ∷ 15 ∷ 11 ∷ 9 ∷ 14 ∷ 3 ∷ 12 ∷ 13 ∷ 0 ∷ [])
    ∷ (0 ∷ 1 ∷ 2 ∷ 3 ∷ 4 ∷ 5 ∷ 6 ∷ 7 ∷ 8 ∷ 9 ∷ 10 ∷ 11 ∷ 12 ∷ 13 ∷ 14 ∷ 15 ∷ [])
    ∷ (14 ∷ 10 ∷ 4 ∷ 8 ∷ 9 ∷ 15 ∷ 13 ∷ 6 ∷ 1 ∷ 12 ∷ 0 ∷ 2 ∷ 11 ∷ 7 ∷ 5 ∷ 3 ∷ [])
    ∷ []

abbrev pub word_at : List ℕ → ℕ → ℕ
word_at v i = get_or v i 0

-- `v[a] = v[a] + v[b] + x`
unfoldable pub add_word : List ℕ → ℕ → ℕ → ℕ → List ℕ
add_word v a b x = set v a (u64 (word_at v a + word_at v b + x))

-- `v[c] = v[c] + v[d]`
unfoldable pub add_pair : List ℕ → ℕ → ℕ → List ℕ
add_pair v c d = set v c (u64 (word_at v c + word_at v d))

-- `v[d] = rotr64(v[d] ^ v[a], n)`
unfoldable pub mix_word : List ℕ → ℕ → ℕ → ℕ → List ℕ
mix_word v d a n = set v d (rotr64 (bit_xor (word_at v d) (word_at v a)) n)

unfoldable pub b2b_g : ℕ → ℕ → ℕ → ℕ → ℕ → ℕ → List ℕ → List ℕ
b2b_g a b c d x y v =
    let v1 = mix_word (add_word v a b x) d a 32 in
    let v2 = mix_word (add_pair v1 c d) b c 24 in
    let v3 = mix_word (add_word v2 a b y) d a 16 in mix_word (add_pair v3 c d) b c 63

unfoldable pub b2b_round : List ℕ → List ℕ → List ℕ → List ℕ
b2b_round m s v =
    let w = λ (i : ℕ). word_at m (word_at s i) in
    b2b_g 3 4 9 14 (w 14) (w 15) (
      b2b_g 2 7 8 13 (w 12) (w 13) (
        b2b_g 1 6 11 12 (w 10) (w 11) (
          b2b_g 0 5 10 15 (w 8) (w 9) (
            b2b_g 3 7 11 15 (w 6) (w 7) (
              b2b_g 2 6 10 14 (w 4) (w 5)
                (b2b_g 1 5 9 13 (w 2) (w 3) (b2b_g 0 4 8 12 (w 0) (w 1) v)))))))

unfoldable pub b2b_rounds : List ℕ → List (List ℕ) → List ℕ → List ℕ
b2b_rounds m [] v = v
b2b_rounds m (s ∷ sigma) v = b2b_rounds m sigma (b2b_round m s v)

-- Little-endian words of eight bytes.
unfoldable pub le_word : List ℕ → ℕ
le_word [] = 0
le_word (b ∷ bytes) = bit_or (le_word bytes * 2 ^ 8) b

unfoldable pub le_words : ℕ → List ℕ → List ℕ
le_words zero bytes = []
le_words (suc n) bytes = le_word (take 8 bytes) ∷ le_words n (drop 8 bytes)

-- `h[i] ^= v[i] ^ v[i + 8]`, from `i` on.
unfoldable pub fold_words : List ℕ → List ℕ → ℕ → List ℕ
fold_words [] v i = []
fold_words (h ∷ hs) v i =
    bit_xor h (bit_xor (word_at v i) (word_at v (i + 8))) ∷ fold_words hs v (i + 1)

-- The new `h` from the old one, the counter and the block.
unfoldable pub b2b_compress : List ℕ → ℕ → ℕ → List ℕ → Bool → List ℕ
b2b_compress h t0 t1 block last =
    let v = h ++ k_iv in
    let v12 = set v 12 (bit_xor (word_at v 12) t0) in
    let v13 = set v12 13 (bit_xor (word_at v12 13) t1) in
    let v14 = if last then set v13 14 (2 ^ 64 - 1 - word_at v13 14) else v13 in
    fold_words h (b2b_rounds (le_words 16 block) k_sigma v14) 0

pub record Blake2bCtx : Type 0 where
  pub buf : List ℕ
  pub buflen : ℕ
  pub h : List ℕ
  pub t0 : ℕ
  pub t1 : ℕ
  pub outlen : ℕ

unfoldable pub b2b_init : ℕ → List ℕ → Option Blake2bCtx
b2b_init outlen key =
    if ltb outlen 1 || (ltb 64 outlen || ltb 64 (length key))
    then none
    else (let parameters = bit_xor (bit_xor 0x01010000 (length key * 2 ^ 8)) outlen in
        some (record {
          h = set k_iv 0 (bit_xor (word_at k_iv 0) parameters);
          t0 = 0;
          t1 = 0;
          outlen = outlen;
          buf = key ++ replicate (128 - length key) 0;
          buflen = if ltb 0 (length key) then 128 else 0;
        }))

-- `t[0] += n; if (t[0] < n) ++t[1];`
unfoldable pub advance : ℕ → Blake2bCtx → Blake2bCtx
advance n c =
    let low = u64 (c.t0 + n) in
    record c { t0 = low; t1 = if ltb low n then u64 (c.t1 + 1) else c.t1 }

unfoldable pub flush_full : Blake2bCtx → Blake2bCtx
flush_full c =
    if c.buflen == 128
    then (let counted = advance 128 c in
        record counted {
          h = b2b_compress counted.h counted.t0 counted.t1 counted.buf false;
          buflen = 0;
          buf = replicate 128 0;
        })
    else c

unfoldable pub b2b_update : Blake2bCtx → List ℕ → Blake2bCtx
b2b_update c [] = c
b2b_update c (b ∷ bytes) =
    let room = flush_full c in
    b2b_update (record room { buf = set room.buf room.buflen b; buflen = room.buflen + 1 }) bytes

-- `while (buflen < 128) buf[buflen++] = 0;`, for `n` turns.
unfoldable pub zero_fill : ℕ → ℕ → List ℕ → List ℕ
zero_fill zero i buf = buf
zero_fill (suc n) i buf = zero_fill n (i + 1) (set buf i 0)

-- Byte `i` of the output, from `i` on, `n` of them.
unfoldable pub out_bytes : List ℕ → ℕ → ℕ → List ℕ
out_bytes h zero i = []
out_bytes h (suc n) i =
    bit_and (word_at h (i / 2 ^ 3) / 2 ^ (8 * bit_and i 7)) 0xff ∷ out_bytes h n (i + 1)

unfoldable pub b2b_final : Blake2bCtx → List ℕ
b2b_final c =
    let counted = advance c.buflen c in
    let block = zero_fill (128 - c.buflen) c.buflen counted.buf in
    out_bytes (b2b_compress counted.h counted.t0 counted.t1 block true) c.outlen 0

-- `none` is the return value -1.
abbrev pub finished : Option Blake2bCtx → List ℕ → Option (List ℕ)
finished none msg = none
finished (some c) msg = some (b2b_final (b2b_update c msg))

unfoldable pub rmbl_blake2b : List ℕ → List ℕ → ℕ → Option (List ℕ)
rmbl_blake2b msg key outlen = finished (b2b_init outlen key) msg
