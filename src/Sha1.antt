-- ===== src/Sha1.antt =====
-- src/rmbl_digest.cpp: SHA-1, over one buffer for the message and its padding.
pub mod Padded
use rmorie_bricklayer.Prelude.{
  ℕ, zero, suc, ◌+◌, ◌-◌, ◌*◌, ◌/◌, ◌%◌, ◌^◌, bit_and, bit_or, bit_xor, List, [], ◌∷◌, ◌++◌, length,
  take, drop, get_or, set, replicate, ltb, if◌then◌else◌,
}
use rmorie_bricklayer.Prelude.Bytes.{be_bytes}

abbrev pub u32 : ℕ → ℕ
u32 v = v % 2 ^ 32

-- `h0` to `h4`, and `a` to `e` in a block.
pub record Words : Type 0 where
  pub a : ℕ
  pub b : ℕ
  pub c : ℕ
  pub d : ℕ
  pub e : ℕ

abbrev pub sha1_iv : Words
sha1_iv = record { a = 0x67452301; b = 0xEFCDAB89; c = 0x98BADCFE; d = 0x10325476; e = 0xC3D2E1F0 }

-- `(v << n) | (v >> (32 - n))`
unfoldable pub rotl : ℕ → ℕ → ℕ
rotl v n = bit_or (u32 (v * 2 ^ n)) (v / 2 ^ (32 - n))

unfoldable pub load_words : ℕ → List ℕ → List ℕ
load_words zero block = []
load_words (suc n) block =
    bit_or
      (bit_or (bit_or (get_or block 0 0 * 2 ^ 24) (get_or block 1 0 * 2 ^ 16))
        (get_or block 2 0 * 2 ^ 8))
      (get_or block 3 0)
    ∷ load_words n (drop 4 block)

-- The words from `i` on, `n` of them.
unfoldable pub schedule : ℕ → ℕ → List ℕ → List ℕ
schedule zero i w = w
schedule (suc n) i w =
    let v =
      bit_xor (bit_xor (bit_xor (get_or w (i - 3) 0) (get_or w (i - 8) 0)) (get_or w (i - 14) 0))
        (get_or w (i - 16) 0) in
    schedule n (i + 1) (w ++ (rotl v 1 ∷ []))

-- `f` and `k` of turn `i`.
unfoldable pub choice : ℕ → Words → ℕ × ℕ
choice i s =
    if ltb i 20
    then (bit_or (bit_and s.b s.c) (bit_and (2 ^ 32 - 1 - s.b) s.d), 0x5A827999)
    else if ltb i 40
    then (bit_xor (bit_xor s.b s.c) s.d, 0x6ED9EBA1)
    else if ltb i 60
    then (bit_or (bit_or (bit_and s.b s.c) (bit_and s.b s.d)) (bit_and s.c s.d), 0x8F1BBCDC)
    else (bit_xor (bit_xor s.b s.c) s.d, 0xCA62C1D6)

unfoldable pub round : ℕ → ℕ → Words → Words
round i w s =
    let fk = choice i s in
    record {
      a = u32 (rotl s.a 5 + fk.0 + s.e + fk.1 + w);
      b = s.a;
      c = rotl s.b 30;
      d = s.c;
      e = s.d;
    }

-- The turns from `i` on, one for each word.
unfoldable pub rounds : ℕ → List ℕ → Words → Words
rounds i [] s = s
rounds i (w ∷ ws) s = rounds (i + 1) ws (round i w s)

unfoldable pub sha1_block : Words → List ℕ → Words
sha1_block h block =
    let s = rounds 0 (schedule 64 16 (load_words 16 block)) h in
    record {
      a = u32 (h.a + s.a);
      b = u32 (h.b + s.b);
      c = u32 (h.c + s.c);
      d = u32 (h.d + s.d);
      e = u32 (h.e + s.e);
    }

-- `for (off = 0; off < total; off += 64)`, by the number of blocks.
unfoldable pub sha1_blocks : ℕ → Words → List ℕ → Words
sha1_blocks zero h buf = h
sha1_blocks (suc n) h buf = sha1_blocks n (sha1_block h (take 64 buf)) (drop 64 buf)

-- `buf[total - 1 - i] = bits >> (8 * i)`, for `n` turns from `i` on.
unfoldable pub put_length : ℕ → ℕ → ℕ → ℕ → List ℕ → List ℕ
put_length zero i total bits buf = buf
put_length (suc n) i total bits buf =
    put_length n (i + 1) total bits (set buf (total - 1 - i) (bits / 2 ^ (8 * i) % 2 ^ 8))

abbrev pub total_size : ℕ → ℕ
total_size len = (len + 9 + 63) / 64 * 64

unfoldable pub sha1_buffer : List ℕ → List ℕ
sha1_buffer bytes =
    let total = total_size (length bytes) in
    let bits = length bytes * 8 % 2 ^ 64 in
    let copied = bytes ++ replicate (total - length bytes) 0 in
    put_length 8 0 total bits (set copied (length bytes) 0x80)

abbrev pub word_bytes : Words → List ℕ
word_bytes h =
    be_bytes 4 h.a ++ (be_bytes 4 h.b ++ (be_bytes 4 h.c ++ (be_bytes 4 h.d ++ be_bytes 4 h.e)))

unfoldable pub sha1_raw : List ℕ → List ℕ
sha1_raw bytes =
    word_bytes (sha1_blocks (total_size (length bytes) / 64) sha1_iv (sha1_buffer bytes))
