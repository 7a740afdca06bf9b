-- ===== src/Sha2/Sha512.antt =====
-- src/rmbl_digest.cpp: SHA-512, SHA-384 and SHA-512/t.
pub mod Digest
use rmorie_bricklayer.Prelude.{
  ℕ, zero, suc, ◌+◌, ◌-◌, ◌*◌, ◌/◌, ◌%◌, ◌^◌, bit_and, bit_or, bit_xor, List, [], ◌∷◌, ◌++◌, length,
  take, drop, get_or, replicate, ltb, ◌==◌, if◌then◌else◌,
}
use rmorie_bricklayer.Prelude.Bytes.{be_bytes}
use rmorie_bricklayer.Sha2.{Ctx, update, final_state}
use rmorie_bricklayer.Sha2.Sha256.{Words}

-- `bitlen_lo` and `bitlen_hi`. The eight words are those of SHA-256, 64 bits wide here.
pub record Bits : Type 0 where
  pub lo : ℕ
  pub hi : ℕ

abbrev pub u64 : ℕ → ℕ
u64 x = x % 2 ^ 64

-- src/rmbl_ct.h, `rotr64`.
unfoldable pub rotr64 : ℕ → ℕ → ℕ
rotr64 x n = bit_or (x / 2 ^ n) (u64 (x * 2 ^ (64 - n)))

abbrev pub k_sha512 : List ℕ
k_sha512 =
    0x428a2f98d728ae22 ∷ 0x7137449123ef65cd ∷ 0xb5c0fbcfec4d3b2f ∷ 0xe9b5dba58189dbbc
    ∷ 0x3956c25bf348b538 ∷ 0x59f111f1b605d019 ∷ 0x923f82a4af194f9b ∷ 0xab1c5ed5da6d8118
    ∷ 0xd807aa98a3030242 ∷ 0x12835b0145706fbe ∷ 0x243185be4ee4b28c ∷ 0x550c7dc3d5ffb4e2
    ∷ 0x72be5d74f27b896f ∷ 0x80deb1fe3b1696b1 ∷ 0x9bdc06a725c71235 ∷ 0xc19bf174cf692694
    ∷ 0xe49b69c19ef14ad2 ∷ 0xefbe4786384f25e3 ∷ 0x0fc19dc68b8cd5b5 ∷ 0x240ca1cc77ac9c65
    ∷ 0x2de92c6f592b0275 ∷ 0x4a7484aa6ea6e483 ∷ 0x5cb0a9dcbd41fbd4 ∷ 0x76f988da831153b5
    ∷ 0x983e5152ee66dfab ∷ 0xa831c66d2db43210 ∷ 0xb00327c898fb213f ∷ 0xbf597fc7beef0ee4
    ∷ 0xc6e00bf33da88fc2 ∷ 0xd5a79147930aa725 ∷ 0x06ca6351e003826f ∷ 0x142929670a0e6e70
    ∷ 0x27b70a8546d22ffc ∷ 0x2e1b21385c26c926 ∷ 0x4d2c6dfc5ac42aed ∷ 0x53380d139d95b3df
    ∷ 0x650a73548baf63de ∷ 0x766a0abb3c77b2a8 ∷ 0x81c2c92e47edaee6 ∷ 0x92722c851482353b
    ∷ 0xa2bfe8a14cf10364 ∷ 0xa81a664bbc423001 ∷ 0xc24b8b70d0f89791 ∷ 0xc76c51a30654be30
    ∷ 0xd192e819d6ef5218 ∷ 0xd69906245565a910 ∷ 0xf40e35855771202a ∷ 0x106aa07032bbd1b8
    ∷ 0x19a4c116b8d2d0c8 ∷ 0x1e376c085141ab53 ∷ 0x2748774cdf8eeb99 ∷ 0x34b0bcb5e19b48a8
    ∷ 0x391c0cb3c5c95a63 ∷ 0x4ed8aa4ae3418acb ∷ 0x5b9cca4f7763e373 ∷ 0x682e6ff3d6b2b8a3
    ∷ 0x748f82ee5defb2fc ∷ 0x78a5636f43172f60 ∷ 0x84c87814a1f0ab72 ∷ 0x8cc702081a6439ec
    ∷ 0x90befffa23631e28 ∷ 0xa4506cebde82bde9 ∷ 0xbef9a3f7b2c67915 ∷ 0xc67178f2e372532b
    ∷ 0xca273eceea26619c ∷ 0xd186b8c721c0c207 ∷ 0xeada7dd6cde0eb1e ∷ 0xf57d4f7fee6ed178
    ∷ 0x06f067aa72176fba ∷ 0x0a637dc5a2c898a6 ∷ 0x113f9804bef90dae ∷ 0x1b710b35131c471b
    ∷ 0x28db77f523047d84 ∷ 0x32caab7b40c72493 ∷ 0x3c9ebe0a15c9bebc ∷ 0x431d67c49c100d4c
    ∷ 0x4cc5d4becb3e42b6 ∷ 0x597f299cfc657e2a ∷ 0x5fcb6fab3ad6faec ∷ 0x6c44198c4a475817 ∷ []

-- `w[i] = (w[i] << 8) | blk[i * 8 + j]`, over the bytes of one word.
unfoldable pub load_word : ℕ → List ℕ → ℕ
load_word w [] = w
load_word w (b ∷ bytes) = load_word (bit_or (u64 (w * 2 ^ 8)) b) bytes

unfoldable pub load_words : ℕ → List ℕ → List ℕ
load_words zero blk = []
load_words (suc words) blk = load_word 0 (take 8 blk) ∷ load_words words (drop 8 blk)

abbrev pub s0 : ℕ → ℕ
s0 w = bit_xor (bit_xor (rotr64 w 1) (rotr64 w 8)) (w / 2 ^ 7)

abbrev pub s1 : ℕ → ℕ
s1 w = bit_xor (bit_xor (rotr64 w 19) (rotr64 w 61)) (w / 2 ^ 6)

unfoldable pub schedule : ℕ → ℕ → List ℕ → List ℕ
schedule zero i w = w
schedule (suc rounds) i w = schedule rounds (i + 1) (
    w
    ++ (u64 (
          get_or w (i - 16) 0
          + s0 (get_or w (i - 15) 0)
          + get_or w (i - 7) 0
          + s1 (get_or w (i - 2) 0))
        ∷ []))

abbrev pub round : Words → ℕ → ℕ → Words
round s k w =
    let upper_s1 = bit_xor (bit_xor (rotr64 s.e 14) (rotr64 s.e 18)) (rotr64 s.e 41) in
    let ch = bit_xor (bit_and s.e s.f) (bit_and (2 ^ 64 - 1 - s.e) s.g) in
    let t1 = u64 (s.h + upper_s1 + ch + k + w) in
    let upper_s0 = bit_xor (bit_xor (rotr64 s.a 28) (rotr64 s.a 34)) (rotr64 s.a 39) in
    let mj = bit_xor (bit_xor (bit_and s.a s.b) (bit_and s.a s.c)) (bit_and s.b s.c) in
    let t2 = u64 (upper_s0 + mj) in
    record {
      a = u64 (t1 + t2);
      b = s.a;
      c = s.b;
      d = s.c;
      e = u64 (s.d + t1);
      f = s.e;
      g = s.f;
      h = s.g;
    }

unfoldable pub rounds : List ℕ → List ℕ → Words → Words
rounds [] w s = s
rounds (k ∷ ks) [] s = s
rounds (k ∷ ks) (w ∷ ws) s = rounds ks ws (round s k w)

unfoldable pub sha512_compress : Words → List ℕ → Words
sha512_compress s blk =
    let v = rounds k_sha512 (schedule 64 16 (load_words 16 blk)) s in
    record {
      a = u64 (s.a + v.a);
      b = u64 (s.b + v.b);
      c = u64 (s.c + v.c);
      d = u64 (s.d + v.d);
      e = u64 (s.e + v.e);
      f = u64 (s.f + v.f);
      g = u64 (s.g + v.g);
      h = u64 (s.h + v.h);
    }

abbrev pub sha512_iv : Words
sha512_iv = record {
  a = 0x6a09e667f3bcc908;
  b = 0xbb67ae8584caa73b;
  c = 0x3c6ef372fe94f82b;
  d = 0xa54ff53a5f1d36f1;
  e = 0x510e527fade682d1;
  f = 0x9b05688c2b3e6c1f;
  g = 0x1f83d9abfb41bd6b;
  h = 0x5be0cd19137e2179;
}

-- The low word takes `n` more, and the high word the carry.
abbrev pub add_bits : ℕ → Bits → Bits
add_bits n bits =
    let lo' = u64 (bits.lo + n) in
    record { lo = lo'; hi = if ltb lo' bits.lo then u64 (bits.hi + 1) else bits.hi }

abbrev pub bump : Bits → Bits
bump bits = add_bits 1024 bits

abbrev pub sha512_init : List ℕ → Ctx Words Bits
sha512_init memory = record {
  buf = memory;
  datalen = 0;
  bitlen = record { lo = 0; hi = 0 };
  state = sha512_iv;
}

unfoldable pub sha512_update : Ctx Words Bits → List ℕ → Ctx Words Bits
sha512_update ctx bytes = update 128 sha512_compress bump ctx bytes

abbrev pub word_bytes : Words → List ℕ
word_bytes s =
    be_bytes 8 s.a
    ++ (be_bytes 8 s.b
        ++ (be_bytes 8 s.c
            ++ (be_bytes 8 s.d
                ++ (be_bytes 8 s.e ++ (be_bytes 8 s.f ++ (be_bytes 8 s.g ++ be_bytes 8 s.h))))))

unfoldable pub sha512_final : Ctx Words Bits → List ℕ
sha512_final ctx =
    let bits = add_bits (ctx.datalen * 8) ctx.bitlen in
    word_bytes (final_state 128 sha512_compress bump (be_bytes 8 bits.hi ++ be_bytes 8 bits.lo) ctx)

abbrev pub memory : List ℕ
memory = replicate 128 0

unfoldable pub sha512_raw : List ℕ → List ℕ
sha512_raw bytes = sha512_final (sha512_update (sha512_init memory) bytes)

abbrev pub sha384_iv : Words
sha384_iv = record {
  a = 0xcbbb9d5dc1059ed8;
  b = 0x629a292a367cd507;
  c = 0x9159015a3070dd17;
  d = 0x152fecd8f70e5939;
  e = 0x67332667ffc00b31;
  f = 0x8eb44a8768581511;
  g = 0xdb0c2e0d64f98fa7;
  h = 0x47b5481dbefa4fa4;
}

unfoldable pub sha384_raw : List ℕ → List ℕ
sha384_raw bytes =
    let ctx = record (sha512_init memory) { state = sha384_iv } in
    take 48 (sha512_final (sha512_update ctx bytes))

abbrev pub iv_224 : Words
iv_224 = record {
  a = 0x8c3d37c819544da2;
  b = 0x73e1996689dcd4d6;
  c = 0x1dfab7ae32ff9c82;
  d = 0x679dd514582f9fcf;
  e = 0x0f6d2b697bd44da8;
  f = 0x77e36f7304c48942;
  g = 0x3f9d85a86a1d36c8;
  h = 0x1112e6ad91d692a1;
}

abbrev pub iv_256 : Words
iv_256 = record {
  a = 0x22312194fc2bf72c;
  b = 0x9f555fa3c84c64c2;
  c = 0x2393b86b6f53b151;
  d = 0x963877195940eabd;
  e = 0x96283ee2a88effe3;
  f = 0xbe5e1e2553863992;
  g = 0x2b0199fc2c85b8aa;
  h = 0x0eb72ddc81c52ca2;
}

unfoldable pub sha512t_raw : ℕ → List ℕ → List ℕ
sha512t_raw bits bytes =
    let ctx = record (sha512_init memory) { state = if bits == 224 then iv_224 else iv_256 } in
    take (bits / 8) (sha512_final (sha512_update ctx bytes))

unfoldable pub sha512_midstate : List ℕ → Words
sha512_midstate block = sha512_compress (sha512_init memory).state block

unfoldable pub sha512_finish : Words → ℕ → List ℕ → List ℕ
sha512_finish state_in prefix_blocks tail =
    let ctx = record (sha512_init memory) {
      state = state_in;
      bitlen = record { lo = u64 (prefix_blocks * 1024); hi = 0 };
      datalen = 0;
    } in
    sha512_final (sha512_update ctx tail)
