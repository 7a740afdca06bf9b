-- ===== src/Sha2/Sha256.antt =====
-- src/rmbl_core.cpp: SHA-256 and SHA-224.
pub mod Digest
use rmorie_bricklayer.Prelude.{
  ℕ, zero, suc, ◌+◌, ◌-◌, ◌*◌, ◌/◌, ◌%◌, ◌^◌, bit_and, bit_or, bit_xor, List, [], ◌∷◌, ◌++◌, length,
  take, drop, get_or, replicate, ltb, if◌then◌else◌,
}
use rmorie_bricklayer.Prelude.Bytes.{be_bytes}
use rmorie_bricklayer.Sha2.{Ctx, update, final_state}

-- `state[8]`, and the variables a to h.
pub record Words : Type 0 where
  pub a : ℕ
  pub b : ℕ
  pub c : ℕ
  pub d : ℕ
  pub e : ℕ
  pub f : ℕ
  pub g : ℕ
  pub h : ℕ

abbrev pub u32 : ℕ → ℕ
u32 x = x % 2 ^ 32

unfoldable pub rotr : ℕ → ℕ → ℕ
rotr x n = bit_or (x / 2 ^ n) (u32 (x * 2 ^ (32 - n)))

abbrev pub ch : ℕ → ℕ → ℕ → ℕ
ch x y z = bit_xor (bit_and x y) (bit_and (2 ^ 32 - 1 - x) z)

abbrev pub maj : ℕ → ℕ → ℕ → ℕ
maj x y z = bit_xor (bit_xor (bit_and x y) (bit_and x z)) (bit_and y z)

abbrev pub ep0 : ℕ → ℕ
ep0 x = bit_xor (bit_xor (rotr x 2) (rotr x 13)) (rotr x 22)

abbrev pub ep1 : ℕ → ℕ
ep1 x = bit_xor (bit_xor (rotr x 6) (rotr x 11)) (rotr x 25)

abbrev pub sig0 : ℕ → ℕ
sig0 x = bit_xor (bit_xor (rotr x 7) (rotr x 18)) (x / 2 ^ 3)

abbrev pub sig1 : ℕ → ℕ
sig1 x = bit_xor (bit_xor (rotr x 17) (rotr x 19)) (x / 2 ^ 10)

abbrev pub k_sha : List ℕ
k_sha =
    0x428a2f98 ∷ 0x71374491 ∷ 0xb5c0fbcf ∷ 0xe9b5dba5 ∷ 0x3956c25b ∷ 0x59f111f1 ∷ 0x923f82a4
    ∷ 0xab1c5ed5 ∷ 0xd807aa98 ∷ 0x12835b01 ∷ 0x243185be ∷ 0x550c7dc3 ∷ 0x72be5d74 ∷ 0x80deb1fe
    ∷ 0x9bdc06a7 ∷ 0xc19bf174 ∷ 0xe49b69c1 ∷ 0xefbe4786 ∷ 0x0fc19dc6 ∷ 0x240ca1cc ∷ 0x2de92c6f
    ∷ 0x4a7484aa ∷ 0x5cb0a9dc ∷ 0x76f988da ∷ 0x983e5152 ∷ 0xa831c66d ∷ 0xb00327c8 ∷ 0xbf597fc7
    ∷ 0xc6e00bf3 ∷ 0xd5a79147 ∷ 0x06ca6351 ∷ 0x14292967 ∷ 0x27b70a85 ∷ 0x2e1b2138 ∷ 0x4d2c6dfc
    ∷ 0x53380d13 ∷ 0x650a7354 ∷ 0x766a0abb ∷ 0x81c2c92e ∷ 0x92722c85 ∷ 0xa2bfe8a1 ∷ 0xa81a664b
    ∷ 0xc24b8b70 ∷ 0xc76c51a3 ∷ 0xd192e819 ∷ 0xd6990624 ∷ 0xf40e3585 ∷ 0x106aa070 ∷ 0x19a4c116
    ∷ 0x1e376c08 ∷ 0x2748774c ∷ 0x34b0bcb5 ∷ 0x391c0cb3 ∷ 0x4ed8aa4a ∷ 0x5b9cca4f ∷ 0x682e6ff3
    ∷ 0x748f82ee ∷ 0x78a5636f ∷ 0x84c87814 ∷ 0x8cc70208 ∷ 0x90befffa ∷ 0xa4506ceb ∷ 0xbef9a3f7
    ∷ 0xc67178f2 ∷ []

-- The first loop over `m`.
unfoldable pub load_words : List ℕ → List ℕ
load_words (x ∷ y ∷ z ∷ w ∷ data') =
    bit_or (bit_or (bit_or (x * 2 ^ 24) (y * 2 ^ 16)) (z * 2 ^ 8)) w ∷ load_words data'
load_words data' = []

-- The second loop: `m[i]` for `rounds` more `i`.
unfoldable pub schedule : ℕ → ℕ → List ℕ → List ℕ
schedule zero i m = m
schedule (suc rounds) i m = schedule rounds (i + 1) (
    m
    ++ (u32 (
          sig1 (get_or m (i - 2) 0)
          + get_or m (i - 7) 0
          + sig0 (get_or m (i - 15) 0)
          + get_or m (i - 16) 0)
        ∷ []))

abbrev pub round : Words → ℕ → ℕ → Words
round s k m =
    let t1 = u32 (s.h + ep1 s.e + ch s.e s.f s.g + k + m) in
    let t2 = u32 (ep0 s.a + maj s.a s.b s.c) in
    record {
      a = u32 (t1 + t2);
      b = s.a;
      c = s.b;
      d = s.c;
      e = u32 (s.d + t1);
      f = s.e;
      g = s.f;
      h = s.g;
    }

unfoldable pub rounds : List ℕ → List ℕ → Words → Words
rounds [] m s = s
rounds (k ∷ ks) [] s = s
rounds (k ∷ ks) (m ∷ ms) s = rounds ks ms (round s k m)

unfoldable pub sha256_transform : Words → List ℕ → Words
sha256_transform s block =
    let v = rounds k_sha (schedule 48 16 (load_words block)) s in
    record {
      a = u32 (s.a + v.a);
      b = u32 (s.b + v.b);
      c = u32 (s.c + v.c);
      d = u32 (s.d + v.d);
      e = u32 (s.e + v.e);
      f = u32 (s.f + v.f);
      g = u32 (s.g + v.g);
      h = u32 (s.h + v.h);
    }

abbrev pub sha256_iv : Words
sha256_iv = record {
  a = 0x6a09e667;
  b = 0xbb67ae85;
  c = 0x3c6ef372;
  d = 0xa54ff53a;
  e = 0x510e527f;
  f = 0x9b05688c;
  g = 0x1f83d9ab;
  h = 0x5be0cd19;
}

abbrev pub bump : ℕ → ℕ
bump bits = (bits + 512) % 2 ^ 64

-- `sha256_init`; the array keeps what the memory holds.
abbrev pub sha256_init : List ℕ → Ctx Words ℕ
sha256_init memory = record { buf = memory; datalen = 0; bitlen = 0; state = sha256_iv }

unfoldable pub sha256_update : Ctx Words ℕ → List ℕ → Ctx Words ℕ
sha256_update ctx bytes = update 64 sha256_transform bump ctx bytes

abbrev pub word_bytes : Words → List ℕ
word_bytes s =
    be_bytes 4 s.a
    ++ (be_bytes 4 s.b
        ++ (be_bytes 4 s.c
            ++ (be_bytes 4 s.d
                ++ (be_bytes 4 s.e ++ (be_bytes 4 s.f ++ (be_bytes 4 s.g ++ be_bytes 4 s.h))))))

unfoldable pub sha256_final : Ctx Words ℕ → List ℕ
sha256_final ctx =
    let bits = (ctx.bitlen + ctx.datalen * 8) % 2 ^ 64 in
    word_bytes (final_state 64 sha256_transform bump (be_bytes 8 bits) ctx)

-- The theorems hold for every memory; the functions below are run with zeros.
abbrev pub memory : List ℕ
memory = replicate 64 0

unfoldable pub sha256_raw : List ℕ → List ℕ
sha256_raw bytes = sha256_final (sha256_update (sha256_init memory) bytes)

unfoldable pub sha256_midstate : List ℕ → Words
sha256_midstate block = sha256_transform (sha256_init memory).state block

unfoldable pub sha256_finish : Words → ℕ → List ℕ → List ℕ
sha256_finish state_in prefix_blocks tail =
    let ctx = record (sha256_init memory) {
      state = state_in;
      bitlen = prefix_blocks * 512 % 2 ^ 64;
      datalen = 0;
    } in
    sha256_final (sha256_update ctx tail)

unfoldable pub sha256_two_part : List ℕ → ℕ → List ℕ
sha256_two_part bytes split =
    let at = if ltb (length bytes) split then length bytes else split in
    sha256_final
      (sha256_update (sha256_update (sha256_init memory) (take at bytes)) (drop at bytes))

abbrev pub sha224_iv : Words
sha224_iv = record {
  a = 0xc1059ed8;
  b = 0x367cd507;
  c = 0x3070dd17;
  d = 0xf70e5939;
  e = 0xffc00b31;
  f = 0x68581511;
  g = 0x64f98fa7;
  h = 0xbefa4fa4;
}

unfoldable pub sha224_raw : List ℕ → List ℕ
sha224_raw bytes =
    let ctx = record (sha256_init memory) { state = sha224_iv } in
    take 28 (sha256_final (sha256_update ctx bytes))
