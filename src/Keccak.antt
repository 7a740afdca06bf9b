-- ===== src/Keccak.antt =====
-- src/rmbl_keccak.cpp and rmbl_keccak.h: the sponge over `keccak_f1600`, and the SHA-3 and SHAKE
-- functions. `in` and `out` are lists; a pointer that moves along is the rest of the list.
pub mod Permutation
pub mod Fips
pub mod Lanes
pub mod Absorb
pub mod Padding
pub mod Squeeze
use rmorie_bricklayer.Prelude.{
  ℕ, zero, suc, ◌+◌, ◌-◌, ◌*◌, ◌/◌, ◌%◌, ◌^◌, bit_or, bit_xor, List, [], ◌∷◌, ◌++◌, Bool, true,
  false, ltb, ◌==◌, if◌then◌else◌, length, get_or, set, replicate, take, drop,
}
use Permutation.{keccak_f1600}

pub record Sponge : Type 0 where
  pub s : List ℕ
  pub rate : ℕ
  pub pad : ℕ
  pub pos : ℕ
  pub squeezing : Bool

unfoldable pub keccak_init : ℕ → ℕ → Sponge
keccak_init rate pad = record {
  s = replicate 25 0;
  rate = rate;
  pad = pad;
  pos = 0;
  squeezing = false;
}

-- `s[i] ^= v`
unfoldable pub xor_at : List ℕ → ℕ → ℕ → List ℕ
xor_at s i v = set s i (bit_xor (get_or s i 0) v)

-- `for (; i < take; ++i) s[j / 8] ^= in[i] << (8 * (j % 8))`, with `j` the position.
unfoldable pub byte_loop : List ℕ → ℕ → List ℕ → List ℕ
byte_loop s j [] = s
byte_loop s j (b ∷ bs) = byte_loop (xor_at s (j / 8) (b * 2 ^ (8 * (j % 8)) % 2 ^ 64)) (j + 1) bs

-- `v |= in[i + k] << (8 * k)`, for `k` from the given one on.
unfoldable pub load_lane : ℕ → ℕ → List ℕ → ℕ
load_lane k v [] = v
load_lane k v (b ∷ bs) = load_lane (k + 1) (bit_or v (b * 2 ^ (8 * k) % 2 ^ 64)) bs

-- The whole-lane loop, one round for each eight bytes, then the byte loop for the rest.
unfoldable pub lane_loop : ℕ → List ℕ → ℕ → List ℕ → List ℕ
lane_loop zero s j bs = byte_loop s j bs
lane_loop (suc lanes) s j bs =
    lane_loop lanes (xor_at s (j / 8) (load_lane 0 0 (take 8 bs))) (j + 8) (drop 8 bs)

-- One block of at most `rate - pos` bytes.
unfoldable pub absorb_block : List ℕ → ℕ → List ℕ → List ℕ
absorb_block s pos block =
    if pos % 8 == 0 then lane_loop (length block / 8) s pos block else byte_loop s pos block

abbrev pub room : Sponge → ℕ → ℕ
room st len = if ltb (st.rate - st.pos) len then st.rate - st.pos else len

unfoldable pub permute_if_full : Sponge → Sponge
permute_if_full st = if st.pos == st.rate then record st { s = keccak_f1600 st.s; pos = 0 } else st

-- The `while (len > 0)`; a round takes at least one byte where `pos < rate`.
unfoldable pub absorb_rounds : ℕ → Sponge → List ℕ → Sponge
absorb_rounds zero st bytes = st
absorb_rounds (suc rounds) st [] = st
absorb_rounds (suc rounds) st (b ∷ bs) =
    let n = room st (length (b ∷ bs)) in
    absorb_rounds rounds
      (permute_if_full
        (record st { s = absorb_block st.s st.pos (take n (b ∷ bs)); pos = st.pos + n }))
      (drop n (b ∷ bs))

unfoldable pub keccak_absorb : Sponge → List ℕ → Sponge
keccak_absorb st bytes = absorb_rounds (length bytes) st bytes

unfoldable pub keccak_finalize : Sponge → Sponge
keccak_finalize st =
    let padded = xor_at st.s (st.pos / 8) (st.pad * 2 ^ (8 * (st.pos % 8)) % 2 ^ 64) in
    let last = st.rate - 1 in
    record st {
      s = keccak_f1600 (xor_at padded (last / 8) (0x80 * 2 ^ (8 * (last % 8)) % 2 ^ 64));
      pos = 0;
      squeezing = true;
    }

-- `out[i] = s[j / 8] >> (8 * (j % 8))` for `n` positions from `j` on.
unfoldable pub read_bytes : List ℕ → ℕ → ℕ → List ℕ
read_bytes s j zero = []
read_bytes s j (suc n) = get_or s (j / 8) 0 / 2 ^ (8 * (j % 8)) % 2 ^ 8 ∷ read_bytes s (j + 1) n

-- The `while (len > 0)` of `rmbl_keccak_squeeze`.
unfoldable pub squeeze_rounds : ℕ → Sponge → ℕ → List ℕ × Sponge
squeeze_rounds zero st len = ([], st)
squeeze_rounds (suc rounds) st zero = ([], st)
squeeze_rounds (suc rounds) st (suc len) =
    let st' = permute_if_full st in
    let n = room st' (suc len) in
    let rest = squeeze_rounds rounds (record st' { pos = st'.pos + n }) (suc len - n) in
    (read_bytes st'.s st'.pos n ++ rest.0, rest.1)

unfoldable pub keccak_squeeze : Sponge → ℕ → List ℕ × Sponge
keccak_squeeze st len = squeeze_rounds len (if st.squeezing then st else keccak_finalize st) len

abbrev pub one_shot : ℕ → ℕ → List ℕ → ℕ → List ℕ
one_shot rate pad bytes len = (keccak_squeeze (keccak_absorb (keccak_init rate pad) bytes) len).0

unfoldable pub shake128 : List ℕ → ℕ → List ℕ
shake128 bytes outlen = one_shot 168 0x1f bytes outlen

unfoldable pub shake256 : List ℕ → ℕ → List ℕ
shake256 bytes outlen = one_shot 136 0x1f bytes outlen

unfoldable pub sha3_256 : List ℕ → List ℕ
sha3_256 bytes = one_shot 136 0x06 bytes 32

unfoldable pub sha3_224 : List ℕ → List ℕ
sha3_224 bytes = one_shot 144 0x06 bytes 28

unfoldable pub sha3_384 : List ℕ → List ℕ
sha3_384 bytes = one_shot 104 0x06 bytes 48

unfoldable pub sha3_512 : List ℕ → List ℕ
sha3_512 bytes = one_shot 72 0x06 bytes 64
