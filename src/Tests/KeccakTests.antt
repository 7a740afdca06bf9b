-- ===== src/Tests/KeccakTests.antt =====
-- Tests and witnesses of src/rmbl_keccak.cpp.
use rmorie_bricklayer.Prelude.Bytes.{IsBytes}
use rmorie_bricklayer.Prelude.{
  replicate, ℕ, List, [], ◌∷◌, ◌++◌, ◌≡◌, refl, ◌+◌, false, true, length, arith,
}
use rmorie_bricklayer.Keccak.{
  Sponge, keccak_init, keccak_absorb, keccak_finalize, keccak_squeeze, sha3_256, xor_at,
  permute_if_full, absorb_rounds, read_bytes, squeeze_rounds,
}
use rmorie_bricklayer.Keccak.Permutation.{keccak_f1600}
use rmorie_bricklayer.Keccak.Fips.{keccak_p, keccak_f1600-eq-keccak_p}
use rmorie_bricklayer.Keccak.Absorb.{absorb_bytes, IsOpen, keccak_absorb_lem}
use rmorie_bricklayer.Keccak.Padding.{padding, keccak_finalize_lem}
use rmorie_bricklayer.Keccak.Squeeze.{IsReading, keccak_squeeze-add}

-- SHA3-256 of the empty message, FIPS 202.
empty_digest :
    sha3_256 []
    ≡ 0xa7 ∷ 0xff ∷ 0xc6 ∷ 0xf8 ∷ 0xbf ∷ 0x1e ∷ 0xd7 ∷ 0x66 ∷ 0x51 ∷ 0xc1 ∷ 0x47 ∷ 0x56 ∷ 0xa0
      ∷ 0x61 ∷ 0xd6 ∷ 0x62 ∷ 0xf5 ∷ 0x80 ∷ 0xff ∷ 0x4d ∷ 0xe4 ∷ 0x3b ∷ 0x49 ∷ 0xfa ∷ 0x82 ∷ 0xd8
      ∷ 0x0a ∷ 0x4b ∷ 0x80 ∷ 0xf8 ∷ 0x43 ∷ 0x4a ∷ []
unfolding sha3_256 keccak_init keccak_absorb absorb_rounds keccak_squeeze keccak_finalize
    squeeze_rounds permute_if_full read_bytes xor_at keccak_f1600
empty_digest = refl

abbrev message : List ℕ
message = 0x61 ∷ 0x62 ∷ 0x63 ∷ 0x64 ∷ 0x65 ∷ 0x66 ∷ 0x67 ∷ 0x68 ∷ 0x69 ∷ []

abbrev partial_block : Sponge
partial_block = record { s = 1 ∷ 2 ∷ 3 ∷ []; rate = 16; pad = 0x06; pos = 8; squeezing = false }

keccak_f1600-eq-keccak_p_example : keccak_f1600 (replicate 25 7) ≡ keccak_p (replicate 25 7)
keccak_f1600-eq-keccak_p_example = keccak_f1600-eq-keccak_p (replicate 25 7)

message-IsBytes : IsBytes message
message-IsBytes = (
  omega arith,
  (
    omega arith,
    (
      omega arith,
      (omega arith, (omega arith, (omega arith, (omega arith, (omega arith, (omega arith, tt)))))),
    ),
  ),
)

-- The nine bytes fill the block of `partial_block` and leave one for the next.
keccak_absorb_lem_example :
    (keccak_absorb partial_block message ≡ absorb_bytes partial_block message)
    × IsOpen (keccak_absorb partial_block message)
keccak_absorb_lem_example = keccak_absorb_lem partial_block message (omega arith) message-IsBytes

keccak_finalize_lem_example :
    keccak_finalize partial_block
    ≡ record (absorb_bytes partial_block (padding 0x06 8)) { squeezing = true }
keccak_finalize_lem_example = keccak_finalize_lem partial_block (omega arith) (omega arith)

keccak_squeeze-add_example :
    (length (keccak_squeeze partial_block 20).0 ≡ 20)
    × IsReading (keccak_squeeze partial_block 20).1
    × (keccak_squeeze partial_block (20 + 3) ≡ (
      (keccak_squeeze partial_block 20).0
          ++ (keccak_squeeze (keccak_squeeze partial_block 20).1 3).0,
      (keccak_squeeze (keccak_squeeze partial_block 20).1 3).1,
    ))
keccak_squeeze-add_example = keccak_squeeze-add partial_block 20 3 (omega arith, omega arith)
