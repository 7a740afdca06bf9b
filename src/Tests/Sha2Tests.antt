-- ===== src/Tests/Sha2Tests.antt =====
-- Tests and witnesses of the SHA-2 functions.
use rmorie_bricklayer.Prelude.{[], ◌∷◌, ◌≡◌, refl}
use rmorie_bricklayer.Prelude.Bytes.{be_bytes, be_val}
use rmorie_bricklayer.Sha2.{
  write, compress_full, top_up, bulk, keep_tail, update, pad_buffer, final_state,
}
use rmorie_bricklayer.Sha2.Sha512
use rmorie_bricklayer.Sha2.Sha512.{sha512_raw}
use rmorie_bricklayer.Sha2.Sha256.Digest.{fips_digest, sha256_raw_lem}
use rmorie_bricklayer.Sha2.Sha512.Digest
use rmorie_bricklayer.Sha2.Sha512.Digest.{sha512_raw_lem}
use rmorie_bricklayer.Sha2.Sha512.{sha512_iv}
use rmorie_bricklayer.Sha2.Sha256.{
  sha256_iv, rotr, load_words, schedule, rounds, sha256_transform, sha256_update, sha256_final,
  sha256_raw,
}

-- SHA-256 of "abc", FIPS 180-4.
abc_digest :
    be_val (sha256_raw (0x61 ∷ 0x62 ∷ 0x63 ∷ []))
    ≡ 0xba7816bf8f01cfea414140de5dae2223b00361a396177a9cb410ff61f20015ad
unfolding write compress_full top_up bulk keep_tail update pad_buffer final_state rotr load_words
    schedule rounds sha256_transform sha256_update sha256_final sha256_raw be_bytes
abc_digest = refl

-- SHA-512 of "abc".
abc_512 :
    be_val (sha512_raw (0x61 ∷ 0x62 ∷ 0x63 ∷ []))
    ≡ 0xddaf35a193617abacc417349ae20413112e6fa4e89a97ea20a9eeee64b55d39a2192992a274fc1a836ba3c23a3feebbd454d4423643ce80e2a9ac94fa54ca49f
unfolding write compress_full top_up bulk keep_tail update pad_buffer final_state Sha512.rotr64
    Sha512.load_word Sha512.load_words Sha512.schedule Sha512.rounds Sha512.sha512_compress
    Sha512.sha512_update Sha512.sha512_final sha512_raw be_bytes
abc_512 = refl

sha256_raw_lem_example : sha256_raw (1 ∷ 2 ∷ []) ≡ fips_digest sha256_iv (1 ∷ 2 ∷ [])
sha256_raw_lem_example = sha256_raw_lem (1 ∷ 2 ∷ [])

sha512_raw_lem_example : sha512_raw (1 ∷ 2 ∷ []) ≡ Digest.fips_digest sha512_iv (1 ∷ 2 ∷ [])
sha512_raw_lem_example = sha512_raw_lem (1 ∷ 2 ∷ [])
