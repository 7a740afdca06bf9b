-- ===== src/Tests/Sha1Tests.antt =====
-- src/rmbl_digest.cpp: SHA-1 at concrete inputs.
use rmorie_bricklayer.Prelude.{ℕ, List, [], ◌∷◌, ◌≡◌, refl}
use rmorie_bricklayer.Prelude.Bytes.{be_val, be_bytes}
use rmorie_bricklayer.Sha1.{
  rotl, load_words, schedule, choice, round, rounds, sha1_block, sha1_blocks, put_length,
  sha1_buffer, sha1_raw,
}

abbrev abc : List ℕ
abc = 0x61 ∷ 0x62 ∷ 0x63 ∷ []

-- SHA-1 of "abc", FIPS 180-4.
abc_digest : be_val (sha1_raw abc) ≡ 0xa9993e364706816aba3e25717850c26c9cd0d89d
unfolding rotl load_words schedule choice round rounds sha1_block sha1_blocks put_length sha1_buffer
    sha1_raw be_bytes
abc_digest = refl
