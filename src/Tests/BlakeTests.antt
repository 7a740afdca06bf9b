-- ===== src/Tests/BlakeTests.antt =====
-- src/rmbl_kdf.cpp: BLAKE2b at concrete inputs.
use rmorie_bricklayer.Prelude.{
  ℕ, replicate, arith, List, [], ◌∷◌, ◌≡◌, refl, Option, none, some, length, get_or,
}
use rmorie_bricklayer.Prelude.Bytes.{be_val, bytes_sound}
use rmorie_bricklayer.Sha2.Sha512.{rotr64}
use rmorie_bricklayer.Kdf.Blake2b.Rfc.{rfc_hash, byte_of, rmbl_blake2b_lem}
use rmorie_bricklayer.Kdf.Blake2b.{
  add_word, add_pair, mix_word, b2b_g, b2b_round, b2b_rounds, le_word, le_words, fold_words,
  b2b_compress, b2b_init, advance, flush_full, b2b_update, zero_fill, out_bytes, b2b_final,
  rmbl_blake2b,
}

digest_number : Option (List ℕ) → ℕ
digest_number none = 0
digest_number (some digest) = be_val digest

-- The example of RFC 7693, appendix A.
abc_blake :
    digest_number (rmbl_blake2b (0x61 ∷ 0x62 ∷ 0x63 ∷ []) [] 64)
    ≡ 0xba80a53f981c4d0d6a2797b69f12f6e94c212f14685ac4b74b12bb6fdbffa2d17d87c5392aab792dc252d5de4533cc9518d38aa8dbf1925ab92386edd4009923
unfolding add_word add_pair mix_word b2b_g b2b_round b2b_rounds le_word le_words fold_words
    b2b_compress b2b_init advance flush_full b2b_update zero_fill out_bytes b2b_final rmbl_blake2b
    rotr64 digest_number
abc_blake = refl

abbrev long_text : List ℕ
long_text = replicate 200 0x61

rmbl_blake2b_lem_example :
    (out : List ℕ) × (rmbl_blake2b long_text (1 ∷ 2 ∷ []) 32 ≡ some out)
    × (length out ≡ 32)
    × (get_or out 9 0 ≡ byte_of (rfc_hash (1 ∷ 2 ∷ []) long_text 32) 9)
rmbl_blake2b_lem_example =
    rmbl_blake2b_lem long_text (1 ∷ 2 ∷ []) 32 9 (bytes_sound long_text refl)
      (bytes_sound (1 ∷ 2 ∷ []) refl) (omega arith) (omega arith) (omega arith) (omega arith)
