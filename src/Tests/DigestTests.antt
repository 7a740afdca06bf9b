-- ===== src/Tests/DigestTests.antt =====
-- src/rmbl_digest.cpp, src/rmbl_mgf1.cpp, src/rmbl_kdf.cpp: runs and instances.
use native.Mathlib.Nat.{pow-suc, pow-zero}
use rmorie_bricklayer.Prelude.{
  ℕ, ◌+◌, ◌*◌, List, [], ◌∷◌, map, length, length-append, zero, suc, ◌++◌, get_or, replicate, ◌^◌,
  Bool, true, ◌≡◌, ◌≢◌, ◌↔◌, ◌⊎◌, inr, refl, arith, some, bit_xor,
}
use rmorie_bricklayer.Prelude.Bytes.{bytes_sound}
use rmorie_bricklayer.Hex.{hexlify}
use rmorie_bricklayer.Crc.{crc_step, crc_steps, crc32_entries, crc32_table, crc32_loop, rmbl_crc32}
use rmorie_bricklayer.Crc.Division.{long_division, dividend, rmbl_crc32_lem}
use rmorie_bricklayer.Merkle.{raw, vector, returned, merkle_proof, merkle_root, leaf}
use rmorie_bricklayer.Merkle.Inclusion.{walk, printed, merkle_proof-merkle_root}
use rmorie_bricklayer.Merkle.Messages.{Collision}
use rmorie_bricklayer.Merkle.Binding.{root_loop-binds}
use rmorie_bricklayer.Mac.{mgf1_shax, digest_equal, difference}
use rmorie_bricklayer.Mac.Mask.{digest_size, mask_block, mgf1_shax_lem, digest_equal_lem}
use rmorie_bricklayer.Kdf.{pbkdf2_inner, derived, interrupted}
use rmorie_bricklayer.Kdf.Derive.{never, rfc_byte, pbkdf2_inner_lem}
use rmorie_bricklayer.Kdf.Entry
use rmorie_bricklayer.Kdf.Entry.{pbkdf2_entry, pbkdf2_entry-long_salt}
use rmorie_bricklayer.Kdf.Interrupt.{pbkdf2_inner-cases}

abbrev digits_text : List ℕ
digits_text = 0x31 ∷ 0x32 ∷ 0x33 ∷ 0x34 ∷ 0x35 ∷ 0x36 ∷ 0x37 ∷ 0x38 ∷ 0x39 ∷ []

-- The check value of this CRC.
check_value : rmbl_crc32 digits_text ≡ 0xCBF43926
unfolding rmbl_crc32 crc32_loop crc32_table crc32_entries crc_steps crc_step
check_value = refl

rmbl_crc32_lem_example :
    rmbl_crc32 digits_text
    ≡ bit_xor (long_division (8 * 9) (bit_xor 0xFFFFFFFF (dividend digits_text))) 0xFFFFFFFF
rmbl_crc32_lem_example = rmbl_crc32_lem digits_text (bytes_sound digits_text refl)

abbrev chunks : List (List ℕ)
chunks = (1 ∷ 2 ∷ []) ∷ [] ∷ (3 ∷ []) ∷ []

merkle_proof-merkle_root_example :
    (path : List (List ℕ × ℕ)) × (merkle_proof (vector (map raw chunks)) (some 3) 2
      ≡ returned (printed path))
    × (merkle_root (vector (map raw chunks)) 2
        ≡ returned (some (hexlify (walk 2 path (leaf 2 (get_or chunks 2 []))))))
merkle_proof-merkle_root_example = merkle_proof-merkle_root 2 2 chunks (inr refl) (omega arith)

root_loop-binds_example : (chunks ≡ chunks) ⊎ Collision 2 chunks chunks
root_loop-binds_example = root_loop-binds 2 chunks chunks refl refl

abbrev key : List ℕ
key = 0x4a ∷ 0x65 ∷ 0x66 ∷ 0x65 ∷ []

mgf1_shax_lem_example :
    (length (mgf1_shax 64 200 key) ≡ 200)
    × (get_or (mgf1_shax 64 200 key) (2 * digest_size 64 + 9) 0 ≡ get_or (mask_block 64 key 2) 9 0)
mgf1_shax_lem_example = mgf1_shax_lem 64 200 key 2 9 (omega arith) (omega arith) (omega arith)

abbrev other_key : List ℕ
other_key = 0x4a ∷ 0x65 ∷ 0x66 ∷ 0x67 ∷ []

one_byte_off : digest_equal key other_key ≡ 0
unfolding digest_equal difference
one_byte_off = refl

digest_equal_lem_example :
    ((digest_equal key other_key ≡ 1) ↔ (key ≡ other_key))
    × ((digest_equal key other_key ≡ 0) ↔ (key ≢ other_key))
digest_equal_lem_example =
    digest_equal_lem key other_key (bytes_sound key refl) (bytes_sound other_key refl) refl

pbkdf2_inner_lem_example :
    (dk : List ℕ) × (pbkdf2_inner never key digits_text 3 40 ≡ derived dk)
    × (length dk ≡ 40)
    × (get_or dk (1 * 32 + 7) 0 ≡ rfc_byte key digits_text (1 + 1) 7 2)
pbkdf2_inner_lem_example =
    pbkdf2_inner_lem key digits_text 3 40 1 7 (omega arith) (omega arith) (omega arith)
      (omega arith) (omega arith) (omega arith)

abbrev always : ℕ → ℕ → Bool
always i j = true

pbkdf2_inner-cases_example :
    (pbkdf2_inner always key digits_text 5000 40 ≡ interrupted (replicate 40 0))
    ⊎ (pbkdf2_inner always key digits_text 5000 40 ≡ pbkdf2_inner never key digits_text 5000 40)
pbkdf2_inner-cases_example =
    pbkdf2_inner-cases always key digits_text 5000 40 (omega arith) (omega arith) (omega arith)

-- A salt of 2 ^ n bytes.
unfoldable doubled : ℕ → List ℕ
doubled zero = 0x61 ∷ []
doubled (suc n) = doubled n ++ doubled n

length-doubled : (n : ℕ) → length (doubled n) ≡ 2 ^ n
unfolding doubled
length-doubled zero = omega (arith, pow-zero 2)
length-doubled (suc n) =
    omega (arith, length-append (doubled n) (doubled n), length-doubled n, pow-suc 2 n)

pbkdf2_entry-long_salt_example :
    (pbkdf2_entry never key (doubled 21) (some 1000) (some 32)
      ≡ pbkdf2_entry never other_key (doubled 22) (some 1000) (some 32))
    × (pbkdf2_entry never key (doubled 21) (some 1000) (some 32)
        ≡ Entry.returned (hexlify (replicate 32 0)))
pbkdf2_entry-long_salt_example =
    pbkdf2_entry-long_salt never key other_key (doubled 21) (doubled 22) 1000 32 (omega arith)
      (omega arith) (omega arith) (omega arith) (omega (arith, length-doubled 21))
      (omega (arith, length-doubled 22))
