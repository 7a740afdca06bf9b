-- ===== src/Crc.antt =====
-- src/rmbl_digest.cpp: CRC-32 by a table of 256 entries.
pub mod Division
use rmorie_bricklayer.Prelude.{
  ℕ, zero, suc, ◌+◌, ◌-◌, ◌/◌, ◌%◌, ◌^◌, bit_and, bit_xor, List, [], ◌∷◌, get_or, ◌==◌,
  if◌then◌else◌,
}

-- One round of the inner loop of `crc32_init_table`.
unfoldable pub crc_step : ℕ → ℕ
crc_step c = if bit_and c 1 == 1 then bit_xor 0xEDB88320 (c / 2) else c / 2

unfoldable pub crc_steps : ℕ → ℕ → ℕ
crc_steps zero c = c
crc_steps (suc rounds) c = crc_steps rounds (crc_step c)

-- The entries from `i` on, `n` of them.
unfoldable pub crc32_entries : ℕ → ℕ → List ℕ
crc32_entries zero i = []
crc32_entries (suc n) i = crc_steps 8 i ∷ crc32_entries n (i + 1)

unfoldable pub crc32_table : List ℕ
crc32_table = crc32_entries 256 0

unfoldable pub crc32_loop : ℕ → List ℕ → ℕ
crc32_loop c [] = c
crc32_loop c (b ∷ bytes) =
    crc32_loop (bit_xor (get_or crc32_table (bit_and (bit_xor c b) 0xff) 0) (c / 2 ^ 8)) bytes

unfoldable pub rmbl_crc32 : List ℕ → ℕ
rmbl_crc32 bytes = bit_xor (crc32_loop 0xFFFFFFFF bytes) 0xFFFFFFFF
