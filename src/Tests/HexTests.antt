-- ===== src/Tests/HexTests.antt =====
-- rmbl_ct.h.
use rmorie_bricklayer.Prelude.{ℕ, ◌≡◌, refl, List, [], ◌∷◌, arith, some, none}
use rmorie_bricklayer.Hex.{hexlify, hexlify_z, unhexlify, hex_digit, unhex_loop, unhex_digit}
use rmorie_bricklayer.Hex.RoundTrip
use rmorie_bricklayer.Hex.RoundTrip.{decode}

abbrev bytes : List ℕ
bytes = 0x00 ∷ 0xaf ∷ []

hexlify_run : hexlify_z bytes ≡ b'0' ∷ b'0' ∷ b'a' ∷ b'f' ∷ 0 ∷ []
unfolding hexlify_z hexlify hex_digit
hexlify_run = refl

-- A character that is no digit, and an odd one that is not read.
bad_digit : unhexlify (b'1' ∷ b'g' ∷ []) ≡ none
unfolding unhexlify unhex_loop unhex_digit
bad_digit = refl

odd_length : unhexlify (b'A' ∷ b'1' ∷ b'g' ∷ []) ≡ some (0xa1 ∷ [])
unfolding unhexlify unhex_loop unhex_digit
odd_length = refl

unhexlify_lem_example : unhexlify (b'A' ∷ b'1' ∷ []) ≡ decode (b'A' ∷ b'1' ∷ [])
unhexlify_lem_example = RoundTrip.unhexlify_lem (b'A' ∷ b'1' ∷ []) (omega arith)

unhexlify-hexlify_example : unhexlify (hexlify bytes) ≡ some bytes
unhexlify-hexlify_example = RoundTrip.unhexlify-hexlify bytes (omega arith)
