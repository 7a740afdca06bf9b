-- ===== src/Sha1/Padded.antt =====
-- src/rmbl_digest.cpp: the buffer of SHA-1 is the message with the padding of FIPS 180-4.
use rmorie_bricklayer.Prelude.{ℕ, ◌-◌, ◌*◌, ◌%◌, ◌^◌, List, ◌∷◌, ◌++◌, length, leb, if◌then◌else◌}
use rmorie_bricklayer.Prelude.Bytes.{be_bytes}
use rmorie_bricklayer.Sha2.Padding.{nulls}

-- FIPS 180-4, 5.1.1: the least number of zeros after which the message, the mark and the zeros leave
-- eight bytes of a block.
unfoldable pub zeros_between : ℕ → ℕ
zeros_between len = if leb (len % 64) 55 then 55 - len % 64 else 119 - len % 64

-- The message with its padding.
unfoldable pub padded : List ℕ → List ℕ
padded bytes =
    bytes
    ++ (0x80 ∷ (nulls (zeros_between (length bytes)) ++ be_bytes 8 (length bytes * 8 % 2 ^ 64)))
