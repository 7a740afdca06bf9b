-- ===== src/Mac.antt =====
-- HMAC and MGF1: src/rmbl_mgf1.cpp, and src/rmbl_digest.cpp's HMAC-SHA-256 and comparison of
-- digests.
pub mod Hmac
pub mod Mask
use rmorie_bricklayer.Prelude.{
  ℕ, zero, suc, ◌+◌, ◌-◌, ◌/◌, ◌%◌, ◌^◌, bit_xor, bit_or, List, [], ◌∷◌, ◌++◌, length, take, map,
  replicate, ◌==◌, ltb, if◌then◌else◌, Bool, true, false,
}
use rmorie_bricklayer.Prelude.Bytes.{be_bytes}
use rmorie_bricklayer.Sha2.Sha256.{sha256_raw}
use rmorie_bricklayer.Sha2.Sha512.{sha512_raw}

unfoldable pub shax : ℕ → List ℕ → List ℕ
shax outlen bytes = if outlen == 64 then sha512_raw bytes else sha256_raw bytes

-- `memcpy` into an array of `n` zeros.
unfoldable pub zero_padded : ℕ → List ℕ → List ℕ
zero_padded n bytes = bytes ++ replicate (n - length bytes) 0

abbrev pub xor_all : List ℕ → ℕ → List ℕ
xor_all k c = map (λ (b : ℕ). bit_xor b c) k

unfoldable pub hmac_shax : ℕ → List ℕ → List ℕ → List ℕ
hmac_shax outlen key msg =
    let block = if outlen == 64 then 128 else 64 in
    let k = zero_padded block (if ltb block (length key) then shax outlen key else key) in
    let ih = shax outlen (xor_all k 0x36 ++ msg) in shax outlen (xor_all k 0x5c ++ take outlen ih)

unfoldable pub hmac_sha256_raw : List ℕ → List ℕ → List ℕ
hmac_sha256_raw key msg =
    let k0 = zero_padded 64 (if ltb 64 (length key) then sha256_raw key else key) in
    let ih = sha256_raw (xor_all k0 0x36 ++ msg) in sha256_raw (xor_all k0 0x5c ++ ih)

-- `while (done < outlen)`, on fuel; `left` is `outlen - done`.
unfoldable pub mgf1_loop : ℕ → ℕ → ℕ → ℕ → List ℕ → List ℕ
mgf1_loop zero hashlen ctr left seed = []
mgf1_loop (suc fuel) hashlen ctr left seed =
    let hlen = if hashlen == 64 then 64 else 32 in
    let h = shax hashlen (seed ++ be_bytes 4 ctr) in
    let n = if ltb left hlen then left else hlen in
    let rest = mgf1_loop fuel hashlen ((ctr + 1) % 2 ^ 32) (left - n) seed in
    if ltb 0 left then take n h ++ rest else []

unfoldable pub mgf1_shax : ℕ → ℕ → List ℕ → List ℕ
mgf1_shax hashlen outlen seed = mgf1_loop outlen hashlen 0 outlen seed

-- The loop of `rmbl_digest_equal` over the bytes of both arrays.
unfoldable pub difference : ℕ → List ℕ → List ℕ → ℕ
difference diff [] b = diff
difference diff (x ∷ a) [] = diff
difference diff (x ∷ a) (y ∷ b) = difference (bit_or diff (bit_xor x y) % 256) a b

unfoldable pub digest_equal : List ℕ → List ℕ → ℕ
digest_equal a b = if difference 0 a b == 0 then 1 else 0
