-- ===== src/Mac/Hmac.antt =====
-- HMAC: the two implementations agree, and the keys that count as one.
use rmorie_bricklayer.Prelude.{
  ℕ, suc, ◌-◌, ◌<◌, List, [], ◌∷◌, ◌++◌, length, replicate, take_all, ltb, ltb_ge, lt→ltb,
  if◌then◌else◌, true, false, ◌≡◌, refl, ap, arith, length-append,
}
use mathlib.Core.List.{append_assoc}
use rmorie_bricklayer.Sha2.Sha256.{sha256_raw}
use rmorie_bricklayer.Sha2.Sha256.Digest.{length-sha256_raw}
use rmorie_bricklayer.Mac.{shax, zero_padded, hmac_shax, hmac_sha256_raw, xor_all}

-- The HMAC of src/rmbl_mgf1.cpp for digests of 32 bytes is that of src/rmbl_digest.cpp.
pub hmac_shax-hmac_sha256_raw : (key msg : List ℕ) → hmac_shax 32 key msg ≡ hmac_sha256_raw key msg
unfolding hmac_shax hmac_sha256_raw shax
hmac_shax-hmac_sha256_raw key msg =
    let k0 : List ℕ = zero_padded 64 (if ltb 64 (length key) then sha256_raw key else key) in
    let ih : List ℕ = sha256_raw (xor_all k0 0x36 ++ msg) in
    ap (λ (t : List ℕ). sha256_raw (xor_all k0 0x5c ++ t))
      (take_all 32 ih (omega (arith, length-sha256_raw (xor_all k0 0x36 ++ msg))))

key_padded :
    (key : List ℕ) → length key < 64 → zero_padded 64 (key ++ (0 ∷ [])) ≡ zero_padded 64 key
unfolding zero_padded
key_padded key short =
    let count : 64 - length key ≡ suc (64 - length (key ++ (0 ∷ []))) =
      omega (arith, length-append key (0 ∷ [])) in
    rw count (append_assoc key (0 ∷ []) (replicate (64 - length (key ++ (0 ∷ []))) 0))

-- A key longer than the block counts as its digest, and a key below the block's length as itself
-- with a zero byte behind.
pub hmac_sha256_raw_keys :
    (key msg : List ℕ)
    → (64 < length key → hmac_sha256_raw key msg ≡ hmac_sha256_raw (sha256_raw key) msg)
      × (length key < 64 → hmac_sha256_raw (key ++ (0 ∷ [])) msg ≡ hmac_sha256_raw key msg)
unfolding hmac_sha256_raw
hmac_sha256_raw_keys key msg = (
  λ long.
      let hashed : ltb 64 (length key) ≡ true = lt→ltb 64 (length key) long in
      let fits : ltb 64 (length (sha256_raw key)) ≡ false =
        ltb_ge 64 (length (sha256_raw key)) (omega (arith, length-sha256_raw key)) in
      rw (hashed, fits) refl,
  λ short.
      let plain : ltb 64 (length key) ≡ false = ltb_ge 64 (length key) (omega arith) in
      let longer : ltb 64 (length (key ++ (0 ∷ []))) ≡ false =
        ltb_ge 64 (length (key ++ (0 ∷ []))) (omega (arith, length-append key (0 ∷ []))) in
      rw (plain, longer, key_padded key short) refl,
)

pub length-hmac_sha256_raw : (key msg : List ℕ) → length (hmac_sha256_raw key msg) ≡ 32
unfolding hmac_sha256_raw
length-hmac_sha256_raw key msg =
    let k0 : List ℕ = zero_padded 64 (if ltb 64 (length key) then sha256_raw key else key) in
    length-sha256_raw (xor_all k0 0x5c ++ sha256_raw (xor_all k0 0x36 ++ msg))
