-- ===== src/Tests/XmssTests.antt =====
-- src/rmbl_pqc.cpp: runs and instances.
use rmorie_bricklayer.Prelude.{
  ℕ, List, [], ◌∷◌, ◌++◌, length, replicate, true, ◌≡◌, refl, arith, some,
}
use rmorie_bricklayer.Prelude.Bytes.{IsBytes, bytes_sound}
use rmorie_bricklayer.Hex.{unhex_loop, unhex_digit, unhexlify as decode_pairs}
use rmorie_bricklayer.Xmss.{wots_digits, checksum, checksum_digits, base_w}
use rmorie_bricklayer.Xmss.Digits.{IsBelow, wots_digits-IsBelow}
use rmorie_bricklayer.Xmss.Node.{IsNodes}
use rmorie_bricklayer.Xmss.Entry.{
  unhexlify, Signature, returned, xmss_sign, xmss_keygen, xmss_verify,
}
use rmorie_bricklayer.Xmss.Sound.{xmss_verify-xmss_sign}

abbrev zeros : List ℕ
zeros = replicate 32 0

-- The checksum of zero digits is 64 * 15 = 0x3c0.
zero_digits : wots_digits zeros ≡ replicate 64 0 ++ (3 ∷ 12 ∷ 0 ∷ [])
unfolding wots_digits checksum checksum_digits base_w
zero_digits = refl

IsBelow-refl : (ds : List ℕ) → IsBelow ds ds
IsBelow-refl [] = tt
IsBelow-refl (d ∷ ds) = (omega arith, IsBelow-refl ds)

wots_digits-IsBelow_example : zeros ≡ zeros
wots_digits-IsBelow_example =
    wots_digits-IsBelow zeros zeros refl refl (bytes_sound zeros refl) (bytes_sound zeros refl)
      (IsBelow-refl (wots_digits zeros))

abbrev three_nodes : List (List ℕ)
three_nodes = zeros ∷ zeros ∷ zeros ∷ []

zeros-IsNode : (length zeros ≡ 32) × IsBytes zeros
zeros-IsNode = (refl, bytes_sound zeros refl)

three_nodes-IsNodes : IsNodes three_nodes
three_nodes-IsNodes = (zeros-IsNode, (zeros-IsNode, (zeros-IsNode, tt)))

abbrev zeros_hex : List ℕ
zeros_hex = replicate 64 0x30

zeros_hex_read : unhexlify zeros_hex ≡ some zeros
unfolding unhexlify decode_pairs unhex_loop unhex_digit
zeros_hex_read = refl

xmss_verify-xmss_sign_example :
    (s : Signature) × (xmss_sign zeros_hex zeros_hex zeros_hex 3 5 (1 ∷ 2 ∷ []) ≡ returned s)
    × (xmss_keygen zeros_hex zeros_hex 3 ≡ returned s.root)
    × (xmss_verify zeros_hex s.root 3 5 (1 ∷ 2 ∷ []) s.wots s.auth s.randomizer ≡ true)
xmss_verify-xmss_sign_example =
    xmss_verify-xmss_sign zeros_hex zeros_hex zeros_hex (1 ∷ 2 ∷ []) zeros zeros zeros 3 5
      zeros_hex_read refl zeros_hex_read refl zeros_hex_read refl (omega arith) (omega arith)
      (omega arith)
