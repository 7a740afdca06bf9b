-- ===== src/Drbg/Aes.antt =====
-- src/rmbl_drbg_core.h: GF(2^8), the arithmetic S-box, and the portable AES-256. An array that is
-- written element by element is the list of its elements.
use rmorie_bricklayer.Prelude.{
  ℕ, zero, suc, ◌+◌, ◌-◌, ◌*◌, ◌/◌, ◌%◌, ◌^◌, bit_and, bit_or, bit_xor, List, [], ◌∷◌, ◌++◌, ◌==◌,
  if◌then◌else◌, get_or, take, drop, map, ltb,
}

-- One round of `gmul`, with `p`, `a` and `b` on the way.
unfoldable pub gmul_loop : ℕ → ℕ → ℕ → ℕ → ℕ
gmul_loop zero p a b = p
gmul_loop (suc rounds) p a b =
    let hi = (2 ^ 32 - a / 2 ^ 7) % 2 ^ 8 in
    gmul_loop rounds (bit_xor p (bit_and a ((2 ^ 32 - bit_and b 1) % 2 ^ 32) % 2 ^ 8))
      (bit_xor (a * 2) (bit_and hi 0x1b) % 2 ^ 8) (b / 2)

unfoldable pub gmul : ℕ → ℕ → ℕ
gmul a b = gmul_loop 8 0 a b

unfoldable pub rotl8 : ℕ → ℕ → ℕ
rotl8 x k = bit_or (x * 2 ^ k) (x / 2 ^ (8 - k)) % 2 ^ 8

-- `x ^ 254` by the chain of the source.
unfoldable pub inverse : ℕ → ℕ
inverse x =
    let x2 = gmul x x in
    let x3 = gmul x2 x in
    let x6 = gmul x3 x3 in
    let x12 = gmul x6 x6 in
    let x15 = gmul x12 x3 in
    let x30 = gmul x15 x15 in
    let x60 = gmul x30 x30 in
    let x120 = gmul x60 x60 in let x126 = gmul x120 x6 in let x252 = gmul x126 x126 in gmul x252 x2

abbrev pub affine : ℕ → ℕ
affine inv =
    bit_xor
      (bit_xor (bit_xor (bit_xor (bit_xor inv (rotl8 inv 1)) (rotl8 inv 2)) (rotl8 inv 3))
        (rotl8 inv 4))
      0x63

unfoldable pub sbox : ℕ → ℕ
sbox x = affine (inverse x)

unfoldable pub xor_bytes : List ℕ → List ℕ → List ℕ
xor_bytes [] ys = []
xor_bytes (x ∷ xs) [] = x ∷ xs
xor_bytes (x ∷ xs) (y ∷ ys) = bit_xor x y ∷ xor_bytes xs ys

-- The word `t` of round `i`, made from the word before it.
unfoldable pub schedule_word : ℕ → ℕ → List ℕ → List ℕ
schedule_word i rcon t =
    if i % 8 == 0
    then bit_xor (sbox (get_or t 1 0)) rcon
      ∷ sbox (get_or t 2 0)
      ∷ sbox (get_or t 3 0)
      ∷ sbox (get_or t 0 0)
      ∷ []
    else if i % 8 == 4
    then map sbox t
    else t

-- The loop of `Aes256::init`, `rk` being the words that are written so far.
unfoldable pub schedule_loop : ℕ → ℕ → ℕ → List ℕ → List ℕ
schedule_loop zero i rcon rk = rk
schedule_loop (suc rounds) i rcon rk =
    let t = schedule_word i rcon (take 4 (drop (4 * (i - 1)) rk)) in
    schedule_loop rounds (i + 1) (if i % 8 == 0 then gmul rcon 2 else rcon)
      (rk ++ xor_bytes (take 4 (drop (4 * (i - 8)) rk)) t)

unfoldable pub aes_init : List ℕ → List ℕ
aes_init key = schedule_loop 52 8 1 (take 32 key)

-- `t[4 * c + j] = s[4 * ((c + j) % 4) + j]`
abbrev pub shifted : List ℕ → ℕ → ℕ → ℕ
shifted s c j = get_or s (4 * ((c + j) % 4) + j) 0

abbrev pub shift_row_column : List ℕ → ℕ → List ℕ
shift_row_column s c = shifted s c 0 ∷ shifted s c 1 ∷ shifted s c 2 ∷ shifted s c 3 ∷ []

unfoldable pub shift_rows : List ℕ → List ℕ
shift_rows s =
    shift_row_column s 0 ++ shift_row_column s 1 ++ shift_row_column s 2 ++ shift_row_column s 3

unfoldable pub mix_column : ℕ → ℕ → ℕ → ℕ → List ℕ
mix_column a0 a1 a2 a3 =
    let x = bit_xor (bit_xor (bit_xor a0 a1) a2) a3 in
    bit_xor (bit_xor a0 x) (gmul (bit_xor a0 a1) 2)
    ∷ bit_xor (bit_xor a1 x) (gmul (bit_xor a1 a2) 2)
    ∷ bit_xor (bit_xor a2 x) (gmul (bit_xor a2 a3) 2)
    ∷ bit_xor (bit_xor a3 x) (gmul (bit_xor a3 a0) 2)
    ∷ []

unfoldable pub mix_columns : List ℕ → List ℕ
mix_columns (a0 ∷ a1 ∷ a2 ∷ a3 ∷ t) = mix_column a0 a1 a2 a3 ++ mix_columns t
mix_columns t = t

abbrev pub round_key : List ℕ → ℕ → List ℕ
round_key rk r = take 16 (drop (16 * r) rk)

unfoldable pub aes_round : List ℕ → ℕ → List ℕ → List ℕ
aes_round rk r s =
    let t = shift_rows (map sbox s) in
    xor_bytes (if ltb r 14 then mix_columns t else t) (round_key rk r)

-- Rounds `r` and up.
unfoldable pub aes_rounds : ℕ → List ℕ → ℕ → List ℕ → List ℕ
aes_rounds zero rk r s = s
aes_rounds (suc rounds) rk r s = aes_rounds rounds rk (r + 1) (aes_round rk r s)

unfoldable pub encrypt_portable : List ℕ → List ℕ → List ℕ
encrypt_portable rk block = aes_rounds 14 rk 1 (xor_bytes (take 16 block) (round_key rk 0))
