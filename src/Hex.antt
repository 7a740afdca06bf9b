-- ===== src/Hex.antt =====
-- src/rmbl_ct.h: hexadecimal with no branch and no table on a secret. `unsigned` is 32-bit, so a
-- subtraction wraps and `0u - x` is written `(2 ^ 32 - x) % 2 ^ 32`.
pub mod Digit
pub mod RoundTrip
use rmorie_bricklayer.Prelude.{
  ℕ, zero, suc, ◌+◌, ◌-◌, ◌*◌, ◌/◌, ◌^◌, ◌%◌, bit_and, bit_or, bit_xor, List, [], ◌∷◌, ◌++◌, Bool,
  ltb, ◌==◌, if◌then◌else◌, Option, none, some, length, replicate,
}

abbrev pub u32 : ℕ → ℕ
u32 x = x % 2 ^ 32

-- `0u - x`
abbrev pub neg32 : ℕ → ℕ
neg32 x = (2 ^ 32 - x) % 2 ^ 32

-- `~x`
abbrev pub not32 : ℕ → ℕ
not32 x = bit_xor x (2 ^ 32 - 1)

-- The buffer that `wipe` leaves.
unfoldable pub wipe : List ℕ → List ℕ
wipe [] = []
wipe (x ∷ q) = 0 ∷ wipe q

unfoldable pub hex_digit : ℕ → ℕ
hex_digit v0 =
    let v = bit_and v0 15 in
    let mask = neg32 ((v + 6) / 2 ^ 4) in (b'0' + v + bit_and mask (b'a' - b'0' - 10)) % 2 ^ 8

unfoldable pub hexlify : List ℕ → List ℕ
hexlify [] = []
hexlify (b ∷ bs) = hex_digit (b / 2 ^ 4) ∷ hex_digit b ∷ hexlify bs

-- The NUL-terminated form.
unfoldable pub hexlify_z : List ℕ → List ℕ
hexlify_z b = hexlify b ++ 0 ∷ []

-- A character's value and the new `bad`.
unfoldable pub unhex_digit : ℕ → ℕ → ℕ × ℕ
unhex_digit c bad =
    let d = u32 (c + 2 ^ 32 - b'0') in
    let l = u32 (bit_or c 0x20 + 2 ^ 32 - b'a') in
    let is_d = neg32 (if ltb d 10 then 1 else 0) in
    let is_l = neg32 (if ltb l 6 then 1 else 0) in
    (bit_or (bit_and is_d d) (bit_and is_l (u32 (l + 10))), bit_or bad (not32 (bit_or is_d is_l)))

-- The loop of `unhexlify` over `len / 2` pairs; a last odd character is not read.
unfoldable pub unhex_loop : List ℕ → ℕ → List ℕ × ℕ
unhex_loop [] bad = ([], bad)
unhex_loop (c ∷ []) bad = ([], bad)
unhex_loop (c1 ∷ c2 ∷ s) bad =
    let (hi, bad1) = unhex_digit c1 bad in
    let (lo, bad2) = unhex_digit c2 bad1 in
    let (out, bad3) = unhex_loop s bad2 in (bit_or (u32 (hi * 2 ^ 4)) lo % 2 ^ 8 ∷ out, bad3)

-- `none` is the return value -1.
unfoldable pub unhexlify : List ℕ → Option (List ℕ)
unhexlify s = let (out, bad) = unhex_loop s 0 in if bad == 0 then some out else none
