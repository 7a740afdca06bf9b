-- ===== src/Rsa.antt =====
-- src/rmbl_asn1.cpp, the RSA half: bytes to limbs and back, the arithmetic on limbs that modular
-- exponentiation needs, and `C_rmbl_rsa_recover_impl`. A vector changed in place is a list; an
-- inner
-- loop that runs along a vector is a recursion on its suffix.
pub mod Words
pub mod Mul
pub mod Mod
pub mod Power
pub mod Bytes
pub mod Output
pub mod Recover
use rmorie_bricklayer.Prelude.{
  ℕ, zero, suc, ◌+◌, ◌-◌, ◌*◌, ◌/◌, ◌%◌, ◌^◌, bit_and, bit_or, List, [], ◌∷◌, ◌++◌, Bool, true,
  false, not, ltb, leb, ◌==◌, if◌then◌else◌, length, get_or, set, replicate,
}
use mathlib.Core.List.{reverse}
use rmorie_bricklayer.Bignum.{Big, Cmp, below, same, above, trim, cmp, bit_length}

abbrev pub u32 : ℕ → ℕ
u32 x = x % 2 ^ 32

abbrev pub u64 : ℕ → ℕ
u64 x = x % 2 ^ 64

-- `v = (v << 8) | p[k]` over the one to three leading bytes.
unfoldable pub fold_bytes : ℕ → List ℕ → ℕ
fold_bytes v [] = v
fold_bytes v (b ∷ bs) = fold_bytes (bit_or (u32 (v * 2 ^ 8)) b) bs

-- The loop of `from_bytes` reads from the end of the bytes, so it walks the reversed list.
unfoldable pub from_bytes_loop : List ℕ → Big
from_bytes_loop [] = []
from_bytes_loop (b0 ∷ []) = fold_bytes 0 (b0 ∷ []) ∷ []
from_bytes_loop (b0 ∷ b1 ∷ []) = fold_bytes 0 (b1 ∷ b0 ∷ []) ∷ []
from_bytes_loop (b0 ∷ b1 ∷ b2 ∷ []) = fold_bytes 0 (b2 ∷ b1 ∷ b0 ∷ []) ∷ []
from_bytes_loop (b0 ∷ b1 ∷ b2 ∷ b3 ∷ rest) =
    bit_or (bit_or (bit_or b0 (u32 (b1 * 2 ^ 8))) (u32 (b2 * 2 ^ 16))) (u32 (b3 * 2 ^ 24))
    ∷ from_bytes_loop rest

-- `if (a.empty()) a.push_back(0);`
unfoldable pub or_zero : Big → Big
or_zero [] = 0 ∷ []
or_zero (x ∷ a) = x ∷ a

unfoldable pub from_bytes : List ℕ → Big
from_bytes p = trim (or_zero (from_bytes_loop (reverse p)))

-- The body of the two loops of `to_bytes`, for byte `b` of limb `i`.
unfoldable pub put_byte : ℕ → ℕ → ℕ → ℕ → List ℕ → List ℕ
put_byte n limb i b out =
    let pos = i * 4 + b in
    if leb n pos then out else set out (n - 1 - pos) (limb / 2 ^ (8 * b) % 2 ^ 8)

unfoldable pub put_limbs : ℕ → ℕ → Big → List ℕ → List ℕ
put_limbs n i [] out = out
put_limbs n i (limb ∷ a) out =
    put_limbs n (i + 1) a
      (put_byte n limb i 3 (put_byte n limb i 2 (put_byte n limb i 1 (put_byte n limb i 0 out))))

unfoldable pub to_bytes : Big → ℕ → List ℕ
to_bytes a n = put_limbs n 0 a (replicate n 0)

unfoldable pub sub_loop : Big → Big → ℕ → Big
sub_loop [] b borrow = []
sub_loop (x ∷ a) [] borrow =
    (x + 2 ^ 64 - borrow) % 2 ^ 64 % 2 ^ 32 ∷ sub_loop a [] (if ltb x borrow then 1 else 0)
sub_loop (x ∷ a) (y ∷ b) borrow =
    (x + 2 ^ 64 + 2 ^ 64 - y - borrow) % 2 ^ 64 % 2 ^ 32
    ∷ sub_loop a b (if ltb x (u64 (y + borrow)) then 1 else 0)

unfoldable pub sub_in_place : Big → Big → Big
sub_in_place a b = trim (sub_loop a b 0)

-- `while (carry)` of `mul`, on the limbs from index `i + b.size()`.
unfoldable pub carry_loop : Big → ℕ → Big
carry_loop [] carry = []
carry_loop (x ∷ r) carry =
    let cur = u64 (x + carry) in
    let rest = carry_loop r (cur / 2 ^ 32) in if carry == 0 then x ∷ r else u32 cur ∷ rest

-- The loop over `j`, on the limbs of `r` from index `i`; then the `while (carry)`.
unfoldable pub row_loop : ℕ → Big → Big → ℕ → Big
row_loop x [] r carry = carry_loop r carry
row_loop x (y ∷ b) [] carry = []
row_loop x (y ∷ b) (z ∷ r) carry =
    let cur = u64 (x * y + z + carry) in u32 cur ∷ row_loop x b r (cur / 2 ^ 32)

-- The loop over `i`: limb `i` of `r` is final after its round.
unfoldable pub mul_loop : Big → Big → Big → Big
mul_loop [] b r = r
mul_loop (x ∷ a) b r = elim (row_loop x b r 0) [ [] ↦ [] | z ∷ r' ↦ z ∷ mul_loop a b r' ]

unfoldable pub mul : Big → Big → Big
mul a b = trim (mul_loop a b (replicate (length a + length b) 0))

unfoldable pub shl_loop : Big → ℕ → Big
shl_loop [] carry = if carry == 0 then [] else carry ∷ []
shl_loop (x ∷ a) carry = bit_or (u32 (x * 2 ^ 1)) carry ∷ shl_loop a (x / 2 ^ 31)

unfoldable pub shl1 : Big → Big
shl1 a = shl_loop a 0

unfoldable pub bit : Big → ℕ → Bool
bit a i =
    let limb = i / 32 in
    if leb (length a) limb then false else not (bit_and (get_or a limb 0 / 2 ^ (i % 32)) 1 == 0)

-- `if (r.empty()) r.push_back(1); else r[0] |= 1u;`
unfoldable pub set_low : Big → Big
set_low [] = 1 ∷ []
set_low (x ∷ r) = bit_or x 1 ∷ r

unfoldable pub not_below : Cmp → Bool
not_below below = false
not_below same = true
not_below above = true

-- A round of `mod` for bit `i` of `a`.
unfoldable pub mod_step : Big → Big → ℕ → Big → Big
mod_step a m i r =
    let r1 = shl1 r in
    let r2 = if bit a i then set_low r1 else r1 in
    if not_below (cmp r2 m) then sub_in_place r2 m else r2

unfoldable pub mod_loop : Big → Big → ℕ → Big → Big
mod_loop a m zero r = r
mod_loop a m (suc i) r = mod_loop a m i (mod_step a m i r)

unfoldable pub mod_big : Big → Big → Big
mod_big a m = if not_below (cmp a m) then trim (mod_loop a m (bit_length a) (0 ∷ [])) else a

-- A round of `modexp` for bit `i` of the exponent. (Its poll for an interrupt returns nothing.)
unfoldable pub modexp_step : Big → Big → Big → ℕ → Big → Big
modexp_step b exp m i result =
    let squared = mod_big (mul result result) m in
    if bit exp i then mod_big (mul squared b) m else squared

unfoldable pub modexp_loop : Big → Big → Big → ℕ → Big → Big
modexp_loop b exp m zero result = result
modexp_loop b exp m (suc i) result = modexp_loop b exp m i (modexp_step b exp m i result)

unfoldable pub modexp : Big → Big → Big → Big
modexp base exp m = modexp_loop (mod_big base m) exp m (bit_length exp) (1 ∷ [])

-- The refusals of `C_rmbl_rsa_recover_impl` on raw vectors, in the order of its tests.
pub data Recovered : Type 0 where
  recovered : List ℕ → Recovered
  empty_argument modulus_too_large exponent_too_large wrong_length zero_modulus not_less : Recovered

unfoldable pub recover_number : Big → Big → Big → ℕ → Recovered
recover_number s n e outlen =
    if bit_length n == 0
    then zero_modulus
    else if not_below (cmp s n)
    then not_less
    else recovered (to_bytes (modexp s e n) outlen)

unfoldable pub rsa_recover : List ℕ → List ℕ → List ℕ → Recovered
rsa_recover sig modulus exponent =
    if length modulus == 0
    then empty_argument
    else if length exponent == 0
    then empty_argument
    else if length sig == 0
    then empty_argument
    else if ltb 1024 (length modulus)
    then modulus_too_large
    else if ltb 64 (length exponent)
    then exponent_too_large
    else if not (length sig == length modulus)
    then wrong_length
    else recover_number (from_bytes sig) (from_bytes modulus) (from_bytes exponent) (length modulus)
