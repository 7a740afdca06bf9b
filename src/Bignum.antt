-- ===== src/Bignum.antt =====
-- src/rmbl_bignum.h: unsigned integers as little-endian 32-bit limbs. A `std::vector<uint32_t>` is
-- a list of numbers; a loop that counts an index down is a recursion on that index.
pub mod Value
pub mod Trim
pub mod Compare
pub mod BitLength
use rmorie_bricklayer.Prelude.{
  ℕ, zero, suc, ◌+◌, ◌*◌, ◌/◌, List, [], ◌∷◌, Bool, ◌&&◌, ltb, ◌==◌, if◌then◌else◌, length, get_or,
}

abbrev pub Big : Type 0
Big = List ℕ

-- `vector::back` and `vector::pop_back`; neither is called on an empty vector.
unfoldable pub back : Big → ℕ
back [] = 0
back (x ∷ []) = x
back (x ∷ y ∷ a) = back (y ∷ a)

unfoldable pub pop_back : Big → Big
pop_back [] = []
pop_back (x ∷ []) = []
pop_back (x ∷ y ∷ a) = x ∷ pop_back (y ∷ a)

-- The `while` of `trim`, a round for each limb.
unfoldable pub trim_rounds : ℕ → Big → Big
trim_rounds zero a = a
trim_rounds (suc rounds) a =
    let rest = trim_rounds rounds (pop_back a) in
    if ltb 1 (length a) && back a == 0 then rest else a

unfoldable pub trim : Big → Big
trim a = trim_rounds (length a) a

-- The results -1, 0 and 1 of `cmp`.
pub data Cmp : Type 0 where
  below same above : Cmp

unfoldable pub cmp_from : ℕ → Big → Big → Cmp
cmp_from zero a b = same
cmp_from (suc i) a b =
    let rest = cmp_from i a b in
    let x = get_or a i 0 in
    let y = get_or b i 0 in if x == y then rest else if ltb x y then below else above

unfoldable pub cmp : Big → Big → Cmp
cmp a b = cmp_from (if ltb (length b) (length a) then length a else length b) a b

-- `while (v) { ++b; v >>= 1; }` on a 32-bit `v`.
unfoldable pub word_bits : ℕ → ℕ → ℕ → ℕ
word_bits zero v b = b
word_bits (suc rounds) v b =
    let rest = word_bits rounds (v / 2) (b + 1) in if v == 0 then b else rest

unfoldable pub bit_length_from : ℕ → Big → ℕ
bit_length_from zero a = 0
bit_length_from (suc i) a =
    let rest = bit_length_from i a in
    let v = get_or a i 0 in if v == 0 then rest else i * 32 + word_bits 32 v 0

unfoldable pub bit_length : Big → ℕ
bit_length a = bit_length_from (length a) a
