-- ===== src/Keccak/Permutation.antt =====
-- src/rmbl_keccak.cpp, `keccak_f1600`: theta, rho and pi, chi and iota with the literal indices of
-- the source. The state is a list of 25 64-bit lanes; an array that a loop fills is a list.
use rmorie_bricklayer.Prelude.{
  ℕ, ◌+◌, ◌-◌, ◌*◌, ◌/◌, ◌%◌, ◌^◌, bit_and, bit_or, bit_xor, List, [], ◌∷◌, ◌==◌, if◌then◌else◌,
  get_or,
}

-- Round constants, FIPS 202 Table 1.
abbrev pub k_rc : List ℕ
k_rc =
    0x0000000000000001 ∷ 0x0000000000008082 ∷ 0x800000000000808a ∷ 0x8000000080008000
    ∷ 0x000000000000808b ∷ 0x0000000080000001 ∷ 0x8000000080008081 ∷ 0x8000000000008009
    ∷ 0x000000000000008a ∷ 0x0000000000000088 ∷ 0x0000000080008009 ∷ 0x000000008000000a
    ∷ 0x000000008000808b ∷ 0x800000000000008b ∷ 0x8000000000008089 ∷ 0x8000000000008003
    ∷ 0x8000000000008002 ∷ 0x8000000000000080 ∷ 0x000000000000800a ∷ 0x800000008000000a
    ∷ 0x8000000080008081 ∷ 0x8000000000008080 ∷ 0x0000000080000001 ∷ 0x8000000080008008 ∷ []

-- Rotation offsets, indexed by x + 5 * y.
abbrev pub k_rho : List ℕ
k_rho =
    0 ∷ 1 ∷ 62 ∷ 28 ∷ 27 ∷ 36 ∷ 44 ∷ 6 ∷ 55 ∷ 20 ∷ 3 ∷ 10 ∷ 43 ∷ 25 ∷ 39 ∷ 41 ∷ 45 ∷ 15 ∷ 21 ∷ 8
    ∷ 18 ∷ 2 ∷ 61 ∷ 56 ∷ 14 ∷ []

unfoldable pub rotl64 : ℕ → ℕ → ℕ
rotl64 x n = if n == 0 then x else bit_or (x * 2 ^ n % 2 ^ 64) (x / 2 ^ (64 - n))

-- `~x`
abbrev pub not64 : ℕ → ℕ
not64 x = bit_xor x (2 ^ 64 - 1)

-- `c[x]`, the parity of column `x`.
abbrev pub column : List ℕ → ℕ → ℕ
column a x =
    bit_xor
      (bit_xor (bit_xor (bit_xor (get_or a x 0) (get_or a (x + 5) 0)) (get_or a (x + 10) 0))
        (get_or a (x + 15) 0))
      (get_or a (x + 20) 0)

unfoldable pub theta_c : List ℕ → List ℕ
theta_c a = column a 0 ∷ column a 1 ∷ column a 2 ∷ column a 3 ∷ column a 4 ∷ []

-- The tables that `make_keccak_tables` fills.
abbrev pub theta_d_index : ℕ → ℕ
theta_d_index x = (x + 4) % 5

abbrev pub theta_r_index : ℕ → ℕ
theta_r_index x = (x + 1) % 5

abbrev pub theta_entry : List ℕ → ℕ → ℕ
theta_entry c x = bit_xor (get_or c (theta_d_index x) 0) (rotl64 (get_or c (theta_r_index x) 0) 1)

unfoldable pub theta_d : List ℕ → List ℕ
unfolding rotl64
theta_d c =
    theta_entry c 0 ∷ theta_entry c 1 ∷ theta_entry c 2 ∷ theta_entry c 3 ∷ theta_entry c 4 ∷ []

-- `rotl64(a[i] ^ d[x], kRho[r])`
abbrev pub moved : List ℕ → List ℕ → ℕ → ℕ → ℕ → ℕ
moved a d i x r = rotl64 (bit_xor (get_or a i 0) (get_or d x 0)) (get_or k_rho r 0)

-- `b`, by its index.
unfoldable pub rho_pi : List ℕ → List ℕ → List ℕ
unfolding rotl64
rho_pi a d =
    moved a d 0 0 0
    ∷ moved a d 6 1 6
    ∷ moved a d 12 2 12
    ∷ moved a d 18 3 18
    ∷ moved a d 24 4 24
    ∷ moved a d 3 3 3
    ∷ moved a d 9 4 9
    ∷ moved a d 10 0 10
    ∷ moved a d 16 1 16
    ∷ moved a d 22 2 22
    ∷ moved a d 1 1 1
    ∷ moved a d 7 2 7
    ∷ moved a d 13 3 13
    ∷ moved a d 19 4 19
    ∷ moved a d 20 0 20
    ∷ moved a d 4 4 4
    ∷ moved a d 5 0 5
    ∷ moved a d 11 1 11
    ∷ moved a d 17 2 17
    ∷ moved a d 23 3 23
    ∷ moved a d 2 2 2
    ∷ moved a d 8 3 8
    ∷ moved a d 14 4 14
    ∷ moved a d 15 0 15
    ∷ moved a d 21 1 21
    ∷ []

-- `b[i] ^ ((~b[j]) & b[k])`
abbrev pub mixed : List ℕ → ℕ → ℕ → ℕ → ℕ
mixed b i j k = bit_xor (get_or b i 0) (bit_and (not64 (get_or b j 0)) (get_or b k 0))

unfoldable pub chi : List ℕ → List ℕ
chi b =
    mixed b 0 1 2
    ∷ mixed b 1 2 3
    ∷ mixed b 2 3 4
    ∷ mixed b 3 4 0
    ∷ mixed b 4 0 1
    ∷ mixed b 5 6 7
    ∷ mixed b 6 7 8
    ∷ mixed b 7 8 9
    ∷ mixed b 8 9 5
    ∷ mixed b 9 5 6
    ∷ mixed b 10 11 12
    ∷ mixed b 11 12 13
    ∷ mixed b 12 13 14
    ∷ mixed b 13 14 10
    ∷ mixed b 14 10 11
    ∷ mixed b 15 16 17
    ∷ mixed b 16 17 18
    ∷ mixed b 17 18 19
    ∷ mixed b 18 19 15
    ∷ mixed b 19 15 16
    ∷ mixed b 20 21 22
    ∷ mixed b 21 22 23
    ∷ mixed b 22 23 24
    ∷ mixed b 23 24 20
    ∷ mixed b 24 20 21
    ∷ []

-- `a[0] ^= kRC[round]`
unfoldable pub iota : ℕ → List ℕ → List ℕ
iota constant [] = []
iota constant (lane ∷ a) = bit_xor lane constant ∷ a

unfoldable pub keccak_round : ℕ → List ℕ → List ℕ
unfolding theta_c theta_d rho_pi chi iota
keccak_round constant a = iota constant (chi (rho_pi a (theta_d (theta_c a))))

-- The rounds, by the constants that are left.
unfoldable pub keccak_rounds : List ℕ → List ℕ → List ℕ
unfolding keccak_round
keccak_rounds [] a = a
keccak_rounds (constant ∷ rest) a = keccak_rounds rest (keccak_round constant a)

unfoldable pub keccak_f1600 : List ℕ → List ℕ
unfolding keccak_rounds
keccak_f1600 a = keccak_rounds k_rc a
