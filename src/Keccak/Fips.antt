-- ===== src/Keccak/Fips.antt =====
-- The permutation as FIPS 202 states it, by formulas on the coordinates (x, y) of a lane, and that
-- the code with literal indices computes it.
use rmorie_bricklayer.Prelude.{
  ℕ, zero, suc, ◌+◌, ◌-◌, ◌*◌, ◌/◌, ◌%◌, ◌^◌, bit_and, bit_xor, List, [], ◌∷◌, ◌==◌, ◌≡◌, refl, ap,
  ◌∙◌, ltb, if◌then◌else◌, get_or,
}
use rmorie_bricklayer.Keccak.Permutation.{
  rotl64, not64, keccak_round, keccak_rounds, keccak_f1600, k_rc,
}

-- Lane (x, y), coordinates modulo 5.
abbrev lane : List ℕ → ℕ → ℕ → ℕ
lane a x y = get_or a (x % 5 + 5 * (y % 5)) 0

-- A state by its lanes.
abbrev rows : ℕ → (ℕ → ℕ) → List ℕ
rows zero f = []
rows (suc n) f = f (25 - suc n) ∷ rows n f

abbrev tabulate : (ℕ → ℕ → ℕ) → List ℕ
tabulate f = rows 25 (λ i. f (i % 5) (i / 5))

parity : List ℕ → ℕ → ℕ
parity a x =
    bit_xor (bit_xor (bit_xor (bit_xor (lane a x 0) (lane a x 1)) (lane a x 2)) (lane a x 3))
      (lane a x 4)

theta : List ℕ → List ℕ
theta a =
    tabulate
      (λ x y. bit_xor (lane a x y) (bit_xor (parity a (x + 4)) (rotl64 (parity a (x + 1)) 1)))

-- The offset of lane (x, y): (t + 1)(t + 2) / 2 modulo 64 at the step `t` at which the walk from
-- (1, 0) by (x, y) ↦ (y, 2x + 3y) reaches it, and 0 for (0, 0).
walk : ℕ → ℕ → ℕ → ℕ → ℕ → ℕ → ℕ
walk zero t u v x y = 0
walk (suc steps) t u v x y =
    let rest = walk steps (t + 1) v ((2 * u + 3 * v) % 5) x y in
    if u == x then (if v == y then (t + 1) * (t + 2) / 2 % 64 else rest) else rest

rho_offset : ℕ → ℕ → ℕ
rho_offset x y = walk 24 0 1 0 x y

rho : List ℕ → List ℕ
rho a = tabulate (λ x y. rotl64 (lane a x y) (rho_offset x y))

pi_step : List ℕ → List ℕ
pi_step a = tabulate (λ x y. lane a (x + 3 * y) x)

chi_step : List ℕ → List ℕ
chi_step a =
    tabulate (λ x y. bit_xor (lane a x y) (bit_and (not64 (lane a (x + 1) y)) (lane a (x + 2) y)))

iota_step : ℕ → List ℕ → List ℕ
iota_step c a = tabulate (λ x y. if x + y == 0 then bit_xor (lane a x y) c else lane a x y)

round : ℕ → List ℕ → List ℕ
unfolding theta parity rho rho_offset walk pi_step chi_step iota_step
round c a = iota_step c (chi_step (pi_step (rho (theta a))))

-- Step `t` of the linear feedback shift register, whose low bit is rc(t).
lfsr : ℕ → ℕ
lfsr zero = 1
lfsr (suc t) = let r = lfsr t * 2 in if ltb r 256 then r else bit_xor r 0x171

-- Bit 2 ^ j - 1 of the constant of round `i` is rc(j + 7i), for j from 0 to 6.
constant_bits : ℕ → ℕ → ℕ
constant_bits zero i = 0
constant_bits (suc j) i = lfsr (j + 7 * i) % 2 * 2 ^ (2 ^ j - 1) + constant_bits j i

-- `n` rounds from round `i` on.
rounds_from : ℕ → ℕ → List ℕ → List ℕ
rounds_from zero i a = a
rounds_from (suc n) i a = rounds_from n (i + 1) (round (constant_bits 7 i) a)

-- FIPS 202, Keccak-p[1600, 24].
pub keccak_p : List ℕ → List ℕ
keccak_p a = rounds_from 24 0 a

round_lem : (c : ℕ) (a : List ℕ) → keccak_round c a ≡ round c a
unfolding keccak_round round
round_lem c a = refl

constants : ℕ → ℕ → List ℕ
constants zero i = []
constants (suc n) i = constant_bits 7 i ∷ constants n (i + 1)

constants_lem : k_rc ≡ constants 24 0
unfolding constants constant_bits lfsr
constants_lem = refl

rounds_lem : (n i : ℕ) (a : List ℕ) → keccak_rounds (constants n i) a ≡ rounds_from n i a
unfolding keccak_rounds constants rounds_from
rounds_lem zero i a = refl
rounds_lem (suc n) i a =
    rounds_lem n (i + 1) _ ∙ ap (rounds_from n (i + 1)) (round_lem (constant_bits 7 i) a)

-- The permutation with its tables and literal indices is the one of FIPS 202: on every state,
-- theta, rho, pi, chi and iota by their formulas on coordinates, the rotations of the walk from
-- (1, 0), and the round constants of the shift register, for 24 rounds.
pub keccak_f1600-eq-keccak_p : (a : List ℕ) → keccak_f1600 a ≡ keccak_p a
unfolding keccak_f1600 keccak_p
keccak_f1600-eq-keccak_p a =
    ap (λ (cs : List ℕ). keccak_rounds cs a) constants_lem ∙ rounds_lem 24 0 a
