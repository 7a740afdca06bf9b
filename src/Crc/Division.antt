-- ===== src/Crc/Division.antt =====
-- src/rmbl_digest.cpp: the table-driven CRC-32 against the division of the message's polynomial.
use native.Mathlib.Nat.{pow-suc, pow-zero, mul-one}
use rmorie_bricklayer.Prelude.{
  ℕ, zero, suc, ◌+◌, ◌-◌, ◌*◌, ◌/◌, ◌%◌, ◌^◌, ◌<◌, bit_and, bit_xor, List, [], ◌∷◌, get_or, length,
  if◌then◌else◌, ◌==◌, ◌≡◌, refl, sym, ap, ◌∙◌, arith, Bool-cases, inl, inr,
}
use rmorie_bricklayer.Prelude.Bits.{
  bit_and_mask, bit_xor_assoc, bit_xor_comm, bit_xor_fields, bit_xor-zero, bit_xor_step,
  bit_xor-half, bit_xor_above, bit_xor_split,
}
use rmorie_bricklayer.Prelude.Bytes.{IsBytes}
use rmorie_bricklayer.Crc.{crc_step, crc_steps, crc32_entries, crc32_table, crc32_loop, rmbl_crc32}

-- The polynomial x^32 + x^26 + ... + 1. The coefficient of the highest power is the lowest bit, as in
-- the bytes of the message, which come with their lowest bit first.
abbrev exponents : List ℕ
exponents = 32 ∷ 26 ∷ 23 ∷ 22 ∷ 16 ∷ 12 ∷ 11 ∷ 10 ∷ 8 ∷ 7 ∷ 5 ∷ 4 ∷ 2 ∷ 1 ∷ 0 ∷ []

unfoldable pub polynomial : List ℕ → ℕ
polynomial [] = 0
polynomial (e ∷ es) = 2 ^ (32 - e) + polynomial es

abbrev pub divisor : ℕ
divisor = polynomial exponents

-- Long division of polynomials over GF(2): where the leading coefficient is one, the divisor is taken
-- away; then the next coefficient leads. What is left after a turn for each coefficient of the
-- dividend but the last 32 is the remainder.
unfoldable pub long_division : ℕ → ℕ → ℕ
long_division zero d = d
long_division (suc n) d = long_division n (if d % 2 == 1 then bit_xor d divisor / 2 else d / 2)

-- The polynomial of a message.
unfoldable pub dividend : List ℕ → ℕ
dividend [] = 0
dividend (b ∷ bytes) = b + 2 ^ 8 * dividend bytes

bit_xor-high : (low high : ℕ) → bit_xor low (high * 2) % 2 ≡ low % 2
bit_xor-high low high = omega (arith, bit_xor_step low (high * 2))

bit_xor_halved : (low high : ℕ) → bit_xor low (high * 2) / 2 ≡ bit_xor (low / 2) high
bit_xor_halved low high =
    bit_xor-half low (high * 2)
    ∙ ap (bit_xor (low / 2)) (let e : high * 2 / 2 ≡ high = omega arith in e)

-- Bits above the one that is divided by are shifted down and no more.
crc_step-shift : (low high : ℕ) → crc_step (bit_xor low (high * 2)) ≡ bit_xor (crc_step low) high
unfolding crc_step
crc_step-shift low high =
    let mask_whole : bit_and (bit_xor low (high * 2)) 1 ≡ low % 2 =
      bit_and_mask 1 (bit_xor low (high * 2)) ∙ bit_xor-high low high in
    let mask_low : bit_and low 1 ≡ low % 2 = bit_and_mask 1 low in
    let halved = bit_xor_halved low high in
    rw (mask_whole, mask_low, halved)
      elim (Bool-cases (low % 2 == 1)) [
        | inl one ↦ rw one (sym (bit_xor_assoc 0xEDB88320 (low / 2) high))
        | inr other ↦ rw other refl
      ]

crc_steps-shift :
    (n low high : ℕ) → crc_steps n (bit_xor low (high * 2 ^ n)) ≡ bit_xor (crc_steps n low) high
unfolding crc_steps
crc_steps-shift zero low high = rw (pow-zero, mul-one high) refl
crc_steps-shift (suc n) low high =
    let weight : high * 2 ^ suc n ≡ high * 2 ^ n * 2 =
      omega (arith, ap (λ (t : ℕ). high * t) (pow-suc 2 n)) in
    rw (weight, crc_step-shift low (high * 2 ^ n)) (crc_steps-shift n (crc_step low) high)

entry : (n i j : ℕ) → j < n → get_or (crc32_entries n i) j 0 ≡ crc_steps 8 (i + j)
unfolding crc32_entries
entry zero i j h = absurd (omega arith)
entry (suc n) i zero h = ap (crc_steps 8) (omega arith)
entry (suc n) i (suc j) h = entry n (i + 1) j (omega arith) ∙ ap (crc_steps 8) (omega arith)

-- One byte by the table.
table_step :
    (c b : ℕ)
    → b < 2 ^ 8
    → bit_xor (get_or crc32_table (bit_and (bit_xor c b) 0xff) 0) (c / 2 ^ 8)
      ≡ crc_steps 8 (bit_xor c b)
unfolding crc32_table
table_step c b h =
    let x : ℕ = bit_xor c b in
    let mask : bit_and x 0xff ≡ x % 2 ^ 8 = bit_and_mask 8 x in
    let looked : get_or crc32_table (bit_and x 0xff) 0 ≡ crc_steps 8 (x % 2 ^ 8) =
      ap (λ (j : ℕ). get_or crc32_table j 0) mask
      ∙ entry 256 0 (x % 2 ^ 8) (omega arith)
      ∙ ap (crc_steps 8) (let e : 0 + x % 2 ^ 8 ≡ x % 2 ^ 8 = omega arith in e) in
    let above : c / 2 ^ 8 ≡ x / 2 ^ 8 = sym (bit_xor_above c b h) in
    let whole : bit_xor (x % 2 ^ 8) (x / 2 ^ 8 * 2 ^ 8) ≡ x = bit_xor_split 8 x in
    rw (looked, above) (sym (crc_steps-shift 8 (x % 2 ^ 8) (x / 2 ^ 8)) ∙ ap (crc_steps 8) whole)

-- A turn of the division is a round of the table's loop.
divisor_lem : (d : ℕ) → bit_xor d divisor / 2 ≡ bit_xor 0xEDB88320 (d / 2)
unfolding polynomial
divisor_lem d = bit_xor-half d divisor ∙ bit_xor_comm (d / 2) 0xEDB88320

long_division-crc_steps : (n d : ℕ) → long_division n d ≡ crc_steps n d
unfolding long_division crc_steps crc_step
long_division-crc_steps zero d = refl
long_division-crc_steps (suc n) d =
    let mask : bit_and d 1 ≡ d % 2 = bit_and_mask 1 d in
    rw mask elim (Bool-cases (d % 2 == 1)) [
      | inl one ↦ rw (one, divisor_lem d) (long_division-crc_steps n (bit_xor 0xEDB88320 (d / 2)))
      | inr other ↦ rw other (long_division-crc_steps n (d / 2))
    ]

crc_steps-add : (n m c : ℕ) → crc_steps (n + m) c ≡ crc_steps m (crc_steps n c)
unfolding crc_steps
crc_steps-add zero m c = let e : 0 + m ≡ m = omega arith in rw e refl
crc_steps-add (suc n) m c =
    let e : suc n + m ≡ suc (n + m) = omega arith in rw e (crc_steps-add n m (crc_step c))

-- The bits of a byte are divided, and then those after it.
byte_step :
    (c b rest : ℕ)
    → b < 2 ^ 8
    → crc_steps 8 (bit_xor c (b + 2 ^ 8 * rest)) ≡ bit_xor (crc_steps 8 (bit_xor c b)) rest
byte_step c b rest h =
    let fields : b + 2 ^ 8 * rest ≡ bit_xor b (rest * 2 ^ 8) =
      omega (arith, bit_xor_fields 8 rest b h) ∙ bit_xor_comm (rest * 2 ^ 8) b in
    ap (λ (v : ℕ). crc_steps 8 (bit_xor c v)) fields
    ∙ ap (crc_steps 8) (sym (bit_xor_assoc c b (rest * 2 ^ 8)))
    ∙ crc_steps-shift 8 (bit_xor c b) rest

loop :
    (c : ℕ) (bytes : List ℕ)
    → IsBytes bytes
    → crc32_loop c bytes ≡ crc_steps (8 * length bytes) (bit_xor c (dividend bytes))
unfolding crc32_loop dividend crc_steps
loop c [] h = sym (bit_xor-zero c)
loop c (b ∷ bytes) (hb, h) =
    let count : 8 * length (b ∷ bytes) ≡ 8 + 8 * length bytes = omega arith in
    let d : ℕ = bit_xor c (b + 2 ^ 8 * dividend bytes) in
    rw (table_step c b hb) (loop (crc_steps 8 (bit_xor c b)) bytes h)
    ∙ ap (crc_steps (8 * length bytes)) (sym (byte_step c b (dividend bytes) hb))
    ∙ sym (crc_steps-add 8 (8 * length bytes) d)
    ∙ ap (λ (k : ℕ). crc_steps k d) (sym count)

-- The table-driven CRC-32 of any bytes is, with all bits flipped, the remainder of the long division
-- by x^32 + x^26 + ... + 1 of their polynomial, whose first 32 coefficients are flipped and which 32
-- zeros follow.
pub rmbl_crc32_lem :
    (bytes : List ℕ)
    → IsBytes bytes
    → rmbl_crc32 bytes
      ≡ bit_xor (long_division (8 * length bytes) (bit_xor 0xFFFFFFFF (dividend bytes))) 0xFFFFFFFF
unfolding rmbl_crc32
rmbl_crc32_lem bytes h =
    ap (λ (c : ℕ). bit_xor c 0xFFFFFFFF)
      (loop 0xFFFFFFFF bytes h
        ∙ sym (long_division-crc_steps (8 * length bytes) (bit_xor 0xFFFFFFFF (dividend bytes))))
