-- ===== src/Kdf/Derive.antt =====
-- src/rmbl_kdf.cpp: PBKDF2 against RFC 8018 (5.2), and what an interrupt leaves.
use rmorie_bricklayer.Prelude.{
  ℕ, zero, suc, ◌+◌, ◌-◌, ◌*◌, ◌/◌, ◌^◌, ◌<◌, ◌≤◌, bit_and, bit_xor, List, [], ◌∷◌, ◌++◌, length,
  get_or, ◌==◌, ltb_ge, &&_false, Bool, false, some, ◌≡◌, refl, ap, ◌∙◌, arith,
}
use rmorie_bricklayer.Prelude.Bytes.{be_bytes}
use rmorie_bricklayer.Prelude.Chunks.{spread, length-spread, get_or-spread, take_cut}
use rmorie_bricklayer.Mac.{hmac_sha256_raw}
use rmorie_bricklayer.Mac.Hmac.{length-hmac_sha256_raw}
use rmorie_bricklayer.Kdf.{
  xor_bytes, derived, outcome, iterate, derive_block, derive_blocks, pbkdf2_inner,
}

-- The environment in which no interrupt is ever pending.
abbrev pub never : ℕ → ℕ → Bool
never i j = false

-- No `int` overflows.
abbrev pub IsInt : ℕ → Type 0
IsInt dklen = dklen + 31 < 2 ^ 31

-- `U_{j + 1}` of block `i`.
unfoldable pub prf_chain : List ℕ → List ℕ → ℕ → ℕ → List ℕ
prf_chain pass salt i zero = hmac_sha256_raw pass (salt ++ be_bytes 4 i)
prf_chain pass salt i (suc j) = hmac_sha256_raw pass (prf_chain pass salt i j)

-- Byte `r` of the exclusive or of the first `j + 1` of them.
unfoldable pub rfc_byte : List ℕ → List ℕ → ℕ → ℕ → ℕ → ℕ
rfc_byte pass salt i r zero = get_or (prf_chain pass salt i zero) r 0
rfc_byte pass salt i r (suc j) =
    bit_xor (rfc_byte pass salt i r j) (get_or (prf_chain pass salt i (suc j)) r 0)

-- Their sum as the loop makes it.
unfoldable pub chain_sum : List ℕ → List ℕ → ℕ → ℕ → List ℕ
chain_sum pass salt i zero = prf_chain pass salt i zero
chain_sum pass salt i (suc j) = xor_bytes (chain_sum pass salt i j) (prf_chain pass salt i (suc j))

length-xor_bytes : (t u : List ℕ) → length (xor_bytes t u) ≡ length t
unfolding xor_bytes
length-xor_bytes [] u = refl
length-xor_bytes (t ∷ ts) [] = refl
length-xor_bytes (t ∷ ts) (u ∷ us) = ap suc (length-xor_bytes ts us)

length-chain_sum : (pass salt : List ℕ) (j i : ℕ) → length (chain_sum pass salt i j) ≡ 32
unfolding chain_sum prf_chain
length-chain_sum pass salt zero i = length-hmac_sha256_raw pass (salt ++ be_bytes 4 i)
length-chain_sum pass salt (suc j) i =
    length-xor_bytes (chain_sum pass salt i j) (prf_chain pass salt i (suc j))
    ∙ length-chain_sum pass salt j i

get_or-xor_bytes :
    (t u : List ℕ) (r : ℕ)
    → r < length t
    → r < length u
    → get_or (xor_bytes t u) r 0 ≡ bit_xor (get_or t r 0) (get_or u r 0)
unfolding xor_bytes
get_or-xor_bytes [] u r ht hu = absurd (omega arith)
get_or-xor_bytes (t ∷ ts) [] r ht hu = absurd (omega arith)
get_or-xor_bytes (t ∷ ts) (u ∷ us) zero ht hu = refl
get_or-xor_bytes (t ∷ ts) (u ∷ us) (suc r) ht hu =
    get_or-xor_bytes ts us r (omega arith) (omega arith)

get_or-chain_sum :
    (pass salt : List ℕ) (i r j : ℕ)
    → r < 32
    → get_or (chain_sum pass salt i j) r 0 ≡ rfc_byte pass salt i r j
unfolding chain_sum prf_chain rfc_byte
get_or-chain_sum pass salt i r zero h = refl
get_or-chain_sum pass salt i r (suc j) h =
    let next : List ℕ = hmac_sha256_raw pass (prf_chain pass salt i j) in
    get_or-xor_bytes (chain_sum pass salt i j) next r
      (omega (arith, length-chain_sum pass salt j i))
      (omega (arith, length-hmac_sha256_raw pass (prf_chain pass salt i j)))
    ∙ ap (λ (v : ℕ). bit_xor v (get_or next r 0)) (get_or-chain_sum pass salt i r j h)

module _ (pass salt : List ℕ) where
  iterate-chain_sum :
      (n i j k : ℕ)
      → iterate never pass n i j (prf_chain pass salt i k) (chain_sum pass salt i k)
        ≡ some (chain_sum pass salt i (k + n))
  unfolding iterate prf_chain chain_sum
  iterate-chain_sum zero i j k = let none_left : k + 0 ≡ k = omega arith in rw none_left refl
  iterate-chain_sum (suc n) i j k =
      let shift : k + suc n ≡ suc k + n = omega arith in
      rw (shift, &&_false (bit_and j 4095 == 0)) (iterate-chain_sum n i (j + 1) (suc k))

  derive_block-chain_sum :
      (iterations i : ℕ)
      → derive_block never pass salt iterations i ≡ some (chain_sum pass salt i (iterations - 1))
  unfolding derive_block prf_chain chain_sum
  derive_block-chain_sum iterations i =
      let first : 0 + (iterations - 1) ≡ iterations - 1 = omega arith in
      iterate-chain_sum (iterations - 1) i 1 0
      ∙ ap (λ (j : ℕ). some (chain_sum pass salt i j)) first

  derive_blocks-spread :
      (iterations n i left : ℕ)
      → derive_blocks never pass salt iterations n i left
        ≡ some (
            spread
              (λ (b : ℕ). chain_sum pass salt b (iterations - 1))
              32
              (length-chain_sum pass salt (iterations - 1))
              n
              i
              left)
  unfolding derive_blocks spread
  derive_blocks-spread iterations zero i left = refl
  derive_blocks-spread iterations (suc n) i left =
      let t : List ℕ = chain_sum pass salt i (iterations - 1) in
      rw
        (
          derive_block-chain_sum iterations i,
          derive_blocks-spread iterations n (i + 1) (left - 32),
          take_cut 32 left t (length-chain_sum pass salt (iterations - 1) i),
        )
        refl

pub accepted :
    (pending : ℕ → ℕ → Bool) (pass salt : List ℕ) (iterations dklen : ℕ)
    → 1 ≤ dklen
    → IsInt dklen
    → 1 ≤ iterations
    → length salt ≤ 2 ^ 20
    → pbkdf2_inner pending pass salt iterations dklen
      ≡ outcome dklen (derive_blocks pending pass salt iterations ((dklen + 32 - 1) / 32) 1 dklen)
unfolding pbkdf2_inner
accepted pending pass salt iterations dklen hd hu hi hs =
    rw
      (
        ltb_ge dklen 1 hd,
        ltb_ge iterations 1 hi,
        ltb_ge (2 ^ 20) (length salt) hs,
        ltb_ge (2 ^ 31 - 1) (dklen + 32 - 1) (omega arith),
      )
      refl

-- For a length of at least one that does not overflow (up to 2 ^ 31 - 32), a count of at least one, a
-- salt of at most 2 ^ 20 bytes and a place `r` of
-- block `q` within the length, and without an interrupt: a key of that length is derived, and its
-- byte at the place is byte `r` of the exclusive or of as many chained HMACs as iterations, the
-- first one of the salt and the number `1 + q`.
pub pbkdf2_inner_lem :
    (pass salt : List ℕ) (iterations dklen q r : ℕ)
    → 1 ≤ dklen
    → IsInt dklen
    → 1 ≤ iterations
    → length salt ≤ 2 ^ 20
    → r < 32
    → q * 32 + r < dklen
    → (dk : List ℕ) × (pbkdf2_inner never pass salt iterations dklen ≡ derived dk)
      × (length dk ≡ dklen)
      × (get_or dk (q * 32 + r) 0 ≡ rfc_byte pass salt (1 + q) r (iterations - 1))
pbkdf2_inner_lem pass salt iterations dklen q r hd hu hi hs hr inside =
    let n : ℕ = (dklen + 32 - 1) / 32 in
    let block : ℕ → List ℕ = λ b. chain_sum pass salt b (iterations - 1) in
    let whole = length-chain_sum pass salt (iterations - 1) in
    let room : dklen ≤ n * 32 = omega arith in
    (
      spread block 32 whole n 1 dklen,
      accepted never pass salt iterations dklen hd hu hi hs
          ∙ ap (outcome dklen) (derive_blocks-spread pass salt iterations n 1 dklen),
      length-spread block 32 whole n 1 dklen room,
      get_or-spread block 32 whole n 1 dklen q r room hr inside
          ∙ get_or-chain_sum pass salt (1 + q) r (iterations - 1) hr,
    )
