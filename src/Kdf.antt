-- ===== src/Kdf.antt =====
-- src/rmbl_kdf.cpp: PBKDF2-HMAC-SHA256.
pub mod Derive
pub mod Interrupt
pub mod Entry
pub mod Blake2b
use mathlib.Core.Option
use rmorie_bricklayer.Prelude.{
  ℕ, zero, suc, ◌+◌, ◌-◌, ◌*◌, ◌/◌, ◌^◌, bit_xor, bit_and, List, [], ◌∷◌, ◌++◌, length, take,
  replicate, ◌==◌, ltb, if◌then◌else◌, Bool, true, false, ◌&&◌, ◌||◌, Option, none, some,
}
use rmorie_bricklayer.Prelude.Bytes.{be_bytes}
use rmorie_bricklayer.Mac.{hmac_sha256_raw}

-- `for (k = 0; k < 32; ++k) t[k] ^= u[k]`, of two arrays of one length.
unfoldable pub xor_bytes : List ℕ → List ℕ → List ℕ
xor_bytes [] us = []
xor_bytes (t ∷ ts) [] = t ∷ ts
xor_bytes (t ∷ ts) (u ∷ us) = bit_xor t u ∷ xor_bytes ts us

-- What `pbkdf2_inner` returns, with the output as it leaves it: -1, 1 and 0; or the number of blocks
-- overflows the `int` that it is computed in, which C++ leaves undefined.
pub data Derived : Type 0 where
  refused undefined : Derived
  interrupted : List ℕ → Derived
  derived : List ℕ → Derived

-- An interrupt zeroes the output.
abbrev pub outcome : ℕ → Option (List ℕ) → Derived
outcome dklen none = interrupted (replicate dklen 0)
outcome dklen (some out) = derived out

-- A block's bytes before those of the later blocks.
abbrev pub before : ℕ → Option (List ℕ) → Option (List ℕ) → Option (List ℕ)
before n none rest = none
before n (some t) rest = Option.map (λ (out : List ℕ). take n t ++ out) rest

module _ (interrupt_pending : ℕ → ℕ → Bool) (pass : List ℕ) where
  -- The loop on `j`, for `n` turns: nothing is returned at a pending interrupt, which the
  -- environment
  -- decides at block `i` and turn `j`.
  unfoldable pub iterate : ℕ → ℕ → ℕ → List ℕ → List ℕ → Option (List ℕ)
  iterate zero i j u t = some t
  iterate (suc n) i j u t =
      let next = hmac_sha256_raw pass u in
      let rest = iterate n i (j + 1) next (xor_bytes t next) in
      if (bit_and j 4095 == 0) && interrupt_pending i j then none else rest

  unfoldable pub derive_block : List ℕ → ℕ → ℕ → Option (List ℕ)
  derive_block salt iterations i =
      let u = hmac_sha256_raw pass (salt ++ be_bytes 4 i) in iterate (iterations - 1) i 1 u u

  -- The loop on `i`, for `n` blocks; `left` is `dklen - off`.
  unfoldable pub derive_blocks : List ℕ → ℕ → ℕ → ℕ → ℕ → Option (List ℕ)
  derive_blocks salt iterations zero i left = some []
  derive_blocks salt iterations (suc n) i left =
      let rest = derive_blocks salt iterations n (i + 1) (left - 32) in
      before (if ltb left 32 then left else 32) (derive_block salt iterations i) rest

  unfoldable pub pbkdf2_inner : List ℕ → ℕ → ℕ → Derived
  pbkdf2_inner salt iterations dklen =
      if ltb dklen 1 || ltb iterations 1
      then refused
      else if ltb (2 ^ 20) (length salt)
      then refused
      else if ltb (2 ^ 31 - 1) (dklen + 32 - 1)
      then undefined
      else outcome dklen (derive_blocks salt iterations ((dklen + 32 - 1) / 32) 1 dklen)
