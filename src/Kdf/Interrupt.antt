-- ===== src/Kdf/Interrupt.antt =====
-- src/rmbl_kdf.cpp: an interrupt of PBKDF2 leaves zeros, never a part of a key.
use rmorie_bricklayer.Prelude.{
  ℕ, zero, suc, ◌+◌, ◌-◌, ◌/◌, ◌^◌, ◌≤◌, bit_and, List, ◌++◌, length, replicate, ◌==◌, ltb, ltb_ge,
  true, arith, &&_false, if◌then◌else◌, Bool, ◌&&◌, Option, none, some, ◌≡◌, ◌⊎◌, inl, inr, refl,
  sym, ap, ◌∙◌, Bool-cases,
}
use rmorie_bricklayer.Prelude.Bytes.{be_bytes}
use rmorie_bricklayer.Mac.{hmac_sha256_raw}
use rmorie_bricklayer.Kdf.{
  xor_bytes, undefined, interrupted, outcome, before, iterate, derive_block, derive_blocks,
  pbkdf2_inner,
}
use rmorie_bricklayer.Kdf.Derive.{never, accepted, IsInt}

module _ (pending : ℕ → ℕ → Bool) (pass : List ℕ) where
  iterate-cases :
      (n i j : ℕ) (u t : List ℕ)
      → (iterate pending pass n i j u t ≡ none)
        ⊎ (iterate pending pass n i j u t ≡ iterate never pass n i j u t)
  unfolding iterate
  iterate-cases zero i j u t = inr refl
  iterate-cases (suc n) i j u t =
      let next : List ℕ = hmac_sha256_raw pass u in
      elim (Bool-cases ((bit_and j 4095 == 0) && pending i j)) [
        | inl stop ↦ inl (rw stop refl)
        | inr more ↦
            rw (more, &&_false (bit_and j 4095 == 0))
              (iterate-cases n i (j + 1) next (xor_bytes t next))
      ]

  joined :
      (n : ℕ) (block block' rest rest' : Option (List ℕ))
      → (block ≡ none) ⊎ (block ≡ block')
      → (rest ≡ none) ⊎ (rest ≡ rest')
      → (before n block rest ≡ none) ⊎ (before n block rest ≡ before n block' rest')
  joined n block block' rest rest' (inl stopped) others = inl (rw stopped refl)
  joined n none block' rest rest' (inr whole) (inl stopped) = inl refl
  joined n (some t) block' rest rest' (inr whole) (inl stopped) = inl (rw stopped refl)
  joined n block block' rest rest' (inr whole) (inr others) = inr (rw (whole, others) refl)

  derive_blocks-cases :
      (salt : List ℕ) (iterations n i left : ℕ)
      → (derive_blocks pending pass salt iterations n i left ≡ none)
        ⊎ (derive_blocks pending pass salt iterations n i left
            ≡ derive_blocks never pass salt iterations n i left)
  unfolding derive_blocks derive_block
  derive_blocks-cases salt iterations zero i left = inr refl
  derive_blocks-cases salt iterations (suc n) i left =
      let u : List ℕ = hmac_sha256_raw pass (salt ++ be_bytes 4 i) in
      joined (if ltb left 32 then left else 32) (derive_block pending pass salt iterations i)
        (derive_block never pass salt iterations i)
        (derive_blocks pending pass salt iterations n (i + 1) (left - 32))
        (derive_blocks never pass salt iterations n (i + 1) (left - 32))
        (iterate-cases (iterations - 1) i 1 u u)
        (derive_blocks-cases salt iterations n (i + 1) (left - 32))

overflowing :
    (pending : ℕ → ℕ → Bool) (pass salt : List ℕ) (iterations dklen : ℕ)
    → 1 ≤ dklen
    → 1 ≤ iterations
    → length salt ≤ 2 ^ 20
    → ltb (2 ^ 31 - 1) (dklen + 32 - 1) ≡ true
    → pbkdf2_inner pending pass salt iterations dklen ≡ undefined
unfolding pbkdf2_inner
overflowing pending pass salt iterations dklen hd hi hs over =
    rw (ltb_ge dklen 1 hd, ltb_ge iterations 1 hi, ltb_ge (2 ^ 20) (length salt) hs, over) refl

-- For a length and a count of at least one and a salt of at most 2 ^ 20 bytes: whenever
-- interrupts are pending, PBKDF2 either reports one, and its output is as many zeros as bytes
-- were asked for, or it returns what it returns without any.
pub pbkdf2_inner-cases :
    (pending : ℕ → ℕ → Bool) (pass salt : List ℕ) (iterations dklen : ℕ)
    → 1 ≤ dklen
    → 1 ≤ iterations
    → length salt ≤ 2 ^ 20
    → (pbkdf2_inner pending pass salt iterations dklen ≡ interrupted (replicate dklen 0))
      ⊎ (pbkdf2_inner pending pass salt iterations dklen
          ≡ pbkdf2_inner never pass salt iterations dklen)
pbkdf2_inner-cases pending pass salt iterations dklen hd hi hs =
    elim (Bool-cases (ltb (2 ^ 31 - 1) (dklen + 32 - 1))) [
      | inl over ↦ inr (
          overflowing pending pass salt iterations dklen hd hi hs over
          ∙ sym (overflowing never pass salt iterations dklen hd hi hs over))
      | inr fits ↦
          let small : IsInt dklen = ground arith in
          let run = accepted pending pass salt iterations dklen hd small hi hs in
          let quiet = accepted never pass salt iterations dklen hd small hi hs in
          elim (derive_blocks-cases pending pass salt iterations ((dklen + 32 - 1) / 32) 1 dklen) [
            | inl stopped ↦ inl (run ∙ ap (outcome dklen) stopped)
            | inr same ↦ inr (run ∙ ap (outcome dklen) same ∙ sym quiet)
          ]
    ]
