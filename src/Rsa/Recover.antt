-- ===== src/Rsa/Recover.antt =====
-- `C_rmbl_rsa_recover_impl`: its answer on every input, and what a recovered block is.
use native.Mathlib.Nat.{mod-eq_of_lt, mod-lt, mul-le-mul_right, pow-le-pow_right}
use rmorie_bricklayer.Prelude.Numbers.{pow-add}
use rmorie_bricklayer.Prelude.{
  ℕ, suc, ◌+◌, ◌*◌, ◌%◌, ◌^◌, ◌≤◌, ◌<◌, ◌≡◌, ◌⊎◌, refl, ap, sym, ◌∙◌, inl, inr, arith, length, ◌==◌,
  ==_iff, Bool-cases, [], ◌∷◌, List, if◌then◌else◌,
}
use rmorie_bricklayer.Prelude.Bytes.{IsBytes}
use rmorie_bricklayer.Bignum.{Big, Cmp, below, same, above, cmp, bit_length}
use rmorie_bricklayer.Bignum.Value.{val, IsLimbs}
use rmorie_bricklayer.Bignum.Compare.{Says, cmp_lem}
use rmorie_bricklayer.Bignum.BitLength.{HasBits, bit_length_lem}
use rmorie_bricklayer.Rsa.{
  recovered, zero_modulus, not_less, rsa_recover, recover_number, from_bytes, to_bytes, modexp,
  not_below,
}
use rmorie_bricklayer.Rsa.Bytes.{val-from_bytes, from_bytes-IsLimbs}
use rmorie_bricklayer.Rsa.Output.{be_val-to_bytes, length-to_bytes}
use rmorie_bricklayer.Prelude.Bytes.{be_val}
use rmorie_bricklayer.Rsa.Power.{modexp_lem, zero_bits}

be_val-lt : (p : List ℕ) → IsBytes p → be_val p < 2 ^ (8 * length p)
be_val-lt [] h = omega arith
be_val-lt (b ∷ p) h = omega (
  arith,
  be_val-lt p h.1,
  ap (λ (k : ℕ). 2 ^ k) (let e : 8 * suc (length p) ≡ 8 + 8 * length p = omega arith in e),
  pow-add 2 8 (8 * length p),
  mul-le-mul_right (2 ^ (8 * length p)) h.0,
)

module _ (s n e : Big) (hs : IsLimbs s) (hn : IsLimbs n) (he : IsLimbs e) (k : ℕ) where
  -- The answers of `recover_number`, by the numbers.
  recover_number_lem :
      0 < k
      → val n < 2 ^ (8 * k)
      → ((val n ≡ 0) × (recover_number s n e k ≡ zero_modulus))
        ⊎ ((0 < val n) × (val n ≤ val s) × (recover_number s n e k ≡ not_less))
        ⊎ ((val s < val n)
            × ((block : List ℕ) × (recover_number s n e k ≡ recovered block)
                × (length block ≡ k)
                × (be_val block ≡ (if val e == 0 then 1 else val s ^ val e % val n))))
  unfolding recover_number not_below
  recover_number_lem p fits = elim (Bool-cases (bit_length n == 0)) [
    | inl z ↦
        rw z (inl ((==_iff (val n) 0).0 (sym (zero_bits (val n) (bit_length n) bits) ∙ z), refl))
    | inr nz ↦ rw nz (
        inr (
          go (ground (arith, sym (zero_bits (val n) (bit_length n) bits) ∙ nz)) (cmp s n)
            (cmp_lem s n hs hn)))
  ]
    where
      bits : HasBits (val n) (bit_length n)
      bits = bit_length_lem n hn

      out : List ℕ
      out = to_bytes (modexp s e n) k

      power : ℕ
      power = if val e == 0 then 1 else val s ^ val e % val n

      power-lt : 0 < val n → power < 2 ^ (8 * k)
      power-lt pos = elim (Bool-cases (val e == 0)) [
        | inl t ↦ rw t (
            omega (
              arith,
              pow-le-pow_right {n = 2} (omega arith) (let q : 8 ≤ 8 * k = omega arith in q),
            ))
        | inr t ↦ rw t (omega (arith, mod-lt (val s ^ val e) pos))
      ]

      block_val : 0 < val n → be_val out ≡ power
      block_val pos =
          let m = modexp_lem n hn pos s e hs he in
          be_val-to_bytes (modexp s e n) k m.0
          ∙ ap (λ (t : ℕ). t % 2 ^ (8 * k)) m.1
          ∙ mod-eq_of_lt (power-lt pos)

      go :
          0 < val n
          → (c : Cmp) → Says c (val s) (val n)
          → let answer = if not_below c then not_less else recovered out in
            ((0 < val n) × (val n ≤ val s) × (answer ≡ not_less))
            ⊎ ((val s < val n)
                × ((block : List ℕ) × (answer ≡ recovered block)
                    × (length block ≡ k)
                    × (be_val block ≡ power)))
      go pos below h = inr (
        h,
        (
          out,
          refl,
          length-to_bytes (modexp s e n) k (modexp_lem n hn pos s e hs he).0,
          block_val pos,
        ),
      )
      go pos same h = inl (pos, omega arith, refl)
      go pos above h = inl (pos, omega arith, refl)

module _ (sig modulus exponent : List ℕ) (hs : IsBytes sig) (hm : IsBytes modulus)
    (he : IsBytes exponent) where
  -- For arguments of acceptable lengths the outcome depends on the numbers alone: a zero modulus
  -- and a signature that is not less than the modulus are refused; else the block has the length of
  -- the modulus and holds `sig ^ exponent mod modulus` (1 for the exponent 0).
  pub rsa_recover_lem :
      0 < length sig
      → length sig ≡ length modulus
      → length modulus ≤ 1024
      → 0 < length exponent
      → length exponent ≤ 64
      → ((be_val modulus ≡ 0) × (rsa_recover sig modulus exponent ≡ zero_modulus))
        ⊎ ((0 < be_val modulus)
            × (be_val modulus ≤ be_val sig)
            × (rsa_recover sig modulus exponent ≡ not_less))
        ⊎ ((be_val sig < be_val modulus)
            × ((block : List ℕ) × (rsa_recover sig modulus exponent ≡ recovered block)
                × (length block ≡ length modulus)
                × (be_val block ≡ (
                    if be_val exponent == 0
                    then 1
                    else be_val sig ^ be_val exponent % be_val modulus))))
  unfolding rsa_recover
  rsa_recover_lem p q r s t = rw reaches (
      rw (val-from_bytes sig hs, val-from_bytes modulus hm, val-from_bytes exponent he) at
        (recover_number_lem (from_bytes sig) (from_bytes modulus) (from_bytes exponent)
          (from_bytes-IsLimbs sig hs) (from_bytes-IsLimbs modulus hm)
          (from_bytes-IsLimbs exponent he) (length modulus) (omega arith)
          (rw (val-from_bytes modulus hm) (be_val-lt modulus hm))))
    where
      reaches :
          rsa_recover sig modulus exponent
          ≡ recover_number
              (from_bytes sig)
              (from_bytes modulus)
              (from_bytes exponent)
              (length modulus)
      reaches = ground arith
