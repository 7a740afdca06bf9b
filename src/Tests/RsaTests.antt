-- ===== src/Tests/RsaTests.antt =====
-- rmbl_bignum.h and rmbl_asn1.cpp, the RSA half: 4 ^ 13 mod 497 is 445.
use rmorie_bricklayer.Prelude.{
  ℕ, ◌^◌, ◌%◌, ◌≤◌, ◌<◌, ◌≡◌, ◌⊎◌, refl, List, [], ◌∷◌, arith, length, if◌then◌else◌, ◌==◌,
}
use rmorie_bricklayer.Bignum.{Big}
use rmorie_bricklayer.Bignum.Value.{val, IsLimbs}
use rmorie_bricklayer.Rsa.{modexp, rsa_recover, recovered, zero_modulus, not_less}
use rmorie_bricklayer.Rsa.Power
use rmorie_bricklayer.Rsa.Recover
use rmorie_bricklayer.Prelude.Bytes.{be_val}

abbrev wide : Big
wide = 0xffff_ffff ∷ 7 ∷ []

abbrev narrow : Big
narrow = 497 ∷ []

modexp_lem_example :
    IsLimbs (modexp wide (13 ∷ []) narrow)
    × (val (modexp wide (13 ∷ []) narrow)
        ≡ (if val (13 ∷ []) == 0 then 1 else val wide ^ val (13 ∷ []) % val narrow))
modexp_lem_example =
    Power.modexp_lem narrow (omega arith) (omega arith) wide (13 ∷ []) (omega arith) (omega arith)

abbrev modulus : List ℕ
modulus = 1 ∷ 0xf1 ∷ []

abbrev signature : List ℕ
signature = 0 ∷ 4 ∷ []

abbrev exponent : List ℕ
exponent = 13 ∷ []

rsa_recover_lem_example :
    ((be_val modulus ≡ 0) × (rsa_recover signature modulus exponent ≡ zero_modulus))
    ⊎ ((0 < be_val modulus)
        × (be_val modulus ≤ be_val signature)
        × (rsa_recover signature modulus exponent ≡ not_less))
    ⊎ ((be_val signature < be_val modulus)
        × ((block : List ℕ) × (rsa_recover signature modulus exponent ≡ recovered block)
            × (length block ≡ length modulus)
            × (be_val block ≡ (
                if be_val exponent == 0
                then 1
                else be_val signature ^ be_val exponent % be_val modulus))))
rsa_recover_lem_example =
    Recover.rsa_recover_lem signature modulus exponent (omega arith) (omega arith) (omega arith)
      (omega arith) refl (omega arith) (omega arith) (omega arith)
