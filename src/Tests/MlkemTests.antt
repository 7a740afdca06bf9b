-- ===== src/Tests/MlkemTests.antt =====
-- The ring arithmetic of ML-KEM on small inputs.
use rmorie_bricklayer.Prelude.{
  ℕ, zero, suc, ◌-◌, ◌*◌, ◌/◌, ◌%◌, ◌≡◌, refl, List, [], ◌∷◌, map, length, get_or, arith,
}
use rmorie_bricklayer.Prelude.Int.{ℤ, pos, negsuc, ◌*ℤ◌, Within}
use rmorie_bricklayer.Mlkem.{q, montgomery_reduce, barrett_reduce, div_q, mod_q, to_positive}
use rmorie_bricklayer.Mlkem.Ntt.{zeta, ntt, invntt, poly_basemul}
use rmorie_bricklayer.Mlkem.Reduce.{residue, div_q_lem, montgomery_reduce_lem, barrett_reduce_lem}
use rmorie_bricklayer.Mlkem.Blocks.{AllWithin}
use rmorie_bricklayer.Mlkem.RoundTrip.{fips_ntt, ntt_lem, invntt-ntt}
use rmorie_bricklayer.Mlkem.Product.{multiply_from, poly_basemul_lem}

-- The first factors of the reference code: -1044, -758, -359.
zeta_test : zeta 0 ∷ zeta 1 ∷ zeta 2 ∷ [] ≡ negsuc 1043 ∷ negsuc 757 ∷ negsuc 358 ∷ []
unfolding zeta
zeta_test = refl

barrett_test : barrett_reduce (negsuc 3329) ≡ negsuc 0
unfolding barrett_reduce
barrett_test = refl

to_positive_test : to_positive (negsuc 0) ≡ pos 3328
unfolding to_positive
to_positive_test = refl

-- n coefficients in steps of 13.
ramp : ℕ → List ℤ
ramp zero = []
ramp (suc n) = pos (n * 13 % 3329) ∷ ramp n

length-ramp : (n : ℕ) → length (ramp n) ≡ n
unfolding ramp
length-ramp zero = refl
length-ramp (suc n) = omega (arith, length-ramp n)

ramp-AllWithin : (n : ℕ) → AllWithin 3328 (ramp n)
unfolding ramp
ramp-AllWithin zero = tt
ramp-AllWithin (suc n) = ((omega arith, omega arith), ramp-AllWithin n)

-- The inverse of the transform of the ramp, at one place.
round_trip_test : residue (get_or (invntt (ntt (ramp 256))) 5 (pos 0)) ≡ 250 * 13 * 65536 % 3329
unfolding invntt ntt ramp residue zeta
round_trip_test = refl

div_q_lem_example : (div_q 8388607 ≡ 8388607 / 3329) × (mod_q 8388607 ≡ 8388607 % 3329)
div_q_lem_example = div_q_lem 8388607 (omega arith)

montgomery_reduce_lem_example :
    Within (q - 1) (montgomery_reduce (negsuc 109084670))
    × (residue (montgomery_reduce (negsuc 109084670) *ℤ pos 65536) ≡ residue (negsuc 109084670))
montgomery_reduce_lem_example = montgomery_reduce_lem (negsuc 109084670) (omega arith)

barrett_reduce_lem_example :
    Within 1664 (barrett_reduce (pos 32767))
    × (residue (barrett_reduce (pos 32767)) ≡ residue (pos 32767))
barrett_reduce_lem_example = barrett_reduce_lem (pos 32767) (omega arith)

ntt_lem_example :
    AllWithin 1664 (ntt (ramp 256))
    × (map residue (ntt (ramp 256)) ≡ fips_ntt (map residue (ramp 256)))
ntt_lem_example = ntt_lem (ramp 256) (ramp-AllWithin 256)

invntt-ntt_example :
    AllWithin 3328 (invntt (ntt (ramp 256)))
    × (map residue (invntt (ntt (ramp 256))) ≡ map (λ a. residue a * 65536 % q) (ramp 256))
invntt-ntt_example = invntt-ntt (ramp 256) (length-ramp 256) (ramp-AllWithin 256)

poly_basemul_lem_example :
    AllWithin 6656 (poly_basemul (ramp 256) (ramp 256))
    × (map residue (poly_basemul (ramp 256) (ramp 256))
        ≡ multiply_from 0 (map residue (ramp 256)) (map residue (ramp 256)))
poly_basemul_lem_example =
    poly_basemul_lem (ramp 256) (ramp 256) (length-ramp 256) (length-ramp 256) (ramp-AllWithin 256)
      (ramp-AllWithin 256)
