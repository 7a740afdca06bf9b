-- ===== src/Mlkem/Residue.antt =====
-- Residues modulo q turn the integers' sums, differences and products into those of numbers below q.
use rmorie_bricklayer.Prelude.{ℕ, suc, ◌+◌, ◌-◌, ◌*◌, ◌%◌, ◌<◌, ◌≡◌, ap, sym, ◌∙◌, arith}
use rmorie_bricklayer.Prelude.Numbers.{mul-mod-mod, mul-mod_right}
use rmorie_bricklayer.Prelude.Int.{ℤ, pos, negsuc, sub_ℕ, ◌+ℤ◌, ◌-ℤ◌, ◌*ℤ◌}
use rmorie_bricklayer.Mlkem.{q}
use rmorie_bricklayer.Mlkem.Reduce.{residue}

pub residue-lt : (a : ℤ) → residue a < q
unfolding residue
residue-lt (pos n) = omega arith
residue-lt (negsuc n) = omega arith

pub residue-add : (a b : ℤ) → residue (a +ℤ b) ≡ (residue a + residue b) % q
unfolding residue ◌+ℤ◌
residue-add (pos m) (pos n) = ground arith
residue-add (pos m) (negsuc n) = ground arith
residue-add (negsuc m) (pos n) = ground arith
residue-add (negsuc m) (negsuc n) = ground arith

pub residue-sub : (a b : ℤ) → residue (a -ℤ b) ≡ (residue a + (q - residue b)) % q
unfolding residue ◌-ℤ◌
residue-sub (pos m) (pos n) = ground arith
residue-sub (pos m) (negsuc n) = ground arith
residue-sub (negsuc m) (pos n) = ground arith
residue-sub (negsuc m) (negsuc n) = ground arith

opposite : (n : ℕ) → (residue (sub_ℕ 0 n) + n) % q ≡ 0
unfolding residue
opposite n = ground arith

opposite-mul : (x n k : ℕ) → (x + n) % q ≡ 0 → (x * (k % q) % q + n * k) % q ≡ 0
opposite-mul x n k h =
    let e : (x + n) * k % q ≡ 0 =
      sym (mul-mod-mod (x + n) k q) ∙ ap (λ (y : ℕ). y * (k % q) % q) h ∙ omega arith in
    let x_k : x * (k % q) % q ≡ x * k % q = mul-mod_right x k q in omega arith

unique : (x y n : ℕ) → x < q → y < q → (x + n) % q ≡ 0 → (y + n) % q ≡ 0 → x ≡ y
unique x y n hx hy p r = omega arith

-- The residue of a product, for the four pairs of signs.
pub residue-mul : (a b : ℤ) → residue (a *ℤ b) ≡ residue a * residue b % q
unfolding ◌*ℤ◌ residue
residue-mul (pos m) (pos n) = sym (mul-mod-mod m n q)
residue-mul (pos m) (negsuc n) =
    unique _ _ (m * suc n) (residue-lt (sub_ℕ 0 (m * suc n))) (omega arith) (opposite (m * suc n))
      (omega (arith, opposite-mul (residue (negsuc n)) (suc n) m (omega arith)))
residue-mul (negsuc m) (pos n) =
    unique _ _ (suc m * n) (residue-lt (sub_ℕ 0 (suc m * n))) (omega arith) (opposite (suc m * n))
      (opposite-mul (residue (negsuc m)) (suc m) n (omega arith))
residue-mul (negsuc m) (negsuc n) =
    let x = residue (negsuc m) in
    let y = residue (negsuc n) in
    let small : x % q ≡ x = omega (arith, residue-lt (negsuc m)) in
    let a = opposite-mul x (suc m) (suc n) (omega arith) in
    let b = rw small at (opposite-mul y (suc n) x (omega arith)) in
    let c : x * (suc n % q) % q ≡ x * suc n % q = mul-mod_right x (suc n) q in omega arith
