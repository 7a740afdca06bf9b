-- ===== src/Mlkem/Layers.antt =====
-- The layers of the transforms on numbers below q: a layer backward doubles what the layer forward
-- was given.
use rmorie_bricklayer.Prelude.{
  ℕ, zero, suc, ◌+◌, ◌-◌, ◌*◌, ◌%◌, ◌<◌, ◌≡◌, refl, ap, sym, ◌∙◌, List, [], ◌∷◌, ◌++◌, map, arith,
  length, take, drop,
}
use mathlib.Core.Path.{ap₂}
use rmorie_bricklayer.Prelude.Numbers.{mul-mod_left, mul-mod_right}
use rmorie_bricklayer.Mlkem.{q}
use rmorie_bricklayer.Mlkem.Field.{zeta_q}
use rmorie_bricklayer.Mlkem.Blocks.{forward, backward}

unfoldable pub forward_layer : ℕ → ℕ → ℕ → List ℕ → List ℕ
unfolding forward zeta_q
forward_layer zero len k r = r
forward_layer (suc blocks) len k r =
    let (lo, hi) = forward (zeta_q k) (take len r) (take len (drop len r)) in
    lo ++ (hi ++ forward_layer blocks len (k + 1) (drop len (drop len r)))

unfoldable pub backward_layer : ℕ → ℕ → ℕ → List ℕ → List ℕ
unfolding backward zeta_q
backward_layer zero len k r = r
backward_layer (suc blocks) len k r =
    let (lo, hi) = backward (zeta_q k) (take len r) (take len (drop len r)) in
    lo ++ (hi ++ backward_layer blocks len (k - 1) (drop len (drop len r)))

abbrev pub AllBelow : List ℕ → Type 0
AllBelow [] = Unit
AllBelow (x ∷ xs) = (x < q) × AllBelow xs

abbrev pub double : ℕ → ℕ
double x = 2 * x % q

pub AllBelow-append : (xs ys : List ℕ) → AllBelow xs → AllBelow ys → AllBelow (xs ++ ys)
AllBelow-append [] ys h k = k
AllBelow-append (x ∷ xs) ys (hx, h) k = (hx, AllBelow-append xs ys h k)

pub AllBelow-take : (n : ℕ) (xs : List ℕ) → AllBelow xs → AllBelow (take n xs)
AllBelow-take zero xs h = tt
AllBelow-take (suc n) [] h = tt
AllBelow-take (suc n) (x ∷ xs) (hx, h) = (hx, AllBelow-take n xs h)

pub AllBelow-drop : (n : ℕ) (xs : List ℕ) → AllBelow xs → AllBelow (drop n xs)
AllBelow-drop zero xs h = h
AllBelow-drop (suc n) [] h = tt
AllBelow-drop (suc n) (x ∷ xs) (hx, h) = AllBelow-drop n xs h

pub double-AllBelow : (xs : List ℕ) → AllBelow (map double xs)
double-AllBelow [] = tt
double-AllBelow (x ∷ xs) = (omega arith, double-AllBelow xs)

cons_eq : (x y : ℕ) (xs ys : List ℕ) → x ≡ y → xs ≡ ys → x ∷ xs ≡ y ∷ ys
cons_eq x y xs ys e f = ap₂ (λ (a : ℕ) (s : List ℕ). a ∷ s) e f

-- One pair there and back, for factors whose product is -1.
pair_back :
    (z z' x y : ℕ)
    → (z * z' + 1) % q ≡ 0
    → x < q
    → y < q
    → (((x + z * y % q) % q + (x + (q - z * y % q)) % q) % q ≡ double x)
      × (z' * (((x + (q - z * y % q)) % q + (q - (x + z * y % q) % q)) % q) % q ≡ double y)
pair_back z z' x y h hx hy =
    let t : ℕ = z * y % q in
    let d : ℕ = ((x + (q - t)) % q + (q - (x + t) % q)) % q in
    let less : t < q = omega arith in
    let d_t : (d + 2 * t) % q ≡ 0 = omega arith in
    let zero_d : z' * (d + 2 * t) % q ≡ 0 =
      sym (mul-mod_right z' (d + 2 * t) q) ∙ ap (λ (r : ℕ). z' * r % q) d_t ∙ omega arith in
    let z_t : z' * t % q ≡ z' * (z * y) % q = mul-mod_right z' (z * y) q in
    let minus : (z * z' + 1) * y % q ≡ 0 =
      sym (mul-mod_left (z * z' + 1) y q) ∙ ap (λ (r : ℕ). r * y % q) h ∙ omega arith in
    (omega arith, omega arith)

pub block_back :
    (z z' : ℕ) (lo hi : List ℕ)
    → (z * z' + 1) % q ≡ 0
    → length lo ≡ length hi
    → AllBelow lo
    → AllBelow hi
    → ((backward z' (forward z lo hi).0 (forward z lo hi).1).0 ≡ map double lo)
      × ((backward z' (forward z lo hi).0 (forward z lo hi).1).1 ≡ map double hi)
unfolding forward backward
block_back z z' [] [] h l hl hh = (refl, refl)
block_back z z' [] (y ∷ hi) h l hl hh = absurd (omega arith)
block_back z z' (x ∷ lo) [] h l hl hh = absurd (omega arith)
block_back z z' (x ∷ lo) (y ∷ hi) h l (hx, hl) (hy, hh) =
    let (el, eh) = block_back z z' lo hi h (omega arith) hl hh in
    let (ex, ey) = pair_back z z' x y h hx hy in (cons_eq _ _ _ _ ex el, cons_eq _ _ _ _ ey eh)

-- A block backward commutes with doubling.
pair_double :
    (z x y : ℕ)
    → x < q
    → y < q
    → ((double x + double y) % q ≡ double ((x + y) % q))
      × (z * ((double y + (q - double x)) % q) % q ≡ double (z * ((y + (q - x)) % q) % q))
pair_double z x y hx hy =
    let d : ℕ = (y + (q - x)) % q in
    let e : (double y + (q - double x)) % q ≡ 2 * d % q = omega arith in
    let f = mul-mod_right z (2 * d) q in
    (omega arith, ap (λ (r : ℕ). z * r % q) e ∙ f ∙ omega arith)

pub block_double :
    (z : ℕ) (lo hi : List ℕ)
    → AllBelow lo
    → AllBelow hi
    → ((backward z (map double lo) (map double hi)).0 ≡ map double (backward z lo hi).0)
      × ((backward z (map double lo) (map double hi)).1 ≡ map double (backward z lo hi).1)
unfolding backward
block_double z [] hi hl hh = (refl, refl)
block_double z (x ∷ lo) [] hl hh = (refl, refl)
block_double z (x ∷ lo) (y ∷ hi) (hx, hl) (hy, hh) =
    let (el, eh) = block_double z lo hi hl hh in
    let (ex, ey) = pair_double z x y hx hy in (cons_eq _ _ _ _ ex el, cons_eq _ _ _ _ ey eh)
