-- ===== src/Mlkem/Inverse.antt =====
-- Whole layers backward and forward, for the factors of FIPS 203.
use rmorie_bricklayer.Prelude.{
  ℕ, zero, suc, ◌+◌, ◌-◌, ◌*◌, ◌%◌, ◌<◌, ◌≡◌, refl, ap, sym, ◌∙◌, List, [], ◌∷◌, ◌++◌, map, arith,
  length, length-append, length-take, length-drop, take, drop, drop-append, take-append_le,
  take_all, take-append-drop, length-map,
}
use mathlib.Core.Path.{ap₂}
use mathlib.Core.List.{map-append}
use rmorie_bricklayer.Mlkem.{q}
use rmorie_bricklayer.Mlkem.Field.{zeta_q}
use rmorie_bricklayer.Mlkem.Blocks.{forward, backward}
use rmorie_bricklayer.Mlkem.Layers.{
  forward_layer, backward_layer, AllBelow, AllBelow-append, double, block_back, block_double,
}

forward_sizes :
    (z : ℕ) (lo hi : List ℕ)
    → (length (forward z lo hi).0 ≡ length lo) × (length (forward z lo hi).1 ≡ length hi)
unfolding forward
forward_sizes z [] hi = (refl, refl)
forward_sizes z (x ∷ lo) [] = (refl, refl)
forward_sizes z (x ∷ lo) (y ∷ hi) = let (a, b) = forward_sizes z lo hi in (omega arith, omega arith)

forward_below :
    (z : ℕ) (lo hi : List ℕ)
    → AllBelow lo
    → AllBelow hi
    → AllBelow (forward z lo hi).0 × AllBelow (forward z lo hi).1
unfolding forward
forward_below z [] hi hl hh = (tt, hh)
forward_below z (x ∷ lo) [] hl hh = (hl, tt)
forward_below z (x ∷ lo) (y ∷ hi) (hx, hl) (hy, hh) =
    let (a, b) = forward_below z lo hi hl hh in ((omega arith, a), (omega arith, b))

-- A list of whole blocks starts with the two halves of one.
abbrev Halves : ℕ → ℕ → List ℕ → Type 0
Halves blocks len r =
    (lo : List ℕ) × (hi : List ℕ) × (rest : List ℕ) × (r ≡ lo ++ (hi ++ rest))
    × (length lo ≡ len)
    × (length hi ≡ len)
    × (length rest ≡ blocks * (2 * len))

halves : (blocks len : ℕ) (r : List ℕ) → length r ≡ suc blocks * (2 * len) → Halves blocks len r
halves blocks len r h =
    let u = drop len r in
    (
      take len r,
      take len u,
      drop len u,
      sym (ap (λ (s : List ℕ). take len r ++ s) (take-append-drop len u) ∙ take-append-drop len r),
      ground (arith, length-take len r),
      ground (arith, length-take len u, length-drop len r),
      omega (arith, length-drop len u, length-drop len r),
    )

take_exact : (n : ℕ) (xs ys : List ℕ) → length xs ≡ n → take n (xs ++ ys) ≡ xs
take_exact n xs ys h = take-append_le n xs ys (omega arith) ∙ take_all n xs (omega arith)

-- What a layer does with a block.
module _ (blocks len k : ℕ) (lo hi rest : List ℕ) (el : length lo ≡ len)
    (eh : length hi ≡ len) where
  abbrev whole : List ℕ
  whole = lo ++ (hi ++ rest)

  first : take len whole ≡ lo
  first = take_exact len lo (hi ++ rest) el

  after : drop len whole ≡ hi ++ rest
  after = drop-append len lo (hi ++ rest) el

  second : take len (drop len whole) ≡ hi
  second = ap (take len) after ∙ take_exact len hi rest eh

  third : drop len (drop len whole) ≡ rest
  third = ap (drop len) after ∙ drop-append len hi rest eh

  forward_step :
      forward_layer (suc blocks) len k whole
      ≡ (forward (zeta_q k) lo hi).0
        ++ ((forward (zeta_q k) lo hi).1 ++ forward_layer blocks len (k + 1) rest)
  unfolding forward_layer
  forward_step = λ i.
      (forward (zeta_q k) (first i) (second i)).0
      ++ ((forward (zeta_q k) (first i) (second i)).1 ++ forward_layer blocks len (k + 1) (third i))

  backward_step :
      backward_layer (suc blocks) len k whole
      ≡ (backward (zeta_q k) lo hi).0
        ++ ((backward (zeta_q k) lo hi).1 ++ backward_layer blocks len (k - 1) rest)
  unfolding backward_layer
  backward_step = λ i.
      (backward (zeta_q k) (first i) (second i)).0
      ++ ((backward (zeta_q k) (first i) (second i)).1
          ++ backward_layer blocks len (k - 1) (third i))

pub append_cong :
    (a a' b b' c c' : List ℕ) → a ≡ a' → b ≡ b' → c ≡ c' → a ++ (b ++ c) ≡ a' ++ (b' ++ c')
append_cong a a' b b' c c' p e s = λ i. p i ++ (e i ++ s i)

map_three :
    (lo hi rest : List ℕ)
    → map double (lo ++ (hi ++ rest)) ≡ map double lo ++ (map double hi ++ map double rest)
map_three lo hi rest = simp (map-append)

-- The factors of a layer forward and backward have the products -1.
abbrev pub Paired : ℕ → ℕ → ℕ → Type 0
Paired blocks k k' = (i : ℕ) → i < blocks → (zeta_q (k + i) * zeta_q (k' - i) + 1) % q ≡ 0

first_pair : (blocks k k' : ℕ) → Paired (suc blocks) k k' → (zeta_q k * zeta_q k' + 1) % q ≡ 0
first_pair blocks k k' pairs =
    ap₂ (λ (a b : ℕ). (zeta_q a * zeta_q b + 1) % q) (omega arith) (omega arith)
    ∙ pairs 0 (omega arith)

later_pairs : (blocks k k' : ℕ) → Paired (suc blocks) k k' → Paired blocks (k + 1) (k' - 1)
later_pairs blocks k k' pairs i lt =
    ap₂ (λ (a b : ℕ). (zeta_q a * zeta_q b + 1) % q) (omega arith) (omega arith)
    ∙ pairs (suc i) (omega arith)

AllBelow-split : (xs ys : List ℕ) → AllBelow (xs ++ ys) → AllBelow xs × AllBelow ys
AllBelow-split [] ys h = (tt, h)
AllBelow-split (x ∷ xs) ys (hx, h) = let (a, b) = AllBelow-split xs ys h in ((hx, a), b)

AllBelow-three :
    (lo hi rest : List ℕ)
    → AllBelow (lo ++ (hi ++ rest))
    → AllBelow lo × AllBelow hi × AllBelow rest
AllBelow-three lo hi rest h =
    let (a, b) = AllBelow-split lo (hi ++ rest) h in
    let (c, d) = AllBelow-split hi rest b in (a, c, d)

pub layer_back :
    (blocks len k k' : ℕ) (r : List ℕ)
    → Paired blocks k k'
    → length r ≡ blocks * (2 * len)
    → AllBelow r
    → backward_layer blocks len k' (forward_layer blocks len k r) ≡ map double r
unfolding forward_layer backward_layer
layer_back zero len k k' [] pairs l h = refl
layer_back zero len k k' (x ∷ r) pairs l h = absurd (omega arith)
layer_back (suc blocks) len k k' r pairs l h =
    let (lo, hi, rest, e, el, eh, er) = halves blocks len r l in
    let (bl, bh, br) = AllBelow-three lo hi rest (rw e at h) in
    let f = forward (zeta_q k) lo hi in
    let (sl, sh) = forward_sizes (zeta_q k) lo hi in
    let (dl, dh) =
      block_back (zeta_q k) (zeta_q k') lo hi (first_pair blocks k k' pairs) (omega arith) bl bh in
    ap (λ (s : List ℕ). backward_layer (suc blocks) len k' (forward_layer (suc blocks) len k s)) e
    ∙ ap (backward_layer (suc blocks) len k') (forward_step blocks len k lo hi rest el eh)
    ∙ backward_step blocks len k' f.0 f.1 (forward_layer blocks len (k + 1) rest) (sl ∙ el)
        (sh ∙ eh)
    ∙ append_cong _ _ _ _ _ _ dl dh
        (layer_back blocks len (k + 1) (k' - 1) rest (later_pairs blocks k k' pairs) er br)
    ∙ sym (map_three lo hi rest)
    ∙ ap (map double) (sym e)

-- A layer backward commutes with doubling.
pub layer_double :
    (blocks len k : ℕ) (r : List ℕ)
    → length r ≡ blocks * (2 * len)
    → AllBelow r
    → backward_layer blocks len k (map double r) ≡ map double (backward_layer blocks len k r)
unfolding backward_layer
layer_double zero len k r l h = refl
layer_double (suc blocks) len k r l h =
    let (lo, hi, rest, e, el, eh, er) = halves blocks len r l in
    let (bl, bh, br) = AllBelow-three lo hi rest (rw e at h) in
    let (dl, dh) = block_double (zeta_q k) lo hi bl bh in
    let f = backward (zeta_q k) lo hi in
    ap (λ (s : List ℕ). backward_layer (suc blocks) len k (map double s)) e
    ∙ ap (backward_layer (suc blocks) len k) (map_three lo hi rest)
    ∙ backward_step blocks len k (map double lo) (map double hi) (map double rest)
        (length-map lo double ∙ el) (length-map hi double ∙ eh)
    ∙ append_cong _ _ _ _ _ _ dl dh (layer_double blocks len (k - 1) rest er br)
    ∙ sym (map_three f.0 f.1 (backward_layer blocks len (k - 1) rest))
    ∙ ap (map double) (sym (backward_step blocks len k lo hi rest el eh))
    ∙ ap (λ (s : List ℕ). map double (backward_layer (suc blocks) len k s)) (sym e)

-- A layer forward keeps the number of coefficients, and that they are below q.
pub forward_layer_lem :
    (blocks len k : ℕ) (r : List ℕ)
    → length r ≡ blocks * (2 * len)
    → AllBelow r
    → (length (forward_layer blocks len k r) ≡ length r) × AllBelow (forward_layer blocks len k r)
unfolding forward_layer
forward_layer_lem zero len k r l h = (refl, h)
forward_layer_lem (suc blocks) len k r l h =
    let (lo, hi, rest, e, el, eh, er) = halves blocks len r l in
    let (bl, bh, br) = AllBelow-three lo hi rest (rw e at h) in
    let f = forward (zeta_q k) lo hi in
    let (sl, sh) = forward_sizes (zeta_q k) lo hi in
    let (fl, fh) = forward_below (zeta_q k) lo hi bl bh in
    let t = forward_layer blocks len (k + 1) rest in
    let (st, bt) = forward_layer_lem blocks len (k + 1) rest er br in
    let step =
      ap (forward_layer (suc blocks) len k) e ∙ forward_step blocks len k lo hi rest el eh in
    (
      ap length step
          ∙ omega (
            arith,
            length-append f.0 (f.1 ++ t),
            length-append f.1 t,
            length-append lo (hi ++ rest),
            length-append hi rest,
            ap length e,
          ),
      rw step (AllBelow-append f.0 (f.1 ++ t) fl (AllBelow-append f.1 t fh bt)),
    )
