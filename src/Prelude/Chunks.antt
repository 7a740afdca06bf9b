-- ===== src/Prelude/Chunks.antt =====
-- An output that is filled block by block, the last block being cut.
use native.Mathlib.Nat.{suc-mul, zero-mul}
use Prim.Native.Nat.{ℕ, zero, suc, ◌+◌, ◌-◌, ◌*◌, ◌<◌, ◌≤◌}
use mathlib.Core.Path.{◌≡◌, refl, ap, sym, ◌∙◌}
use mathlib.Core.List.{List, [], ◌∷◌, ◌++◌}
use native.Mathlib.Omega.{arith}
use mathlib.Core.Logic.{inl, inr}
use rmorie_bricklayer.Prelude.Tests.{ltb, ltb-false, ltb→lt, if◌then◌else◌, Bool-cases}
use rmorie_bricklayer.Prelude.Lists.{length, get_or, take, length-append, length-take, take_all}

pub get_or-append_left :
    (xs ys : List ℕ) (r : ℕ) → r < length xs → get_or (xs ++ ys) r 0 ≡ get_or xs r 0
get_or-append_left [] ys r h = absurd (omega arith)
get_or-append_left (x ∷ xs) ys zero h = refl
get_or-append_left (x ∷ xs) ys (suc r) h = get_or-append_left xs ys r (omega arith)

pub get_or-append_right :
    (xs ys : List ℕ) (k m : ℕ) → m ≡ length xs + k → get_or (xs ++ ys) m 0 ≡ get_or ys k 0
get_or-append_right [] ys k m h =
    ap (λ (i : ℕ). get_or ys i 0) (let e : m ≡ k = omega (arith, h) in e)
get_or-append_right (x ∷ xs) ys k zero h = absurd (omega arith)
get_or-append_right (x ∷ xs) ys k (suc m) h = get_or-append_right xs ys k m (omega arith)

pub get_or-take : (n : ℕ) (xs : List ℕ) (r : ℕ) → r < n → get_or (take n xs) r 0 ≡ get_or xs r 0
get_or-take zero xs r h = absurd (omega arith)
get_or-take (suc n) [] r h = refl
get_or-take (suc n) (x ∷ xs) zero h = refl
get_or-take (suc n) (x ∷ xs) (suc r) h = get_or-take n xs r (omega arith)

-- The source's `take`, the smaller of what is left and of a block.
pub take_cut :
    (hlen left : ℕ) (xs : List ℕ)
    → length xs ≡ hlen
    → take (if ltb left hlen then left else hlen) xs ≡ take left xs
take_cut hlen left xs h = elim (Bool-cases (ltb left hlen)) [
  | inl less ↦ rw less refl
  | inr enough ↦
      let over = ltb-false left hlen enough in
      rw enough (take_all hlen xs (omega arith) ∙ sym (take_all left xs (omega arith)))
]

pub left_cut : (hlen left : ℕ) → left - (if ltb left hlen then left else hlen) ≡ left - hlen
left_cut hlen left = elim (Bool-cases (ltb left hlen)) [
  | inl less ↦ let under = ltb→lt left hlen less in rw less (omega arith)
  | inr enough ↦ rw enough refl
]

module _ (f : ℕ → List ℕ) (hlen : ℕ) (whole : (i : ℕ) → length (f i) ≡ hlen) where
  -- `left` bytes from block `i` on, by `n` blocks.
  unfoldable pub spread : ℕ → ℕ → ℕ → List ℕ
  spread zero i left = []
  spread (suc n) i left = take left (f i) ++ spread n (i + 1) (left - hlen)

  pub spread_none : (n i : ℕ) → spread n i 0 ≡ []
  unfolding spread
  spread_none zero i = refl
  spread_none (suc n) i = let rest : 0 - hlen ≡ 0 = omega arith in rw rest (spread_none n (i + 1))

  pub length-spread : (n i left : ℕ) → left ≤ n * hlen → length (spread n i left) ≡ left
  unfolding spread
  length-spread zero i left h = omega (arith, zero-mul hlen)
  length-spread (suc n) i left h =
      let room : left - hlen ≤ n * hlen = omega (arith, suc-mul n hlen) in
      omega (
        arith,
        length-append (take left (f i)) (spread n (i + 1) (left - hlen)),
        length-take left (f i),
        whole i,
        length-spread n (i + 1) (left - hlen) room,
      )

  -- Byte `r` of block `q` is at `q * hlen + r`.
  pub get_or-spread :
      (n i left q r : ℕ)
      → left ≤ n * hlen
      → r < hlen
      → q * hlen + r < left
      → get_or (spread n i left) (q * hlen + r) 0 ≡ get_or (f (i + q)) r 0
  unfolding spread
  get_or-spread zero i left q r h hr inside = absurd (omega (arith, zero-mul hlen))
  get_or-spread (suc n) i left zero r h hr inside =
      let start : 0 * hlen + r ≡ r = omega (arith, zero-mul hlen) in
      let here : i + 0 ≡ i = omega arith in
      let held : r < length (take left (f i)) =
        omega (arith, length-take left (f i), whole i, start) in
      rw (start, here)
        (get_or-append_left (take left (f i)) (spread n (i + 1) (left - hlen)) r held
          ∙ get_or-take left (f i) r (omega (arith, start)))
  get_or-spread (suc n) i left (suc q) r h hr inside =
      let size = suc-mul q hlen in
      let full : take left (f i) ≡ f i = take_all left (f i) (omega (arith, whole i)) in
      let place : suc q * hlen + r ≡ length (f i) + (q * hlen + r) = omega (arith, whole i) in
      let block : i + suc q ≡ i + 1 + q = omega arith in
      rw (full, block)
        (get_or-append_right (f i) (spread n (i + 1) (left - hlen)) (q * hlen + r)
            (suc q * hlen + r) place
          ∙ get_or-spread n (i + 1) (left - hlen) q r (omega (arith, suc-mul n hlen)) hr
              (omega arith))
