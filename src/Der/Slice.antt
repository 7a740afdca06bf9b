-- ===== src/Der/Slice.antt =====
-- Stretches of a byte list between two positions.
use rmorie_bricklayer.Prelude.{
  ℕ, zero, suc, ◌+◌, ◌-◌, ◌≤◌, ◌≡◌, refl, ap, sym, ◌∙◌, List, [], ◌∷◌, ◌++◌, arith, length,
  get_elem?, some,
}
use native.Mathlib.Numerals.{add-one}

-- The bytes from `i` up to `j`.
abbrev pub slice : List ℕ → ℕ → ℕ → List ℕ
slice p zero zero = []
slice [] zero (suc j) = []
slice (b ∷ p) zero (suc j) = b ∷ slice p zero j
slice p (suc i) zero = []
slice [] (suc i) (suc j) = []
slice (b ∷ p) (suc i) (suc j) = slice p i j

pub slice_empty : (p : List ℕ) (i : ℕ) → slice p i i ≡ []
slice_empty p zero = refl
slice_empty [] (suc i) = refl
slice_empty (b ∷ p) (suc i) = slice_empty p i

slice-suc : (p : List ℕ) (i b : ℕ) → get_elem? p i ≡ some b → slice p i (suc i) ≡ b ∷ []
slice-suc [] i b h = cc
slice-suc (x ∷ p) zero b h = cc
slice-suc (x ∷ p) (suc i) b h = slice-suc p i b h

pub slice-one : (p : List ℕ) (i b : ℕ) → get_elem? p i ≡ some b → slice p i (i + 1) ≡ b ∷ []
slice-one p i b h = rw add-one (slice-suc p i b h)

-- Adjacent stretches join.
pub slice-append :
    (p : List ℕ) (i j k : ℕ) → i ≤ j → j ≤ k → slice p i j ++ slice p j k ≡ slice p i k
slice-append p zero zero k h l = refl
slice-append p zero (suc j) zero h l = absurd (omega arith)
slice-append [] zero (suc j) (suc k) h l = refl
slice-append (b ∷ p) zero (suc j) (suc k) h l =
    ap (λ (t : List ℕ). b ∷ t) (slice-append p zero j k (omega arith) (omega arith))
slice-append p (suc i) zero k h l = absurd (omega arith)
slice-append p (suc i) (suc j) zero h l = absurd (omega arith)
slice-append [] (suc i) (suc j) (suc k) h l = refl
slice-append (b ∷ p) (suc i) (suc j) (suc k) h l = slice-append p i j k (omega arith) (omega arith)

pub slice_all : (p : List ℕ) → slice p 0 (length p) ≡ p
slice_all [] = refl
slice_all (b ∷ p) = ap (λ (t : List ℕ). b ∷ t) (slice_all p)

-- One more byte, read at the end of a stretch.
pub slice-snoc :
    (p : List ℕ) (i j b : ℕ)
    → i ≤ j
    → get_elem? p j ≡ some b
    → slice p i (j + 1) ≡ slice p i j ++ b ∷ []
slice-snoc p i j b h e =
    sym (slice-append p i j (j + 1) h (omega arith))
    ∙ ap (λ (t : List ℕ). slice p i j ++ t) (slice-one p j b e)

pub length-slice : (p : List ℕ) (i j : ℕ) → j ≤ length p → length (slice p i j) ≡ j - i
length-slice p zero zero l = omega arith
length-slice [] zero (suc j) l = absurd (omega arith)
length-slice (b ∷ p) zero (suc j) l = omega (arith, length-slice p zero j (omega arith))
length-slice p (suc i) zero l = omega arith
length-slice [] (suc i) (suc j) l = absurd (omega arith)
length-slice (b ∷ p) (suc i) (suc j) l = omega (arith, length-slice p i j (omega arith))
