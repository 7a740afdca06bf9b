-- ===== src/Sha2/Machine.antt =====
-- The specification of a buffered hash: bytes are collected one at a time, and each full block is
-- compressed at once.
use rmorie_bricklayer.Prelude.{
  ℕ, ◌+◌, ◌<◌, ◌≤◌, List, [], ◌∷◌, ◌++◌, length, length-append, ◌==◌, ==_iff, if◌then◌else◌, ◌≡◌,
  refl, sym, ap, ◌∙◌, arith, false,
}
use mathlib.Core.List.{append_assoc, append-nil}

pub record Machine (H C : Type 0) : Type 0 where
  pub h : H
  pub rest : List ℕ
  pub count : C

module _ {H C : Type 0} (size : ℕ) (compress : H → List ℕ → H) (bump : C → C) where
  abbrev pub compressed : Machine H C → List ℕ → Machine H C
  compressed m block = record { h = compress m.h block; rest = []; count = bump m.count }

  unfoldable pub absorb_byte : Machine H C → ℕ → Machine H C
  absorb_byte m b =
      if length m.rest + 1 == size
      then compressed m (m.rest ++ (b ∷ []))
      else record m { rest = m.rest ++ (b ∷ []) }

  unfoldable pub absorb : Machine H C → List ℕ → Machine H C
  absorb m [] = m
  absorb m (b ∷ bytes) = absorb (absorb_byte m b) bytes

  pub absorb-append :
      (m : Machine H C) (xs ys : List ℕ) → absorb m (xs ++ ys) ≡ absorb (absorb m xs) ys
  unfolding absorb
  absorb-append m [] ys = refl
  absorb-append m (x ∷ xs) ys = absorb-append (absorb_byte m x) xs ys

  pub absorb_none : (m : Machine H C) (xs : List ℕ) → length xs ≤ 0 → absorb m xs ≡ m
  unfolding absorb
  absorb_none m [] h = refl
  absorb_none m (x ∷ xs) h = absurd (omega arith)

  absorb_byte-inner :
      (m : Machine H C) (b : ℕ)
      → length m.rest + 1 < size
      → absorb_byte m b ≡ record m { rest = m.rest ++ (b ∷ []) }
  unfolding absorb_byte
  absorb_byte-inner m b h = let e : (length m.rest + 1 == size) ≡ false = ground arith in rw e refl

  -- Bytes that do not fill the block.
  pub absorb_inner :
      (m : Machine H C) (xs : List ℕ)
      → length m.rest + length xs < size
      → absorb m xs ≡ record m { rest = m.rest ++ xs }
  unfolding absorb
  absorb_inner m [] h = ap (λ (r : List ℕ). record m { rest = r }) (sym (append-nil m.rest))
  absorb_inner m (x ∷ xs) h =
      ap (λ (t : Machine H C). absorb t xs) (absorb_byte-inner m x (omega arith))
      ∙ absorb_inner (record m { rest = m.rest ++ (x ∷ []) }) xs
          (omega (arith, length-append m.rest (x ∷ [])))
      ∙ ap (λ (r : List ℕ). record m { rest = r }) (append_assoc m.rest (x ∷ []) xs)

  -- Bytes that fill the block exactly, at least one of them.
  pub absorb_block :
      (m : Machine H C) (xs : List ℕ)
      → 0 < length xs
      → length m.rest + length xs ≡ size
      → absorb m xs ≡ compressed m (m.rest ++ xs)
  unfolding absorb absorb_byte
  absorb_block m [] hn h = absurd (omega arith)
  absorb_block m (x ∷ []) hn h = rw ((==_iff (length m.rest + 1) size).1 (omega (arith, h))) refl
  absorb_block m (x ∷ y ∷ xs) hn h =
      ap (λ (t : Machine H C). absorb t (y ∷ xs)) (absorb_byte-inner m x (omega (arith, h)))
      ∙ absorb_block (record m { rest = m.rest ++ (x ∷ []) }) (y ∷ xs) (omega arith)
          (omega (arith, h, length-append m.rest (x ∷ [])))
      ∙ ap (λ (r : List ℕ). compressed m r) (append_assoc m.rest (x ∷ []) (y ∷ xs))
