-- ===== src/Der/Tag.antt =====
-- The identifier octets that `read_tag` accepts are the DER encoding of class, form and tag number.
use rmorie_bricklayer.Prelude.{
  ℕ, zero, suc, ◌+◌, ◌-◌, ◌*◌, ◌/◌, ◌%◌, ◌^◌, ◌≤◌, ◌<◌, ◌≡◌, refl, ap, sym, ◌∙◌, ◌≢◌, inl, inr,
  List, [], ◌∷◌, ◌++◌, Bool, true, false, arith, length, ltb, leb, ◌==◌, ==_iff, if◌then◌else◌,
  bit_and, bit_or, get_elem?, some, not, Bool-cases, ltb→lt,
}
use mathlib.Core.Path.{ap₂}
use native.Mathlib.Nat.{mod-eq_of_lt}
use rmorie_bricklayer.Prelude.Bits.{bit_and_mask, bit_or_fields}
use rmorie_bricklayer.Prelude.Bytes.{IsBytes, byte-lt, all_below, all_below_sound, marked}
use rmorie_bricklayer.Der.{high_tag, read_tag}
use rmorie_bricklayer.Der.Monad.{
  ok, Ensures, holds, Ensures-bind, Ensures-map, check-Ensures, read-Ensures,
}
use rmorie_bricklayer.Der.Slice.{slice, slice-snoc, slice-one, slice-append, slice_empty}
use rmorie_bricklayer.Der.Encode.{digits, digits-zero, digits-snoc, septets, identifier}

id_table :
    all_below 256 (λ b.
      bit_and (b / 2 ^ 6) 0x03 * 64 + (if not (bit_and b 0x20 == 0) then 32 else 0) + bit_and b 0x1f
      == b)
    ≡ true
unfolding all_below
id_table = refl

-- Appending a septet to a tag number, as the code does it.
shift_tag :
    (tag b : ℕ)
    → tag ≤ 144115188075855871
    → bit_or (tag * 2 ^ 7 % 2 ^ 64) (bit_and b 0x7f) ≡ tag * 128 + b % 128
shift_tag tag b h =
    ap₂ bit_or (mod-eq_of_lt {n = tag * 2 ^ 7} {m = 2 ^ 64} (omega arith)) (bit_and_mask 7 b)
    ∙ bit_or_fields 7 tag (b % 128) (omega arith)

module _ (p : List ℕ) (n : ℕ) (hp : IsBytes p) (hn : n ≤ length p) where
  -- `t` was read from `start` up to `pos` as septets.
  abbrev ReadTag : ℕ → ℕ → ℕ × ℕ → Type 0
  ReadTag start low (t, pos) = (low < pos) × (pos ≤ n) × (slice p start pos ≡ septets t)

  high_tag-Ensures :
      (fuel start pos tag : ℕ)
      → start ≤ pos
      → pos ≤ n
      → n < pos + fuel
      → slice p start pos ≡ digits 128 128 tag
      → ((b : ℕ) → get_elem? p pos ≡ some b → tag * 128 + b % 128 ≢ 0)
      → Ensures (ReadTag start pos) (high_tag fuel p n pos tag)
  unfolding high_tag
  high_tag-Ensures zero start pos tag le ln enough e nz = absurd (omega arith)
  high_tag-Ensures (suc fuel) start pos tag le ln enough e nz =
      Ensures-bind (check-Ensures (ltb pos n)) λ _ room.
        Ensures-bind (read-Ensures p pos (ground arith)) λ b eb.
          Ensures-bind (check-Ensures (leb tag ((2 ^ 64 - 1) / 2 ^ 7))) λ _ fits.
            let small : tag ≤ 144115188075855871 = ground arith in
            rw (shift_tag tag b small, marked b (byte-lt p pos hp eb))
              (go b eb (ltb→lt pos n room) (ltb b 128) refl (λ q.
                high_tag-Ensures fuel start (pos + 1) (tag * 128 + b % 128) (omega arith)
                  (ground arith) (omega arith) q λ c ec. ground (arith, nz b eb)))
    where
      go :
          (b : ℕ)
          → get_elem? p pos ≡ some b
          → pos < n
          → (last : Bool) → ltb b 128 ≡ last
          → (slice p start (pos + 1) ≡ digits 128 128 (tag * 128 + b % 128)
              → Ensures
                  (ReadTag start (pos + 1))
                  (high_tag fuel p n (pos + 1) (tag * 128 + b % 128)))
          → Ensures (ReadTag start pos) (
              if last
              then ok (tag * 128 + b % 128, pos + 1)
              else high_tag fuel p n (pos + 1) (tag * 128 + b % 128))
      go b eb room true t k = holds {a = (tag * 128 + b % 128, pos + 1)} (
        omega arith,
        omega arith,
        slice-snoc p start pos b le eb
            ∙ ap₂ (λ (xs : List ℕ) (y : ℕ). xs ++ y ∷ []) (e ∙ ap (digits 128 128) (omega arith))
                (ground arith),
      )
      go b eb room false t k =
          Ensures-map
            (k (
              slice-snoc p start pos b le eb
              ∙ ap₂ (λ (xs : List ℕ) (y : ℕ). xs ++ y ∷ []) e (ground (arith, byte-lt p pos hp eb))
              ∙ sym (digits-snoc 128 128 tag (b % 128) (omega arith) (omega arith) (nz b eb))))
            λ (t', pos') h. (omega arith, h.1, h.2)

  -- The bytes of an identifier: class, form and tag number.
  pub read_tag-Ensures :
      (start id : ℕ)
      → start < n
      → get_elem? p start ≡ some id
      → Ensures
          (λ (t, pos).
            (start < pos)
            × (pos ≤ n)
            × (slice p start pos
                ≡ identifier (bit_and (id / 2 ^ 6) 0x03) (not (bit_and id 0x20 == 0)) t))
          (read_tag p n (start + 1) id)
  unfolding read_tag
  read_tag-Ensures start id room eid = elim (Bool-cases (low == 31)) [
    | inl full ↦ rw full (
        Ensures-bind (check-Ensures (ltb (start + 1) n)) λ _ more.
          Ensures-bind (read-Ensures p (start + 1) (ground arith)) λ b eb.
            Ensures-bind (check-Ensures (not (bit_and b 0x7f == 0))) λ _ nz.
              Ensures-bind
                (high_tag-Ensures (n - (start + 1) + 1) (start + 1) (start + 1) 0 (omega arith)
                  (omega arith) (omega arith)
                  (slice_empty p (start + 1) ∙ sym (digits-zero 128 128))
                  (λ c ec. ground (arith, bit_and_mask 7 b, bit_and_mask 7 c)))
                λ (t, pos) h. Ensures-bind (check-Ensures (not (ltb t 0x1f))) λ _ big.
                  holds {a = (t, pos)} (
                    omega (arith, h.0),
                    h.1,
                    sym (slice-append p start (start + 1) pos (omega arith) (omega (arith, h.0)))
                        ∙ ap₂ (λ (xs ys : List ℕ). xs ++ ys) (slice-one p start id eid) h.2
                        ∙ ap (λ (x : ℕ). x ∷ septets t)
                            (whole ∙ ap (λ (x : ℕ). first + x) ((==_iff low 31).0 full))
                        ∙ sym (identifier_high t (ground arith)),
                  ))
    | inr short ↦ rw short (
        holds {a = (low, start + 1)} (
          omega arith,
          omega arith,
          slice-one p start id eid
              ∙ ap (λ (x : ℕ). x ∷ []) whole
              ∙ sym (identifier_low low (ground (arith, bit_and_mask 5 id))),
        ))
  ]
    where
      low : ℕ
      low = bit_and id 0x1f

      cls : ℕ
      cls = bit_and (id / 2 ^ 6) 0x03

      form : Bool
      form = not (bit_and id 0x20 == 0)

      first : ℕ
      first = cls * 64 + (if form then 32 else 0)

      whole : id ≡ first + low
      whole = sym (
          (==_iff _ _).0 (
            all_below_sound 256
              (λ b.
                bit_and (b / 2 ^ 6) 0x03 * 64
                  + (if not (bit_and b 0x20 == 0) then 32 else 0)
                  + bit_and b 0x1f
                == b)
              id id_table (byte-lt p start hp eid)))

      identifier_high : (t : ℕ) → 31 ≤ t → identifier cls form t ≡ (first + 31) ∷ septets t
      identifier_high t le = rw (let q : ltb t 31 ≡ false = ground arith in q)

      identifier_low : (t : ℕ) → t < 31 → identifier cls form t ≡ (first + t) ∷ []
      identifier_low t lt = rw (let q : ltb t 31 ≡ true = ground arith in q)
