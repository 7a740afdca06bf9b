-- ===== src/Json/Number/Total.antt =====
-- number_ of src/rmbl_json.cpp on every text: it reads at least one byte, or fails inside the text.
use rmorie_bricklayer.Prelude.{
  ℕ, suc, ◌-◌, ◌≤◌, inl, inr, Bool, true, false, ◌&&◌, ◌||◌, List, [], ◌∷◌, Option, none, some,
  length, length-drop, drop, take, leb, if◌then◌else◌, arith, Bool-cases,
}
use rmorie_bricklayer.Json.{
  ok, failed, bad_number, whole_number, Host, Options, Value, integer, real, items,
}
use rmorie_bricklayer.Json.Number.{
  is_digit, starts, skip_digits, digits, whole, part, fraction, skip_sign, exponent, scan,
  whole_value, is_gap, number, skip_zeros, is_big, small_whole,
}
use rmorie_bricklayer.Json.Ensures.{Ensures, holds, fails, Ensures-bind, Ensures-if}

-- The text after a step is no longer, or shorter.
abbrev Left : ℕ → List ℕ → Type 0
Left n rest = length rest ≤ n

skip_digits-le : (t : List ℕ) → length (skip_digits t) ≤ length t
unfolding skip_digits
skip_digits-le [] = omega arith
skip_digits-le (c ∷ t) = ground (arith, skip_digits-le t)

-- With room for one byte more, a digit is read.
digits-Ensures : (t : List ℕ) (n : ℕ) → length t ≤ suc n → Ensures (Left n) (suc n) (digits t)
unfolding digits
digits-Ensures [] n le = fails (omega arith)
digits-Ensures (c ∷ t) n le =
    Ensures-if (is_digit c) (suc n)
      (λ d. holds {a = skip_digits (c ∷ t)} (rw (skip_digits, d) (omega (arith, skip_digits-le t))))
      (λ d. fails le)

whole-Ensures : (t : List ℕ) (n : ℕ) → length t ≤ suc n → Ensures (Left n) (suc n) (whole t)
unfolding whole
whole-Ensures t n le =
    Ensures-if (starts b'0' t) (suc n) (λ z. holds {a = drop 1 t} (omega (arith, length-drop 1 t)))
      (λ z. digits-Ensures t n le)

abbrev Left' : ℕ → Bool × List ℕ → Type 0
Left' n (b, rest) = length rest ≤ n

part-Ensures : (t : List ℕ) (n : ℕ) → length t ≤ n → Ensures (Left' n) (suc n) (part (digits t))
part-Ensures t n le =
    Ensures-bind (suc n) (digits-Ensures t n (omega arith)) (λ rest h. holds {a = (false, rest)} h)

fraction-Ensures : (t : List ℕ) (n : ℕ) → length t ≤ n → Ensures (Left' n) (suc n) (fraction t)
unfolding fraction
fraction-Ensures t n le =
    Ensures-if (starts b'.' t) (suc n)
      (λ z. part-Ensures (drop 1 t) n (omega (arith, length-drop 1 t)))
      (λ z. holds {a = (true, t)} le)

skip_sign-le : (t : List ℕ) → length (skip_sign t) ≤ length t
skip_sign-le [] = omega arith
skip_sign-le (c ∷ t) = ground arith

exponent-Ensures : (t : List ℕ) (n : ℕ) → length t ≤ n → Ensures (Left' n) (suc n) (exponent t)
unfolding exponent
exponent-Ensures t n le =
    Ensures-if (starts b'e' t || starts b'E' t) (suc n)
      (λ z.
        part-Ensures (skip_sign (drop 1 t)) n
          (omega (arith, length-drop 1 t, skip_sign-le (drop 1 t))))
      (λ z. holds {a = (true, t)} le)

minus-le : (t : List ℕ) → length (if starts b'-' t then drop 1 t else t) ≤ length t
minus-le [] = omega arith
minus-le (c ∷ t) = ground arith

scan-Ensures : (t : List ℕ) (n : ℕ) → length t ≤ suc n → Ensures (Left' n) (suc n) (scan t)
unfolding scan
scan-Ensures t n le =
    Ensures-bind (suc n)
      (whole-Ensures (if starts b'-' t then drop 1 t else t) n (omega (arith, minus-le t)))
      λ u hu. Ensures-bind (suc n) (fraction-Ensures u n hu) λ (plain, w) hw.
        Ensures-bind (suc n) (exponent-Ensures w n hw)
          λ (bare, after) ha. holds {a = (plain && bare, after)} ha

module _ (h : Host) (o : Options) where
  open h use {Double, strtod, to_int}

  abbrev digits_of : List ℕ → List ℕ
  digits_of token = skip_zeros (if starts b'-' token then drop 1 token else token)

  -- A value that is no list.
  abbrev pub IsScalar : Value Double → Type 0
  IsScalar (items obj vs) = ⊥
  IsScalar v = Unit

  if-IsScalar :
      (t : Bool) (v w : Value Double) → IsScalar v → IsScalar w → IsScalar (if t then v else w)
  if-IsScalar true v w hv hw = hv
  if-IsScalar false v w hv hw = hw

  whole_value-IsScalar :
      (token : List ℕ) (v : Double) (held : Option (List ℕ))
      → IsScalar (whole_value h o token v held).0
  unfolding whole_value small_whole
  whole_value-IsScalar token v held =
      elim (Bool-cases (leb 16 (length token) && is_big (digits_of token))) [
        | inl big ↦ elim (Bool-cases o.as_char) [
          | inl asked ↦ rw (whole_value, big, asked) tt
          | inr double ↦ rw (whole_value, big, double) tt
        ]
        | inr small ↦ rw (whole_value, small) (if-IsScalar _ (real v) (integer (to_int v)) tt tt)
      ]

  abbrev pub NumberRead : ℕ → (Value Double × Option (List ℕ)) × List ℕ → Type 0
  NumberRead n ((v, held), rest) = (length rest ≤ n) × IsScalar v

  pub number-Ensures :
      (t : List ℕ) (held : Option (List ℕ)) (n : ℕ)
      → length t ≤ suc n
      → Ensures (NumberRead n) (suc n) (number h o t held)
  unfolding number
  number-Ensures t held n le = Ensures-bind (suc n) (scan-Ensures t n le) λ (is_whole, rest) hr.
      elim (strtod (take (length t - length rest) t))
        as (λ x. Ensures (NumberRead n) (suc n) (elim x [
          | none ↦ failed bad_number (length rest)
          | some v ↦
              if is_whole
              then ok (whole_value h o (take (length t - length rest) t) v held, rest)
              else if is_gap h o v
              then failed whole_number (length rest)
              else ok ((real v, held), rest)
        ])) [
          | none ↦ fails (omega arith)
          | some v ↦
              Ensures-if is_whole (suc n)
                (λ w.
                  holds {a = (whole_value h o (take (length t - length rest) t) v held, rest)}
                    (hr, whole_value-IsScalar (take (length t - length rest) t) v held))
                (λ w.
                  Ensures-if (is_gap h o v) (suc n) (λ g. fails (omega arith))
                    (λ g. holds {a = ((real v, held), rest)} (hr, tt)))
        ]
