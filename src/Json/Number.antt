-- ===== src/Json/Number.antt =====
-- number_ of src/rmbl_json.cpp.
pub mod Total
use rmorie_bricklayer.Prelude.{
  ℕ, zero, suc, ◌+◌, ◌-◌, ◌*◌, Bool, true, false, ◌&&◌, ◌||◌, not, List, [], ◌∷◌, ◌++◌, Option,
  none, some, length, take, drop, min, ltb, leb, ◌==◌, if◌then◌else◌,
}
use Prim.Native.Nat.{Ordering, compare}
use rmorie_bricklayer.Json.{
  Outcome, ok, failed, ◌>>=◌, bad_number, whole_number, Host, Options, Value, integer, real, text,
}

unfoldable pub is_digit : ℕ → Bool
is_digit c = leb b'0' c && leb c b'9'

-- `P.i < P.n` and the byte there is `c`.
abbrev pub starts : ℕ → List ℕ → Bool
starts c [] = false
starts c (b ∷ t) = b == c

-- `while (P.i < P.n && P.p[P.i] >= '0' && P.p[P.i] <= '9') ++P.i`
unfoldable pub skip_digits : List ℕ → List ℕ
unfolding is_digit
skip_digits [] = []
skip_digits (c ∷ t) = let rest = skip_digits t in if is_digit c then rest else c ∷ t

-- At least one digit, as after the point and in the exponent.
unfoldable pub digits : List ℕ → Outcome (List ℕ)
unfolding skip_digits
digits [] = failed bad_number 0
digits (c ∷ t) = if is_digit c then ok (skip_digits (c ∷ t)) else failed bad_number (length (c ∷ t))

-- The digits before the point: a first zero stands alone.
unfoldable pub whole : List ℕ → Outcome (List ℕ)
unfolding digits
whole t = if starts b'0' t then ok (drop 1 t) else digits t

-- A part that only a token of no whole number has.
abbrev pub part : Outcome (List ℕ) → Outcome (Bool × List ℕ)
part m = m >>= λ rest. ok (false, rest)

-- Whether there is no fraction, and what follows.
unfoldable pub fraction : List ℕ → Outcome (Bool × List ℕ)
unfolding digits
fraction t = if starts b'.' t then part (digits (drop 1 t)) else ok (true, t)

-- `if (P.p[P.i] == '+' || P.p[P.i] == '-') ++P.i`
abbrev pub skip_sign : List ℕ → List ℕ
skip_sign u = if starts b'+' u || starts b'-' u then drop 1 u else u

unfoldable pub exponent : List ℕ → Outcome (Bool × List ℕ)
unfolding digits
exponent t =
    if starts b'e' t || starts b'E' t then part (digits (skip_sign (drop 1 t))) else ok (true, t)

-- Whether the token is that of a whole number, and what follows it.
unfoldable pub scan : List ℕ → Outcome (Bool × List ℕ)
unfolding whole fraction exponent
scan t = do
  after_whole ← whole (if starts b'-' t then drop 1 t else t)
  (plain, after_fraction) ← fraction after_whole
  (bare, after) ← exponent after_fraction
  ok (plain && bare, after)

-- `memcmp` over as many bytes as both have.
unfoldable pub memcmp : List ℕ → List ℕ → Ordering
memcmp [] ys = Ordering.eq
memcmp (x ∷ xs) [] = Ordering.eq
memcmp (x ∷ xs) (y ∷ ys) =
    let rest = memcmp xs ys in
    elim (compare x y) [
      | Ordering.lt ↦ Ordering.lt
      | Ordering.gt ↦ Ordering.gt
      | Ordering.eq ↦ rest
    ]

abbrev pub is_gt : Ordering → Bool
is_gt o = elim o [ Ordering.gt ↦ true | _ ↦ false ]

abbrev pub is_eq : Ordering → Bool
is_eq o = elim o [ Ordering.eq ↦ true | _ ↦ false ]

-- `while (d0 + 1 < P.i && P.p[d0] == '0') ++d0`
unfoldable pub skip_zeros : List ℕ → List ℕ
skip_zeros [] = []
skip_zeros (c ∷ []) = c ∷ []
skip_zeros (c ∷ d ∷ t) = let rest = skip_zeros (d ∷ t) in if c == b'0' then rest else c ∷ d ∷ t

-- "9007199254740992", which is 2 ^ 53.
abbrev pub two_53 : List ℕ
two_53 =
    b'9' ∷ b'0' ∷ b'0' ∷ b'7' ∷ b'1' ∷ b'9' ∷ b'9' ∷ b'2' ∷ b'5' ∷ b'4' ∷ b'7' ∷ b'4' ∷ b'0' ∷ b'9'
    ∷ b'9' ∷ b'2' ∷ []

-- Whether the digits of a whole number of 16 bytes or more are past 2 ^ 53.
unfoldable pub is_big : List ℕ → Bool
unfolding memcmp
is_big ds = if length ds == 16 then is_gt (memcmp ds two_53) else ltb 16 (length ds)

-- The value of a token, and the token where R is to warn of it.
module _ (h : Host) (o : Options) where
  open h use {Double, of_ℕ, neg, less, is_finite, to_int, print_whole}

  unfoldable pub magnitude : Double → Double
  magnitude v = if less v (of_ℕ 0) then neg v else v

  -- Whether "%.0f", cut to 63 bytes, does not give the digits back.
  unfoldable pub is_inexact : Double → List ℕ → Bool
  unfolding magnitude memcmp
  is_inexact v ds =
      let held = take 63 (print_whole (magnitude v)) in
      not (length held == length ds) || not (is_eq (memcmp held ds))

  unfoldable pub small_whole : Double → Value Double
  small_whole v =
      if less (of_ℕ 2147483647) v || less v (neg (of_ℕ 2147483647))
      then real v
      else integer (to_int v)

  -- A whole number; `held` is the first token that R is to warn of.
  unfoldable pub whole_value : List ℕ → Double → Option (List ℕ) → Value Double × Option (List ℕ)
  unfolding skip_zeros is_big is_inexact small_whole
  whole_value token v held =
      let ds = skip_zeros (if starts b'-' token then drop 1 token else token) in
      if leb 16 (length token) && is_big ds
      then if o.as_char then (text token, held) else (
        real v,
        elim held [
          | some first ↦ some first
          | none ↦ if is_finite v && is_inexact v ds then some (take 63 token) else none
        ],
      )
      else (small_whole v, held)

  unfoldable pub is_gap : Double → Bool
  unfolding magnitude
  is_gap v =
      is_finite v
      && not (less (magnitude v) (of_ℕ 9007199254740992))
      && less (magnitude v) (of_ℕ 18446744073709551616)

  unfoldable pub number :
      List ℕ → Option (List ℕ) → Outcome ((Value Double × Option (List ℕ)) × List ℕ)
  unfolding scan whole_value is_gap
  number t held = do
    (is_whole, rest) ← scan t
    let token = take (length t - length rest) t
    elim (h.strtod token) [
      | none ↦ failed bad_number (length rest)
      | some v ↦
          if is_whole
          then ok (whole_value token v held, rest)
          else if is_gap v
          then failed whole_number (length rest)
          else ok ((real v, held), rest)
    ]
