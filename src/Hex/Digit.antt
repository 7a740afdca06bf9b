-- ===== src/Hex/Digit.antt =====
-- One hexadecimal digit, checked at every byte against the plain table.
use rmorie_bricklayer.Prelude.{
  ℕ, ◌+◌, ◌-◌, ◌^◌, ◌%◌, ◌<◌, ◌≡◌, refl, ◌∙◌, sym, ap, bit_or, Bool, true, false, ltb, leb, ◌==◌,
  ◌&&◌, ==_iff, if◌then◌else◌, Option, none, some,
}
use rmorie_bricklayer.Prelude.Bits.{zero-bit_or}
use rmorie_bricklayer.Prelude.Bytes.{all_below, all_below_sound}
use rmorie_bricklayer.Hex.{hex_digit, unhex_digit}

-- The specification.
abbrev pub digit_char : ℕ → ℕ
digit_char v = if ltb v 10 then b'0' + v else b'a' + (v - 10)

abbrev pub hex_value : ℕ → Option ℕ
hex_value c =
    if leb b'0' c && leb c b'9'
    then some (c - b'0')
    else if leb b'a' c && leb c b'f'
    then some (c - b'a' + 10)
    else if leb b'A' c && leb c b'F'
    then some (c - b'A' + 10)
    else none

abbrev reads_back : Option ℕ → ℕ → Bool
reads_back none v = false
reads_back (some u) v = u == v

reads_back-some : (o : Option ℕ) (v : ℕ) → reads_back o v ≡ true → o ≡ some v
reads_back-some none v h = cc
reads_back-some (some u) v h = ap some ((==_iff u v).0 h)

hex_digit_table : all_below 256 (λ v. hex_digit v == digit_char (v % 16)) ≡ true
unfolding all_below hex_digit
hex_digit_table = refl

pub hex_digit_lem : (v : ℕ) → v < 256 → hex_digit v ≡ digit_char (v % 16)
hex_digit_lem v h =
    (==_iff _ _).0
      (all_below_sound 256 (λ v. hex_digit v == digit_char (v % 16)) v hex_digit_table h)

-- What `unhex_digit` gives for a character, starting from `bad == 0`.
abbrev pub digit_result : Option ℕ → ℕ × ℕ
digit_result none = (0, 2 ^ 32 - 1)
digit_result (some v) = (v, 0)

value_table : all_below 256 (λ c. (unhex_digit c 0).0 == (digit_result (hex_value c)).0) ≡ true
unfolding all_below unhex_digit
value_table = refl

bad_table : all_below 256 (λ c. (unhex_digit c 0).1 == (digit_result (hex_value c)).1) ≡ true
unfolding all_below unhex_digit
bad_table = refl

accumulates :
    (c bad : ℕ)
    → ((unhex_digit c bad).0 ≡ (unhex_digit c 0).0)
      × ((unhex_digit c bad).1 ≡ bit_or bad (unhex_digit c 0).1)
unfolding unhex_digit
accumulates c bad = (refl, ap (bit_or bad) (sym (zero-bit_or _)))

pub unhex_digit_lem :
    (c bad : ℕ)
    → c < 256
    → ((unhex_digit c bad).0 ≡ (digit_result (hex_value c)).0)
      × ((unhex_digit c bad).1 ≡ bit_or bad (digit_result (hex_value c)).1)
unhex_digit_lem c bad h = (
  (accumulates c bad).0
      ∙ (==_iff _ _).0 (
          all_below_sound 256 (λ c. (unhex_digit c 0).0 == (digit_result (hex_value c)).0) c
            value_table h),
  (accumulates c bad).1
      ∙ ap (bit_or bad) (
          (==_iff _ _).0 (
            all_below_sound 256 (λ c. (unhex_digit c 0).1 == (digit_result (hex_value c)).1) c
              bad_table h)),
)

-- A digit that is written is read back.
digit_char_table : all_below 16 (λ v. reads_back (hex_value (digit_char v)) v) ≡ true
unfolding all_below
digit_char_table = refl

pub hex_value-digit_char : (v : ℕ) → v < 16 → hex_value (digit_char v) ≡ some v
hex_value-digit_char v h =
    reads_back-some (hex_value (digit_char v)) v
      (all_below_sound 16 (λ v. reads_back (hex_value (digit_char v)) v) v digit_char_table h)
