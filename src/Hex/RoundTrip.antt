-- ===== src/Hex/RoundTrip.antt =====
-- `unhexlify` reads back what `hexlify` writes, and accepts exactly the strings of hex digits.
use rmorie_bricklayer.Prelude.{
  ℕ, ◌+◌, ◌*◌, ◌/◌, ◌^◌, ◌%◌, ◌<◌, ◌≤◌, ◌≡◌, ◌≢◌, refl, ◌∙◌, ap, bit_or, ◌==◌, List, [], ◌∷◌,
  if◌then◌else◌, Option, none, some, arith,
}
use mathlib.Core.Path.{ap₂}
use rmorie_bricklayer.Prelude.Bits.{bit_or_fields, le-bit_or}
use rmorie_bricklayer.Prelude.Bytes.{IsBytes}
use rmorie_bricklayer.Hex.{hexlify, unhexlify, unhex_loop, unhex_digit, hex_digit, u32}
use rmorie_bricklayer.Hex.Digit.{
  hex_value, digit_result, hex_digit_lem, unhex_digit_lem, hex_value-digit_char,
}

-- The specification: pairs of digits, a last odd character being left out.
abbrev pub pair : Option ℕ → Option ℕ → Option (List ℕ) → Option (List ℕ)
pair (some hi) (some lo) (some out) = some ((hi * 16 + lo) ∷ out)
pair _ _ _ = none

abbrev pub decode : List ℕ → Option (List ℕ)
decode [] = some []
decode (c ∷ []) = some []
decode (c1 ∷ c2 ∷ s) = pair (hex_value c1) (hex_value c2) (decode s)

hex_value-lt : (c : ℕ) {v : ℕ} → hex_value c ≡ some v → v < 16
hex_value-lt c h = ground arith

-- Once `bad` is set it stays set.
loop_bad : (s : List ℕ) (bad : ℕ) → bad ≢ 0 → (unhex_loop s bad).1 ≢ 0
unfolding unhex_loop
loop_bad [] bad h = h
loop_bad (c ∷ []) bad h = h
loop_bad (c1 ∷ c2 ∷ s) bad h =
    loop_bad s _ (λ e. h (omega (arith, keeps c1 bad, keeps c2 (unhex_digit c1 bad).1, e)))
  where
    keeps : (c b : ℕ) → b ≤ (unhex_digit c b).1
    keeps c b = unfold unhex_digit in le-bit_or b _

-- What the loop gives, by what the string decodes to.
abbrev Agrees : Option (List ℕ) → List ℕ × ℕ → Type 0
Agrees none r = r.1 ≢ 0
Agrees (some out) r = (r.0 ≡ out) × (r.1 ≡ 0)

byte_of_digits :
    (hi lo : ℕ) → hi < 16 → lo < 16 → bit_or (u32 (hi * 2 ^ 4)) lo % 2 ^ 8 ≡ hi * 16 + lo
byte_of_digits hi lo p q =
    ap (λ (t : ℕ). bit_or t lo % 2 ^ 8) (let e : u32 (hi * 2 ^ 4) ≡ hi * 2 ^ 4 = omega arith in e)
    ∙ ap (λ (t : ℕ). t % 2 ^ 8) (bit_or_fields 4 hi lo q)
    ∙ omega arith

-- The bad bits of two characters, none of them set before.
abbrev two_bad : Option ℕ → Option ℕ → ℕ
two_bad x y = bit_or (bit_or 0 (digit_result x).1) (digit_result y).1

loop_step :
    (x y : Option ℕ) (s : List ℕ)
    → ((v : ℕ) → x ≡ some v → v < 16)
    → ((v : ℕ) → y ≡ some v → v < 16)
    → Agrees (decode s) (unhex_loop s 0)
    → let r = unhex_loop s (two_bad x y) in
      Agrees
        (pair x y (decode s))
        (bit_or (u32 ((digit_result x).0 * 2 ^ 4)) (digit_result y).0 % 2 ^ 8 ∷ r.0, r.1)
loop_step none none s p q ih = loop_bad s _ (omega arith)
loop_step none (some v) s p q ih = loop_bad s _ (omega arith)
loop_step (some u) none s p q ih = loop_bad s _ (omega arith)
loop_step (some u) (some v) s p q ih = go (decode s) ih
  where
    go :
        (o : Option (List ℕ))
        → Agrees o (unhex_loop s 0)
        → Agrees
            (pair (some u) (some v) o)
            (bit_or (u32 (u * 2 ^ 4)) v % 2 ^ 8 ∷ (unhex_loop s 0).0, (unhex_loop s 0).1)
    go none h = h
    go (some out) h = (ap₂ ◌∷◌ (byte_of_digits u v (p u refl) (q v refl)) h.0, h.1)

loop_lem : (s : List ℕ) → IsBytes s → Agrees (decode s) (unhex_loop s 0)
unfolding unhex_loop
loop_lem [] h = (refl, refl)
loop_lem (c ∷ []) h = (refl, refl)
loop_lem (c1 ∷ c2 ∷ s) h =
    let a = unhex_digit_lem c1 0 h.0 in
    let b = unhex_digit_lem c2 (unhex_digit c1 0).1 h.1.0 in
    rw (a.0, b.0, b.1, a.1)
      (loop_step (hex_value c1) (hex_value c2) s (λ v e. hex_value-lt c1 e)
        (λ v e. hex_value-lt c2 e) (loop_lem s h.1.1))

-- `unhexlify` decodes pairs of hex digits, upper or lower case, and refuses every string in which a
-- character of a pair is not one.
pub unhexlify_lem : (s : List ℕ) → IsBytes s → unhexlify s ≡ decode s
unfolding unhexlify
unhexlify_lem s h = go (decode s) (loop_lem s h)
  where
    r : List ℕ × ℕ
    r = unhex_loop s 0

    go : (o : Option (List ℕ)) → Agrees o r → (if r.1 == 0 then some r.0 else none) ≡ o
    go none a = ground arith
    go (some out) a = ground arith

decode-hexlify : (b : List ℕ) → IsBytes b → decode (hexlify b) ≡ some b
unfolding hexlify
decode-hexlify [] h = refl
decode-hexlify (x ∷ b) h =
    rw
      (
        hex_digit_lem (x / 2 ^ 4) (omega arith),
        hex_digit_lem x h.0,
        hex_value-digit_char (x / 2 ^ 4 % 16) (omega arith),
        hex_value-digit_char (x % 16) (omega arith),
        decode-hexlify b h.1,
      )
      (ap (λ (t : ℕ). some (t ∷ b)) (omega arith))

hexlify-IsBytes : (b : List ℕ) → IsBytes (hexlify b)
unfolding hexlify hex_digit
hexlify-IsBytes [] = tt
hexlify-IsBytes (x ∷ b) = (omega arith, (omega arith, hexlify-IsBytes b))

-- The bytes that `hexlify` writes as text are read back by `unhexlify`.
pub unhexlify-hexlify : (b : List ℕ) → IsBytes b → unhexlify (hexlify b) ≡ some b
unhexlify-hexlify b h = unhexlify_lem (hexlify b) (hexlify-IsBytes b) ∙ decode-hexlify b h
