-- ===== src/Json/Text/Written.antt =====
-- string_ of src/rmbl_json.cpp reads back a string that is written with escapes.
use rmorie_bricklayer.Prelude.{
  ℕ, zero, suc, ◌+◌, ◌-◌, ◌*◌, ◌/◌, ◌%◌, ◌≤◌, ◌<◌, ◌≡◌, refl, ap, ◌∙◌, ◌||◌, true, false, List, [],
  ◌∷◌, ◌++◌, Option, none, some, length, length-append, ltb, leb, ◌==◌, if◌then◌else◌, arith,
  Bool-cases, ==_iff, inl, inr, ◌^◌,
}
use mathlib.Core.List.{append_assoc, append-nil}
use rmorie_bricklayer.Prelude.Bytes.{all_below, all_below_sound}
use rmorie_bricklayer.Json.{Outcome, ok, ◌>>=◌}
use rmorie_bricklayer.Json.Utf8.{put_utf8}
use rmorie_bricklayer.Json.Text.{
  is_special, writes, hexval, hex_digits, hex4, low_half, join, written, unicode, find_end, step,
  decode, read_or_fail, string,
}
use rmorie_bricklayer.Json.Text.Scratch.{step-Progress}
use rmorie_bricklayer.Json.Text.Fast.{
  decoded, step_ordinary, string-eq-decoded, decode-writes, decode_quote, find_end_quote,
}

abbrev hex_char : ℕ → ℕ
hex_char v = if ltb v 10 then b'0' + v else b'a' + v - 10

-- A byte as RFC 8259 wants it in a string: an escape for a quote, a backslash or a control character.
unfoldable pub escaped : ℕ → List ℕ
escaped c =
    if c == b'"' || c == b'\\'
    then b'\\' ∷ c ∷ []
    else if ltb c 0x20
    then b'\\' ∷ b'u' ∷ b'0' ∷ b'0' ∷ hex_char (c / 16) ∷ hex_char (c % 16) ∷ []
    else c ∷ []

unfoldable pub quoted : List ℕ → List ℕ
unfolding escaped
quoted [] = []
quoted (c ∷ s) = escaped c ++ quoted s

abbrev pub NoZero : List ℕ → Type 0
NoZero [] = Unit
NoZero (c ∷ s) = (0 < c) × NoZero s

hexval_table :
    all_below 16 (λ v. elim (hexval (hex_char v)) [ none ↦ false | some w ↦ w == v ]) ≡ true
unfolding all_below hexval
hexval_table = refl

hexval-hex_char : (v : ℕ) → v < 16 → hexval (hex_char v) ≡ some v
hexval-hex_char v h =
    let t =
      all_below_sound 16 (λ v. elim (hexval (hex_char v)) [ none ↦ false | some w ↦ w == v ]) v
        hexval_table h in
    ground arith

hex_step :
    (k x w v : ℕ) (t : List ℕ)
    → hexval x ≡ some w
    → hex_digits (suc k) (x ∷ t) v ≡ hex_digits k t (v * 16 + w)
unfolding hex_digits
hex_step k x w v t e = rw (hex_digits, e)

hex4_byte :
    (c : ℕ) (t : List ℕ)
    → c < 256
    → hex4 (b'0' ∷ b'0' ∷ hex_char (c / 16) ∷ hex_char (c % 16) ∷ t) ≡ some c
unfolding hex4 hexval hex_digits
hex4_byte c t h =
    let h1 = hex_char (c / 16) in
    let h0 = hex_char (c % 16) in
    let long : ltb (suc (suc (suc (suc (length t))))) 4 ≡ false = ground arith in
    rw (hex4, long)
      (hex_step 3 b'0' 0 0 (b'0' ∷ h1 ∷ h0 ∷ t) refl
        ∙ hex_step 2 b'0' 0 0 (h1 ∷ h0 ∷ t) refl
        ∙ hex_step 1 h1 (c / 16) 0 (h0 ∷ t) (hexval-hex_char (c / 16) (omega arith))
        ∙ hex_step 0 h0 (c % 16) (0 * 16 + c / 16) t (hexval-hex_char (c % 16) (omega arith))
        ∙ ap (λ (v : ℕ). some v) (omega arith))

written_small :
    (c : ℕ) (t : List ℕ) → 0 < c → c < 32 → written (join c t (low_half c t)) ≡ writes (c ∷ []) t
unfolding written join low_half put_utf8
written_small c t h less =
    let small : leb 0xd800 c ≡ false = ground arith in
    let one : c % 2 ^ 8 ≡ c = omega arith in
    let nonzero : (c == 0) ≡ false = ground arith in
    let ascii : ltb c 0x80 ≡ true = ground arith in
    rw (low_half, small, written, nonzero, small, put_utf8, ascii, one)

step-unicode : (u : List ℕ) → step (b'\\' ∷ b'u' ∷ u) ≡ unicode u
unfolding step
step-unicode u = refl

unicode_byte :
    (c : ℕ) (t : List ℕ)
    → 0 < c
    → c < 32
    → unicode (b'0' ∷ b'0' ∷ hex_char (c / 16) ∷ hex_char (c % 16) ∷ t) ≡ writes (c ∷ []) t
unfolding unicode
unicode_byte c t h less = rw (unicode, hex4_byte c t (omega arith)) (written_small c t h less)

step_quote :
    (c : ℕ) (t : List ℕ)
    → (c == b'"' || c == b'\\') ≡ true
    → step (b'\\' ∷ c ∷ t) ≡ writes (c ∷ []) t
unfolding step
step_quote c t h = elim (Bool-cases (c == b'"')) [
  | inl quote ↦ rw ((==_iff c b'"').0 quote) refl
  | inr slash ↦ let e : c ≡ b'\\' = ground arith in rw e refl
]

step-escaped : (c : ℕ) (t : List ℕ) → 0 < c → step (escaped c ++ t) ≡ writes (c ∷ []) t
unfolding escaped is_special
step-escaped c t h = elim (Bool-cases (c == b'"' || c == b'\\')) [
  | inl marked ↦ rw (escaped, marked) (step_quote c t marked)
  | inr other ↦ elim (Bool-cases (ltb c 0x20)) [
    | inl control ↦
        rw (escaped, other, control)
          (step-unicode (b'0' ∷ b'0' ∷ hex_char (c / 16) ∷ hex_char (c % 16) ∷ t)
            ∙ unicode_byte c t h (ground arith))
    | inr printed ↦ rw (escaped, other, printed) (step_ordinary c t (ground arith))
  ]
]

-- Where the text is a written string and its closing quote, the loops come to its end and its bytes.
find_end-quoted :
    (s t : List ℕ) (e : ℕ)
    → NoZero s
    → find_end (quoted s ++ b'"' ∷ t) e ≡ some (e + length (quoted s))
unfolding quoted
find_end-quoted [] t e h = find_end_quote b'"' t e refl ∙ ap (λ (n : ℕ). some n) (omega arith)
find_end-quoted (c ∷ s) t e (hc, h) =
    let u = quoted s ++ b'"' ∷ t in
    let (n, (l, f), small, least) =
      step-Progress (escaped c ++ u) (c ∷ []) u (step-escaped c u hc) in
    ap (λ (v : List ℕ). find_end v e) (append_assoc (escaped c) (quoted s) (b'"' ∷ t))
    ∙ f e
    ∙ find_end-quoted s t (e + n) h
    ∙ ap (λ (m : ℕ). some m)
        (omega (arith, length-append (escaped c) u, length-append (escaped c) (quoted s)))

length-escaped : (c : ℕ) → 1 ≤ length (escaped c)
unfolding escaped
length-escaped c = ground arith

decode-quoted :
    (s t out : List ℕ) (fuel size : ℕ)
    → NoZero s
    → length (quoted s) < fuel
    → length out + length (quoted s) ≤ size
    → decode fuel size (quoted s ++ b'"' ∷ t) out ≡ ok (some (out ++ s, t))
unfolding quoted
decode-quoted s t out zero size h lf le = absurd (omega arith)
decode-quoted [] t out (suc fuel) size h lf le =
    rw append-nil (decode_quote b'"' t out fuel size refl)
decode-quoted (c ∷ s) t out (suc fuel) size (hc, h) lf le =
    let u = quoted s ++ b'"' ∷ t in
    let sizes = length-append (escaped c) (quoted s) in
    let one = length-escaped c in
    ap (λ (v : List ℕ). decode (suc fuel) size v out)
      (append_assoc (escaped c) (quoted s) (b'"' ∷ t))
    ∙ decode-writes (escaped c ++ u) (c ∷ []) u out fuel size (step-escaped c u hc) (omega arith)
    ∙ decode-quoted s t (out ++ c ∷ []) fuel size h (omega arith)
        (omega (arith, length-append out (c ∷ [])))
    ∙ ap (λ (v : List ℕ). ok (some (v, t))) (append_assoc out (c ∷ []) s)

-- A string with no zero byte that is written with escapes and its closing quote is read back, and
-- what follows the quote is left.
pub string-quoted : (s t : List ℕ) → NoZero s → string (quoted s ++ b'"' ∷ t) ≡ ok (s, t)
unfolding decoded read_or_fail
string-quoted s t h =
    let u = quoted s ++ b'"' ∷ t in
    string-eq-decoded u
    ∙ rw (decoded, find_end-quoted s t 0 h)
        (ap (λ (r : Outcome (Option (List ℕ × List ℕ))). r >>= read_or_fail u)
          (decode-quoted s t [] (length u + 1) (0 + length (quoted s) + 1) h
            (omega (arith, length-append (quoted s) (b'"' ∷ t))) (omega arith)))
