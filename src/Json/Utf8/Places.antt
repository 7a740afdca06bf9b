-- ===== src/Json/Utf8/Places.antt =====
-- char_pos of src/rmbl_json.cpp: the bytes before a place, counted by the characters that start there.
use rmorie_bricklayer.Prelude.{
  ℕ, zero, suc, ◌+◌, ◌-◌, ◌/◌, ◌%◌, ◌≤◌, ◌<◌, ◌≡◌, refl, ap, ◌∙◌, inl, inr, ◌⊎◌, bit_and, true,
  false, List, [], ◌∷◌, ◌++◌, length, take, ltb, ◌==◌, if◌then◌else◌, arith, Bool-cases,
}
use rmorie_bricklayer.Json.Utf8.Character.{continues_lem}
use rmorie_bricklayer.Json.Utf8.Encoding.{AreScalars, IsScalar, utf8, plain_bytes, put_utf8_lem}
use rmorie_bricklayer.Json.Utf8.{count_characters, char_pos, put_utf8}

-- How many of the characters start within the first `n` bytes of their text.
unfoldable pub starting : ℕ → List ℕ → ℕ
starting n [] = 0
starting n (cp ∷ cps) =
    let rest = starting (n - length (put_utf8 cp)) cps in if ltb 0 n then 1 + rest else 0

pub starting-le : (n : ℕ) (cps : List ℕ) → starting n cps ≤ length cps
unfolding starting
starting-le n [] = omega arith
starting-le n (cp ∷ cps) = ground (arith, starting-le (n - length (put_utf8 cp)) cps)

-- Bytes after the first one of a character.
abbrev AreTails : List ℕ → Type 0
AreTails [] = Unit
AreTails (b ∷ q) = (128 ≤ b) × (b < 192) × AreTails q

count_tail :
    (b c : ℕ) (q : List ℕ) → 128 ≤ b → b < 192 → count_characters (b ∷ q) c ≡ count_characters q c
unfolding count_characters
count_tail b c q lo hi =
    let inside : (bit_and b 0xc0 == 0x80) ≡ true = continues_lem b (omega arith) ∙ ground arith in
    rw (count_characters, inside) refl

count_first :
    (b c : ℕ) (q : List ℕ)
    → (b < 128) ⊎ (192 ≤ b)
    → b < 256
    → count_characters (b ∷ q) c ≡ count_characters q (c + 1)
unfolding count_characters
count_first b c q out hi =
    let first : (bit_and b 0xc0 == 0x80) ≡ false = continues_lem b hi ∙ ground arith in
    rw (count_characters, first) refl

count_tails :
    (ts rest : List ℕ) (n c : ℕ)
    → AreTails ts
    → count_characters (take n (ts ++ rest)) c ≡ count_characters (take (n - length ts) rest) c
unfolding count_characters
count_tails [] rest n c h =
    ap (λ (k : ℕ). count_characters (take k rest) c) (let e : n ≡ n - 0 = omega arith in e)
count_tails (b ∷ ts) rest zero c h =
    ap (λ (k : ℕ). count_characters (take k rest) c)
      (let e : 0 ≡ 0 - suc (length ts) = omega arith in e)
count_tails (b ∷ ts) rest (suc n) c (lo, hi, h) =
    count_tail b c (take n (ts ++ rest)) lo hi
    ∙ count_tails ts rest n c h
    ∙ ap (λ (k : ℕ). count_characters (take k rest) c)
        (let e : n - length ts ≡ suc n - suc (length ts) = omega arith in e)

-- A character is one byte that is no tail and then tails.
one_first :
    (cp : ℕ)
    → IsScalar cp
    → (b : ℕ) × (ts : List ℕ) × (plain_bytes cp ≡ b ∷ ts)
      × ((b < 128) ⊎ (192 ≤ b))
      × (b < 256)
      × AreTails ts
unfolding plain_bytes
one_first cp h = elim (Bool-cases (ltb cp 128)) [
  | inl one ↦ (cp, [], ground arith, ground arith, ground arith, tt)
  | inr over1 ↦ elim (Bool-cases (ltb cp 2048)) [
    | inl two ↦ (
      192 + cp / 64,
      (128 + cp % 64) ∷ [],
      ground arith,
      inr (omega arith),
      ground arith,
      (omega arith, omega arith, tt),
    )
    | inr over2 ↦ elim (Bool-cases (ltb cp 65536)) [
      | inl three ↦ (
        224 + cp / 4096,
        (128 + cp / 64 % 64) ∷ (128 + cp % 64) ∷ [],
        ground arith,
        inr (omega arith),
        ground arith,
        (omega arith, omega arith, (omega arith, omega arith, tt)),
      )
      | inr over3 ↦ (
        240 + cp / 262144,
        (128 + cp / 4096 % 64) ∷ (128 + cp / 64 % 64) ∷ (128 + cp % 64) ∷ [],
        ground arith,
        inr (omega arith),
        ground arith,
        (omega arith, omega arith, (omega arith, omega arith, (omega arith, omega arith, tt))),
      )
    ]
  ]
]

count_starting :
    (cps : List ℕ) (n c : ℕ)
    → AreScalars cps
    → count_characters (take n (utf8 cps)) c ≡ c + starting n cps
unfolding count_characters starting utf8
count_starting [] zero c h = omega arith
count_starting [] (suc n) c h = omega arith
count_starting (cp ∷ cps) zero c h = ground arith
count_starting (cp ∷ cps) (suc n) c (scalar, all) =
    let (b, ts, e, out, hi, tails) = one_first cp scalar in
    let whole = put_utf8_lem cp scalar.0 ∙ e in
    let size : length (put_utf8 cp) ≡ suc (length ts) = ap length whole in
    let left : n - length ts ≡ suc n - length (put_utf8 cp) = omega (arith, size) in
    let more : ltb 0 (suc n) ≡ true = ground arith in
    ap (λ (p : List ℕ). count_characters (take (suc n) (p ++ utf8 cps)) c) whole
    ∙ count_first b c (take n (ts ++ utf8 cps)) out hi
    ∙ count_tails ts (utf8 cps) n (c + 1) tails
    ∙ ap (λ (k : ℕ). count_characters (take k (utf8 cps)) (c + 1)) left
    ∙ count_starting cps (suc n - length (put_utf8 cp)) (c + 1) all
    ∙ rw more (omega arith)

-- In the text of characters the place after `n` bytes has the number of the characters that start
-- before it, and one.
pub char_pos_lem :
    (cps : List ℕ) (n : ℕ) → AreScalars cps → char_pos (utf8 cps) n ≡ starting n cps + 1
unfolding char_pos
char_pos_lem cps n h = ap (λ (k : ℕ). k + 1) (count_starting cps n 0 h ∙ omega arith)
