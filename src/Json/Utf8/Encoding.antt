-- ===== src/Json/Utf8/Encoding.antt =====
-- valid_utf8 of src/rmbl_json.cpp accepts the texts that put_utf8 writes for lists of characters.
use rmorie_bricklayer.Prelude.{
  ℕ, zero, suc, ◌+◌, ◌-◌, ◌*◌, ◌/◌, ◌%◌, ◌^◌, ◌≤◌, ◌<◌, ◌≡◌, refl, ap, sym, ◌∙◌, ◌↔◌, inl, inr, ◌⊎◌,
  bit_and, bit_or, Bool, true, false, ◌&&◌, List, [], ◌∷◌, ◌++◌, some, length, length-append, drop,
  drop-append, ltb, ◌==◌, if◌then◌else◌, arith, ==_iff, Bool-cases, Option-cases,
}
use mathlib.Core.Path.{ap₂}
use rmorie_bricklayer.Prelude.Bytes.{
  IsBytes, IsBytes-append, IsBytes-drop, all_below, all_below_sound,
}
use rmorie_bricklayer.Prelude.Bits.{bit_and_mask}
use rmorie_bricklayer.Json.Utf8.Character.{between, plain_character, character_lem}
use rmorie_bricklayer.Json.Utf8.{refused, valid_loop, valid_utf8, put_utf8}

-- A character of Unicode: a code point that is no half of a surrogate pair.
abbrev pub IsScalar : ℕ → Type 0
IsScalar cp = (cp ≤ 0x10ffff) × ((cp < 0xd800) ⊎ (0xdfff < cp))

abbrev pub AreScalars : List ℕ → Type 0
AreScalars [] = Unit
AreScalars (cp ∷ cps) = IsScalar cp × AreScalars cps

-- The text of a list of characters.
unfoldable pub utf8 : List ℕ → List ℕ
utf8 [] = []
utf8 (cp ∷ cps) = put_utf8 cp ++ utf8 cps

-- The encoding without bit operations, by the number of bytes.
abbrev tail_byte : ℕ → ℕ
tail_byte x = 128 + x % 64

abbrev bytes2 : ℕ → List ℕ
bytes2 cp = (192 + cp / 64) ∷ tail_byte cp ∷ []

abbrev bytes3 : ℕ → List ℕ
bytes3 cp = (224 + cp / 4096) ∷ tail_byte (cp / 64) ∷ tail_byte cp ∷ []

abbrev bytes4 : ℕ → List ℕ
bytes4 cp = (240 + cp / 262144) ∷ tail_byte (cp / 4096) ∷ tail_byte (cp / 64) ∷ tail_byte cp ∷ []

unfoldable pub plain_bytes : ℕ → List ℕ
plain_bytes cp =
    if ltb cp 128
    then cp ∷ []
    else if ltb cp 2048
    then bytes2 cp
    else if ltb cp 65536
    then bytes3 cp
    else bytes4 cp

marked_table :
    all_below 64 (λ b. bit_or 0x80 b % 256 == 128 + b)
      && all_below 32 (λ b. bit_or 0xc0 b % 256 == 192 + b)
      && all_below 16 (λ b. bit_or 0xe0 b % 256 == 224 + b)
      && all_below 8 (λ b. bit_or 0xf0 b % 256 == 240 + b)
    ≡ true
unfolding all_below
marked_table = refl

&&_split : (a b : Bool) → (a && b) ≡ true → (a ≡ true) × (b ≡ true)
&&_split true b h = (refl, h)
&&_split false b h = cc

marks :
    (b : ℕ)
    → (b < 64 → bit_or 0x80 b % 256 ≡ 128 + b)
      × (b < 32 → bit_or 0xc0 b % 256 ≡ 192 + b)
      × (b < 16 → bit_or 0xe0 b % 256 ≡ 224 + b)
      × (b < 8 → bit_or 0xf0 b % 256 ≡ 240 + b)
marks b =
    let h = marked_table in
    let a = &&_split _ _ h in
    let c = &&_split _ _ a.0 in
    let d = &&_split _ _ c.0 in
    (
      λ lt. (==_iff _ _).0 (all_below_sound 64 (λ b. bit_or 0x80 b % 256 == 128 + b) b d.0 lt),
      λ lt. (==_iff _ _).0 (all_below_sound 32 (λ b. bit_or 0xc0 b % 256 == 192 + b) b d.1 lt),
      λ lt. (==_iff _ _).0 (all_below_sound 16 (λ b. bit_or 0xe0 b % 256 == 224 + b) b c.1 lt),
      λ lt. (==_iff _ _).0 (all_below_sound 8 (λ b. bit_or 0xf0 b % 256 == 240 + b) b a.1 lt),
    )

tail_byte_lem : (x : ℕ) → bit_or 0x80 (bit_and x 0x3f) % 2 ^ 8 ≡ tail_byte x
tail_byte_lem x =
    ap (λ (y : ℕ). bit_or 0x80 y % 256) (bit_and_mask 6 x) ∙ (marks (x % 64)).0 (omega arith)

pub put_utf8_lem : (cp : ℕ) → cp ≤ 0x10ffff → put_utf8 cp ≡ plain_bytes cp
unfolding put_utf8 plain_bytes
put_utf8_lem cp le = ground (
  arith,
  tail_byte_lem cp,
  tail_byte_lem (cp / 64),
  tail_byte_lem (cp / 4096),
  (marks (cp / 64)).1,
  (marks (cp / 4096)).2,
  (marks (cp / 262144)).3,
)

-- The bytes `c ∷ q` start with a character of `len` bytes.
abbrev StartsWith : ℕ → List ℕ → ℕ → Type 0
StartsWith c q len =
    (cp : ℕ) × IsScalar cp × (1 ≤ len) × (c ∷ q ≡ plain_bytes cp ++ drop (len - 1) q)

sound_one : (c : ℕ) (q : List ℕ) → c < 128 → StartsWith c q 1
unfolding plain_bytes
sound_one c q h = (c, ground arith, omega arith, ground arith)

sound_two :
    (c : ℕ) (q : List ℕ) (len : ℕ)
    → between 192 224 c ≡ true
    → plain_character c q ≡ some len
    → StartsWith c q len
unfolding plain_bytes refused
sound_two c [] len hc h = ground arith
sound_two c (b ∷ q) len hc h =
    let e : len ≡ 2 = ground arith in
    rw e ((c % 32 * 64 + (b - 128), ground arith, omega arith, ground arith))

sound_three :
    (c : ℕ) (q : List ℕ) (len : ℕ)
    → between 224 240 c ≡ true
    → plain_character c q ≡ some len
    → StartsWith c q len
unfolding plain_bytes refused
sound_three c [] len hc h = ground arith
sound_three c (b ∷ []) len hc h = ground arith
sound_three c (b ∷ d ∷ q) len hc h =
    let e : len ≡ 3 = ground arith in
    let cp = (c % 16 * 64 + (b - 128)) * 64 + (d - 128) in
    rw e ((cp, ground arith, omega arith, ground arith))

sound_four :
    (c : ℕ) (q : List ℕ) (len : ℕ)
    → between 240 248 c ≡ true
    → plain_character c q ≡ some len
    → StartsWith c q len
unfolding plain_bytes refused
sound_four c [] len hc h = ground arith
sound_four c (b ∷ []) len hc h = ground arith
sound_four c (b ∷ d ∷ []) len hc h = ground arith
sound_four c (b ∷ d ∷ e ∷ q) len hc h =
    let eq : len ≡ 4 = ground arith in
    let cp = ((c % 8 * 64 + (b - 128)) * 64 + (d - 128)) * 64 + (e - 128) in
    rw eq ((cp, ground arith, omega arith, ground arith))

character_sound :
    (c : ℕ) (q : List ℕ) (len : ℕ) → plain_character c q ≡ some len → StartsWith c q len
character_sound c q len h = elim (Bool-cases (ltb c 128)) [
  | inl ascii ↦ let e : len ≡ 1 = ground arith in rw e (sound_one c q (ground arith))
  | inr wide ↦ elim (Bool-cases (between 192 224 c)) [
    | inl two ↦ sound_two c q len two h
    | inr over2 ↦ elim (Bool-cases (between 224 240 c)) [
      | inl three ↦ sound_three c q len three h
      | inr over3 ↦ elim (Bool-cases (between 240 248 c)) [
        | inl four ↦ sound_four c q len four h
        | inr over4 ↦ absurd (ground arith)
      ]
    ]
  ]
]

-- A written character is read with its length.
abbrev head_of : List ℕ → ℕ
head_of [] = 0
head_of (c ∷ q) = c

character_complete :
    (cp : ℕ) (rest : List ℕ)
    → IsScalar cp
    → (c : ℕ) × (q : List ℕ) × (plain_bytes cp ≡ c ∷ q)
      × (plain_character c (q ++ rest) ≡ some (length q + 1))
unfolding plain_bytes refused
character_complete cp rest h = elim (Bool-cases (ltb cp 128)) [
  | inl one ↦ (cp, [], ground arith, ground arith)
  | inr over1 ↦ elim (Bool-cases (ltb cp 2048)) [
    | inl two ↦ (192 + cp / 64, tail_byte cp ∷ [], ground arith, ground arith)
    | inr over2 ↦ elim (Bool-cases (ltb cp 65536)) [
      | inl three ↦
          (224 + cp / 4096, tail_byte (cp / 64) ∷ tail_byte cp ∷ [], ground arith, ground arith)
      | inr over3 ↦ (
        240 + cp / 262144,
        tail_byte (cp / 4096) ∷ tail_byte (cp / 64) ∷ tail_byte cp ∷ [],
        ground arith,
        ground arith,
      )
    ]
  ]
]

loop_sound :
    (fuel : ℕ) (s : List ℕ)
    → IsBytes s
    → valid_loop fuel s ≡ true
    → (cps : List ℕ) × AreScalars cps × (s ≡ utf8 cps)
unfolding valid_loop utf8
loop_sound fuel [] hs h = ([], tt, refl)
loop_sound zero (c ∷ q) hs h = cc
loop_sound (suc fuel) (c ∷ q) (hc, hq) h = elim (Option-cases (plain_character c q)) [
  | inl bad ↦ let h' = rw (valid_loop, character_lem q hq c hc, bad) at h in cc
  | inr (len, one) ↦
      let (cp, scalar, pos, e) = character_sound c q len one in
      let h' = rw (valid_loop, character_lem q hq c hc, one) at h in
      let (cps, all, e') = loop_sound fuel (drop (len - 1) q) (IsBytes-drop (len - 1) q hq) h' in
      (
        cp ∷ cps,
        (scalar, all),
        e ∙ ap₂ (λ (xs ys : List ℕ). xs ++ ys) (sym (put_utf8_lem cp scalar.0)) e',
      )
]

plain_bytes-IsBytes : (cp : ℕ) → cp ≤ 0x10ffff → IsBytes (plain_bytes cp)
unfolding plain_bytes
plain_bytes-IsBytes cp le = ground arith

pub utf8-IsBytes : (cps : List ℕ) → AreScalars cps → IsBytes (utf8 cps)
unfolding utf8
utf8-IsBytes [] h = tt
utf8-IsBytes (cp ∷ cps) (scalar, all) =
    IsBytes-append (put_utf8 cp) (utf8 cps)
      (rw (put_utf8_lem cp scalar.0) (plain_bytes-IsBytes cp scalar.0)) (utf8-IsBytes cps all)

one_round :
    (c : ℕ) (q t : List ℕ) (fuel : ℕ)
    → IsBytes (c ∷ (q ++ t))
    → plain_character c (q ++ t) ≡ some (length q + 1)
    → length (c ∷ (q ++ t)) ≤ fuel
    → ((f : ℕ) → length t ≤ f → valid_loop f t ≡ true)
    → valid_loop fuel (c ∷ (q ++ t)) ≡ true
unfolding valid_loop
one_round c q t zero hs one le ih = absurd (omega arith)
one_round c q t (suc fuel) hs one le ih =
    rw
      (
        valid_loop,
        character_lem (q ++ t) hs.1 c hs.0,
        one,
        drop-append (length q + 1 - 1) q t (omega arith),
      )
      (ih fuel (omega (arith, length-append q t)))

loop_complete :
    (cps : List ℕ) (fuel : ℕ)
    → AreScalars cps
    → length (utf8 cps) ≤ fuel
    → valid_loop fuel (utf8 cps) ≡ true
unfolding utf8 valid_loop
loop_complete [] fuel h le = refl
loop_complete (cp ∷ cps) fuel (scalar, all) le =
    let (c, q, e, one) = character_complete cp (utf8 cps) scalar in
    let whole = put_utf8_lem cp scalar.0 ∙ e in
    let bytes = rw whole at (utf8-IsBytes (cp ∷ cps) (scalar, all)) in
    rw whole (
      one_round c q (utf8 cps) fuel bytes one (rw whole at le) (λ f lf. loop_complete cps f all lf))

-- For every string of bytes valid_utf8 says true exactly when the string is what put_utf8 writes
-- for a list of characters of Unicode, none of which is half of a surrogate pair.
pub valid_utf8_lem :
    (s : List ℕ)
    → IsBytes s
    → (valid_utf8 s ≡ true) ↔ ((cps : List ℕ) × AreScalars cps × (s ≡ utf8 cps))
unfolding valid_utf8
valid_utf8_lem s hs = (
  loop_sound (length s) s hs,
  λ (cps, all, e). rw e (loop_complete cps (length (utf8 cps)) all (omega arith)),
)
