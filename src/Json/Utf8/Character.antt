-- ===== src/Json/Utf8/Character.antt =====
-- One character of valid_utf8 in src/rmbl_json.cpp, without bit operations.
use rmorie_bricklayer.Prelude.{
  ℕ, ◌+◌, ◌-◌, ◌*◌, ◌%◌, ◌^◌, ◌≤◌, ◌<◌, ◌≡◌, refl, ap, ◌∙◌, inl, inr, bit_and, bit_or, Bool, true,
  false, ◌&&◌, not, List, [], ◌∷◌, Option, none, some, length, length-take, take, ltb, leb, ◌==◌,
  if◌then◌else◌, arith, Bool-cases,
}
use mathlib.Core.Path.{ap₂}
use native.Mathlib.Nat.{mod-eq_of_lt}
use rmorie_bricklayer.Prelude.Bytes.{IsBytes, IsBytes-take, all_below, all_below_sound}
use rmorie_bricklayer.Prelude.Bits.{bit_and_mask, bit_or_fields}
use rmorie_bricklayer.Json.Utf8.{lead, continuations, refused, character}

iff : Bool → Bool → Bool
iff true b = b
iff false b = not b

iff_sound : (a b : Bool) → iff a b ≡ true → a ≡ b
unfolding iff
iff_sound true true h = refl
iff_sound true false h = cc
iff_sound false true h = cc
iff_sound false false h = refl

-- Two tests that agree on every byte.
agree :
    (f g : ℕ → Bool) → all_below 256 (λ c. iff (f c) (g c)) ≡ true → (c : ℕ) → c < 256 → f c ≡ g c
agree f g table c h = iff_sound (f c) (g c) (all_below_sound 256 (λ c. iff (f c) (g c)) c table h)

abbrev pub between : ℕ → ℕ → ℕ → Bool
between lo hi c = leb lo c && ltb c hi

two_table : all_below 256 (λ c. iff (bit_and c 0xe0 == 0xc0) (between 192 224 c)) ≡ true
unfolding all_below iff
two_table = refl

three_table : all_below 256 (λ c. iff (bit_and c 0xf0 == 0xe0) (between 224 240 c)) ≡ true
unfolding all_below iff
three_table = refl

four_table : all_below 256 (λ c. iff (bit_and c 0xf8 == 0xf0) (between 240 248 c)) ≡ true
unfolding all_below iff
four_table = refl

next_table : all_below 256 (λ c. iff (bit_and c 0xc0 == 0x80) (between 128 192 c)) ≡ true
unfolding all_below iff
next_table = refl

pub continues_lem : (b : ℕ) → b < 256 → (bit_and b 0xc0 == 0x80) ≡ between 128 192 b
continues_lem b h = agree (λ c. bit_and c 0xc0 == 0x80) (between 128 192) next_table b h

abbrev pub plain_lead : ℕ → Option (ℕ × ℕ)
plain_lead c =
    if between 192 224 c
    then some (2, c % 32)
    else if between 224 240 c
    then some (3, c % 16)
    else if between 240 248 c
    then some (4, c % 8)
    else none

lead_lem : (c : ℕ) → c < 256 → lead c ≡ plain_lead c
unfolding lead
lead_lem c h = rw (
  agree (λ c. bit_and c 0xe0 == 0xc0) (between 192 224) two_table c h,
  agree (λ c. bit_and c 0xf0 == 0xe0) (between 224 240) three_table c h,
  agree (λ c. bit_and c 0xf8 == 0xf0) (between 240 248) four_table c h,
  bit_and_mask 5 c,
  bit_and_mask 4 c,
  bit_and_mask 3 c,
)

-- The value of the bytes after the first, if each is one of those.
abbrev pub plain_rest : List ℕ → ℕ → Option ℕ
plain_rest [] cp = some cp
plain_rest (b ∷ q) cp = if between 128 192 b then plain_rest q (cp * 64 + (b - 128)) else none

continuations-cons :
    (b : ℕ) (q : List ℕ) (cp : ℕ)
    → b < 256
    → cp < 2 ^ 26
    → continuations (b ∷ q) cp
      ≡ (if between 128 192 b then continuations q (cp * 64 + (b - 128)) else none)
unfolding continuations
continuations-cons b q cp hb hc = rw (continues_lem b hb) (elim (Bool-cases (between 128 192 b)) [
  | inl yes_next ↦ rw yes_next (
      ap (continuations q) (
        ap₂ bit_or (mod-eq_of_lt {n = cp * 2 ^ 6} {m = 2 ^ 32} (omega arith)) (bit_and_mask 6 b)
        ∙ bit_or_fields 6 cp (b % 64) (omega arith)
        ∙ ap (λ (x : ℕ). cp * 64 + x) (ground arith)))
  | inr not_next ↦ rw not_next
])

then-eq :
    {A : Type 0} (t : Bool) {x y : A} (z : A)
    → (t ≡ true → x ≡ y)
    → (if t then x else z) ≡ (if t then y else z)
then-eq true z h = h refl
then-eq false z h = refl

rest_step :
    (b : ℕ) (q : List ℕ) (cp : ℕ)
    → b < 256
    → cp < 2 ^ 26
    → (continuations q (cp * 64 + (b - 128)) ≡ plain_rest q (cp * 64 + (b - 128)))
    → continuations (b ∷ q) cp ≡ plain_rest (b ∷ q) cp
rest_step b q cp hb hc ih =
    continuations-cons b q cp hb hc ∙ then-eq (between 128 192 b) none (λ _. ih)

one_more : (b cp : ℕ) → b < 256 → cp < 2 ^ 26 → continuations (b ∷ []) cp ≡ plain_rest (b ∷ []) cp
unfolding continuations
one_more b cp hb hc = rest_step b [] cp hb hc refl

-- At most three bytes follow.
pub continuations_lem :
    (q : List ℕ) (cp : ℕ)
    → IsBytes q
    → length q ≤ 3
    → cp < 32
    → continuations q cp ≡ plain_rest q cp
unfolding continuations
continuations_lem [] cp hq short lt = refl
continuations_lem (b ∷ []) cp (hb, hq) short lt = one_more b cp hb (omega arith)
continuations_lem (b ∷ c ∷ []) cp (hb, (hc, hq)) short lt =
    rest_step b (c ∷ []) cp hb (omega arith) (one_more c (cp * 64 + (b - 128)) hc (omega arith))
continuations_lem (b ∷ c ∷ d ∷ []) cp (hb, (hc, (hd, hq))) short lt =
    let cp' = cp * 64 + (b - 128) in
    rest_step b (c ∷ d ∷ []) cp hb (omega arith) (
      rest_step c (d ∷ []) cp' hc (omega arith)
        (one_more d (cp' * 64 + (c - 128)) hd (omega arith)))
continuations_lem (b ∷ c ∷ d ∷ e ∷ q) cp hq short lt = absurd (omega arith)

-- The same without bit operations.
abbrev pub plain_character : ℕ → List ℕ → Option ℕ
plain_character c q = if ltb c 128 then some 1 else elim (plain_lead c) [
  | none ↦ none
  | some (len, cp0) ↦
      if ltb (length q + 1) len then none else elim (plain_rest (take (len - 1) q) cp0) [
        | none ↦ none
        | some cp ↦ if refused len cp then none else some len
      ]
]

lead-bounds :
    (c : ℕ) → {len cp : ℕ} → plain_lead c ≡ some (len, cp) → (2 ≤ len) × (len ≤ 4) × (cp < 32)
lead-bounds c h = ground arith

module _ (q : List ℕ) (hq : IsBytes q) where
  abbrev decoded : (List ℕ → ℕ → Option ℕ) → Option (ℕ × ℕ) → Option ℕ
  decoded read o = elim o [
    | none ↦ none
    | some (len, cp0) ↦
        if ltb (length q + 1) len then none else elim (read (take (len - 1) q) cp0) [
          | none ↦ none
          | some cp ↦ if refused len cp then none else some len
        ]
  ]

  decoded_lem :
      (o : Option (ℕ × ℕ))
      → ((len cp : ℕ) → o ≡ some (len, cp) → (len ≤ 4) × (cp < 32))
      → decoded continuations o ≡ decoded plain_rest o
  decoded_lem none h = refl
  decoded_lem (some (len, cp)) h =
      ap
        (λ (r : Option ℕ).
          if ltb (length q + 1) len
          then none
          else elim r [ none ↦ none | some cp ↦ if refused len cp then none else some len ])
        (continuations_lem (take (len - 1) q) cp (IsBytes-take (len - 1) q hq)
          (omega (arith, length-take (len - 1) q, (h len cp refl).0)) (h len cp refl).1)

  pub character_lem : (c : ℕ) → c < 256 → character c q ≡ plain_character c q
  unfolding character
  character_lem c hc = elim (Bool-cases (ltb c 128)) [
    | inl ascii ↦ rw ascii
    | inr wide ↦
        rw (wide, lead_lem c hc)
          (decoded_lem (plain_lead c) (λ len cp e. let b = lead-bounds c e in (b.1, b.2)))
  ]
