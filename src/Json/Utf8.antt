-- ===== src/Json/Utf8.antt =====
-- valid_utf8, put_utf8 and char_pos of src/rmbl_json.cpp. `unsigned` is 32-bit.
mod Character
pub mod Encoding
pub mod Places
use rmorie_bricklayer.Prelude.{
  ℕ, zero, suc, ◌+◌, ◌-◌, ◌*◌, ◌/◌, ◌%◌, ◌^◌, bit_and, bit_or, Bool, true, false, ◌&&◌, ◌||◌, not,
  List, [], ◌∷◌, Option, none, some, length, take, drop, ltb, leb, ◌==◌, if◌then◌else◌,
}

-- The length of a character and the bits of its first byte, by that byte.
unfoldable pub lead : ℕ → Option (ℕ × ℕ)
lead c =
    if bit_and c 0xe0 == 0xc0
    then some (2, bit_and c 0x1f)
    else if bit_and c 0xf0 == 0xe0
    then some (3, bit_and c 0x0f)
    else if bit_and c 0xf8 == 0xf0
    then some (4, bit_and c 0x07)
    else none

-- The loop over the other bytes of a character.
unfoldable pub continuations : List ℕ → ℕ → Option ℕ
continuations [] cp = some cp
continuations (b ∷ q) cp =
    let rest = continuations q (bit_or (cp * 2 ^ 6 % 2 ^ 32) (bit_and b 0x3f)) in
    if not (bit_and b 0xc0 == 0x80) then none else rest

-- The characters that are refused: overlong, past the last one, or half of a surrogate pair.
unfoldable pub refused : ℕ → ℕ → Bool
refused len cp =
    (len == 2 && ltb cp 0x80)
    || (len == 3 && ltb cp 0x800)
    || (len == 4 && ltb cp 0x10000)
    || ltb 0x10ffff cp
    || (leb 0xd800 cp && leb cp 0xdfff)

-- The length of the character that starts with `c`, if it is one.
unfoldable pub character : ℕ → List ℕ → Option ℕ
unfolding lead continuations refused
character c q = if ltb c 0x80 then some 1 else elim (lead c) [
  | none ↦ none
  | some (len, cp0) ↦
      if ltb (length q + 1) len then none else elim (continuations (take (len - 1) q) cp0) [
        | none ↦ none
        | some cp ↦ if refused len cp then none else some len
      ]
]

-- The loop of valid_utf8; a round takes at least one byte.
unfoldable pub valid_loop : ℕ → List ℕ → Bool
unfolding character
valid_loop fuel [] = true
valid_loop zero (c ∷ q) = false
valid_loop (suc fuel) (c ∷ q) = elim (character c q) [
  | none ↦ false
  | some len ↦ valid_loop fuel (drop (len - 1) q)
]

unfoldable pub valid_utf8 : List ℕ → Bool
unfolding valid_loop
valid_utf8 s = valid_loop (length s) s

-- `static_cast<char>`
abbrev pub u8 : ℕ → ℕ
u8 x = x % 2 ^ 8

-- The bytes that put_utf8 writes.
unfoldable pub put_utf8 : ℕ → List ℕ
put_utf8 cp =
    if ltb cp 0x80
    then u8 cp ∷ []
    else if ltb cp 0x800
    then u8 (bit_or 0xc0 (cp / 2 ^ 6)) ∷ u8 (bit_or 0x80 (bit_and cp 0x3f)) ∷ []
    else if ltb cp 0x10000
    then u8 (bit_or 0xe0 (cp / 2 ^ 12))
      ∷ u8 (bit_or 0x80 (bit_and (cp / 2 ^ 6) 0x3f))
      ∷ u8 (bit_or 0x80 (bit_and cp 0x3f))
      ∷ []
    else u8 (bit_or 0xf0 (cp / 2 ^ 18))
      ∷ u8 (bit_or 0x80 (bit_and (cp / 2 ^ 12) 0x3f))
      ∷ u8 (bit_or 0x80 (bit_and (cp / 2 ^ 6) 0x3f))
      ∷ u8 (bit_or 0x80 (bit_and cp 0x3f))
      ∷ []

-- The loop of char_pos over the bytes before a place.
unfoldable pub count_characters : List ℕ → ℕ → ℕ
count_characters [] c = c
count_characters (b ∷ q) c = count_characters q (if bit_and b 0xc0 == 0x80 then c else c + 1)

unfoldable pub char_pos : List ℕ → ℕ → ℕ
unfolding count_characters
char_pos p place = count_characters (take place p) 0 + 1
