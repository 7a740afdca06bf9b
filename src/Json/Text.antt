-- ===== src/Json/Text.antt =====
-- string_ of src/rmbl_json.cpp, from the byte after the opening quote on, with hexval and hex4.
-- The scratch of an escaped string is the bytes written so far and its size; a write past the size
-- is `overflow`.
pub mod Scratch
pub mod Fast
pub mod Written
use rmorie_bricklayer.Prelude.{
  ℕ, zero, suc, ◌+◌, ◌-◌, ◌*◌, ◌≡◌, Bool, true, false, ◌&&◌, ◌||◌, not, List, [], ◌∷◌, ◌++◌, Option,
  none, some, length, drop, get_or, ltb, leb, ◌==◌, if◌then◌else◌,
}
use rmorie_bricklayer.Json.{Outcome, ok, failed, overflow, out_of_fuel, ◌>>=◌, bad_string}
use rmorie_bricklayer.Json.Utf8.{put_utf8}

unfoldable pub hexval : ℕ → Option ℕ
hexval c =
    if leb b'0' c && leb c b'9'
    then some (c - b'0')
    else if leb b'a' c && leb c b'f'
    then some (c - b'a' + 10)
    else if leb b'A' c && leb c b'F'
    then some (c - b'A' + 10)
    else none

-- The loop of hex4, with the digits that are left.
unfoldable pub hex_digits : ℕ → List ℕ → ℕ → Option ℕ
unfolding hexval
hex_digits zero t v = some v
hex_digits (suc k) [] v = none
hex_digits (suc k) (c ∷ t) v = elim (hexval c) [
  | none ↦ none
  | some h ↦ hex_digits k t (v * 16 + h)
]

unfoldable pub hex4 : List ℕ → Option ℕ
unfolding hex_digits
hex4 t = if ltb (length t) 4 then none else hex_digits 4 t 0

-- A byte that ends the plain part of a string.
unfoldable pub is_special : ℕ → Bool
is_special c = c == b'"' || c == b'\\' || ltb c 0x20

-- The first loop: the bytes before a special one, and the rest.
unfoldable pub plain : List ℕ → List ℕ × List ℕ
unfolding is_special
plain [] = ([], [])
plain (c ∷ t) = let (run, rest) = plain t in if is_special c then ([], c ∷ t) else (c ∷ run, rest)

-- The second loop: how far the closing quote is.
unfoldable pub find_end : List ℕ → ℕ → Option ℕ
find_end [] e = none
find_end (c ∷ []) e = if c == b'"' then some e else none
find_end (c ∷ d ∷ t) e =
    let skip = find_end t (e + 2) in
    let next = find_end (d ∷ t) (e + 1) in
    if c == b'"' then some e else if c == b'\\' then skip else next

-- One round of the decoding: the quote, or the bytes that are written and the text after them.
pub data Step : Type 0 where
  closed : List ℕ → Step
  writes : List ℕ → List ℕ → Step
  invalid : Step

-- The other half of a surrogate pair, where the digits of an escape gave the first half.
unfoldable pub low_half : ℕ → List ℕ → Option ℕ
unfolding hex4
low_half cp0 t =
    if leb 0xd800 cp0
      && leb cp0 0xdbff
      && leb 6 (length t)
      && get_or t 0 0 == b'\\'
      && get_or t 1 0 == b'u'
    then hex4 (drop 2 t)
    else none

-- The character, and the text after it.
unfoldable pub join : ℕ → List ℕ → Option ℕ → ℕ × List ℕ
join cp0 t none = (cp0, t)
join cp0 t (some lo) =
    if leb 0xdc00 lo && leb lo 0xdfff
    then (0x10000 + (cp0 - 0xd800) * 1024 + (lo - 0xdc00), drop 6 t)
    else (cp0, t)

unfoldable pub written : ℕ × List ℕ → Step
unfolding put_utf8
written (cp, after) =
    if cp == 0 || (leb 0xd800 cp && leb cp 0xdfff) then invalid else writes (put_utf8 cp) after

-- The escape `\u`, with its digits at `t`.
unfoldable pub unicode : List ℕ → Step
unfolding hex4 low_half join written
unicode t = elim (hex4 t) [
  | none ↦ invalid
  | some cp ↦ written (join cp (drop 4 t) (low_half cp (drop 4 t)))
]

-- The escapes of one letter.
unfoldable pub simple_escape : ℕ → Option ℕ
simple_escape e =
    if e == b'n'
    then some 10
    else if e == b't'
    then some 9
    else if e == b'r'
    then some 13
    else if e == b'b'
    then some 8
    else if e == b'f'
    then some 12
    else if e == b'"'
    then some b'"'
    else if e == b'\\'
    then some b'\\'
    else if e == b'/'
    then some b'/'
    else none

unfoldable pub escape : List ℕ → Step
unfolding unicode simple_escape
escape [] = invalid
escape (e ∷ t) = elim (simple_escape e) [
  | some b ↦ writes (b ∷ []) t
  | none ↦ if e == b'u' then unicode t else invalid
]

unfoldable pub step : List ℕ → Step
unfolding escape
step [] = invalid
step (c ∷ t) =
    if c == b'"'
    then closed t
    else if ltb c 0x20
    then invalid
    else if not (c == b'\\')
    then writes (c ∷ []) t
    else escape t

-- The last loop, with `size` bytes of scratch; a round takes at least one byte of the text. `none`
-- is the failure of the source.
unfoldable pub decode : ℕ → ℕ → List ℕ → List ℕ → Outcome (Option (List ℕ × List ℕ))
unfolding step
decode zero size t out = out_of_fuel
decode (suc fuel) size t out = elim (step t) [
  | closed rest ↦ ok (some (out, rest))
  | invalid ↦ ok none
  | writes bs rest ↦
      let room = decode fuel size rest (out ++ bs) in
      if ltb size (length out + length bs) then overflow else room
]

-- A failure leaves P.i at the byte after the quote.
unfoldable pub read_or_fail : List ℕ → Option (List ℕ × List ℕ) → Outcome (List ℕ × List ℕ)
read_or_fail t none = failed bad_string (length t)
read_or_fail t (some a) = ok a

-- What follows the first loop, which took `run` and left `rest` of the text `t`.
unfoldable pub after_plain : List ℕ → List ℕ → List ℕ → Outcome (List ℕ × List ℕ)
unfolding find_end decode read_or_fail
after_plain t run [] = failed bad_string (length t)
after_plain t run (c ∷ after) =
    if ltb c 0x20
    then failed bad_string (length t)
    else if c == b'"'
    then ok (run, after)
    else elim (find_end (c ∷ after) (length run)) [
      | none ↦ failed bad_string (length t)
      | some end ↦ decode (length t + 1) (end + 1) t [] >>= read_or_fail t
    ]

-- The bytes of the string whose text starts at `t`, and what follows its closing quote.
unfoldable pub string : List ℕ → Outcome (List ℕ × List ℕ)
unfolding plain after_plain
string t = let (run, rest) = plain t in after_plain t run rest
