-- ===== src/Drbg/Cipher.antt =====
-- src/rmbl_drbg_core.h: the portable AES-256 is a block cipher, on every key and block.
use native.Mathlib.Nat.{mod-lt}
use rmorie_bricklayer.Prelude.{
  ℕ, zero, suc, ◌+◌, ◌-◌, ◌*◌, ◌%◌, ◌^◌, ◌<◌, bit_xor, bit_and, List, [], ◌∷◌, ◌++◌, length, ◌≡◌,
  refl, ap, ◌∙◌, arith, take, length-take, map, ◌==◌, get_or, ltb, Bool-cases, inl, inr, min,
}
use rmorie_bricklayer.Prelude.Bytes.{IsBytes, IsBytes-take, IsBytes-drop, IsBytes-append}
use rmorie_bricklayer.Prelude.Bits.{bit_xor-lt}
use rmorie_bricklayer.Drbg.Aes.{
  xor_bytes, aes_init, sbox, inverse, rotl8, gmul, gmul_loop, round_key, affine, shift_row_column,
  schedule_word, schedule_loop, shift_rows, mix_column, mix_columns, aes_round, aes_rounds,
  encrypt_portable,
}

pub length-xor_bytes : (xs ys : List ℕ) → length (xor_bytes xs ys) ≡ length xs
unfolding xor_bytes
length-xor_bytes [] ys = refl
length-xor_bytes (x ∷ xs) [] = refl
length-xor_bytes (x ∷ xs) (y ∷ ys) = ap suc (length-xor_bytes xs ys)

pub xor_bytes-IsBytes : (xs ys : List ℕ) → IsBytes xs → IsBytes ys → IsBytes (xor_bytes xs ys)
unfolding xor_bytes
xor_bytes-IsBytes [] ys hx hy = tt
xor_bytes-IsBytes (x ∷ xs) [] hx hy = hx
xor_bytes-IsBytes (x ∷ xs) (y ∷ ys) hx hy =
    (bit_xor-lt 8 x y hx.0 hy.0, xor_bytes-IsBytes xs ys hx.1 hy.1)

length-mix_columns : (t : List ℕ) → length (mix_columns t) ≡ length t
unfolding mix_columns mix_column
length-mix_columns [] = refl
length-mix_columns (a0 ∷ []) = refl
length-mix_columns (a0 ∷ a1 ∷ []) = refl
length-mix_columns (a0 ∷ a1 ∷ a2 ∷ []) = refl
length-mix_columns (a0 ∷ a1 ∷ a2 ∷ a3 ∷ t) =
    ap (λ (n : ℕ). suc (suc (suc (suc n)))) (length-mix_columns t)

length-aes_round : (rk : List ℕ) (r : ℕ) (s : List ℕ) → length (aes_round rk r s) ≡ 16
unfolding aes_round shift_rows
length-aes_round rk r s = elim (Bool-cases (ltb r 14)) [
  | inl e ↦ rw e (
      length-xor_bytes (mix_columns (shift_rows (map sbox s))) (round_key rk r)
      ∙ length-mix_columns (shift_rows (map sbox s)))
  | inr e ↦ rw e (length-xor_bytes (shift_rows (map sbox s)) (round_key rk r))
]

gmul_loop-IsByte : (n p a b : ℕ) → p < 256 → gmul_loop n p a b < 256
unfolding gmul_loop
gmul_loop-IsByte zero p a b h = h
gmul_loop-IsByte (suc n) p a b h = gmul_loop-IsByte n _ _ _ (
    bit_xor-lt 8 p _ h
      (mod-lt (bit_and a ((2 ^ 32 - bit_and b 1) % 2 ^ 32)) {m = 256} (omega arith)))

gmul-IsByte : (a b : ℕ) → gmul a b < 256
unfolding gmul
gmul-IsByte a b = gmul_loop-IsByte 8 0 a b (omega arith)

rotl8-IsByte : (x k : ℕ) → rotl8 x k < 256
unfolding rotl8
rotl8-IsByte x k = mod-lt _ {m = 256} (omega arith)

affine-IsByte : (x : ℕ) → x < 256 → affine x < 256
affine-IsByte x h =
    bit_xor-lt 8 _ 0x63
      (bit_xor-lt 8 _ _
        (bit_xor-lt 8 _ _
          (bit_xor-lt 8 _ _ (bit_xor-lt 8 _ _ h (rotl8-IsByte x 1)) (rotl8-IsByte x 2))
          (rotl8-IsByte x 3))
        (rotl8-IsByte x 4))
      (omega arith)

inverse-IsByte : (x : ℕ) → inverse x < 256
unfolding inverse
inverse-IsByte x = gmul-IsByte _ _

sbox-IsByte : (x : ℕ) → sbox x < 256
unfolding sbox
sbox-IsByte x = affine-IsByte (inverse x) (inverse-IsByte x)

map-sbox-IsBytes : (s : List ℕ) → IsBytes (map sbox s)
map-sbox-IsBytes [] = tt
map-sbox-IsBytes (x ∷ s) = (sbox-IsByte x, map-sbox-IsBytes s)

get_or-IsByte : (s : List ℕ) (i : ℕ) → IsBytes s → get_or s i 0 < 256
get_or-IsByte [] i h = omega arith
get_or-IsByte (x ∷ s) zero h = h.0
get_or-IsByte (x ∷ s) (suc i) h = get_or-IsByte s i h.1

shift_row_column-IsBytes : (s : List ℕ) (c : ℕ) → IsBytes s → IsBytes (shift_row_column s c)
shift_row_column-IsBytes s c h =
    (get_or-IsByte s _ h, (get_or-IsByte s _ h, (get_or-IsByte s _ h, (get_or-IsByte s _ h, tt))))

shift_rows-IsBytes : (s : List ℕ) → IsBytes s → IsBytes (shift_rows s)
unfolding shift_rows
shift_rows-IsBytes s h =
    let column : (c : ℕ) → IsBytes (shift_row_column s c) = λ c. shift_row_column-IsBytes s c h in
    let right =
      IsBytes-append (shift_row_column s 2) (shift_row_column s 3) (column 2) (column 3) in
    let upper =
      IsBytes-append (shift_row_column s 1) (shift_row_column s 2 ++ shift_row_column s 3)
        (column 1) right in
    IsBytes-append (shift_row_column s 0)
      (shift_row_column s 1 ++ (shift_row_column s 2 ++ shift_row_column s 3)) (column 0) upper

mix_column-IsBytes :
    (a0 a1 a2 a3 : ℕ) → IsBytes (a0 ∷ a1 ∷ a2 ∷ a3 ∷ []) → IsBytes (mix_column a0 a1 a2 a3)
unfolding mix_column
mix_column-IsBytes a0 a1 a2 a3 (h0, (h1, (h2, (h3, t)))) =
    let x : bit_xor (bit_xor (bit_xor a0 a1) a2) a3 < 256 =
      bit_xor-lt 8 _ _ (bit_xor-lt 8 _ _ (bit_xor-lt 8 _ _ h0 h1) h2) h3 in
    (
      bit_xor-lt 8 _ _ (bit_xor-lt 8 _ _ h0 x) (gmul-IsByte _ _),
      (
        bit_xor-lt 8 _ _ (bit_xor-lt 8 _ _ h1 x) (gmul-IsByte _ _),
        (
          bit_xor-lt 8 _ _ (bit_xor-lt 8 _ _ h2 x) (gmul-IsByte _ _),
          (bit_xor-lt 8 _ _ (bit_xor-lt 8 _ _ h3 x) (gmul-IsByte _ _), tt),
        ),
      ),
    )

mix_columns-IsBytes : (t : List ℕ) → IsBytes t → IsBytes (mix_columns t)
unfolding mix_columns
mix_columns-IsBytes [] h = tt
mix_columns-IsBytes (a0 ∷ []) h = h
mix_columns-IsBytes (a0 ∷ a1 ∷ []) h = h
mix_columns-IsBytes (a0 ∷ a1 ∷ a2 ∷ []) h = h
mix_columns-IsBytes (a0 ∷ a1 ∷ a2 ∷ a3 ∷ t) (h0, (h1, (h2, (h3, h)))) =
    IsBytes-append (mix_column a0 a1 a2 a3) _
      (mix_column-IsBytes a0 a1 a2 a3 (h0, (h1, (h2, (h3, tt))))) (mix_columns-IsBytes t h)

round_key-IsBytes : (rk : List ℕ) (r : ℕ) → IsBytes rk → IsBytes (round_key rk r)
round_key-IsBytes rk r h = IsBytes-take 16 _ (IsBytes-drop (16 * r) rk h)

aes_round-IsBytes : (rk : List ℕ) (r : ℕ) (s : List ℕ) → IsBytes rk → IsBytes (aes_round rk r s)
unfolding aes_round
aes_round-IsBytes rk r s h =
    let t = shift_rows-IsBytes (map sbox s) (map-sbox-IsBytes s) in
    elim (Bool-cases (ltb r 14)) [
      | inl e ↦ rw e (xor_bytes-IsBytes _ _ (mix_columns-IsBytes _ t) (round_key-IsBytes rk r h))
      | inr e ↦ rw e (xor_bytes-IsBytes _ _ t (round_key-IsBytes rk r h))
    ]

aes_rounds_lem :
    (n : ℕ) (rk : List ℕ) (r : ℕ) (s : List ℕ)
    → IsBytes rk
    → length s ≡ 16
    → IsBytes s
    → (length (aes_rounds n rk r s) ≡ 16) × IsBytes (aes_rounds n rk r s)
unfolding aes_rounds
aes_rounds_lem zero rk r s h hl hb = (hl, hb)
aes_rounds_lem (suc n) rk r s h hl hb =
    aes_rounds_lem n rk (r + 1) (aes_round rk r s) h (length-aes_round rk r s)
      (aes_round-IsBytes rk r s h)

schedule_word-IsBytes :
    (i rcon : ℕ) (t : List ℕ) → rcon < 256 → IsBytes t → IsBytes (schedule_word i rcon t)
unfolding schedule_word
schedule_word-IsBytes i rcon t hr h = elim (Bool-cases (i % 8 == 0)) [
  | inl e ↦
      rw e
        (bit_xor-lt 8 _ _ (sbox-IsByte _) hr, (sbox-IsByte _, (sbox-IsByte _, (sbox-IsByte _, tt))))
  | inr e ↦
      rw e (elim (Bool-cases (i % 8 == 4)) [ inl f ↦ rw f (map-sbox-IsBytes t) | inr f ↦ rw f h ])
]

schedule_loop-IsBytes :
    (n i rcon : ℕ) (rk : List ℕ) → rcon < 256 → IsBytes rk → IsBytes (schedule_loop n i rcon rk)
unfolding schedule_loop
schedule_loop-IsBytes zero i rcon rk hr h = h
schedule_loop-IsBytes (suc n) i rcon rk hr h =
    schedule_loop-IsBytes n (i + 1) _ _
      (elim (Bool-cases (i % 8 == 0)) [ inl e ↦ rw e (gmul-IsByte rcon 2) | inr e ↦ rw e hr ])
      (IsBytes-append rk _ h (
        xor_bytes-IsBytes _ _ (IsBytes-take 4 _ (IsBytes-drop _ rk h))
          (schedule_word-IsBytes i rcon _ hr (IsBytes-take 4 _ (IsBytes-drop _ rk h)))))

aes_init-IsBytes : (key : List ℕ) → IsBytes key → IsBytes (aes_init key)
unfolding aes_init
aes_init-IsBytes key h =
    schedule_loop-IsBytes 52 8 1 (take 32 key) (omega arith) (IsBytes-take 32 key h)

-- Under every key of bytes the portable AES-256 takes a block of sixteen bytes to a block of
-- sixteen bytes: no value leaves the range of a byte.
pub portable_lem :
    (key block : List ℕ)
    → length block ≡ 16
    → IsBytes key
    → IsBytes block
    → (length (encrypt_portable (aes_init key) block) ≡ 16)
      × IsBytes (encrypt_portable (aes_init key) block)
unfolding encrypt_portable
portable_lem key block hl hk hb =
    aes_rounds_lem 14 (aes_init key) 1 (xor_bytes (take 16 block) (round_key (aes_init key) 0))
      (aes_init-IsBytes key hk)
      (length-xor_bytes (take 16 block) _
        ∙ length-take 16 block
        ∙ (let e : min 16 (length block) ≡ 16 = omega (arith, hl) in e))
      (xor_bytes-IsBytes _ _ (IsBytes-take 16 block hb)
        (round_key-IsBytes (aes_init key) 0 (aes_init-IsBytes key hk)))
