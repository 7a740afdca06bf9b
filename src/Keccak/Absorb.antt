-- ===== src/Keccak/Absorb.antt =====
-- src/rmbl_keccak.cpp, `rmbl_keccak_absorb`: blocks and lanes against one byte at a time.
use rmorie_bricklayer.Prelude.{
  ℕ, zero, suc, ◌+◌, ◌-◌, ◌*◌, ◌/◌, ◌%◌, ◌^◌, ◌<◌, ◌≤◌, List, [], ◌∷◌, ◌++◌, Bool-cases, inl, inr,
  ltb→lt, false, ltb, ◌==◌, if◌then◌else◌, length, length-take, length-drop, take-append-drop, take,
  drop, ◌≡◌, refl, sym, ap, ◌∙◌, arith,
}
use rmorie_bricklayer.Prelude.Bytes.{IsBytes, IsBytes-take, IsBytes-drop, IsBytes-append}
use rmorie_bricklayer.Keccak.{
  Sponge, xor_at, byte_loop, absorb_block, room, permute_if_full, absorb_rounds, keccak_absorb,
}
use rmorie_bricklayer.Keccak.Permutation.{keccak_f1600}
use rmorie_bricklayer.Keccak.Lanes.{absorb_block_lem}

-- The sponge with its byte at the position changed, and one position on.
unfoldable pub advance : Sponge → ℕ → Sponge
advance st b = record st {
  s = xor_at st.s (st.pos / 8) (b * 2 ^ (8 * (st.pos % 8)) % 2 ^ 64);
  pos = st.pos + 1;
}

-- A block whose bytes are all there is permuted, and the next one begins.
unfoldable pub next_block : Sponge → Sponge
next_block st = if st.pos == st.rate then record st { s = keccak_f1600 st.s; pos = 0 } else st

permute_if_full_lem : (st : Sponge) → permute_if_full st ≡ next_block st
unfolding permute_if_full next_block
permute_if_full_lem st = refl

-- The specification: each byte is xored in at the position, and a full block is permuted at once.
unfoldable pub absorb_bytes : Sponge → List ℕ → Sponge
absorb_bytes st [] = st
absorb_bytes st (b ∷ bs) = absorb_bytes (next_block (advance st b)) bs

-- A block that is not full.
abbrev pub IsOpen : Sponge → Type 0
IsOpen st = st.pos < st.rate

pub next_block-open : (st : Sponge) → IsOpen st → next_block st ≡ st
unfolding next_block
next_block-open st h = let e : (st.pos == st.rate) ≡ false = ground arith in rw e refl

pub next_block-rate : (st : Sponge) → (next_block st).rate ≡ st.rate
unfolding next_block
next_block-rate st = elim (Bool-cases (st.pos == st.rate)) [ inl e ↦ rw e refl | inr e ↦ rw e refl ]

pub next_block-squeezing : (st : Sponge) → (next_block st).squeezing ≡ st.squeezing
unfolding next_block
next_block-squeezing st = elim (Bool-cases (st.pos == st.rate)) [
  | inl e ↦ rw e refl
  | inr e ↦ rw e refl
]

pub next_block-IsOpen : (st : Sponge) → st.pos ≤ st.rate → 0 < st.rate → IsOpen (next_block st)
unfolding next_block
next_block-IsOpen st h hr = elim (Bool-cases (st.pos == st.rate)) [
  | inl e ↦ rw e hr
  | inr e ↦ rw e (ground arith)
]

pub absorb_bytes-append :
    (st : Sponge) (xs ys : List ℕ)
    → absorb_bytes st (xs ++ ys) ≡ absorb_bytes (absorb_bytes st xs) ys
unfolding absorb_bytes
absorb_bytes-append st [] ys = refl
absorb_bytes-append st (x ∷ xs) ys = absorb_bytes-append (next_block (advance st x)) xs ys

advance-IsOpen : (st : Sponge) (b : ℕ) → IsOpen st → IsOpen (next_block (advance st b))
unfolding advance
advance-IsOpen st b h = next_block-IsOpen (advance st b) (omega arith) (omega arith)

pub absorb_bytes-IsOpen : (st : Sponge) (xs : List ℕ) → IsOpen st → IsOpen (absorb_bytes st xs)
unfolding absorb_bytes
absorb_bytes-IsOpen st [] h = h
absorb_bytes-IsOpen st (x ∷ xs) h =
    absorb_bytes-IsOpen (next_block (advance st x)) xs (advance-IsOpen st x h)

-- The state after a block that fits.
abbrev block_state : Sponge → List ℕ → ℕ → Sponge
block_state st xs n = next_block (record st { s = byte_loop st.s st.pos xs; pos = st.pos + n })

within_block :
    (st : Sponge) (x : ℕ) (xs : List ℕ)
    → st.pos + length (x ∷ xs) ≤ st.rate
    → absorb_bytes st (x ∷ xs) ≡ block_state st (x ∷ xs) (length (x ∷ xs))
unfolding absorb_bytes advance byte_loop
within_block st x [] h = refl
within_block st x (y ∷ ys) h = rw (next_block-open (advance st x) (omega arith)) (
    within_block (advance st x) y ys (omega arith)
    ∙ ap (λ (p : ℕ). next_block (record st { s = byte_loop st.s st.pos (x ∷ y ∷ ys); pos = p }))
        (let e : st.pos + 1 + suc (length ys) ≡ st.pos + suc (suc (length ys)) = omega arith in e))

-- One round of the loop: a block of `n` bytes, at least one of them.
round_block :
    (st : Sponge) (n : ℕ) (xs : List ℕ)
    → 0 < n
    → n ≤ length xs
    → st.pos + n ≤ st.rate
    → IsBytes xs
    → permute_if_full (record st { s = absorb_block st.s st.pos (take n xs); pos = st.pos + n })
      ≡ absorb_bytes st (take n xs)
round_block st zero xs hn hl h hb = absurd (omega arith)
round_block st (suc n) [] hn hl h hb = absurd (omega arith)
round_block st (suc n) (x ∷ xs) hn hl h hb =
    permute_if_full_lem
      (record st { s = absorb_block st.s st.pos (x ∷ take n xs); pos = st.pos + suc n })
    ∙ ap (λ (s : List ℕ). next_block (record st { s = s; pos = st.pos + suc n }))
        (absorb_block_lem st.s st.pos (x ∷ take n xs) (IsBytes-take (suc n) (x ∷ xs) hb))
    ∙ ap (block_state st (x ∷ take n xs)) (sym size)
    ∙ sym (within_block st x (take n xs) (omega (arith, size)))
  where
    size : suc (length (take n xs)) ≡ suc n
    size = omega (arith, length-take n xs)

pub room_lem :
    (st : Sponge) (n : ℕ)
    → IsOpen st
    → 0 < n
    → (0 < room st n) × (room st n ≤ n) × (st.pos + room st n ≤ st.rate)
room_lem st n h hn = elim (Bool-cases (ltb (st.rate - st.pos) n)) [
  | inl e ↦ rw e (omega arith, omega (arith, ltb→lt _ _ e), omega arith)
  | inr e ↦ rw e (hn, omega arith, ground arith)
]

rounds_lem :
    (rounds : ℕ) (st : Sponge) (xs : List ℕ)
    → length xs ≤ rounds
    → IsOpen st
    → IsBytes xs
    → absorb_rounds rounds st xs ≡ absorb_bytes st xs
unfolding absorb_rounds absorb_bytes
rounds_lem zero st [] hl h hb = refl
rounds_lem zero st (x ∷ xs) hl h hb = absurd (omega arith)
rounds_lem (suc rounds) st [] hl h hb = refl
rounds_lem (suc rounds) st (b ∷ bs) hl h hb =
    rw (round_block st n (b ∷ bs) fits.0 fits.1 fits.2 hb) (
      rounds_lem rounds (absorb_bytes st (take n (b ∷ bs))) (drop n (b ∷ bs))
        (omega (arith, fits.0, length-drop n (b ∷ bs))) (absorb_bytes-IsOpen st (take n (b ∷ bs)) h)
        (IsBytes-drop n (b ∷ bs) hb)
      ∙ sym (absorb_bytes-append st (take n (b ∷ bs)) (drop n (b ∷ bs)))
      ∙ ap (absorb_bytes st) (take-append-drop n (b ∷ bs)))
  where
    n : ℕ
    n = room st (suc (length bs))

    fits : (0 < n) × (n ≤ suc (length bs)) × (st.pos + n ≤ st.rate)
    fits = room_lem st (suc (length bs)) h (omega arith)

-- `rmbl_keccak_absorb`, with its blocks and its whole-lane path, leaves the state that xoring in
-- one byte after another does, Keccak-f[1600] being run as soon as as many bytes as the rate are in:
-- for bytes and a sponge whose block is not full, and the sponge it leaves is such a one.
pub keccak_absorb_lem :
    (st : Sponge) (xs : List ℕ)
    → IsOpen st
    → IsBytes xs
    → (keccak_absorb st xs ≡ absorb_bytes st xs) × IsOpen (keccak_absorb st xs)
unfolding keccak_absorb
keccak_absorb_lem st xs h hb = (e, rw e (absorb_bytes-IsOpen st xs h))
  where
    e : absorb_rounds (length xs) st xs ≡ absorb_bytes st xs
    e = rounds_lem (length xs) st xs (omega arith) h hb

-- Absorbing bytes in two calls is absorbing them at once, whatever the split and the position, for
-- a sponge whose block is not full.
pub keccak_absorb-append :
    (st : Sponge) (xs ys : List ℕ)
    → IsOpen st
    → IsBytes xs
    → IsBytes ys
    → keccak_absorb st (xs ++ ys) ≡ keccak_absorb (keccak_absorb st xs) ys
keccak_absorb-append st xs ys h hx hy =
    (keccak_absorb_lem st (xs ++ ys) h (IsBytes-append xs ys hx hy)).0
    ∙ absorb_bytes-append st xs ys
    ∙ ap (λ (t : Sponge). absorb_bytes t ys) (sym first.0)
    ∙ sym (keccak_absorb_lem (keccak_absorb st xs) ys first.1 hy).0
  where
    first : (keccak_absorb st xs ≡ absorb_bytes st xs) × IsOpen (keccak_absorb st xs)
    first = keccak_absorb_lem st xs h hx
