-- ===== src/Keccak/Squeeze.antt =====
-- src/rmbl_keccak.cpp, `rmbl_keccak_squeeze`: blocks against one byte at a time, and the outputs
-- of a stream that is read in pieces.
use rmorie_bricklayer.Prelude.{
  ℕ, zero, suc, ◌+◌, ◌-◌, ◌*◌, ◌/◌, ◌%◌, ◌^◌, ◌<◌, ◌≤◌, List, [], ◌∷◌, ◌++◌, Bool-cases, inl, inr,
  true, if◌then◌else◌, length, ◌≡◌, refl, sym, ap, ◌∙◌, arith, get_or,
}
use rmorie_bricklayer.Keccak.{
  Sponge, read_bytes, room, permute_if_full, squeeze_rounds, keccak_squeeze, keccak_finalize,
}
use rmorie_bricklayer.Keccak.Absorb.{
  IsOpen, next_block, next_block-open, next_block-IsOpen, room_lem, next_block-squeezing,
}

-- The byte at the position, and one position on.
lane_byte : Sponge → ℕ
lane_byte st = get_or st.s (st.pos / 8) 0 / 2 ^ (8 * (st.pos % 8)) % 2 ^ 8

next : Sponge → Sponge
next st = record st { pos = st.pos + 1 }

-- The specification: a block that is used up is permuted before the next byte is given.
pub squeeze_bytes : ℕ → Sponge → List ℕ × Sponge
squeeze_bytes zero st = ([], st)
squeeze_bytes (suc n) st =
    let rest = squeeze_bytes n (next (next_block st)) in
    (lane_byte (next_block st) ∷ rest.0, rest.1)

pub length-squeeze_bytes : (n : ℕ) (st : Sponge) → length (squeeze_bytes n st).0 ≡ n
unfolding squeeze_bytes
length-squeeze_bytes zero st = refl
length-squeeze_bytes (suc n) st = ap suc (length-squeeze_bytes n (next (next_block st)))

pub squeeze_bytes-add :
    (n m : ℕ) (st : Sponge)
    → squeeze_bytes (n + m) st ≡ (
      (squeeze_bytes n st).0 ++ (squeeze_bytes m (squeeze_bytes n st).1).0,
      (squeeze_bytes m (squeeze_bytes n st).1).1,
    )
unfolding squeeze_bytes
squeeze_bytes-add zero m st =
    ap (λ (k : ℕ). squeeze_bytes k st) (let e : 0 + m ≡ m = omega arith in e)
squeeze_bytes-add (suc n) m st =
    ap (λ (k : ℕ). squeeze_bytes k st) (let e : suc n + m ≡ suc (n + m) = omega arith in e)
    ∙ ap (λ (r : List ℕ × Sponge). (lane_byte (next_block st) ∷ r.0, r.1))
        (squeeze_bytes-add n m (next (next_block st)))

within_block :
    (n : ℕ) (st : Sponge)
    → st.pos + n ≤ st.rate
    → squeeze_bytes n st ≡ (read_bytes st.s st.pos n, record st { pos = st.pos + n })
unfolding squeeze_bytes read_bytes next lane_byte
within_block zero st h =
    ap (λ (p : ℕ). ([], record st { pos = p })) (let e : st.pos ≡ st.pos + 0 = omega arith in e)
within_block (suc n) st h = rw (next_block-open st (omega arith)) (
    ap (λ (r : List ℕ × Sponge). (lane_byte st ∷ r.0, r.1)) (within_block n (next st) (omega arith))
    ∙ ap (λ (p : ℕ). (lane_byte st ∷ read_bytes st.s (st.pos + 1) n, record st { pos = p }))
        (let e : st.pos + 1 + n ≡ st.pos + suc n = omega arith in e))

-- A block that is used up, or one that is not.
abbrev pub IsReading : Sponge → Type 0
IsReading st = (st.pos ≤ st.rate) × (0 < st.rate)

permuted_first :
    (n : ℕ) (st : Sponge)
    → IsReading st
    → squeeze_bytes (suc n) (next_block st) ≡ squeeze_bytes (suc n) st
unfolding squeeze_bytes
permuted_first n st h = rw (next_block-open (next_block st) (next_block-IsOpen st h.0 h.1)) refl

rounds_lem :
    (rounds : ℕ) (st : Sponge) (len : ℕ)
    → len ≤ rounds
    → IsReading st
    → squeeze_rounds rounds st len ≡ squeeze_bytes len st
unfolding squeeze_rounds squeeze_bytes permute_if_full next_block
rounds_lem zero st zero hl h = refl
rounds_lem zero st (suc len) hl h = absurd (omega arith)
rounds_lem (suc rounds) st zero hl h = refl
rounds_lem (suc rounds) st (suc len) hl h =
    ap (λ (r : List ℕ × Sponge). (read_bytes st'.s st'.pos n ++ r.0, r.1))
      (rounds_lem rounds (record st' { pos = st'.pos + n }) (suc len - n) (omega (arith, fits.0))
        (fits.2, omega (arith, ready)))
    ∙ ap
        (λ (r : List ℕ × Sponge).
          (r.0 ++ (squeeze_bytes (suc len - n) r.1).0, (squeeze_bytes (suc len - n) r.1).1))
        (sym (within_block n st' fits.2))
    ∙ sym (squeeze_bytes-add n (suc len - n) st')
    ∙ ap (λ (k : ℕ). squeeze_bytes k st')
        (let e : n + (suc len - n) ≡ suc len = omega (arith, fits.1) in e)
    ∙ permuted_first len st h
  where
    st' : Sponge
    st' = next_block st

    n : ℕ
    n = room st' (suc len)

    ready : IsOpen st'
    ready = next_block-IsOpen st h.0 h.1

    fits : (0 < n) × (n ≤ suc len) × (st'.pos + n ≤ st'.rate)
    fits = room_lem st' (suc len) ready (omega arith)

squeeze_bytes-IsReading : (n : ℕ) (st : Sponge) → IsReading st → IsReading (squeeze_bytes n st).1
unfolding squeeze_bytes next
squeeze_bytes-IsReading zero st h = h
squeeze_bytes-IsReading (suc n) st h =
    let ready = next_block-IsOpen st h.0 h.1 in
    squeeze_bytes-IsReading n (next (next_block st)) (omega arith, omega arith)

squeeze_bytes-squeezing : (n : ℕ) (st : Sponge) → (squeeze_bytes n st).1.squeezing ≡ st.squeezing
unfolding squeeze_bytes next
squeeze_bytes-squeezing zero st = refl
squeeze_bytes-squeezing (suc n) st =
    squeeze_bytes-squeezing n (next (next_block st)) ∙ next_block-squeezing st

-- The sponge that bytes are read from: the given one, finalized if it is not yet.
reading : Sponge → Sponge
reading st = if st.squeezing then st else keccak_finalize st

reading-IsReading : (st : Sponge) → IsReading st → IsReading (reading st)
unfolding reading keccak_finalize
reading-IsReading st h = elim (Bool-cases st.squeezing) [
  | inl e ↦ rw e h
  | inr e ↦ rw e (omega arith, h.1)
]

reading-squeezing : (st : Sponge) → (reading st).squeezing ≡ true
unfolding reading keccak_finalize
reading-squeezing st = elim (Bool-cases st.squeezing) [ inl e ↦ rw e refl | inr e ↦ rw e refl ]

reading_self : (st : Sponge) → st.squeezing ≡ true → reading st ≡ st
unfolding reading
reading_self st h = rw h refl

keccak_squeeze_lem :
    (st : Sponge) (n : ℕ) → IsReading st → keccak_squeeze st n ≡ squeeze_bytes n (reading st)
unfolding keccak_squeeze reading
keccak_squeeze_lem st n h = rounds_lem n (reading st) n (omega arith) (reading-IsReading st h)

-- Squeezing gives as many bytes as are asked for and leaves a sponge that can be squeezed on, and
-- it is the output of a stream: two calls in a row give what one call for both lengths gives, and
-- leave the same sponge.
pub keccak_squeeze-add :
    (st : Sponge) (n m : ℕ)
    → IsReading st
    → (length (keccak_squeeze st n).0 ≡ n)
      × IsReading (keccak_squeeze st n).1
      × (keccak_squeeze st (n + m) ≡ (
        (keccak_squeeze st n).0 ++ (keccak_squeeze (keccak_squeeze st n).1 m).0,
        (keccak_squeeze (keccak_squeeze st n).1 m).1,
      ))
keccak_squeeze-add st n m h =
    rw (keccak_squeeze_lem st n h, keccak_squeeze_lem st (n + m) h)
      (
        length-squeeze_bytes n (reading st),
        after,
        rw (keccak_squeeze_lem (squeeze_bytes n (reading st)).1 m after, still)
            (squeeze_bytes-add n m (reading st)),
      )
  where
    after : IsReading (squeeze_bytes n (reading st)).1
    after = squeeze_bytes-IsReading n (reading st) (reading-IsReading st h)

    still : reading (squeeze_bytes n (reading st)).1 ≡ (squeeze_bytes n (reading st)).1
    still =
        reading_self (squeeze_bytes n (reading st)).1
          (squeeze_bytes-squeezing n (reading st) ∙ reading-squeezing st)
