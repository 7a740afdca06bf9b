-- ===== src/Keccak/Padding.antt =====
-- src/rmbl_keccak.cpp, `rmbl_keccak_finalize`: the two xors against absorbing pad10*1 as bytes.
use rmorie_bricklayer.Prelude.{
  ℕ, zero, suc, ◌+◌, ◌-◌, ◌*◌, ◌/◌, ◌%◌, ◌^◌, ◌<◌, bit_xor, List, [], ◌∷◌, ◌++◌, ==_iff, true, ◌≡◌,
  refl, sym, ap, ◌∙◌, arith, replicate,
}
use rmorie_bricklayer.Prelude.Bits.{bit_xor-shift, bit_xor_comm, bit_xor_fields}
use rmorie_bricklayer.Keccak.{Sponge, xor_at, keccak_finalize}
use rmorie_bricklayer.Keccak.Permutation.{keccak_f1600}
use rmorie_bricklayer.Keccak.Absorb.{
  advance, absorb_bytes, IsOpen, next_block, next_block-open, absorb_bytes-append,
}
use rmorie_bricklayer.Keccak.Lanes.{xor_at-zero, xor_at-xor_at, byte-shift}

-- The padding of `room` bytes: the domain byte first, 0x80 in the last, one byte for both if need
-- be.
unfoldable pub padding : ℕ → ℕ → List ℕ
padding pad zero = []
padding pad (suc zero) = bit_xor pad 0x80 ∷ []
padding pad (suc (suc zeros)) = pad ∷ (replicate zeros 0 ++ (0x80 ∷ []))

permute_full :
    (st : Sponge) → st.pos ≡ st.rate → next_block st ≡ record st { s = keccak_f1600 st.s; pos = 0 }
unfolding next_block
permute_full st h = rw ((==_iff st.pos st.rate).1 h) refl

byte_zero : (st : Sponge) → advance st 0 ≡ record st { pos = st.pos + 1 }
unfolding advance
byte_zero st =
    ap (λ (v : ℕ). record st { s = xor_at st.s (st.pos / 8) v; pos = st.pos + 1 })
      (let e : 0 * 2 ^ (8 * (st.pos % 8)) % 2 ^ 64 ≡ 0 = omega arith in e)
    ∙ ap (λ (s : List ℕ). record st { s = s; pos = st.pos + 1 }) (xor_at-zero st.s (st.pos / 8))

inner_byte :
    (st : Sponge) (b : ℕ) (bs : List ℕ)
    → st.pos + 1 < st.rate
    → absorb_bytes st (b ∷ bs) ≡ absorb_bytes (advance st b) bs
unfolding absorb_bytes advance
inner_byte st b bs h = ap (λ (t : Sponge). absorb_bytes t bs) (next_block-open (advance st b) h)

absorb_zeros :
    (n : ℕ) (st : Sponge)
    → st.pos + n < st.rate
    → absorb_bytes st (replicate n 0) ≡ record st { pos = st.pos + n }
unfolding absorb_bytes
absorb_zeros zero st h =
    ap (λ (p : ℕ). record st { pos = p }) (let e : st.pos ≡ st.pos + 0 = omega arith in e)
absorb_zeros (suc n) st h =
    inner_byte st 0 (replicate n 0) (omega arith)
    ∙ ap (λ (t : Sponge). absorb_bytes t (replicate n 0)) (byte_zero st)
    ∙ absorb_zeros n (record st { pos = st.pos + 1 }) (omega arith)
    ∙ ap (λ (p : ℕ). record st { pos = p })
        (let e : st.pos + 1 + n ≡ st.pos + suc n = omega arith in e)

-- `v` at a byte position.
abbrev at_byte : List ℕ → ℕ → ℕ → List ℕ
at_byte s j v = xor_at s (j / 8) (v * 2 ^ (8 * (j % 8)) % 2 ^ 64)

last_byte :
    (st : Sponge) (b : ℕ)
    → st.pos + 1 ≡ st.rate
    → absorb_bytes st (b ∷ [])
      ≡ record st { s = keccak_f1600 (at_byte st.s (st.rate - 1) b); pos = 0 }
unfolding absorb_bytes advance
last_byte st b h =
    permute_full (advance st b) h
    ∙ ap (λ (j : ℕ). record st { s = keccak_f1600 (at_byte st.s j b); pos = 0 })
        (let e : st.pos ≡ st.rate - 1 = omega arith in e)

one_byte :
    (s : List ℕ) (j pad : ℕ)
    → pad < 128
    → at_byte (at_byte s j pad) j 0x80 ≡ at_byte s j (bit_xor pad 0x80)
one_byte s j pad h =
    xor_at-xor_at s (j / 8) (pad * 2 ^ (8 * (j % 8)) % 2 ^ 64) (0x80 * 2 ^ (8 * (j % 8)) % 2 ^ 64)
    ∙ ap (xor_at s (j / 8)) shifted
  where
    both : bit_xor pad 0x80 < 256
    both = omega (arith, bit_xor_comm pad 0x80, bit_xor_fields 7 1 pad (omega arith))

    shifted :
        bit_xor (pad * 2 ^ (8 * (j % 8)) % 2 ^ 64) (0x80 * 2 ^ (8 * (j % 8)) % 2 ^ 64)
        ≡ bit_xor pad 0x80 * 2 ^ (8 * (j % 8)) % 2 ^ 64
    shifted =
        rw
          (
            byte-shift pad (j % 8) (omega arith) (omega arith),
            byte-shift 0x80 (j % 8) (omega arith) (omega arith),
            byte-shift (bit_xor pad 0x80) (j % 8) both (omega arith),
          )
          (bit_xor-shift (8 * (j % 8)) pad 0x80)

pad_bytes :
    (room : ℕ) (st : Sponge)
    → st.pos + suc room ≡ st.rate
    → st.pad < 128
    → absorb_bytes st (padding st.pad (suc room)) ≡ record st {
      s = keccak_f1600 (at_byte (at_byte st.s st.pos st.pad) (st.rate - 1) 0x80);
      pos = 0;
    }
unfolding padding advance
pad_bytes zero st h hp =
    last_byte st (bit_xor st.pad 0x80) (omega arith)
    ∙ ap (λ (s : List ℕ). record st { s = keccak_f1600 s; pos = 0 })
        (sym (one_byte st.s (st.rate - 1) st.pad hp))
    ∙ ap
        (λ (j : ℕ). record st {
          s = keccak_f1600 (at_byte (at_byte st.s j st.pad) (st.rate - 1) 0x80);
          pos = 0;
        })
        (let e : st.rate - 1 ≡ st.pos = omega arith in e)
pad_bytes (suc zeros) st h hp =
    inner_byte st st.pad (replicate zeros 0 ++ (0x80 ∷ [])) (omega arith)
    ∙ absorb_bytes-append (advance st st.pad) (replicate zeros 0) (0x80 ∷ [])
    ∙ ap (λ (t : Sponge). absorb_bytes t (0x80 ∷ []))
        (absorb_zeros zeros (advance st st.pad) (omega arith))
    ∙ last_byte (record (advance st st.pad) { pos = st.pos + 1 + zeros }) 0x80 (omega arith)

-- Finalizing is absorbing the padding of the room that is left and turning to squeezing: pad10*1
-- with the function's domain byte, for a domain byte below 128 and a block that is not full.
pub keccak_finalize_lem :
    (st : Sponge)
    → IsOpen st
    → st.pad < 128
    → keccak_finalize st
      ≡ record (absorb_bytes st (padding st.pad (st.rate - st.pos))) { squeezing = true }
unfolding keccak_finalize
keccak_finalize_lem st h hp =
    let size : st.rate - st.pos ≡ suc (st.rate - st.pos - 1) = omega arith in
    rw size (
      ap (λ (t : Sponge). record t { squeezing = true })
        (sym (pad_bytes (st.rate - st.pos - 1) st (omega arith) hp)))
