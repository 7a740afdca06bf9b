-- ===== src/Kdf/Blake2b/Rfc.antt =====
-- src/rmbl_kdf.cpp: BLAKE2b against RFC 7693.
use rmorie_bricklayer.Prelude.{
  ℕ, zero, suc, ◌+◌, ◌-◌, ◌*◌, ◌/◌, ◌%◌, ◌^◌, ◌<◌, ◌≤◌, List, [], ◌∷◌, ◌++◌, length, take, drop,
  set, replicate, ltb, if◌then◌else◌, true, false, Bool-cases, some, bit_xor, bit_and, get_or, ◌≡◌,
  inl, inr, refl, ap, ◌∙◌, arith,
}
use rmorie_bricklayer.Prelude.Bits.{bit_and_mask}
use rmorie_bricklayer.Prelude.Bytes.{IsBytes, IsBytes-take, IsBytes-drop, IsBytes-append}
use rmorie_bricklayer.Kdf.Blake2b.{word_at, out_bytes, rmbl_blake2b}
use rmorie_bricklayer.Kdf.Blake2b.Buffer.{padded_block}
use rmorie_bricklayer.Kdf.Blake2b.Compression.{
  rfc_compress, initial_words, length-rfc_compress, b2b_compress_lem,
}
use rmorie_bricklayer.Kdf.Blake2b.Blocks.{at_offset, code_blocks, key_block, rmbl_blake2b-blocks}

-- The last block: zeros fill it.
abbrev pub filled : List ℕ → List ℕ
filled input = input ++ replicate (128 - length input) 0

-- The hash of `input`, `t` bytes being compressed before, in at most `n` blocks more: each but the
-- last is compressed with the number of bytes up to its end, and the last one with the number of all
-- bytes and its mark.
unfoldable pub rfc_blocks : ℕ → List ℕ → ℕ → List ℕ → List ℕ
rfc_blocks zero h t input = rfc_compress h (t + length input) (filled input) true
rfc_blocks (suc n) h t input =
    let rest =
      rfc_blocks n (rfc_compress h (t + 128) (take 128 input) false) (t + 128) (drop 128 input) in
    if ltb 128 (length input) then rest else rfc_compress h (t + length input) (filled input) true

-- The block of the key, which comes first where there is one.
abbrev pub keyed : List ℕ → List ℕ → List ℕ
keyed [] msg = msg
keyed (k ∷ key) msg = filled (k ∷ key) ++ msg

-- The first state: the initial words and the parameters.
abbrev pub first_state : ℕ → ℕ → List ℕ
first_state outlen keylen =
    set initial_words 0
      (bit_xor (get_or initial_words 0 0) (bit_xor (bit_xor 0x01010000 (keylen * 2 ^ 8)) outlen))

-- BLAKE2b of a key and a message.
unfoldable pub rfc_hash : List ℕ → List ℕ → ℕ → List ℕ
rfc_hash key msg outlen =
    rfc_blocks (128 + length msg) (first_state outlen (length key)) 0 (keyed key msg)

zeros-IsBytes : (n : ℕ) → IsBytes (replicate n 0)
zeros-IsBytes zero = tt
zeros-IsBytes (suc n) = (omega arith, zeros-IsBytes n)

filled-IsBytes : (input : List ℕ) → IsBytes input → IsBytes (filled input)
filled-IsBytes input h =
    IsBytes-append input (replicate (128 - length input) 0) h (zeros-IsBytes (128 - length input))

keyed-IsBytes : (key msg : List ℕ) → IsBytes key → IsBytes msg → IsBytes (keyed key msg)
keyed-IsBytes [] msg hk hm = hm
keyed-IsBytes (k ∷ key) msg hk hm =
    IsBytes-append (filled (k ∷ key)) msg (filled-IsBytes (k ∷ key) hk) hm

last_lem :
    (h : List ℕ) (t : ℕ) (input : List ℕ)
    → length h ≡ 8
    → IsBytes input
    → at_offset h t (padded_block input) true ≡ rfc_compress h t (filled input) true
last_lem h t input e hb = b2b_compress_lem h t (filled input) true e (filled-IsBytes input hb)

code_blocks-eq-rfc_blocks :
    (n : ℕ) (h : List ℕ) (t : ℕ) (input : List ℕ)
    → length h ≡ 8
    → IsBytes input
    → code_blocks n h t input ≡ rfc_blocks n h t input
unfolding code_blocks rfc_blocks
code_blocks-eq-rfc_blocks zero h t input e hb = last_lem h (t + length input) input e hb
code_blocks-eq-rfc_blocks (suc n) h t input e hb = elim (Bool-cases (ltb 128 (length input))) [
  | inl more ↦
      let block = take 128 input in
      let next : List ℕ = rfc_compress h (t + 128) block false in
      rw (more, b2b_compress_lem h (t + 128) block false e (IsBytes-take 128 input hb))
        (code_blocks-eq-rfc_blocks n next (t + 128) (drop 128 input)
          (length-rfc_compress h (t + 128) block false) (IsBytes-drop 128 input hb))
  | inr done ↦ rw done (last_lem h (t + length input) input e hb)
]

key_block-keyed : (key msg : List ℕ) → key_block key ++ msg ≡ keyed key msg
key_block-keyed [] msg = refl
key_block-keyed (k ∷ key) msg = refl

length-out_bytes : (h : List ℕ) (n i : ℕ) → length (out_bytes h n i) ≡ n
unfolding out_bytes
length-out_bytes h zero i = refl
length-out_bytes h (suc n) i = ap suc (length-out_bytes h n (i + 1))

-- Byte `r` of the words, the lowest byte of each first.
abbrev pub byte_of : List ℕ → ℕ → ℕ
byte_of h r = get_or h (r / 8) 0 / 2 ^ (8 * (r % 8)) % 256

get_or-out_bytes :
    (h : List ℕ) (n i r : ℕ) → r < n → get_or (out_bytes h n i) r 0 ≡ byte_of h (i + r)
unfolding out_bytes
get_or-out_bytes h zero i r small = absurd (omega arith)
get_or-out_bytes h (suc n) i zero small =
    let at : i + 0 ≡ i = omega arith in
    let shift : bit_and i 7 ≡ i % 8 = bit_and_mask 3 i in
    rw (at, shift) (bit_and_mask 8 (word_at h (i / 2 ^ 3) / 2 ^ (8 * (i % 8))))
get_or-out_bytes h (suc n) i (suc r) small =
    get_or-out_bytes h n (i + 1) r (omega arith)
    ∙ ap (byte_of h) (let e : i + 1 + r ≡ i + suc r = omega arith in e)

-- For bytes of a message and of a key of at most 64, an output of 1 to 64 bytes and a place `r` within
-- it, BLAKE2b returns as many bytes as are asked for, and the one at the place is that of the hash of
-- RFC 7693: its function F, from the parameters over the blocks of the key's block, if there is a
-- key, and the message.
pub rmbl_blake2b_lem :
    (msg key : List ℕ) (outlen r : ℕ)
    → IsBytes msg
    → IsBytes key
    → 1 ≤ outlen
    → outlen ≤ 64
    → length key ≤ 64
    → r < outlen
    → (out : List ℕ) × (rmbl_blake2b msg key outlen ≡ some out)
      × (length out ≡ outlen)
      × (get_or out r 0 ≡ byte_of (rfc_hash key msg outlen) r)
unfolding rfc_hash
rmbl_blake2b_lem msg key outlen r hm hk low high short inside =
    let n = 128 + length msg in
    let start = first_state outlen (length key) in
    let h = rfc_blocks n start 0 (keyed key msg) in
    let same : code_blocks n start 0 (key_block key ++ msg) ≡ h =
      ap (code_blocks n start 0) (key_block-keyed key msg)
      ∙ code_blocks-eq-rfc_blocks n start 0 (keyed key msg) refl (keyed-IsBytes key msg hk hm) in
    (
      out_bytes h outlen 0,
      rmbl_blake2b-blocks msg key outlen low high short
          ∙ ap (λ (words : List ℕ). some (out_bytes words outlen 0)) same,
      length-out_bytes h outlen 0,
      get_or-out_bytes h outlen 0 r inside ∙ ap (byte_of h) (let e : 0 + r ≡ r = omega arith in e),
    )
