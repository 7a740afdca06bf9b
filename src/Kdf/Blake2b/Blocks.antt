-- ===== src/Kdf/Blake2b/Blocks.antt =====
-- src/rmbl_kdf.cpp: what the buffer and the counter of BLAKE2b compress: all blocks but the last with
-- the number of bytes before their end, and the last one with the number of all bytes and its mark.
use mathlib.Core.List.{append_assoc, append-nil}
use rmorie_bricklayer.Prelude.{
  ℕ, zero, suc, ◌+◌, ◌-◌, ◌*◌, ◌/◌, ◌%◌, ◌^◌, ◌<◌, ◌≤◌, List, [], ◌∷◌, ◌++◌, length, take, drop,
  set, replicate, length-append, take-append_le, take_all, drop-append, ==_true, ==_false, ltb,
  ltb-false, ltb→lt, ltb_ge, lt→ltb, if◌then◌else◌, Bool, true, false, Bool-cases, some, bit_xor,
  ◌≡◌, inl, inr, refl, sym, ap, ◌∙◌, arith,
}
use rmorie_bricklayer.Kdf.Blake2b.{
  u64, k_iv, word_at, b2b_compress, Blake2bCtx, b2b_init, advance, flush_full, b2b_update,
  out_bytes, b2b_final, rmbl_blake2b,
}
use rmorie_bricklayer.Kdf.Blake2b.Buffer.{
  padded_block, length-padded_block, set_next, zero_fill_lem,
}

-- The compression with a counter of 128 bits.
abbrev pub at_offset : List ℕ → ℕ → List ℕ → Bool → List ℕ
at_offset h t block last = b2b_compress h (t % 2 ^ 64) (t / 2 ^ 64 % 2 ^ 64) block last

-- The hash of `input`, `t` bytes being compressed before, in at most `n` blocks more.
unfoldable pub code_blocks : ℕ → List ℕ → ℕ → List ℕ → List ℕ
code_blocks zero h t input = at_offset h (t + length input) (padded_block input) true
code_blocks (suc n) h t input =
    let rest =
      code_blocks n (at_offset h (t + 128) (take 128 input) false) (t + 128) (drop 128 input) in
    if ltb 128 (length input)
    then rest
    else at_offset h (t + length input) (padded_block input) true

-- The context after `t` compressed bytes, with `input` in its buffer.
abbrev holding : List ℕ → ℕ → List ℕ → ℕ → Blake2bCtx
holding h t input outlen = record {
  buf = padded_block input;
  buflen = length input;
  h = h;
  t0 = t % 2 ^ 64;
  t1 = t / 2 ^ 64 % 2 ^ 64;
  outlen = outlen;
}

-- The counter with its carry.
advanced :
    (n t : ℕ)
    → n ≤ 128
    → (u64 (t % 2 ^ 64 + n) ≡ (t + n) % 2 ^ 64)
      × ((if ltb (u64 (t % 2 ^ 64 + n)) n
            then u64 (t / 2 ^ 64 % 2 ^ 64 + 1)
            else t / 2 ^ 64 % 2 ^ 64)
          ≡ (t + n) / 2 ^ 64 % 2 ^ 64)
advanced n t small = (
  omega arith,
  elim (Bool-cases (ltb (u64 (t % 2 ^ 64 + n)) n)) [
    | inl carry ↦ let less = ltb→lt (u64 (t % 2 ^ 64 + n)) n carry in rw carry (omega (arith, less))
    | inr same ↦ let more = ltb-false (u64 (t % 2 ^ 64 + n)) n same in rw same (omega (arith, more))
  ],
)

module _ (h : List ℕ) (t : ℕ) (input : List ℕ) (outlen : ℕ) where
  flushed :
      length input ≡ 128
      → flush_full (holding h t input outlen)
        ≡ holding (at_offset h (t + 128) (padded_block input) false) (t + 128) [] outlen
  unfolding flush_full advance
  flushed full =
      let counter = advanced 128 t (omega arith) in
      rw (==_true (length input) 128 full, counter.1, counter.0) refl

  kept : length input < 128 → flush_full (holding h t input outlen) ≡ holding h t input outlen
  unfolding flush_full
  kept room = rw (==_false (length input) 128 (λ e. omega arith)) refl

  put :
      (b : ℕ)
      → length input < 128
      → record (holding h t input outlen) {
        buf = set (padded_block input) (length input) b;
        buflen = length input + 1;
      }
        ≡ holding h t (input ++ (b ∷ [])) outlen
  put b room =
      let count : length input + 1 ≡ length (input ++ (b ∷ [])) =
        omega (arith, length-append input (b ∷ [])) in
      rw (set_next input b room, count) refl

  final_holding :
      length input ≤ 128
      → b2b_final (holding h t input outlen)
        ≡ out_bytes (at_offset h (t + length input) (padded_block input) true) outlen 0
  unfolding b2b_final advance
  final_holding fits =
      let counter = advanced (length input) t fits in
      let filled =
        zero_fill_lem (128 - length input) (128 - length input) 0 (length input) input (omega arith)
          (omega arith) in
      rw (counter.1, counter.0, filled) refl

code_last :
    (n : ℕ) (h : List ℕ) (t : ℕ) (input : List ℕ)
    → length input ≤ 128
    → code_blocks n h t input ≡ at_offset h (t + length input) (padded_block input) true
unfolding code_blocks
code_last zero h t input fits = refl
code_last (suc n) h t input fits = rw (ltb_ge 128 (length input) fits) refl

code_more :
    (n : ℕ) (h : List ℕ) (t : ℕ) (input : List ℕ) (b : ℕ) (msg : List ℕ)
    → length input ≡ 128
    → code_blocks (suc n) h t (input ++ (b ∷ msg))
      ≡ code_blocks n (at_offset h (t + 128) (padded_block input) false) (t + 128) (b ∷ msg)
unfolding code_blocks
code_more n h t input b msg full =
    let long : ltb 128 (length (input ++ (b ∷ msg))) ≡ true =
      lt→ltb 128 (length (input ++ (b ∷ msg))) (omega (arith, length-append input (b ∷ msg))) in
    let block : take 128 (input ++ (b ∷ msg)) ≡ input =
      take-append_le 128 input (b ∷ msg) (omega arith) ∙ take_all 128 input (omega arith) in
    let none_left : 128 - length input ≡ 0 = omega arith in
    let whole : padded_block input ≡ input =
      ap (λ (n : ℕ). input ++ replicate n 0) none_left ∙ append-nil input in
    rw (long, block, drop-append 128 input (b ∷ msg) full, whole) refl

-- Updating and finalizing is compressing the blocks of what the buffer holds and the message.
updated :
    (msg : List ℕ) (n : ℕ) (h : List ℕ) (t : ℕ) (input : List ℕ) (outlen : ℕ)
    → length input ≤ 128
    → length input + length msg ≤ n
    → b2b_final (b2b_update (holding h t input outlen) msg)
      ≡ out_bytes (code_blocks n h t (input ++ msg)) outlen 0
unfolding b2b_update
updated [] n h t input outlen fits enough = rw (append-nil input) (
    final_holding h t input outlen fits
    ∙ ap (λ (words : List ℕ). out_bytes words outlen 0) (sym (code_last n h t input fits)))
updated (b ∷ msg) zero h t input outlen fits enough = absurd (omega arith)
updated (b ∷ msg) (suc n) h t input outlen fits enough =
    elim (Bool-cases (ltb (length input) 128)) [
      | inl room ↦
          let less = ltb→lt (length input) 128 room in
          let count = length-append input (b ∷ []) in
          rw (kept h t input outlen less, put h t input outlen b less)
            (updated msg (suc n) h t (input ++ (b ∷ [])) outlen (omega (arith, count))
                (omega (arith, count))
              ∙ ap (λ (bytes : List ℕ). out_bytes (code_blocks (suc n) h t bytes) outlen 0)
                  (append_assoc input (b ∷ []) msg))
      | inr full ↦
          let more = ltb-false (length input) 128 full in
          let next : List ℕ = at_offset h (t + 128) (padded_block input) false in
          rw
            (
              flushed h t input outlen (omega arith),
              put next (t + 128) [] outlen b (omega arith),
              code_more n h t input b msg (omega arith),
            )
            (updated msg n next (t + 128) (b ∷ []) outlen (omega arith) (omega arith))
    ]

-- The first block of a keyed hash.
abbrev pub key_block : List ℕ → List ℕ
key_block [] = []
key_block (k ∷ key) = padded_block (k ∷ key)

abbrev pub parameter_words : ℕ → ℕ → List ℕ
parameter_words outlen keylen =
    set k_iv 0 (bit_xor (word_at k_iv 0) (bit_xor (bit_xor 0x01010000 (keylen * 2 ^ 8)) outlen))

-- The context that `b2b_init` makes.
initial :
    (outlen : ℕ) (key : List ℕ)
    → length key ≤ 64
    → record {
      h = parameter_words outlen (length key);
      t0 = 0;
      t1 = 0;
      outlen = outlen;
      buf = key ++ replicate (128 - length key) 0;
      buflen = if ltb 0 (length key) then 128 else 0;
    }
      ≡ holding (parameter_words outlen (length key)) 0 (key_block key) outlen
initial outlen [] short = refl
initial outlen (k ∷ key) short =
    let full : length (padded_block (k ∷ key)) ≡ 128 =
      length-padded_block (k ∷ key) (omega arith) in
    let some_key : ltb 0 (length (k ∷ key)) ≡ true = lt→ltb 0 (length (k ∷ key)) (omega arith) in
    let none_left : 128 - length (padded_block (k ∷ key)) ≡ 0 = omega arith in
    rw (some_key, none_left, full, append-nil (padded_block (k ∷ key))) refl

pub length-key_block : (key : List ℕ) → length key ≤ 64 → length (key_block key) ≤ 128
length-key_block [] short = omega arith
length-key_block (k ∷ key) short =
    let full = length-padded_block (k ∷ key) (omega arith) in omega arith

pub rmbl_blake2b-blocks :
    (msg key : List ℕ) (outlen : ℕ)
    → 1 ≤ outlen
    → outlen ≤ 64
    → length key ≤ 64
    → rmbl_blake2b msg key outlen
      ≡ some (
          out_bytes
            (code_blocks
              (128 + length msg)
              (parameter_words outlen (length key))
              0
              (key_block key ++ msg))
            outlen
            0)
unfolding rmbl_blake2b b2b_init
rmbl_blake2b-blocks msg key outlen low high short =
    let fits = length-key_block key short in
    rw (ltb_ge outlen 1 low, ltb_ge 64 outlen high, ltb_ge 64 (length key) short)
      (ap (λ (c : Blake2bCtx). some (b2b_final (b2b_update c msg))) (initial outlen key short)
        ∙ ap (λ (out : List ℕ). some out)
            (updated msg (128 + length msg) (parameter_words outlen (length key)) 0 (key_block key)
              outlen fits (omega arith)))
