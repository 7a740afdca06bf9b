-- ===== src/Sha2/Sha256/Digest.antt =====
-- src/rmbl_core.cpp: the SHA-256 functions against FIPS 180-4: the compression is run on the
-- message, a byte 0x80, zeros and the length in bits, block by block.
use rmorie_bricklayer.Prelude.{
  ℕ, suc, ◌+◌, ◌*◌, ◌%◌, ◌^◌, List, [], ◌∷◌, ◌++◌, length, take, drop, length-append,
  take-append-drop, ◌≡◌, refl, sym, ap, ◌∙◌, arith, ltb, Bool-cases, inl, inr, if◌then◌else◌, ◌==◌,
  ==_iff,
}
use mathlib.Core.Logic.{◌≢◌}
use rmorie_bricklayer.Prelude.Bytes.{
  be_bytes, length-be_bytes, be_bytes-IsBytes, IsBytes, IsBytes-append,
}
use rmorie_bricklayer.Sha2.{Ctx, final_state}
use rmorie_bricklayer.Sha2.Machine.{Machine, absorb, absorb_byte, absorb_block}
use rmorie_bricklayer.Sha2.Update.{view, IsCtx, update_lem, length-rest}
use rmorie_bricklayer.Sha2.Resume.{BufferedHash, absorbed, message_digest, absorbed_none, resumed}
use rmorie_bricklayer.Sha2.Padding.{padding, final_state_lem}
use rmorie_bricklayer.Sha2.Sha256.{
  Words, sha256_transform, bump, sha256_iv, sha256_init, sha256_update, sha256_final, sha256_raw,
  sha256_midstate, sha256_finish, sha256_two_part, sha224_iv, sha224_raw, word_bytes, memory,
}

-- The specification's state before any byte.
abbrev pub start : Words → Machine Words ℕ
start iv = record { h = iv; rest = []; count = 0 }

-- The padding of a message of `n` bytes.
abbrev pub fips_padding : ℕ → List ℕ
fips_padding n = padding 64 (n % 64) (be_bytes 8 (8 * n % 2 ^ 64))

-- After `n` bytes: the bit count and the bytes of the block.
pub IsCounted : ℕ → Machine Words ℕ → Type 0
IsCounted n m = (length m.rest ≡ n % 64) × ((m.count + 8 * length m.rest) % 2 ^ 64 ≡ 8 * n % 2 ^ 64)

pub absorb_byte-IsCounted :
    (n : ℕ) (m : Machine Words ℕ) (b : ℕ)
    → IsCounted n m
    → IsCounted (suc n) (absorb_byte 64 sha256_transform bump m b)
unfolding absorb_byte IsCounted
absorb_byte-IsCounted n m b h = elim (Bool-cases (length m.rest + 1 == 64)) [
  | inl e ↦
      let full : length m.rest + 1 ≡ 64 = (==_iff _ _).0 e in
      rw e (omega (arith, h, full), omega (arith, h, full))
  | inr e ↦
      let grown : length (m.rest ++ b ∷ []) ≡ length m.rest + 1 = length-append m.rest (b ∷ []) in
      let less : length m.rest + 1 ≢ 64 = λ q. cc (e, (==_iff _ _).1 q) in
      rw e (omega (arith, h, grown, less), omega (arith, h, grown))
]

-- The digest of a context that stands at `n` bytes.
pub sha256_final_lem :
    (ctx : Ctx Words ℕ) (n : ℕ)
    → IsCtx 64 ctx
    → IsCounted n (view ctx)
    → sha256_final ctx ≡ word_bytes (absorb 64 sha256_transform bump (view ctx) (fips_padding n)).h
unfolding sha256_final IsCounted
sha256_final_lem ctx n h c =
    ap word_bytes (
      sym (
        final_state_lem 64 sha256_transform bump ctx (be_bytes 8 bits) h (omega (arith, eight))
          (omega (arith, eight))))
    ∙ ap
        (λ (d : ℕ).
          word_bytes
            (absorb 64 sha256_transform bump (view ctx) (padding 64 d (be_bytes 8 bits))).h)
        (sym size ∙ c.0)
    ∙ ap
        (λ (v : ℕ).
          word_bytes
            (absorb 64 sha256_transform bump (view ctx) (padding 64 (n % 64) (be_bytes 8 v))).h)
        (omega (arith, c.1, size))
  where
    bits : ℕ
    bits = (ctx.bitlen + ctx.datalen * 8) % 2 ^ 64

    eight : length (be_bytes 8 bits) ≡ 8
    eight = length-be_bytes 8 bits

    size : length (view ctx).rest ≡ ctx.datalen
    size = length-rest 64 sha256_transform bump ctx h

abbrev pub sha256_hash : BufferedHash Words ℕ
sha256_hash = record {
  size = 64;
  compress = sha256_transform;
  bump = bump;
  padding = fips_padding;
  digest = word_bytes;
  final = sha256_final;
  Counted = IsCounted;
  counted_byte = absorb_byte-IsCounted;
  final_padded = sha256_final_lem;
}

abbrev pub fips_digest : Words → List ℕ → List ℕ
fips_digest iv message = message_digest sha256_hash (start iv) message

sha256_resumed :
    (iv : Words) (ctx : Ctx Words ℕ) (done bytes : List ℕ)
    → IsCtx 64 ctx
    → view ctx ≡ absorbed sha256_hash (start iv) done
    → sha256_final (sha256_update ctx bytes) ≡ fips_digest iv (done ++ bytes)
unfolding sha256_update IsCounted
sha256_resumed iv ctx done bytes h e =
    resumed sha256_hash (start iv) ctx done bytes (omega arith) h e

first_part :
    (ctx : Ctx Words ℕ) (bytes : List ℕ)
    → IsCtx 64 ctx
    → (view (sha256_update ctx bytes) ≡ absorbed sha256_hash (view ctx) bytes)
      × IsCtx 64 (sha256_update ctx bytes)
unfolding sha256_update
first_part ctx bytes h = update_lem 64 sha256_transform bump ctx bytes h

-- The initial context, whatever the memory held.
fresh :
    (iv : Words) (mem : List ℕ)
    → length mem ≡ 64
    → IsCtx 64 (record (sha256_init mem) { state = iv })
fresh iv mem h = (h, omega arith)

-- `rmbl_sha256_raw` computes SHA-256 of every message: its digest is the compression function run
-- over
-- the message with the padding of FIPS 180-4, which ends in the length in bits modulo 2 ^ 64.
pub sha256_raw_lem : (bytes : List ℕ) → sha256_raw bytes ≡ fips_digest sha256_iv bytes
unfolding sha256_raw
sha256_raw_lem bytes =
    sha256_resumed sha256_iv (sha256_init memory) [] bytes (fresh sha256_iv memory refl)
      (sym (absorbed_none sha256_hash (start sha256_iv)))

-- SHA-224 is the same function from its own initial state, cut to 28 bytes.
pub sha224_raw_lem : (bytes : List ℕ) → sha224_raw bytes ≡ take 28 (fips_digest sha224_iv bytes)
unfolding sha224_raw
sha224_raw_lem bytes = ap (take 28) (
    sha256_resumed sha224_iv (record (sha256_init memory) { state = sha224_iv }) [] bytes
      (fresh sha224_iv memory refl) (sym (absorbed_none sha256_hash (start sha224_iv))))

-- A message that is fed in two pieces, at any split and also at one past its end, has the digest of
-- the message in one piece.
pub sha256_two_part_lem :
    (bytes : List ℕ) (split : ℕ) → sha256_two_part bytes split ≡ sha256_raw bytes
unfolding sha256_two_part
sha256_two_part_lem bytes split =
    sha256_resumed sha256_iv (sha256_update (sha256_init memory) (take at bytes)) (take at bytes)
      (drop at bytes) first.1 (first.0)
    ∙ ap (fips_digest sha256_iv) (take-append-drop at bytes)
    ∙ sym (sha256_raw_lem bytes)
  where
    at : ℕ
    at = if ltb (length bytes) split then length bytes else split

    first :
        (view (sha256_update (sha256_init memory) (take at bytes))
          ≡ absorbed sha256_hash (start sha256_iv) (take at bytes))
        × IsCtx 64 (sha256_update (sha256_init memory) (take at bytes))
    first = first_part (sha256_init memory) (take at bytes) (fresh sha256_iv memory refl)

-- A digest that starts from the state after one block of 64 bytes, the block being counted as one,
-- is the digest of the block and the rest together.
pub sha256_finish-sha256_midstate :
    (block tail : List ℕ)
    → length block ≡ 64
    → sha256_finish (sha256_midstate block) 1 tail ≡ sha256_raw (block ++ tail)
unfolding sha256_finish sha256_midstate
sha256_finish-sha256_midstate block tail h =
    sha256_resumed sha256_iv
      (record (sha256_init memory) {
        state = sha256_transform sha256_iv block;
        bitlen = 512;
        datalen = 0;
      })
      block tail (refl, omega arith)
      (sym (
        absorb_block 64 sha256_transform bump (start sha256_iv) block (omega (arith, h))
          (omega (arith, h))))
    ∙ sym (sha256_raw_lem (block ++ tail))

length-word_bytes : (s : Words) → length (word_bytes s) ≡ 32
length-word_bytes s = simp (length-append, length-be_bytes) refl

length-sha256_final : (ctx : Ctx Words ℕ) → length (sha256_final ctx) ≡ 32
unfolding sha256_final
length-sha256_final ctx = length-word_bytes (
    final_state 64 sha256_transform bump (be_bytes 8 ((ctx.bitlen + ctx.datalen * 8) % 2 ^ 64)) ctx)

pub length-sha256_raw : (bytes : List ℕ) → length (sha256_raw bytes) ≡ 32
unfolding sha256_raw
length-sha256_raw bytes = length-sha256_final (sha256_update (sha256_init memory) bytes)

word_bytes-IsBytes : (s : Words) → IsBytes (word_bytes s)
word_bytes-IsBytes s = IsBytes-append _ _ (be_bytes-IsBytes 4 s.a) (
    IsBytes-append _ _ (be_bytes-IsBytes 4 s.b) (
      IsBytes-append _ _ (be_bytes-IsBytes 4 s.c) (
        IsBytes-append _ _ (be_bytes-IsBytes 4 s.d) (
          IsBytes-append _ _ (be_bytes-IsBytes 4 s.e) (
            IsBytes-append _ _ (be_bytes-IsBytes 4 s.f)
              (IsBytes-append _ _ (be_bytes-IsBytes 4 s.g) (be_bytes-IsBytes 4 s.h)))))))

pub sha256_raw-IsBytes : (bytes : List ℕ) → IsBytes (sha256_raw bytes)
unfolding sha256_raw sha256_final
sha256_raw-IsBytes bytes =
    let ctx = sha256_update (sha256_init memory) bytes in
    word_bytes-IsBytes (
      final_state 64 sha256_transform bump (be_bytes 8 ((ctx.bitlen + ctx.datalen * 8) % 2 ^ 64))
        ctx)
