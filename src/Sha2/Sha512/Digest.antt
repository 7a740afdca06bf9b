-- ===== src/Sha2/Sha512/Digest.antt =====
-- src/rmbl_digest.cpp: the SHA-512 functions against FIPS 180-4: the compression is run on the
-- message, a byte 0x80, zeros and the length in bits, block by block.
use rmorie_bricklayer.Prelude.{
  ℕ, suc, ◌+◌, ◌*◌, ◌/◌, ◌%◌, ◌^◌, ◌<◌, List, [], ◌∷◌, ◌++◌, length, take, length-append, ◌≡◌, refl,
  sym, ap, ◌∙◌, arith, ltb, ltb→lt, ltb-false, Bool-cases, inl, inr, ◌==◌, ==_iff,
}
use mathlib.Core.Logic.{◌≢◌}
use rmorie_bricklayer.Prelude.Bytes.{be_bytes, length-be_bytes}
use rmorie_bricklayer.Sha2.{Ctx, final_state}
use rmorie_bricklayer.Sha2.Machine.{Machine, absorb, absorb_byte, absorb_block}
use rmorie_bricklayer.Sha2.Update.{view, IsCtx, update_lem, length-rest}
use rmorie_bricklayer.Sha2.Resume.{BufferedHash, absorbed, message_digest, absorbed_none, resumed}
use rmorie_bricklayer.Sha2.Padding.{padding, final_state_lem}
use rmorie_bricklayer.Sha2.Sha256.{Words}
use rmorie_bricklayer.Sha2.Sha512.{
  Bits, u64, add_bits, sha512_compress, bump, sha512_iv, sha512_init, sha512_update, sha512_final,
  sha512_raw, sha512_midstate, sha512_finish, sha384_iv, sha384_raw, word_bytes, memory,
}

-- The specification's state before any byte.
abbrev pub start : Words → Machine Words Bits
start iv = record { h = iv; rest = []; count = record { lo = 0; hi = 0 } }

-- A number of bits as two words of 64 bits, the high one first.
abbrev pub length_field : ℕ → List ℕ
length_field bits = be_bytes 8 (bits / 2 ^ 64) ++ be_bytes 8 (bits % 2 ^ 64)

-- The padding of a message of `n` bytes.
abbrev pub fips_padding : ℕ → List ℕ
fips_padding n = padding 128 (n % 128) (length_field (8 * n % 2 ^ 128))

abbrev value : Bits → ℕ
value bits = bits.hi * 2 ^ 64 + bits.lo

abbrev IsBits : Bits → Type 0
IsBits bits = (bits.lo < 2 ^ 64) × (bits.hi < 2 ^ 64)

-- The two words are one counter modulo 2 ^ 128.
add_bits_lem :
    (k : ℕ) (bits : Bits)
    → k < 2 ^ 64
    → IsBits bits
    → (value (add_bits k bits) ≡ (value bits + k) % 2 ^ 128) × IsBits (add_bits k bits)
add_bits_lem k bits hk h = elim (Bool-cases (ltb (u64 (bits.lo + k)) bits.lo)) [
  | inl e ↦ let less = ltb→lt _ _ e in rw e (omega (arith, less, h), omega (arith, less, h))
  | inr e ↦ let more = ltb-false _ _ e in rw e (omega (arith, more, h), omega (arith, more, h))
]

-- After `n` bytes: the bit count and the bytes of the block.
pub IsCounted : ℕ → Machine Words Bits → Type 0
IsCounted n m =
    (length m.rest ≡ n % 128)
    × ((value m.count + 8 * length m.rest) % 2 ^ 128 ≡ 8 * n % 2 ^ 128)
    × IsBits m.count

pub absorb_byte-IsCounted :
    (n : ℕ) (m : Machine Words Bits) (b : ℕ)
    → IsCounted n m
    → IsCounted (suc n) (absorb_byte 128 sha512_compress bump m b)
unfolding absorb_byte IsCounted
absorb_byte-IsCounted n m b h = elim (Bool-cases (length m.rest + 1 == 128)) [
  | inl e ↦
      let full : length m.rest + 1 ≡ 128 = (==_iff _ _).0 e in
      let counter = add_bits_lem 1024 m.count (omega arith) h.2 in
      rw e (omega (arith, h.0, full), omega (arith, h.1, full, counter.0), counter.1)
  | inr e ↦
      let grown : length (m.rest ++ b ∷ []) ≡ length m.rest + 1 = length-append m.rest (b ∷ []) in
      let less : length m.rest + 1 ≢ 128 = λ q. cc (e, (==_iff _ _).1 q) in
      rw e (omega (arith, h.0, grown, less), omega (arith, h.1, grown), h.2)
]

-- The digest of a context that stands at `n` bytes.
pub sha512_final_lem :
    (ctx : Ctx Words Bits) (n : ℕ)
    → IsCtx 128 ctx
    → IsCounted n (view ctx)
    → sha512_final ctx ≡ word_bytes (absorb 128 sha512_compress bump (view ctx) (fips_padding n)).h
unfolding sha512_final IsCounted
sha512_final_lem ctx n h c =
    ap word_bytes (
      sym (
        final_state_lem 128 sha512_compress bump ctx field h (omega (arith, sixteen))
          (omega (arith, sixteen))))
    ∙ ap
        (λ (d : ℕ). word_bytes (absorb 128 sha512_compress bump (view ctx) (padding 128 d field)).h)
        (sym size ∙ c.0)
    ∙ ap
        (λ (f : List ℕ).
          word_bytes (absorb 128 sha512_compress bump (view ctx) (padding 128 (n % 128) f)).h)
        fields
  where
    bits : Bits
    bits = add_bits (ctx.datalen * 8) ctx.bitlen

    field : List ℕ
    field = be_bytes 8 bits.hi ++ be_bytes 8 bits.lo

    sixteen : length field ≡ 16
    sixteen = omega (
      arith,
      length-append (be_bytes 8 bits.hi) (be_bytes 8 bits.lo),
      length-be_bytes 8 bits.hi,
      length-be_bytes 8 bits.lo,
    )

    size : length (view ctx).rest ≡ ctx.datalen
    size = length-rest 128 sha512_compress bump ctx h

    counter : (value bits ≡ (value ctx.bitlen + ctx.datalen * 8) % 2 ^ 128) × IsBits bits
    counter = add_bits_lem (ctx.datalen * 8) ctx.bitlen (omega (arith, h)) c.2

    total : value bits ≡ 8 * n % 2 ^ 128
    total = omega (arith, counter.0, c.1, size)

    fields : field ≡ length_field (8 * n % 2 ^ 128)
    fields =
        ap (λ (w : ℕ). be_bytes 8 w ++ be_bytes 8 bits.lo)
          (let e : bits.hi ≡ 8 * n % 2 ^ 128 / 2 ^ 64 = omega (arith, total, counter.1) in e)
        ∙ ap (λ (w : ℕ). be_bytes 8 (8 * n % 2 ^ 128 / 2 ^ 64) ++ be_bytes 8 w)
            (let e : bits.lo ≡ 8 * n % 2 ^ 128 % 2 ^ 64 = omega (arith, total, counter.1) in e)

abbrev pub sha512_hash : BufferedHash Words Bits
sha512_hash = record {
  size = 128;
  compress = sha512_compress;
  bump = bump;
  padding = fips_padding;
  digest = word_bytes;
  final = sha512_final;
  Counted = IsCounted;
  counted_byte = absorb_byte-IsCounted;
  final_padded = sha512_final_lem;
}

abbrev pub fips_digest : Words → List ℕ → List ℕ
fips_digest iv message = message_digest sha512_hash (start iv) message

sha512_resumed :
    (iv : Words) (ctx : Ctx Words Bits) (done bytes : List ℕ)
    → IsCtx 128 ctx
    → view ctx ≡ absorbed sha512_hash (start iv) done
    → sha512_final (sha512_update ctx bytes) ≡ fips_digest iv (done ++ bytes)
unfolding sha512_update IsCounted
sha512_resumed iv ctx done bytes h e =
    resumed sha512_hash (start iv) ctx done bytes
      (omega arith, omega arith, (omega arith, omega arith)) h e

first_part :
    (ctx : Ctx Words Bits) (bytes : List ℕ)
    → IsCtx 128 ctx
    → (view (sha512_update ctx bytes) ≡ absorbed sha512_hash (view ctx) bytes)
      × IsCtx 128 (sha512_update ctx bytes)
unfolding sha512_update
first_part ctx bytes h = update_lem 128 sha512_compress bump ctx bytes h

-- The initial context, whatever the memory held.
fresh :
    (iv : Words) (mem : List ℕ)
    → length mem ≡ 128
    → IsCtx 128 (record (sha512_init mem) { state = iv })
fresh iv mem h = (h, omega arith)

-- `rmbl_sha512_raw` computes SHA-512 of every message: its digest is the compression function run
-- over
-- the message with the padding of FIPS 180-4, which ends in the length in bits modulo 2 ^ 128.
pub sha512_raw_lem : (bytes : List ℕ) → sha512_raw bytes ≡ fips_digest sha512_iv bytes
unfolding sha512_raw
sha512_raw_lem bytes =
    sha512_resumed sha512_iv (sha512_init memory) [] bytes (fresh sha512_iv memory refl)
      (sym (absorbed_none sha512_hash (start sha512_iv)))

-- SHA-384 is the same function from its own initial state, cut to 48 bytes.
pub sha384_raw_lem : (bytes : List ℕ) → sha384_raw bytes ≡ take 48 (fips_digest sha384_iv bytes)
unfolding sha384_raw
sha384_raw_lem bytes = ap (take 48) (
    sha512_resumed sha384_iv (record (sha512_init memory) { state = sha384_iv }) [] bytes
      (fresh sha384_iv memory refl) (sym (absorbed_none sha512_hash (start sha384_iv))))

-- A digest that starts from the state after one block of 128 bytes, the block being counted as one,
-- is the digest of the block and the rest together.
pub sha512_finish-sha512_midstate :
    (block tail : List ℕ)
    → length block ≡ 128
    → sha512_finish (sha512_midstate block) 1 tail ≡ sha512_raw (block ++ tail)
unfolding sha512_finish sha512_midstate
sha512_finish-sha512_midstate block tail h =
    sha512_resumed sha512_iv
      (record (sha512_init memory) {
        state = sha512_compress sha512_iv block;
        bitlen = record { lo = 1024; hi = 0 };
        datalen = 0;
      })
      block tail (refl, omega arith)
      (sym (
        absorb_block 128 sha512_compress bump (start sha512_iv) block (omega (arith, h))
          (omega (arith, h))))
    ∙ sym (sha512_raw_lem (block ++ tail))

length-word_bytes : (s : Words) → length (word_bytes s) ≡ 64
length-word_bytes s = simp (length-append, length-be_bytes) refl

length-sha512_final : (ctx : Ctx Words Bits) → length (sha512_final ctx) ≡ 64
unfolding sha512_final
length-sha512_final ctx =
    let bits = add_bits (ctx.datalen * 8) ctx.bitlen in
    length-word_bytes
      (final_state 128 sha512_compress bump (be_bytes 8 bits.hi ++ be_bytes 8 bits.lo) ctx)

pub length-sha512_raw : (bytes : List ℕ) → length (sha512_raw bytes) ≡ 64
unfolding sha512_raw
length-sha512_raw bytes = length-sha512_final (sha512_update (sha512_init memory) bytes)
