-- ===== src/Sha2.antt =====
-- The SHA-2 functions of src/rmbl_core.cpp and src/rmbl_digest.cpp. Here is what `sha256_update`
-- and
-- `sha512_update` share: they differ in the size of a block, the compression and the bit count.
pub mod Machine
pub mod Update
pub mod Padding
pub mod Resume
pub mod Sha256
pub mod Sha512
use rmorie_bricklayer.Prelude.{
  ℕ, zero, suc, ◌+◌, ◌-◌, ◌*◌, ◌/◌, List, [], ◌∷◌, ◌++◌, length, take, drop, replicate, ltb,
  if◌then◌else◌, ◌==◌,
}

-- `sha256_ctx` and `sha512_ctx`: `buf` is the whole array, with whatever lies above `datalen`.
pub record Ctx (H C : Type 0) : Type 0 where
  pub buf : List ℕ
  pub datalen : ℕ
  pub bitlen : C
  pub state : H

-- `memcpy(buf + i, src, n)`
unfoldable pub write : List ℕ → ℕ → List ℕ → List ℕ
write [] i src = []
write (x ∷ buf) (suc i) src = x ∷ write buf i src
write (x ∷ buf) zero [] = x ∷ buf
write (x ∷ buf) zero (b ∷ src) = b ∷ write buf zero src

module _ {H C : Type 0} (size : ℕ) (compress : H → List ℕ → H) (bump : C → C) where
  unfoldable pub compress_full : Ctx H C → Ctx H C
  compress_full ctx =
      if ctx.datalen == size
      then record ctx { state = compress ctx.state ctx.buf; bitlen = bump ctx.bitlen; datalen = 0 }
      else ctx

  abbrev pub taken : Ctx H C → List ℕ → ℕ
  taken ctx bytes =
      if ltb (length bytes) (size - ctx.datalen) then length bytes else size - ctx.datalen

  -- The `if` on a partial block, and the bytes that it leaves.
  unfoldable pub top_up : Ctx H C → List ℕ → Ctx H C × List ℕ
  top_up ctx bytes =
      if ltb 0 ctx.datalen
      then (let n = taken ctx bytes in
          (
            compress_full (record ctx {
              buf = write ctx.buf ctx.datalen (take n bytes);
              datalen = ctx.datalen + n;
            }),
            drop n bytes,
          ))
      else (ctx, bytes)

  -- The `while` over whole blocks, by their number.
  unfoldable pub bulk : ℕ → Ctx H C → List ℕ → Ctx H C × List ℕ
  bulk zero ctx bytes = (ctx, bytes)
  bulk (suc blocks) ctx bytes =
      bulk blocks
        (record ctx { state = compress ctx.state (take size bytes); bitlen = bump ctx.bitlen })
        (drop size bytes)

  unfoldable pub keep_tail : Ctx H C → List ℕ → Ctx H C
  keep_tail ctx bytes =
      if ltb 0 (length bytes)
      then record ctx { buf = write ctx.buf 0 bytes; datalen = length bytes }
      else ctx

  unfoldable pub update : Ctx H C → List ℕ → Ctx H C
  update ctx bytes =
      let first = top_up ctx bytes in
      let second = bulk (length first.1 / size) first.0 first.1 in keep_tail second.0 second.1

  -- The bytes 0x80, 0, ..., 0 up to the length field of `field` bytes, after a compression where
  -- the
  -- field does not fit the block. (`sha512_final` tests the position after the 0x80.)
  unfoldable pub pad_buffer : ℕ → Ctx H C → Ctx H C
  pad_buffer field ctx =
      let marked_buf = write ctx.buf ctx.datalen (0x80 ∷ []) in
      let i = ctx.datalen + 1 in
      if ltb ctx.datalen (size - field)
      then record ctx { buf = write marked_buf i (replicate (size - field - i) 0) }
      else (let filled = write marked_buf i (replicate (size - i) 0) in
          record ctx {
            state = compress ctx.state filled;
            buf = write filled 0 (replicate (size - field) 0);
          })

  -- The state after the padding and the length field.
  unfoldable pub final_state : List ℕ → Ctx H C → H
  final_state lens ctx =
      let padded = pad_buffer (length lens) ctx in
      compress padded.state (write padded.buf (size - length lens) lens)
