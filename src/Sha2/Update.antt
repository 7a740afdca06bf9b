-- ===== src/Sha2/Update.antt =====
-- The buffered update against the specification, for both block sizes.
mod Write
pub use Write.{length-write, take-write, write_full}
use mathlib.Core.Path.{subst}
use native.Mathlib.Nat.{mod-lt, mod-add-div, suc-mul, mul_comm, div-mul-le_self}
use rmorie_bricklayer.Prelude.{
  ℕ, zero, suc, ◌+◌, ◌-◌, ◌*◌, ◌/◌, ◌%◌, ◌<◌, ◌≤◌, List, [], ◌∷◌, ◌++◌, length, take, drop,
  take_all, drop_all, ltb-false, length-take, length-drop, take-append-drop, ltb, ltb→lt, ◌==◌,
  ==_iff, if◌then◌else◌, Bool-cases, inl, inr, ◌⊎◌, ◌≡◌, refl, sym, ap, ◌∙◌, arith, Bool, true,
  false,
}
use rmorie_bricklayer.Sha2.{Ctx, write, compress_full, taken, top_up, bulk, keep_tail, update}
use rmorie_bricklayer.Sha2.Machine.{
  absorb_none, Machine, absorb, absorb-append, absorb_inner, absorb_block, compressed,
}

-- What a context stands for.
abbrev pub view : {H C : Type 0} → Ctx H C → Machine H C
view ctx = record { h = ctx.state; rest = take ctx.datalen ctx.buf; count = ctx.bitlen }

abbrev pub IsCtx : {H C : Type 0} → ℕ → Ctx H C → Type 0
IsCtx size ctx = (length ctx.buf ≡ size) × (ctx.datalen < size)

below_next : (n m : ℕ) → 0 < m → n < n / m * m + m
below_next n m h = omega (arith, mod-lt n h, mod-add-div n m, mul_comm (n / m) m)

module _ {H C : Type 0} (size : ℕ) (compress : H → List ℕ → H) (bump : C → C) where
  pub length-rest : (ctx : Ctx H C) → IsCtx size ctx → length (view ctx).rest ≡ ctx.datalen
  length-rest ctx h = omega (arith, length-take ctx.datalen ctx.buf, h)

  -- A step of the update leaves what is still to be absorbed, and what comes of it.
  abbrev Keeps : Ctx H C → List ℕ → Ctx H C × List ℕ → Type 0
  Keeps ctx bytes r =
      IsCtx size r.0
      × (absorb size compress bump (view r.0) r.1 ≡ absorb size compress bump (view ctx) bytes)

  -- The bytes end inside the block.
  short_lem :
      (ctx : Ctx H C) (bytes : List ℕ)
      → IsCtx size ctx
      → ctx.datalen + length bytes < size
      → view (record ctx {
        buf = write ctx.buf ctx.datalen bytes;
        datalen = ctx.datalen + length bytes;
      })
        ≡ absorb size compress bump (view ctx) bytes
  short_lem ctx bytes h less =
      ap (λ (r : List ℕ). record (view ctx) { rest = r })
        (take-write ctx.buf ctx.datalen bytes (ctx.datalen + length bytes) refl (omega (arith, h)))
      ∙ sym (
          absorb_inner size compress bump (view ctx) bytes (omega (arith, less, length-rest ctx h)))

  -- The bytes reach the end of the block.
  full_lem :
      (ctx : Ctx H C) (bytes : List ℕ)
      → IsCtx size ctx
      → ctx.datalen + length bytes ≡ size
      → view (record ctx {
        buf = write ctx.buf ctx.datalen bytes;
        state = compress ctx.state (write ctx.buf ctx.datalen bytes);
        bitlen = bump ctx.bitlen;
        datalen = 0;
      })
        ≡ absorb size compress bump (view ctx) bytes
  full_lem ctx bytes h full =
      ap (λ (block : List ℕ). compressed size compress bump (view ctx) block)
        (write_full ctx.buf ctx.datalen bytes (omega (arith, full, h)))
      ∙ sym (
          absorb_block size compress bump (view ctx) bytes (omega (arith, full, h))
            (omega (arith, full, length-rest ctx h)))

  top_up_lem :
      (ctx : Ctx H C) (bytes : List ℕ)
      → IsCtx size ctx
      → Keeps ctx bytes (top_up size compress bump ctx bytes)
        × (((top_up size compress bump ctx bytes).0.datalen ≡ 0)
            ⊎ ((top_up size compress bump ctx bytes).1 ≡ []))
  unfolding top_up compress_full absorb
  top_up_lem ctx bytes h = elim (Bool-cases (ltb 0 ctx.datalen)) [
    | inr e ↦ rw e ((h, refl), inl (ground arith))
    | inl e ↦ rw e (elim (Bool-cases (ltb (length bytes) (size - ctx.datalen))) [
      | inl f ↦
          let less : ctx.datalen + length bytes < size = omega (arith, ltb→lt _ _ f) in
          let open_block : (ctx.datalen + length bytes == size) ≡ false = ground arith in
          rw
            (
              f,
              take_all (length bytes) bytes (omega arith),
              open_block,
              drop_all (length bytes) bytes (omega arith),
            )
            (
              ((length-write ctx.buf ctx.datalen bytes ∙ h.0, less), short_lem ctx bytes h less),
              inr refl,
            )
      | inr f ↦
          let size_taken : length (take (size - ctx.datalen) bytes) ≡ size - ctx.datalen = omega (
            arith,
            length-take (size - ctx.datalen) bytes,
            ltb-false (length bytes) (size - ctx.datalen) f,
          ) in
          let whole : (ctx.datalen + (size - ctx.datalen) == size) ≡ true =
            (==_iff _ _).1 (omega (arith, h)) in
          rw (f, whole)
            (
              (
                (
                  length-write ctx.buf ctx.datalen (take (size - ctx.datalen) bytes) ∙ h.0,
                  omega (arith, h),
                ),
                ap
                      (λ (m : Machine H C).
                        absorb size compress bump m (drop (size - ctx.datalen) bytes))
                      (full_lem ctx (take (size - ctx.datalen) bytes) h
                        (omega (arith, size_taken, h)))
                    ∙ sym (
                        absorb-append size compress bump (view ctx)
                          (take (size - ctx.datalen) bytes) (drop (size - ctx.datalen) bytes))
                    ∙ ap (absorb size compress bump (view ctx))
                        (take-append-drop (size - ctx.datalen) bytes),
              ),
              inl refl,
            )
    ])
  ]

  bulk_lem :
      (blocks : ℕ) (ctx : Ctx H C) (bytes : List ℕ)
      → IsCtx size ctx
      → ctx.datalen ≡ 0
      → blocks * size ≤ length bytes
      → Keeps ctx bytes (bulk size compress bump blocks ctx bytes)
        × ((bulk size compress bump blocks ctx bytes).0.datalen ≡ 0)
        × (length (bulk size compress bump blocks ctx bytes).1 + blocks * size ≡ length bytes)
  unfolding bulk
  bulk_lem zero ctx bytes h z hn = ((h, refl), z, omega arith)
  bulk_lem (suc blocks) ctx bytes h z hn =
      let more : suc blocks * size ≡ blocks * size + size = suc-mul blocks size in
      let ctx' : Ctx H C = record ctx {
        state = compress ctx.state (take size bytes);
        bitlen = bump ctx.bitlen;
      } in
      let ih =
        bulk_lem blocks ctx' (drop size bytes) h z
          (omega (arith, more, hn, length-drop size bytes)) in
      let empty : take ctx.datalen ctx.buf ≡ [] = ap (λ (n : ℕ). take n ctx.buf) z in
      let block : length (take size bytes) ≡ size =
        omega (arith, length-take size bytes, more, hn) in
      let one : absorb size compress bump (view ctx) (take size bytes) ≡ view ctx' =
        absorb_block size compress bump (view ctx) (take size bytes) (omega (arith, block, h))
          (omega (arith, block, ap length empty))
        ∙ ap (λ (r : List ℕ). compressed size compress bump (view ctx) (r ++ take size bytes)) empty
        ∙ ap (λ (r : List ℕ). record (view ctx') { rest = r }) (sym empty) in
      (
        (
          ih.0.0,
          ih.0.1
              ∙ ap (λ (m : Machine H C). absorb size compress bump m (drop size bytes)) (sym one)
              ∙ sym
                  (absorb-append size compress bump (view ctx) (take size bytes) (drop size bytes))
              ∙ ap (absorb size compress bump (view ctx)) (take-append-drop size bytes),
        ),
        ih.1,
        omega (arith, ih.2, more, length-drop size bytes, hn),
      )

  keep_tail_lem :
      (ctx : Ctx H C) (bytes : List ℕ)
      → IsCtx size ctx
      → (ctx.datalen ≡ 0) ⊎ (bytes ≡ [])
      → length bytes < size
      → (view (keep_tail size compress bump ctx bytes) ≡ absorb size compress bump (view ctx) bytes)
        × IsCtx size (keep_tail size compress bump ctx bytes)
  unfolding keep_tail
  keep_tail_lem ctx bytes h z hn = elim (Bool-cases (ltb 0 (length bytes))) [
    | inr e ↦
        rw e
          (sym (absorb_none size compress bump (view ctx) bytes (ltb-false 0 (length bytes) e)), h)
    | inl e ↦
        let empty : take ctx.datalen ctx.buf ≡ [] =
          ap (λ (n : ℕ). take n ctx.buf) (at_start z (ltb→lt _ _ e)) in
        rw e (
          ap (λ (r : List ℕ). record (view ctx) { rest = r })
                (take-write ctx.buf 0 bytes (length bytes) (omega arith) (omega (arith, hn, h))
                  ∙ ap (λ (t : List ℕ). t ++ bytes) (sym empty))
              ∙ sym (
                  absorb_inner size compress bump (view ctx) bytes
                    (omega (arith, hn, ap length empty))),
          (length-write ctx.buf 0 bytes ∙ h.0, hn),
        )
  ]
    where
      at_start : (ctx.datalen ≡ 0) ⊎ (bytes ≡ []) → 0 < length bytes → ctx.datalen ≡ 0
      at_start (inl z) hb = z
      at_start (inr z) hb = absurd (omega (arith, ap length z, hb))

  bulk_part :
      (blocks : ℕ) (ctx : Ctx H C) (bytes : List ℕ)
      → IsCtx size ctx
      → (ctx.datalen ≡ 0) ⊎ (bytes ≡ [])
      → blocks * size ≤ length bytes
      → Keeps ctx bytes (bulk size compress bump blocks ctx bytes)
        × (((bulk size compress bump blocks ctx bytes).0.datalen ≡ 0)
            ⊎ ((bulk size compress bump blocks ctx bytes).1 ≡ []))
        × (length bytes < blocks * size + size
            → length (bulk size compress bump blocks ctx bytes).1 < size)
  unfolding bulk
  bulk_part zero ctx bytes h z hn = ((h, refl), z, λ less. omega (arith, less))
  bulk_part (suc blocks) ctx bytes h (inr z) hn =
      absurd (omega (arith, suc-mul blocks size, hn, ap length z, h))
  bulk_part (suc blocks) ctx bytes h (inl z) hn =
      let b = bulk_lem (suc blocks) ctx bytes h z hn in
      (b.0, inl b.1, λ less. omega (arith, b.2, less))

  -- The update keeps a context, and absorbs the bytes one after another, in whatever pieces they go
  -- through the buffer and the whole blocks.
  pub update_lem :
      (ctx : Ctx H C) (bytes : List ℕ)
      → IsCtx size ctx
      → (view (update size compress bump ctx bytes) ≡ absorb size compress bump (view ctx) bytes)
        × IsCtx size (update size compress bump ctx bytes)
  unfolding update
  update_lem ctx bytes h =
      let first = top_up size compress bump ctx bytes in
      let t = top_up_lem ctx bytes h in
      let b =
        bulk_part (length first.1 / size) first.0 first.1 t.0.0 t.1
          (div-mul-le_self (length first.1) size) in
      let second = bulk size compress bump (length first.1 / size) first.0 first.1 in
      let k =
        keep_tail_lem second.0 second.1 b.0.0 b.1
          (b.2 (below_next (length first.1) size (omega (arith, h)))) in
      (k.0 ∙ b.0.1 ∙ t.0.1, k.1)
