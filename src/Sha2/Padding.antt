-- ===== src/Sha2/Padding.antt =====
-- The padding that `sha256_final` and `sha512_final` write into the buffer, against absorbing it as
-- bytes.
use rmorie_bricklayer.Prelude.{
  ℕ, zero, suc, ◌+◌, ◌-◌, ◌<◌, ◌≤◌, List, [], ◌∷◌, ◌++◌, length, take, replicate, length-replicate,
  take_all, length-append, ltb, ltb→lt, if◌then◌else◌, Bool-cases, inl, inr, ◌≡◌, refl, sym, ap,
  ◌∙◌, arith,
}
use mathlib.Core.List.{append_assoc}
use rmorie_bricklayer.Sha2.{Ctx, write, pad_buffer, final_state}
use rmorie_bricklayer.Sha2.Machine.{Machine, absorb, absorb-append, absorb_block, compressed}
use rmorie_bricklayer.Sha2.Update.{view, IsCtx, length-rest, length-write, take-write, write_full}

abbrev pub nulls : ℕ → List ℕ
nulls n = replicate n 0

pub nulls-add : (n m : ℕ) → nulls (n + m) ≡ nulls n ++ nulls m
nulls-add zero m = ap nulls (let e : 0 + m ≡ m = omega arith in e)
nulls-add (suc n) m =
    ap nulls (let e : suc n + m ≡ suc (n + m) = omega arith in e)
    ∙ ap (λ (t : List ℕ). 0 ∷ t) (nulls-add n m)

pub length-nulls : (n : ℕ) → length (nulls n) ≡ n
length-nulls n = length-replicate n 0

-- The 0x80 and `n` zeros written after the first `d` bytes.
marked_write :
    (buf : List ℕ) (d n : ℕ)
    → d + 1 + n ≤ length buf
    → take (d + 1 + n) (write (write buf d (0x80 ∷ [])) (d + 1) (nulls n))
      ≡ take d buf ++ (0x80 ∷ nulls n)
marked_write buf d n h =
    take-write (write buf d (0x80 ∷ [])) (d + 1) (nulls n) (d + 1 + n)
      (omega (arith, length-nulls n)) (omega (arith, length-write buf d (0x80 ∷ []), h))
    ∙ ap (λ (t : List ℕ). t ++ nulls n) (take-write buf d (0x80 ∷ []) (d + 1) refl (omega arith))
    ∙ append_assoc (take d buf) (0x80 ∷ []) (nulls n)

length-marked :
    (buf : List ℕ) (d n : ℕ)
    → length (write (write buf d (0x80 ∷ [])) (d + 1) (nulls n)) ≡ length buf
length-marked buf d n =
    length-write (write buf d (0x80 ∷ [])) (d + 1) (nulls n) ∙ length-write buf d (0x80 ∷ [])

-- The padding of a message that ends `d` bytes into a block.
abbrev pub zeros : ℕ → ℕ → ℕ → ℕ
zeros size field d =
    if ltb d (size - field) then size - field - (d + 1) else size - (d + 1) + (size - field)

abbrev pub padding : ℕ → ℕ → List ℕ → List ℕ
padding size d lens = 0x80 ∷ (replicate (zeros size (length lens) d) 0 ++ lens)

module _ {H C : Type 0} (size : ℕ) (compress : H → List ℕ → H) (bump : C → C) where
  last_block :
      (ctx : Ctx H C) (lens : List ℕ)
      → IsCtx size ctx
      → 0 < length lens
      → ctx.datalen + 1 + length lens ≤ size
      → (absorb size compress bump
          (view ctx)
          (0x80 ∷ (nulls (size - length lens - (ctx.datalen + 1)) ++ lens))).h
        ≡ compress ctx.state (
            write
              (write
                (write ctx.buf ctx.datalen (0x80 ∷ []))
                (ctx.datalen + 1)
                (nulls (size - length lens - (ctx.datalen + 1))))
              (size - length lens)
              lens)
  last_block ctx lens h hl fits =
      ap (λ (m : Machine H C). m.h)
        (absorb_block size compress bump (view ctx) (0x80 ∷ (nulls n ++ lens)) (omega arith) (
          omega (
            arith,
            length-rest size compress bump ctx h,
            length-append (nulls n) lens,
            length-nulls n,
            fits,
          )))
      ∙ ap (compress ctx.state) (sym block)
    where
      n : ℕ
      n = size - length lens - (ctx.datalen + 1)

      marked : List ℕ
      marked = write (write ctx.buf ctx.datalen (0x80 ∷ [])) (ctx.datalen + 1) (nulls n)

      upto : take (size - length lens) marked ≡ take ctx.datalen ctx.buf ++ (0x80 ∷ nulls n)
      upto =
          ap (λ (k : ℕ). take k marked)
            (let e : size - length lens ≡ ctx.datalen + 1 + n = omega (arith, fits) in e)
          ∙ marked_write ctx.buf ctx.datalen n (omega (arith, fits, h))

      block :
          write marked (size - length lens) lens
          ≡ take ctx.datalen ctx.buf ++ (0x80 ∷ (nulls n ++ lens))
      block =
          write_full marked (size - length lens) lens
            (omega (arith, length-marked ctx.buf ctx.datalen n, h, fits))
          ∙ ap (λ (t : List ℕ). t ++ lens) upto
          ∙ append_assoc (take ctx.datalen ctx.buf) (0x80 ∷ nulls n) lens

  two_blocks :
      (ctx : Ctx H C) (lens : List ℕ) (filled : List ℕ)
      → IsCtx size ctx
      → 0 < length lens
      → length lens < size
      → filled
        ≡ write
            (write ctx.buf ctx.datalen (0x80 ∷ []))
            (ctx.datalen + 1)
            (nulls (size - (ctx.datalen + 1)))
      → (absorb size compress bump
          (view ctx)
          (0x80 ∷ (nulls (size - (ctx.datalen + 1) + (size - length lens)) ++ lens))).h
        ≡ compress
            (compress ctx.state filled)
            (write (write filled 0 (nulls (size - length lens))) (size - length lens) lens)
  two_blocks ctx lens filled h hl hs e =
      ap (λ (t : List ℕ). (absorb size compress bump (view ctx) t).h) split
      ∙ ap (λ (m : Machine H C). m.h)
          (absorb-append size compress bump (view ctx) (0x80 ∷ nulls n) (nulls k ++ lens)
            ∙ ap (λ (m : Machine H C). absorb size compress bump m (nulls k ++ lens))
                (absorb_block size compress bump (view ctx) (0x80 ∷ nulls n) (omega arith)
                  (omega (arith, length-rest size compress bump ctx h, length-nulls n, h)))
            ∙ absorb_block size compress bump
                (compressed size compress bump (view ctx)
                  (take ctx.datalen ctx.buf ++ (0x80 ∷ nulls n)))
                (nulls k ++ lens) (omega (arith, length-append (nulls k) lens, hl))
                (omega (arith, length-append (nulls k) lens, length-nulls k, hs)))
      ∙ ap (λ (b : List ℕ). compress (compress ctx.state b) (nulls k ++ lens)) (sym whole)
      ∙ ap (compress (compress ctx.state filled)) (sym second)
    where
      n : ℕ
      n = size - (ctx.datalen + 1)

      k : ℕ
      k = size - length lens

      split : 0x80 ∷ (nulls (n + k) ++ lens) ≡ (0x80 ∷ nulls n) ++ (nulls k ++ lens)
      split =
          ap (λ (t : List ℕ). 0x80 ∷ (t ++ lens)) (nulls-add n k)
          ∙ ap (λ (t : List ℕ). 0x80 ∷ t) (append_assoc (nulls n) (nulls k) lens)

      length-filled : length filled ≡ size
      length-filled = ap length e ∙ length-marked ctx.buf ctx.datalen n ∙ h.0

      whole : filled ≡ take ctx.datalen ctx.buf ++ (0x80 ∷ nulls n)
      whole =
          sym (take_all (ctx.datalen + 1 + n) filled (omega (arith, length-filled, h)))
          ∙ ap (take (ctx.datalen + 1 + n)) e
          ∙ marked_write ctx.buf ctx.datalen n (omega (arith, h))

      second : write (write filled 0 (nulls k)) k lens ≡ nulls k ++ lens
      second =
          write_full (write filled 0 (nulls k)) k lens
            (omega (arith, length-write filled 0 (nulls k), length-filled, hs))
          ∙ ap (λ (t : List ℕ). t ++ lens)
              (take-write filled 0 (nulls k) k (omega (arith, length-nulls k))
                (omega (arith, length-filled)))

  -- The final state is that of the specification after the padding.
  pub final_state_lem :
      (ctx : Ctx H C) (lens : List ℕ)
      → IsCtx size ctx
      → 0 < length lens
      → length lens < size
      → (absorb size compress bump (view ctx) (padding size ctx.datalen lens)).h
        ≡ final_state size compress bump lens ctx
  unfolding final_state pad_buffer
  final_state_lem ctx lens h hl hs = elim (Bool-cases (ltb ctx.datalen (size - length lens))) [
    | inl e ↦ rw e (last_block ctx lens h hl (omega (arith, ltb→lt _ _ e)))
    | inr e ↦ rw e (two_blocks ctx lens _ h hl hs refl)
  ]
