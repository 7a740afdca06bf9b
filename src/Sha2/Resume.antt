-- ===== src/Sha2/Resume.antt =====
-- What a buffered hash promises, as an interface that SHA-256 and SHA-512 fill, and that a digest
-- which is taken up again after any first part is the digest of the whole message.
use mathlib.Core.Path.{subst}
use rmorie_bricklayer.Prelude.{
  ℕ, suc, ◌+◌, List, [], ◌∷◌, ◌++◌, length, ◌≡◌, refl, sym, ap, ◌∙◌, arith,
}
use rmorie_bricklayer.Sha2.{Ctx, update}
use rmorie_bricklayer.Sha2.Machine.{Machine, absorb, absorb_byte, absorb-append}
use rmorie_bricklayer.Sha2.Update.{view, IsCtx, update_lem}

pub record BufferedHash (H C : Type 0) : Type 1 where
  pub size : ℕ
  pub compress : H → List ℕ → H
  pub bump : C → C
  -- The padding of a message of so many bytes, and the bytes of a state.
  pub padding : ℕ → List ℕ
  pub digest : H → List ℕ
  pub final : Ctx H C → List ℕ
  -- So many bytes were absorbed.
  pub Counted : ℕ → Machine H C → Type 0
  pub counted_byte :
      (n : ℕ) (m : Machine H C) (b : ℕ)
      → Counted n m
      → Counted (suc n) (absorb_byte size compress bump m b)
  pub final_padded :
      (ctx : Ctx H C) (n : ℕ)
      → IsCtx size ctx
      → Counted n (view ctx)
      → final ctx ≡ digest (absorb size compress bump (view ctx) (padding n)).h

module _ {H C : Type 0} (hash : BufferedHash H C) where
  abbrev pub absorbed : Machine H C → List ℕ → Machine H C
  absorbed m bytes = absorb hash.size hash.compress hash.bump m bytes

  abbrev pub message_digest : Machine H C → List ℕ → List ℕ
  message_digest start message =
      hash.digest (absorbed start (message ++ hash.padding (length message))).h

  counted_bytes :
      (n : ℕ) (m : Machine H C) (bytes : List ℕ)
      → hash.Counted n m
      → hash.Counted (n + length bytes) (absorbed m bytes)
  unfolding absorb
  counted_bytes n m [] h = subst (λ (k : ℕ). hash.Counted k m) (omega arith) h
  counted_bytes n m (b ∷ bytes) h =
      let m' = absorb_byte hash.size hash.compress hash.bump m b in
      subst (λ (k : ℕ). hash.Counted k (absorbed m' bytes)) (omega arith)
        (counted_bytes (suc n) m' bytes (hash.counted_byte n m b h))

  pub absorbed_none : (start : Machine H C) → absorbed start [] ≡ start
  unfolding absorb
  absorbed_none start = refl

  pub resumed :
      (start : Machine H C) (ctx : Ctx H C) (done bytes : List ℕ)
      → hash.Counted 0 start
      → IsCtx hash.size ctx
      → view ctx ≡ absorbed start done
      → hash.final (update hash.size hash.compress hash.bump ctx bytes)
        ≡ message_digest start (done ++ bytes)
  resumed start ctx done bytes zero_bytes h e =
      hash.final_padded ctx' (length (done ++ bytes)) updated.1 counted
      ∙ ap (λ (m : Machine H C). hash.digest (absorbed m (hash.padding (length (done ++ bytes)))).h)
          whole
      ∙ ap (λ (m : Machine H C). hash.digest m.h)
          (sym (
            absorb-append hash.size hash.compress hash.bump start (done ++ bytes)
              (hash.padding (length (done ++ bytes)))))
    where
      ctx' : Ctx H C
      ctx' = update hash.size hash.compress hash.bump ctx bytes

      updated : (view ctx' ≡ absorbed (view ctx) bytes) × IsCtx hash.size ctx'
      updated = update_lem hash.size hash.compress hash.bump ctx bytes h

      whole : view ctx' ≡ absorbed start (done ++ bytes)
      whole =
          updated.0
          ∙ ap (λ (m : Machine H C). absorbed m bytes) e
          ∙ sym (absorb-append hash.size hash.compress hash.bump start done bytes)

      counted : hash.Counted (length (done ++ bytes)) (view ctx')
      counted = subst (hash.Counted (length (done ++ bytes))) (sym whole) (
          subst (λ (k : ℕ). hash.Counted k (absorbed start (done ++ bytes))) (omega arith)
            (counted_bytes 0 start (done ++ bytes) zero_bytes))
