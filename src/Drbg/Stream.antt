-- ===== src/Drbg/Stream.antt =====
-- src/rmbl_drbg_core.h: the blocks of the counter mode, and that the loops of `update` and
-- `generate` give them.
use mathlib.Core.List.{append-nil}
use rmorie_bricklayer.Prelude.{
  ℕ, zero, suc, ◌+◌, ◌-◌, ◌*◌, ◌/◌, ◌≤◌, List, [], ◌++◌, length, length-append, take,
  take-append_le, take-append_above, take_all, ◌≡◌, refl, ap, ◌∙◌, arith, ltb, ltb→lt, Bool-cases,
  inl, inr,
}
use rmorie_bricklayer.Prelude.Bytes.{IsBytes, IsBytes-append}
use rmorie_bricklayer.Drbg.{BlockCipher, increment, update_blocks, generate_loop}
use rmorie_bricklayer.Drbg.Counter.{be_val-increment}

-- Sixteen bytes.
abbrev pub IsBlock : List ℕ → Type 0
IsBlock v = (length v ≡ 16) × IsBytes v

pub increment-IsBlock : (v : List ℕ) → IsBlock v → IsBlock (increment v)
increment-IsBlock v h = let one = be_val-increment v h.1 in (one.2 ∙ h.0, one.1)

unfoldable pub counter : ℕ → List ℕ → List ℕ
counter zero v = v
counter (suc i) v = counter i (increment v)

pub counter-IsBlock : (i : ℕ) (v : List ℕ) → IsBlock v → IsBlock (counter i v)
unfolding counter
counter-IsBlock zero v h = h
counter-IsBlock (suc i) v h = counter-IsBlock i (increment v) (increment-IsBlock v h)

module _ (cipher : BlockCipher) where
  -- The specification: the cipher of the counters after `v`, one block after another.
  unfoldable pub stream : ℕ → List ℕ → List ℕ → List ℕ
  stream zero key v = []
  stream (suc n) key v = cipher.encrypt key (increment v) ++ stream n key (increment v)

  pub stream-IsBytes :
      (n : ℕ) (key v : List ℕ)
      → IsBytes key
      → IsBlock v
      → (length (stream n key v) ≡ 16 * n) × IsBytes (stream n key v)
  unfolding stream
  stream-IsBytes zero key v hk h = (refl, tt)
  stream-IsBytes (suc n) key v hk h =
      let next = increment-IsBlock v h in
      let block = cipher.encrypt_block key (increment v) next.0 hk next.1 in
      let rest = stream-IsBytes n key (increment v) hk next in
      (
        omega (
          arith,
          length-append (cipher.encrypt key (increment v)) (stream n key (increment v)),
          block.0,
          rest.0,
        ),
        IsBytes-append _ _ block.1 rest.1,
      )

  pub update_blocks_lem :
      (n : ℕ) (key v : List ℕ) → update_blocks cipher n key v ≡ (stream n key v, counter n v)
  unfolding update_blocks stream counter
  update_blocks_lem zero key v = refl
  update_blocks_lem (suc n) key v =
      ap (λ (r : List ℕ × List ℕ). (cipher.encrypt key (increment v) ++ r.0, r.1))
        (update_blocks_lem n key (increment v))

  pub generate_loop_lem :
      (rounds n blocks : ℕ) (key v : List ℕ)
      → n ≤ rounds
      → n ≤ 16 * blocks
      → IsBytes key
      → IsBlock v
      → generate_loop cipher rounds key v n
        ≡ (take n (stream blocks key v), counter ((n + 15) / 16) v)
  unfolding generate_loop stream counter
  generate_loop_lem zero zero blocks key v hr hn hk h = refl
  generate_loop_lem zero (suc n) blocks key v hr hn hk h = absurd (omega arith)
  generate_loop_lem (suc rounds) zero blocks key v hr hn hk h = refl
  generate_loop_lem (suc rounds) (suc n) zero key v hr hn hk h = absurd (omega arith)
  generate_loop_lem (suc rounds) (suc n) (suc blocks) key v hr hn hk h =
      let v' = increment v in
      let next = increment-IsBlock v h in
      let size = (cipher.encrypt_block key v' next.0 hk next.1).0 in
      elim (Bool-cases (ltb (suc n) 16)) [
        | inl e ↦
            let less = ltb→lt (suc n) 16 e in
            let none_left : suc n - suc n ≡ 0 = omega arith in
            let count : (suc n + 15) / 16 ≡ suc zero = omega arith in
            rw
              (
                e,
                none_left,
                generate_loop_lem rounds 0 blocks key v' (omega arith) (omega arith) hk next,
                count,
                take-append_le (suc n) (cipher.encrypt key v') (stream blocks key v')
                    (omega (arith, size)),
                append-nil (take (suc n) (cipher.encrypt key v')),
              )
              refl
        | inr e ↦
            let more : 16 ≤ suc n = ground arith in
            let count : (suc n + 15) / 16 ≡ suc ((suc n - 16 + 15) / 16) = omega arith in
            rw
              (
                e,
                generate_loop_lem rounds (suc n - 16) blocks key v' (omega arith) (omega arith) hk
                    next,
                count,
                take_all 16 (cipher.encrypt key v') (omega (arith, size)),
                take-append_above (suc n) (suc n - 16) (cipher.encrypt key v')
                    (stream blocks key v') (omega (arith, size)),
              )
              refl
      ]
