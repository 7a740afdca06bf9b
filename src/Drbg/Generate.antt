-- ===== src/Drbg/Generate.antt =====
-- src/rmbl_drbg_core.h: the operations of the generator keep its state well formed, and what
-- `update` and `generate` give.
use rmorie_bricklayer.Prelude.{
  false, ℕ, zero, suc, ◌+◌, ◌*◌, ◌/◌, ◌≤◌, List, [], ◌∷◌, length, take, drop, replicate,
  length-take, length-drop, take_all, ◌≡◌, refl, sym, ap, ◌∙◌, arith, ◌==◌,
}
use rmorie_bricklayer.Prelude.Bytes.{IsBytes, be_val, IsBytes-take, IsBytes-drop}
use rmorie_bricklayer.Drbg.{
  BlockCipher, CtrDrbg, overlay, padded, update, instantiate, reseed, before_output, generate,
}
use rmorie_bricklayer.Drbg.Aes.{xor_bytes}
use rmorie_bricklayer.Drbg.Cipher.{length-xor_bytes, xor_bytes-IsBytes}
use rmorie_bricklayer.Drbg.Sp800.{
  xored, xor_bytes-eq, seed_bytes, padded-seed_bytes, Holds, Holds-self, counter-Holds, ctr_blocks,
  renewed, prepared, stream-eq-ctr_blocks,
}
use rmorie_bricklayer.Drbg.Stream.{
  IsBlock, counter, stream, stream-IsBytes, update_blocks_lem, generate_loop_lem,
}

abbrev IsKey : List ℕ → Type 0
IsKey key = (length key ≡ 32) × IsBytes key

-- A key of 32 bytes and a counter of 16.
abbrev pub IsState : CtrDrbg → Type 0
IsState st = IsKey st.key × IsBlock st.v

replicate-IsBytes : (n : ℕ) → IsBytes (replicate n 0)
replicate-IsBytes zero = tt
replicate-IsBytes (suc n) = (omega arith, replicate-IsBytes n)

overlay-IsBytes : (a add : List ℕ) → IsBytes a → IsBytes add → IsBytes (overlay a add)
unfolding overlay
overlay-IsBytes [] add ha h = tt
overlay-IsBytes (x ∷ a) [] ha h = ha
overlay-IsBytes (x ∷ a) (y ∷ add) ha h = (h.0, overlay-IsBytes a add ha.1 h.1)

padded-IsBytes : (add : List ℕ) → IsBytes add → IsBytes (padded add)
padded-IsBytes add h = overlay-IsBytes (replicate 48 0) add (replicate-IsBytes 48) h

length-overlay : (a add : List ℕ) → length (overlay a add) ≡ length a
unfolding overlay
length-overlay [] add = refl
length-overlay (x ∷ a) [] = refl
length-overlay (x ∷ a) (y ∷ add) = ap suc (length-overlay a add)

length-padded : (add : List ℕ) → length (padded add) ≡ 48
length-padded add = length-overlay (replicate 48 0) add

module _ (cipher : BlockCipher) where
  -- On a well-formed state and 48 provided bytes, `update` is the update of SP 800-90A, and the new
  -- state is well formed again.
  pub update_lem :
      (st : CtrDrbg) (provided : List ℕ) (k : ℕ)
      → IsKey st.key
      → Holds st.v k
      → IsBytes provided
      → (length provided ≡ 48 → update cipher st provided ≡ renewed cipher st.key k provided)
        × IsState (update cipher st provided)
  unfolding update renewed
  update_lem st provided k hk hv hp = rw (update_blocks_lem cipher 3 st.key st.v) (
    written,
    (
      (first, IsBytes-take 32 temp bytes),
      (second, IsBytes-take 16 (drop 32 temp) (IsBytes-drop 32 temp bytes)),
    ),
  )
    where
      temp : List ℕ
      temp = xor_bytes (stream cipher 3 st.key st.v) provided

      blocks : (length (stream cipher 3 st.key st.v) ≡ 48) × IsBytes (stream cipher 3 st.key st.v)
      blocks = stream-IsBytes cipher 3 st.key st.v hk.1 hv.0

      size : length temp ≡ 48
      size = length-xor_bytes (stream cipher 3 st.key st.v) provided ∙ blocks.0

      bytes : IsBytes temp
      bytes = xor_bytes-IsBytes (stream cipher 3 st.key st.v) provided blocks.1 hp

      same : length provided ≡ 48 → temp ≡ xored (ctr_blocks cipher 3 st.key k) provided
      same size' =
          xor_bytes-eq (stream cipher 3 st.key st.v) provided (blocks.0 ∙ sym size')
          ∙ ap (λ (t : List ℕ). xored t provided) (stream-eq-ctr_blocks cipher 3 st.key st.v k hv)

      written :
          length provided ≡ 48
          → record { key = take 32 temp; v = take 16 (drop 32 temp) }
            ≡ renewed cipher st.key k provided
      written size' =
          ap (λ (v : List ℕ). record { key = take 32 temp; v = v })
            (take_all 16 (drop 32 temp) (omega (arith, size, length-drop 32 temp)))
          ∙ ap (λ (t : List ℕ). record { key = take 32 t; v = drop 32 t }) (same size')

      first : length (take 32 temp) ≡ 32
      first = omega (arith, length-take 32 temp, size)

      second : length (take 16 (drop 32 temp)) ≡ 16
      second = omega (arith, length-take 16 (drop 32 temp), length-drop 32 temp, size)

  update-IsState :
      (st : CtrDrbg) (provided : List ℕ)
      → IsState st
      → IsBytes provided
      → IsState (update cipher st provided)
  update-IsState st provided h hp =
      (update_lem st provided (be_val st.v) h.0 (Holds-self st.v h.1) hp).1

  pub instantiate-IsState :
      (entropy pers : List ℕ)
      → IsBytes entropy
      → IsBytes pers
      → IsState (instantiate cipher entropy pers)
  unfolding instantiate
  instantiate-IsState entropy pers he hp =
      update-IsState (record { key = replicate 32 0; v = replicate 16 0 }) (xor_bytes entropy pers)
        ((refl, replicate-IsBytes 32), (refl, replicate-IsBytes 16))
        (xor_bytes-IsBytes entropy pers he hp)

  pub reseed-IsState :
      (st : CtrDrbg) (entropy add : List ℕ)
      → IsState st
      → IsBytes entropy
      → IsBytes add
      → IsState (reseed cipher st entropy add)
  unfolding reseed
  reseed-IsState st entropy add h he ha =
      update-IsState st (xor_bytes entropy add) h (xor_bytes-IsBytes entropy add he ha)

  -- What the output is made from.
  before_output_lem :
      (st : CtrDrbg) (add : List ℕ)
      → IsState st
      → IsBytes add
      → (before_output cipher st add ≡ prepared cipher st add)
        × IsState (before_output cipher st add)
  unfolding before_output prepared
  before_output_lem st [] h ha = (refl, h)
  before_output_lem st (a ∷ add) h ha =
      let bytes = padded-IsBytes (a ∷ add) ha in
      let some_add : (suc (length add) == 0) ≡ false = ground arith in
      rw (before_output, some_add)
        (
          (update_lem st (padded (a ∷ add)) (be_val st.v) h.0 (Holds-self st.v h.1) bytes).0
                (length-padded (a ∷ add))
              ∙ ap (renewed cipher st.key (be_val st.v)) (padded-seed_bytes (a ∷ add)),
          update-IsState st (padded (a ∷ add)) h bytes,
        )

  -- On a well-formed state and additional bytes, `generate` gives the `n` leftmost bytes of the
  -- counter mode of SP 800-90A, of any number of blocks that is enough for them, from the state that
  -- is updated with the additional bytes, padded by zeros, where there are any; the new state is that
  -- state with V past the used blocks, updated with the padded additional bytes, and it is well
  -- formed.
  pub generate_lem :
      (st : CtrDrbg) (n : ℕ) (add : List ℕ) (blocks : ℕ)
      → IsState st
      → IsBytes add
      → n ≤ 16 * blocks
      → ((generate cipher st n add).0
          ≡ take n (
              ctr_blocks cipher blocks
                (prepared cipher st add).key
                (be_val (prepared cipher st add).v)))
        × (length (generate cipher st n add).0 ≡ n)
        × ((generate cipher st n add).1
            ≡ renewed cipher
                (prepared cipher st add).key
                (be_val (prepared cipher st add).v + (n + 15) / 16)
                (seed_bytes add))
        × IsState (generate cipher st n add).1
  unfolding generate
  generate_lem st n add blocks h ha hn =
      rw
        (
          sym (before_output_lem st add h ha).0,
          generate_loop_lem cipher n n blocks st'.key st'.v (omega arith) hn ok.0.1 ok.1,
        )
        (
          ap (take n) (stream-eq-ctr_blocks cipher blocks st'.key st'.v (be_val st'.v) held),
          omega (
            arith,
            length-take n (stream cipher blocks st'.key st'.v),
            (stream-IsBytes cipher blocks st'.key st'.v ok.0.1 ok.1).0,
          ),
          after.0 (length-padded add)
              ∙ ap (renewed cipher st'.key (be_val st'.v + (n + 15) / 16)) (padded-seed_bytes add),
          after.1,
        )
    where
      st' : CtrDrbg
      st' = before_output cipher st add

      ok : IsState st'
      ok = (before_output_lem st add h ha).1

      held : Holds st'.v (be_val st'.v)
      held = Holds-self st'.v ok.1

      end : CtrDrbg
      end = record st' { v = counter ((n + 15) / 16) st'.v }

      after :
          (length (padded add) ≡ 48
            → update cipher end (padded add)
              ≡ renewed cipher st'.key (be_val st'.v + (n + 15) / 16) (padded add))
          × IsState (update cipher end (padded add))
      after =
          update_lem end (padded add) (be_val st'.v + (n + 15) / 16) ok.0
            (counter-Holds ((n + 15) / 16) st'.v (be_val st'.v) held) (padded-IsBytes add ha)
