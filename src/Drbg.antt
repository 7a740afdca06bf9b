-- ===== src/Drbg.antt =====
-- src/rmbl_drbg_core.h: the CTR_DRBG with AES-256 and no derivation function. The block cipher is
-- an interface: the source runs the portable cipher of Drbg/Aes or the processor's AES
-- instructions.
pub mod Aes
pub mod Field
pub mod Counter
pub mod Cipher
pub mod Stream
pub mod Sp800
pub mod Generate
pub mod Entry
use rmorie_bricklayer.Prelude.{
  ℕ, zero, suc, ◌+◌, ◌-◌, ◌/◌, ◌%◌, ◌^◌, List, [], ◌∷◌, ◌++◌, length, take, drop, replicate, ltb,
  if◌then◌else◌, ◌≡◌, ◌==◌, Bool, true, false, not,
}
use rmorie_bricklayer.Prelude.Bytes.{IsBytes}
use Aes.{xor_bytes}

-- A cipher of 16-byte blocks under 32-byte keys: `aes.init(key)` and then `aes.encrypt`.
pub record BlockCipher : Type 0 where
  pub encrypt : List ℕ → List ℕ → List ℕ
  pub encrypt_block :
      (key block : List ℕ)
      → length block ≡ 16
      → IsBytes key
      → IsBytes block
      → (length (encrypt key block) ≡ 16) × IsBytes (encrypt key block)

pub record CtrDrbg : Type 0 where
  pub key : List ℕ
  pub v : List ℕ

-- The bytes from the given one on, and the carry out of them.
unfoldable pub increment_loop : List ℕ → List ℕ × ℕ
increment_loop [] = ([], 1)
increment_loop (b ∷ v) =
    let rest = increment_loop v in let s = b + rest.1 in (s % 2 ^ 8 ∷ rest.0, s / 2 ^ 8)

unfoldable pub increment : List ℕ → List ℕ
increment v = (increment_loop v).0

-- `a[i] = add[i]`
unfoldable pub overlay : List ℕ → List ℕ → List ℕ
overlay [] add = []
overlay (x ∷ a) [] = x ∷ a
overlay (x ∷ a) (y ∷ add) = y ∷ overlay a add

abbrev pub padded : List ℕ → List ℕ
padded add = overlay (replicate 48 0) add

module _ (cipher : BlockCipher) where
  -- The loop of `update`: the blocks, and the counter after them.
  unfoldable pub update_blocks : ℕ → List ℕ → List ℕ → List ℕ × List ℕ
  update_blocks zero key v = ([], v)
  update_blocks (suc rounds) key v =
      let v' = increment v in
      let rest = update_blocks rounds key v' in (cipher.encrypt key v' ++ rest.0, rest.1)

  unfoldable pub update : CtrDrbg → List ℕ → CtrDrbg
  update st provided =
      let temp = xor_bytes (update_blocks 3 st.key st.v).0 provided in
      record { key = take 32 temp; v = take 16 (drop 32 temp) }

  unfoldable pub instantiate : List ℕ → List ℕ → CtrDrbg
  instantiate entropy pers =
      update (record { key = replicate 32 0; v = replicate 16 0 }) (xor_bytes entropy pers)

  unfoldable pub reseed : CtrDrbg → List ℕ → List ℕ → CtrDrbg
  reseed st entropy add = update st (xor_bytes entropy add)

  -- The `while (n)`, each round of which gives at least one byte.
  unfoldable pub generate_loop : ℕ → List ℕ → List ℕ → ℕ → List ℕ × List ℕ
  generate_loop zero key v n = ([], v)
  generate_loop (suc rounds) key v zero = ([], v)
  generate_loop (suc rounds) key v (suc n) =
      let v' = increment v in
      let k = if ltb (suc n) 16 then suc n else 16 in
      let rest = generate_loop rounds key v' (suc n - k) in
      (take k (cipher.encrypt key v') ++ rest.0, rest.1)

  -- The state that the output is made from.
  unfoldable pub before_output : CtrDrbg → List ℕ → CtrDrbg
  before_output st add = if not (length add == 0) then update st (padded add) else st

  unfoldable pub generate : CtrDrbg → ℕ → List ℕ → List ℕ × CtrDrbg
  generate st n add =
      let st' = before_output st add in
      let out = generate_loop n st'.key st'.v n in
      (out.0, update (record st' { v = out.1 }) (padded add))
