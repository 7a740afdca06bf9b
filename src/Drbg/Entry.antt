-- ===== src/Drbg/Entry.antt =====
-- src/rmbl_drbg.cpp: the entry points, which test their arguments and hand the state to and fro.
pub mod Session
use rmorie_bricklayer.Prelude.{
  ℕ, List, length, leb, ltb, if◌then◌else◌, Option, none, some, Bool, true, false, not, ◌&&◌, ◌||◌,
}
use rmorie_bricklayer.Drbg.{BlockCipher, CtrDrbg, instantiate, reseed, generate}

pub data Argument : Type 0 where
  entropy person addl key v n : Argument

pub data Answer : Type 0 where
  argument_error : Argument → Answer
  seeded : CtrDrbg → Answer
  generated : List ℕ → CtrDrbg → Answer

-- `need_raw` passes a raw vector of `lo` to `hi` bytes.
abbrev pub need_raw : List ℕ → ℕ → ℕ → Bool
need_raw x lo hi = leb lo (length x) && leb (length x) hi

-- `load`, and then the rest of the entry point.
abbrev pub load : List ℕ → List ℕ → (CtrDrbg → Answer) → Answer
load key_bytes v_bytes rest =
    if not (need_raw key_bytes 32 32)
    then argument_error key
    else if not (need_raw v_bytes 16 16)
    then argument_error v
    else rest (record { key = key_bytes; v = v_bytes })

module _ (cipher : BlockCipher) where
  unfoldable pub drbg_instantiate : List ℕ → List ℕ → Answer
  drbg_instantiate seed pers =
      if not (need_raw seed 48 48)
      then argument_error entropy
      else if not (need_raw pers 0 48)
      then argument_error person
      else seeded (instantiate cipher seed pers)

  unfoldable pub drbg_reseed : List ℕ → List ℕ → List ℕ → List ℕ → Answer
  drbg_reseed key_bytes v_bytes seed add =
      if not (need_raw seed 48 48)
      then argument_error entropy
      else if not (need_raw add 0 48)
      then argument_error addl
      else load key_bytes v_bytes λ d. seeded (reseed cipher d seed add)

  -- The number is `none` where it is missing or negative.
  unfoldable pub drbg_generate : List ℕ → List ℕ → Option ℕ → List ℕ → Answer
  drbg_generate key_bytes v_bytes none add =
      if not (need_raw add 0 48) then argument_error addl else argument_error n
  drbg_generate key_bytes v_bytes (some len) add =
      if not (need_raw add 0 48)
      then argument_error addl
      else if ltb len 1 || ltb 65536 len
      then argument_error n
      else load key_bytes v_bytes λ d. let r = generate cipher d len add in generated r.0 r.1
