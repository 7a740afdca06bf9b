-- ===== src/Tests/DrbgTests.antt =====
-- Tests and witnesses of src/rmbl_drbg_core.h.
use rmorie_bricklayer.Prelude.{
  ℕ, zero, suc, List, [], ◌∷◌, ◌≡◌, refl, ◌+◌, length, take, get_or, ◌==◌, if◌then◌else◌, arith,
}
use rmorie_bricklayer.Prelude.Bytes.{IsBytes, bytes_sound, be_val}
use rmorie_bricklayer.Drbg.{BlockCipher, CtrDrbg, generate}
use rmorie_bricklayer.Drbg.Entry.Session.{Call, fresh, request}
use rmorie_bricklayer.Drbg.Cipher.{portable_lem}
use rmorie_bricklayer.Drbg.Field.{field_mul, s_box, sbox_lem}
use rmorie_bricklayer.Drbg.Sp800.{ctr_blocks, renewed, prepared, seed_bytes}
use rmorie_bricklayer.Drbg.Generate.{IsState, generate_lem}
use rmorie_bricklayer.Drbg.Aes.{
  gmul_loop, gmul, rotl8, inverse, sbox, xor_bytes, schedule_word, schedule_loop, aes_init,
  shift_rows, mix_column, mix_columns, aes_round, aes_rounds, encrypt_portable,
}

abbrev from : ℕ → ℕ → ℕ → List ℕ
from zero step b = []
from (suc n) step b = b ∷ from n step (b + step)

-- FIPS 197, appendix C.3.
aes_vector :
    encrypt_portable (aes_init (from 32 1 0)) (from 16 0x11 0)
    ≡ 0x8e ∷ 0xa2 ∷ 0xb7 ∷ 0xca ∷ 0x51 ∷ 0x67 ∷ 0x45 ∷ 0xbf ∷ 0xea ∷ 0xfc ∷ 0x49 ∷ 0x90 ∷ 0x4b
      ∷ 0x49 ∷ 0x60 ∷ 0x89 ∷ []
unfolding gmul_loop gmul rotl8 inverse sbox xor_bytes schedule_word schedule_loop aes_init
    shift_rows mix_column mix_columns aes_round aes_rounds encrypt_portable
aes_vector = refl

-- The portable cipher fills the interface.
portable : BlockCipher
portable = record {
  encrypt = λ key block. encrypt_portable (aes_init key) block;
  encrypt_block = portable_lem;
}

abbrev state : CtrDrbg
state = record { key = from 32 3 1; v = from 16 0 255 }

state-IsState : IsState state
state-IsState = ((refl, key_bytes), (refl, v_bytes))
  where
    key_bytes : IsBytes state.key
    key_bytes = bytes_sound state.key refl

    v_bytes : IsBytes state.v
    v_bytes = bytes_sound state.v refl

abbrev extra : List ℕ
extra = 1 ∷ 2 ∷ 255 ∷ []

extra-IsBytes : IsBytes extra
extra-IsBytes = bytes_sound extra refl

generate_lem_example :
    ((generate portable state 20 extra).0
      ≡ take 20 (
          ctr_blocks portable 2
            (prepared portable state extra).key
            (be_val (prepared portable state extra).v)))
    × (length (generate portable state 20 extra).0 ≡ 20)
    × ((generate portable state 20 extra).1
        ≡ renewed portable
            (prepared portable state extra).key
            (be_val (prepared portable state extra).v + 2)
            (seed_bytes extra))
    × IsState (generate portable state 20 extra).1
generate_lem_example =
    generate_lem portable state 20 extra 2 state-IsState extra-IsBytes (omega arith)

sbox_lem_example :
    (sbox 0x53 ≡ get_or s_box 0x53 0)
    × (field_mul 0x53 (inverse 0x53) ≡ (if 0x53 == 0 then 0 else 1))
sbox_lem_example = sbox_lem 0x53 (omega arith)

abbrev calls : List Call
calls = request 100 extra ∷ fresh (from 48 1 0) [] ∷ request 65536 [] ∷ []
