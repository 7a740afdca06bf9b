-- ===== src/Drbg/Entry/Session.antt =====
-- src/rmbl_drbg.cpp: calls of the entry points one after another.
use rmorie_bricklayer.Prelude.{ℕ, List, [], ◌∷◌, length, some, ◌≤◌, ◌≡◌}
use rmorie_bricklayer.Prelude.Bytes.{IsBytes}
use rmorie_bricklayer.Drbg.{BlockCipher, CtrDrbg}
use rmorie_bricklayer.Drbg.Entry.{
  Answer, seeded, generated, argument_error, drbg_reseed, drbg_generate,
}

-- A call on a generator: new entropy with additional bytes, or a request for a number of bytes.
pub data Call : Type 0 where
  fresh : List ℕ → List ℕ → Call
  request : ℕ → List ℕ → Call

-- Arguments of acceptable lengths.
abbrev pub IsAcceptable : Call → Type 0
IsAcceptable (fresh seed add) = IsBytes seed × IsBytes add × (length seed ≡ 48) × (length add ≤ 48)
IsAcceptable (request len add) = IsBytes add × (length add ≤ 48) × (1 ≤ len) × (len ≤ 65536)

abbrev pub AreAcceptable : List Call → Type 0
AreAcceptable [] = Unit
AreAcceptable (c ∷ calls) = IsAcceptable c × AreAcceptable calls

-- An answer that is none to refuse the call, with as many bytes as were asked for.
abbrev pub Serves : Call → Answer → Type 0
Serves (fresh seed add) (seeded d) = Unit
Serves (fresh seed add) (generated out d) = ⊥
Serves (fresh seed add) (argument_error a) = ⊥
Serves (request len add) (seeded d) = ⊥
Serves (request len add) (generated out d) = length out ≡ len
Serves (request len add) (argument_error a) = ⊥

-- Each call has its answer, and serves it.
abbrev pub ServesAll : List Call → List Answer → Type 0
ServesAll [] [] = Unit
ServesAll [] (a ∷ answers) = ⊥
ServesAll (c ∷ calls) [] = ⊥
ServesAll (c ∷ calls) (a ∷ answers) = Serves c a × ServesAll calls answers

-- The state that the caller keeps after an answer.
unfoldable pub state_of : CtrDrbg → Answer → CtrDrbg
state_of d (seeded d') = d'
state_of d (generated out d') = d'
state_of d (argument_error a) = d

module _ (cipher : BlockCipher) where
  abbrev pub answer : CtrDrbg → Call → Answer
  answer d (fresh seed add) = drbg_reseed cipher d.key d.v seed add
  answer d (request len add) = drbg_generate cipher d.key d.v (some len) add

  -- The answers to calls one after another, each on the state of the one before it.
  unfoldable pub session : CtrDrbg → List Call → List Answer
  session d [] = []
  session d (c ∷ calls) = answer d c ∷ session (state_of d (answer d c)) calls
