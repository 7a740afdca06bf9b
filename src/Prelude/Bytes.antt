-- ===== src/Prelude/Bytes.antt =====
-- Lists of bytes, and facts about a byte by checking all 256 values.
use rmorie_bricklayer.Prelude.{
  ℕ, zero, suc, ◌+◌, ◌*◌, ◌^◌, ◌/◌, ◌%◌, ap, length, ◌<◌, ◌≡◌, refl, Bool, true, ◌&&◌, List, [],
  ◌∷◌, arith, get_elem?, some, bit_and, ltb, ◌==◌, ==_iff, take, drop, ◌++◌, if◌then◌else◌,
}

abbrev pub IsBytes : List ℕ → Type 0
IsBytes [] = Unit
IsBytes (b ∷ p) = (b < 256) × IsBytes p

-- Big-endian digits in base 256.
abbrev pub be_val : List ℕ → ℕ
be_val [] = 0
be_val (b ∷ p) = b * 2 ^ (8 * length p) + be_val p

pub IsBytes-take : (n : ℕ) (p : List ℕ) → IsBytes p → IsBytes (take n p)
IsBytes-take zero p h = tt
IsBytes-take (suc n) [] h = tt
IsBytes-take (suc n) (x ∷ p) h = (h.0, IsBytes-take n p h.1)

pub IsBytes-drop : (n : ℕ) (p : List ℕ) → IsBytes p → IsBytes (drop n p)
IsBytes-drop zero p h = h
IsBytes-drop (suc n) [] h = tt
IsBytes-drop (suc n) (x ∷ p) h = IsBytes-drop n p h.1

pub IsBytes-append : (p q : List ℕ) → IsBytes p → IsBytes q → IsBytes (p ++ q)
IsBytes-append [] q hp hq = hq
IsBytes-append (b ∷ p) q hp hq = (hp.0, IsBytes-append p q hp.1 hq)

pub byte-lt : (p : List ℕ) (i : ℕ) {b : ℕ} → IsBytes p → get_elem? p i ≡ some b → b < 256
byte-lt [] i h e = cc
byte-lt (x ∷ p) zero h e = ground arith
byte-lt (x ∷ p) (suc i) h e = byte-lt p i h.1 e

-- A list of literals is checked by evaluation.
abbrev pub bytes : List ℕ → Bool
bytes [] = true
bytes (b ∷ p) = ltb b 256 && bytes p

pub bytes_sound : (p : List ℕ) → bytes p ≡ true → IsBytes p
bytes_sound [] h = tt
bytes_sound (b ∷ p) h = (let small : b < 256 = ground arith in small, bytes_sound p (ground arith))

-- A test at every number below `n`.
unfoldable pub all_below : ℕ → (ℕ → Bool) → Bool
all_below zero test = true
all_below (suc k) test = test k && all_below k test

pub all_below_sound :
    (n : ℕ) (test : ℕ → Bool) (v : ℕ) → all_below n test ≡ true → v < n → test v ≡ true
unfolding all_below
all_below_sound (suc k) test v passed small = ground (arith, all_below_sound k test v)
all_below_sound zero test v passed small = absurd (omega arith)

marked_table : all_below 256 (λ b. bit_and b 0x80 == (if ltb b 128 then 0 else 128)) ≡ true
unfolding all_below
marked_table = refl

-- The top bit of a byte.
pub marked : (b : ℕ) → b < 256 → (bit_and b 0x80 == 0) ≡ ltb b 128
marked b h = ground (
  arith,
  (==_iff _ _).0 (
      all_below_sound 256 (λ b. bit_and b 0x80 == (if ltb b 128 then 0 else 128)) b marked_table h),
)

-- The `n` low bytes of a number, the highest first.
unfoldable pub be_bytes : ℕ → ℕ → List ℕ
be_bytes zero v = []
be_bytes (suc n) v = v / 2 ^ (8 * n) % 256 ∷ be_bytes n v

pub length-be_bytes : (n v : ℕ) → length (be_bytes n v) ≡ n
unfolding be_bytes
length-be_bytes zero v = refl
length-be_bytes (suc n) v = ap suc (length-be_bytes n v)

pub be_bytes-IsBytes : (n v : ℕ) → IsBytes (be_bytes n v)
unfolding be_bytes
be_bytes-IsBytes zero v = tt
be_bytes-IsBytes (suc n) v = (omega arith, be_bytes-IsBytes n v)
