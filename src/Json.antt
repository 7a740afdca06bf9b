-- ===== src/Json.antt =====
-- src/rmbl_json.cpp: the native reader of JSON, behind the R functions that parse a reply or a bundle.
-- A position P.i is given by the bytes from it on, so that each test `P.i < P.n` asks whether there
-- is one; the position of a failure is given by the number of bytes that were left.
pub mod Ensures
pub mod Utf8
pub mod Text
pub mod Number
pub mod Keys
pub mod Read
pub mod Entry
use rmorie_bricklayer.Prelude.{ℕ, Bool, true, false, List, Option}
use rmorie_bricklayer.Prelude.Int.{ℤ}

-- What `failed` is told. A repeated key is kept with its first 255 bytes, as in `dupkey`.
pub data Why : Type 0 where
  bad_string bad_number whole_number no_key no_colon no_comma : Why
  too_deep end_of_text bad_character trailing : Why
  duplicate_key : List ℕ → Why

-- `failed why left`: the first failure, with `left` bytes from its place on. `interrupted`: the poll
-- for an interrupt did not return. `overflow` is a write past the scratch, which C++ leaves
-- undefined, and `out_of_fuel` has no counterpart in the source.
pub data Outcome {ℓ} (A : Type ℓ) : Type ℓ where
  ok : A → Outcome A
  failed : Why → ℕ → Outcome A
  interrupted overflow out_of_fuel : Outcome A

infixl 5 ◌>>=◌
abbrev pub ◌>>=◌ {ℓ κ} : {A : Type ℓ} {B : Type κ} → Outcome A → (A → Outcome B) → Outcome B
ok a >>= f = f a
failed why left >>= f = failed why left
interrupted >>= f = interrupted
overflow >>= f = overflow
out_of_fuel >>= f = out_of_fuel

-- What the reader takes from outside: doubles with their order, negation and the whole numbers
-- among them, rmbl_strtod_bytes (`none` where it does not set *ok), R_FINITE, the conversion to int,
-- the text of snprintf("%.0f"), qsort with cmp_chars, and whether the poll at a count ends the call.
pub record Host : Type 1 where
  pub Double : Type 0
  pub strtod : List ℕ → Option Double
  pub of_ℕ : ℕ → Double
  pub neg : Double → Double
  pub less : Double → Double → Bool
  pub is_finite : Double → Bool
  pub to_int : Double → ℤ
  pub print_whole : Double → List ℕ
  pub sort : List (List ℕ) → List (List ℕ)
  pub stops : ℕ → Bool

-- The arguments keep_dups and bigint_as_char.
pub record Options : Type 0 where
  pub keep_dups : Bool
  pub as_char : Bool

-- The R value: a list is named where it is an object's, and its elements carry their keys then.
mutual
  pub data Value (Double : Type 0) : Type 0 where
    null : Value Double
    logical : Bool → Value Double
    integer : ℤ → Value Double
    real : Double → Value Double
    text : List ℕ → Value Double
    items : Bool → Items Double → Value Double

  pub data Items (Double : Type 0) : Type 0 where
    nil : Items Double
    cons : List ℕ → Value Double → Items Double → Items Double
