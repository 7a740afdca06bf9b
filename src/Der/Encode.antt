-- ===== src/Der/Encode.antt =====
-- The specification: the one DER encoding of a tree of values (X.690), with no position in it.
use rmorie_bricklayer.Prelude.{
  ℕ, zero, suc, ◌+◌, ◌*◌, ◌/◌, ◌%◌, ◌≤◌, ◌<◌, ◌≡◌, refl, ap, ◌∙◌, ◌≢◌, List, [], ◌∷◌, ◌++◌, Bool,
  true, false, arith, length, ltb, if◌then◌else◌,
}
use mathlib.Core.Path.{ap₂}
use native.Mathlib.Nat.{
  div-lt_self, mul-add-div_right, div-eq_of_lt, add_comm, add-mul-mod_self_right, mod-eq_of_lt,
}
use rmorie_bricklayer.Der.{Node, Nodes, node, no_nodes, cons}
use rmorie_bricklayer.Der.Slice.{slice}

mutual
  pub data Tlv : Type 0 where
    primitive : ℕ → ℕ → List ℕ → Tlv
    constructed : ℕ → ℕ → Tlvs → Tlv

  pub data Tlvs : Type 0 where
    nil : Tlvs
    also : Tlv → Tlvs → Tlvs

-- The digits of `v` in a base, highest first and none for 0, each raised by `mark`.
pub digits_of : ℕ → ℕ → ℕ → ℕ → List ℕ
digits_of base mark zero v = []
digits_of base mark (suc fuel) zero = []
digits_of base mark (suc fuel) (suc v) =
    digits_of base mark fuel (suc v / base) ++ (suc v % base + mark) ∷ []

-- A number needs no more digits than its value.
abbrev pub digits : ℕ → ℕ → ℕ → List ℕ
digits base mark v = digits_of base mark v v

-- Septets, all but the last marked by 128.
abbrev pub septets : ℕ → List ℕ
septets v = digits 128 128 (v / 128) ++ v % 128 ∷ []

abbrev pub identifier : ℕ → Bool → ℕ → List ℕ
identifier cls form tag =
    let first = cls * 64 + (if form then 32 else 0) in
    if ltb tag 31 then (first + tag) ∷ [] else (first + 31) ∷ septets tag

abbrev pub length_octets : ℕ → List ℕ
length_octets n = if ltb n 128 then n ∷ [] else (128 + length (digits 256 0 n)) ∷ digits 256 0 n

abbrev pub header : ℕ → Bool → ℕ → ℕ → List ℕ
header cls form tag n = identifier cls form tag ++ length_octets n

unfoldable mutual
  pub encode : Tlv → List ℕ
  encode (primitive cls tag content) = header cls false tag (length content) ++ content
  encode (constructed cls tag ts) = header cls true tag (length (encode_all ts)) ++ encode_all ts

  pub encode_all : Tlvs → List ℕ
  encode_all nil = []
  encode_all (also t ts) = encode t ++ encode_all ts

-- What a node stands for in the bytes that it was parsed from.
unfoldable mutual
  pub tlv_of : List ℕ → Node → Tlv
  tlv_of p (node h kids) =
      if h.constructed
      then constructed h.tag_class h.tag (tlvs_of p kids)
      else primitive h.tag_class h.tag (slice p h.offset (h.offset + h.len))

  pub tlvs_of : List ℕ → Nodes → Tlvs
  tlvs_of p no_nodes = nil
  tlvs_of p (cons n ns) = also (tlv_of p n) (tlvs_of p ns)

digits_of_fuel :
    (base mark f g v : ℕ)
    → 1 < base
    → v ≤ f
    → v ≤ g
    → digits_of base mark f v ≡ digits_of base mark g v
unfolding digits_of
digits_of_fuel base mark zero zero v hb p q = refl
digits_of_fuel base mark zero (suc g) zero hb p q = refl
digits_of_fuel base mark zero (suc g) (suc v) hb p q = absurd (omega arith)
digits_of_fuel base mark (suc f) zero zero hb p q = refl
digits_of_fuel base mark (suc f) zero (suc v) hb p q = absurd (omega arith)
digits_of_fuel base mark (suc f) (suc g) zero hb p q = refl
digits_of_fuel base mark (suc f) (suc g) (suc v) hb p q =
    let d = div-lt_self {n = suc v} (omega arith) hb in
    ap (λ (t : List ℕ). t ++ (suc v % base + mark) ∷ [])
      (digits_of_fuel base mark f g (suc v / base) hb (omega (arith, d)) (omega (arith, d)))

pub digits-zero : (base mark : ℕ) → digits base mark 0 ≡ []
unfolding digits_of
digits-zero base mark = refl

digits_step :
    (base mark v : ℕ)
    → 1 < base
    → v ≢ 0
    → digits base mark v ≡ digits base mark (v / base) ++ (v % base + mark) ∷ []
unfolding digits_of
digits_step base mark zero hb nz = absurd (nz refl)
digits_step base mark (suc v) hb nz =
    ap (λ (t : List ℕ). t ++ (suc v % base + mark) ∷ [])
      (digits_of_fuel base mark v (suc v / base) (suc v / base) hb
        (omega (arith, div-lt_self {n = suc v} (omega arith) hb)) (omega arith))

-- Appending a digit.
pub digits-snoc :
    (base mark v d : ℕ)
    → 1 < base
    → d < base
    → v * base + d ≢ 0
    → digits base mark (v * base + d) ≡ digits base mark v ++ (d + mark) ∷ []
digits-snoc base mark v d hb hd nz =
    digits_step base mark (v * base + d) hb nz
    ∙ ap₂ (λ (q r : ℕ). digits base mark q ++ (r + mark) ∷ [])
        (mul-add-div_right (omega arith) v d ∙ omega (arith, div-eq_of_lt hd))
        (ap (λ (t : ℕ). t % base) (add_comm (v * base) d)
          ∙ add-mul-mod_self_right d v base
          ∙ mod-eq_of_lt hd)
