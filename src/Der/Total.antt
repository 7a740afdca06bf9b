-- ===== src/Der/Total.antt =====
-- `C_rmbl_der_parse_impl` on every input.
use rmorie_bricklayer.Prelude.{
  ℕ, ◌+◌, ◌*◌, ◌^◌, ◌≤◌, ◌<◌, ◌≡◌, refl, ap, sym, ◌∙◌, List, arith, length, ◌==◌, ==_iff, inl, inr,
  Bool-cases,
}
use rmorie_bricklayer.Prelude.Bytes.{IsBytes}
use rmorie_bricklayer.Der.{
  Node, Parsed, parsed, not_well_formed, trailing_bytes, stuck, report, der_parse, max_nodes,
}
use rmorie_bricklayer.Der.Monad.{Outcome, Ensures, holds, rejected}
use rmorie_bricklayer.Der.Slice.{slice, slice_all}
use rmorie_bricklayer.Der.Encode.{encode, tlv_of}
use rmorie_bricklayer.Der.Canonical.{IsRead, size, height, parse_one-Ensures}

-- What each answer says of the bytes.
abbrev pub Explains : List ℕ → Parsed → Type 0
Explains p (parsed root) = (encode (tlv_of p root) ≡ p) × (size root ≤ 2 ^ 16) × (height root ≤ 33)
Explains p not_well_formed = Unit
Explains p (trailing_bytes pos n) =
    (pos < n) × (n ≡ length p) × ((root : Node) × (slice p 0 pos ≡ encode (tlv_of p root)))
Explains p stuck = ⊥

report-Explains :
    (p : List ℕ) (r : Outcome (Node × ℕ × ℕ))
    → Ensures (IsRead p (length p) 0 0 max_nodes) r
    → Explains p (report (length p) r)
unfolding report
report-Explains p r (holds {a = a} h) = elim (Bool-cases (a.1 == length p)) [
  | inl all ↦ rw all (
    sym h.octets ∙ ap (slice p 0) ((==_iff a.1 (length p)).0 all) ∙ slice_all p,
    omega (arith, h.spent),
    omega (arith, h.levels),
  )
  | inr some ↦ rw some (ground (arith, h.inside), refl, (a.0, h.octets))
]
report-Explains p r rejected = tt

-- The entry point always answers: it reads no byte outside the input and does not run out of
-- stack. What it accepts is, byte for byte, the one DER encoding of the tree that it returns, which
-- has at most 65536 nodes and 33 levels; where it complains of trailing bytes, the bytes before
-- them
-- are such an encoding.
pub der_parse-Explains : (p : List ℕ) → IsBytes p → Explains p (der_parse p)
unfolding der_parse
der_parse-Explains p hp =
    report-Explains p _ (
      parse_one-Ensures p hp (2 * length p + 1) (length p) 0 0 max_nodes (omega arith)
        (omega arith))

-- No malleability: two inputs that are accepted as the same tree of values are the same bytes.
pub der_parse-injective :
    (p q : List ℕ) (r s : Node)
    → IsBytes p
    → IsBytes q
    → der_parse p ≡ parsed r
    → der_parse q ≡ parsed s
    → tlv_of p r ≡ tlv_of q s
    → p ≡ q
der_parse-injective p q r s hp hq e f same =
    let a = rw e at (der_parse-Explains p hp) in
    let b = rw f at (der_parse-Explains q hq) in sym a.0 ∙ ap encode same ∙ b.0
