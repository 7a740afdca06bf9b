-- ===== src/Tests/DerTests.antt =====
-- rmbl_asn1.cpp, the DER half: SEQUENCE { INTEGER 5, [31] "" } and refusals.
use rmorie_bricklayer.Prelude.{ℕ, ◌≡◌, refl, List, [], ◌∷◌, arith, true, false}
use rmorie_bricklayer.Der.{
  Node, node, no_nodes, cons, der_parse, report, parse_one, parse_header, read_tag, read_len,
  len_bytes, high_tag, parsed, not_well_formed, trailing_bytes,
}
use rmorie_bricklayer.Der.Encode.{tlv_of, primitive, constructed, nil, also}
use rmorie_bricklayer.Der.Total
use rmorie_bricklayer.Der.Total.{Explains}

abbrev sample : List ℕ
sample = 0x30 ∷ 6 ∷ 0x02 ∷ 1 ∷ 5 ∷ 0x9f ∷ 31 ∷ 0 ∷ []

abbrev integer : Node
integer =
    node
      (record { tag_class = 0; constructed = false; tag = 2; header_len = 2; len = 1; offset = 4 })
      no_nodes

abbrev context : Node
context =
    node
      (record { tag_class = 2; constructed = false; tag = 31; header_len = 3; len = 0; offset = 8 })
      no_nodes

abbrev root : Node
root =
    node
      (record { tag_class = 0; constructed = true; tag = 16; header_len = 2; len = 6; offset = 2 })
      (cons integer (cons context no_nodes))

sample_parsed : der_parse sample ≡ parsed root
unfolding der_parse report parse_one parse_header read_tag read_len len_bytes high_tag
sample_parsed = refl

sample_values :
    tlv_of sample root
    ≡ constructed 0 16 (also (primitive 0 2 (5 ∷ [])) (also (primitive 2 31 []) nil))
unfolding tlv_of
sample_values = refl

-- A length of 5 in the long form, and a byte too many.
long_form_refused : der_parse (0x04 ∷ 0x81 ∷ 5 ∷ 1 ∷ 2 ∷ 3 ∷ 4 ∷ 5 ∷ []) ≡ not_well_formed
unfolding der_parse report parse_one parse_header read_tag read_len len_bytes high_tag
long_form_refused = refl

trailing_refused : der_parse (0x05 ∷ 0 ∷ 7 ∷ []) ≡ trailing_bytes 2 3
unfolding der_parse report parse_one parse_header read_tag read_len len_bytes high_tag
trailing_refused = refl

der_parse-Explains_example : Explains sample (der_parse sample)
der_parse-Explains_example = Total.der_parse-Explains sample (omega arith)

der_parse-injective_example : sample ≡ sample
der_parse-injective_example =
    Total.der_parse-injective sample sample root root (omega arith) (omega arith) sample_parsed
      sample_parsed refl
