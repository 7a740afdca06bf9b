-- ===== src/Der.antt =====
-- src/rmbl_asn1.cpp, the DER half: `parse_one`, `parse_seq` and the entry point
-- `C_rmbl_der_parse_impl`. The bytes are a list read by absolute position, as in the source;
-- `size_t` and `unsigned long` are 64-bit.
pub mod Monad
pub mod Slice
pub mod Encode
pub mod Tag
pub mod Length
pub mod Header
pub mod Canonical
pub mod Total
use rmorie_bricklayer.Prelude.{
  ℕ, zero, suc, ◌+◌, ◌-◌, ◌*◌, ◌/◌, ◌^◌, ◌%◌, bit_and, bit_or, List, Bool, true, false, not, ◌&&◌,
  ltb, leb, ◌==◌, if◌then◌else◌, length,
}
use Monad.{Outcome, ok, reject, fault, out_of_fuel, ◌>>=◌, ◌>>◌, check, read}

-- What precedes the value of a node.
pub record NodeHeader : Type 0 where
  pub tag_class : ℕ
  pub constructed : Bool
  pub tag : ℕ
  pub header_len : ℕ
  pub len : ℕ
  pub offset : ℕ

mutual
  pub data Node : Type 0 where
    node : NodeHeader → Nodes → Node

  pub data Nodes : Type 0 where
    no_nodes : Nodes
    cons : Node → Nodes → Nodes

abbrev pub max_nodes : ℕ
max_nodes = 2 ^ 16

-- The `for (;;)` of the high tag number form. A round that goes on has read a byte below `n`.
unfoldable pub high_tag : ℕ → List ℕ → ℕ → ℕ → ℕ → Outcome (ℕ × ℕ)
high_tag zero p n pos tag = out_of_fuel
high_tag (suc fuel) p n pos tag = do
  check (ltb pos n)
  b ← read p pos
  check (leb tag ((2 ^ 64 - 1) / 2 ^ 7))
  let tag' = bit_or (tag * 2 ^ 7 % 2 ^ 64) (bit_and b 0x7f)
  let rest = high_tag fuel p n (pos + 1) tag'
  if bit_and b 0x80 == 0 then ok (tag', pos + 1) else rest

-- The tag number, given the identifier byte that stands just before `pos`.
unfoldable pub read_tag : List ℕ → ℕ → ℕ → ℕ → Outcome (ℕ × ℕ)
read_tag p n pos id =
    let tag = bit_and id 0x1f in
    let high = do
      check (ltb pos n)
      first ← read p pos
      check (not (bit_and first 0x7f == 0))
      (tag', pos') ← high_tag (n - pos + 1) p n pos 0
      check (not (ltb tag' 0x1f))
      ok (tag', pos')
    in if tag == 0x1f then high else ok (tag, pos)

-- `for (size_t i = 0; i < nbytes; ++i) len = (len << 8) | p[pos++];`
unfoldable pub len_bytes : ℕ → List ℕ → ℕ → ℕ → Outcome (ℕ × ℕ)
len_bytes zero p pos len = ok (len, pos)
len_bytes (suc rounds) p pos len = do
  b ← read p pos
  len_bytes rounds p (pos + 1) (bit_or (len * 2 ^ 8 % 2 ^ 64) b)

unfoldable pub read_len : List ℕ → ℕ → ℕ → Outcome (ℕ × ℕ)
read_len p n pos = do
  check (ltb pos n)
  len ← read p pos
  let long = do
    let nbytes = bit_and len 0x7f
    check (not (nbytes == 0))
    check (not (leb 8 nbytes))
    check (not (ltb (n - (pos + 1)) nbytes))
    first ← read p (pos + 1)
    check (not (first == 0))
    check (not (nbytes == 1 && ltb first 0x80))
    len_bytes nbytes p (pos + 1) 0
  if bit_and len 0x80 == 0 then ok (len, pos + 1) else long

-- The part of `parse_one` from the identifier byte up to `out.offset = pos`.
unfoldable pub parse_header : List ℕ → ℕ → ℕ → Outcome NodeHeader
parse_header p n start = do
  check (ltb start n)
  id ← read p start
  let tag_class = bit_and (id / 2 ^ 6) 0x03
  (tag, pos) ← read_tag p n (start + 1) id
  check (not (tag_class == 0 && tag == 0))
  (len, pos') ← read_len p n pos
  check (not (ltb (n - pos') len))
  ok (record {
    tag_class = tag_class;
    constructed = not (bit_and id 0x20 == 0);
    tag = tag;
    header_len = pos' - start;
    len = len;
    offset = pos';
  })

-- Both return the position behind what they read and the budget that is left. Fuel stands for the
-- call stack; `Total` shows how much is enough.
unfoldable mutual
  pub parse_one : ℕ → List ℕ → ℕ → ℕ → ℕ → ℕ → Outcome (Node × ℕ × ℕ)
  parse_one zero p n pos depth budget = out_of_fuel
  parse_one (suc fuel) p n pos depth budget = do
    check (not (ltb 32 depth))
    check (not (budget == 0))
    h ← parse_header p n pos
    elim h.constructed [
      | true ↦ do
        (kids, budget') ← parse_seq fuel p h.offset (h.offset + h.len) depth (budget - 1)
        ok (node h kids, h.offset + h.len, budget')
      | false ↦ ok (node h no_nodes, h.offset + h.len, budget - 1)
    ]

  pub parse_seq : ℕ → List ℕ → ℕ → ℕ → ℕ → ℕ → Outcome (Nodes × ℕ)
  parse_seq zero p pos end depth budget = out_of_fuel
  parse_seq (suc fuel) p pos end depth budget = elim (ltb pos end) [
    | true ↦ do
      (c, pos', budget') ← parse_one fuel p end pos (depth + 1) budget
      check (not (leb pos' pos))
      (cs, budget'') ← parse_seq fuel p pos' end depth budget'
      ok (cons c cs, budget'')
    | false ↦ do check (pos == end); ok (no_nodes, budget)
  ]

-- What `C_rmbl_der_parse_impl` answers on a raw vector; an allocation that fails is not modelled.
pub data Parsed : Type 0 where
  parsed : Node → Parsed
  not_well_formed : Parsed
  trailing_bytes : ℕ → ℕ → Parsed
  stuck : Parsed

unfoldable pub report : ℕ → Outcome (Node × ℕ × ℕ) → Parsed
report n (ok (root, pos, budget)) = if pos == n then parsed root else trailing_bytes pos n
report n reject = not_well_formed
report n fault = stuck
report n out_of_fuel = stuck

unfoldable pub der_parse : List ℕ → Parsed
der_parse p = let n = length p in report n (parse_one (2 * n + 1) p n 0 0 max_nodes)
