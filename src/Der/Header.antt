-- ===== src/Der/Header.antt =====
-- The bytes of a header that `parse_header` accepts are the DER encoding of what it reads.
use rmorie_bricklayer.Prelude.{
  ℕ, ◌+◌, ◌-◌, ◌/◌, ◌^◌, ◌≤◌, ◌≡◌, sym, ◌∙◌, List, ◌++◌, arith, length, ltb, ◌==◌, bit_and, not,
  ◌&&◌, false,
}
use mathlib.Core.Path.{ap₂}
use rmorie_bricklayer.Prelude.Bytes.{IsBytes}
use rmorie_bricklayer.Der.{parse_header, NodeHeader}
use rmorie_bricklayer.Der.Monad.{Ensures, holds, Ensures-bind, check-Ensures, read-Ensures}
use rmorie_bricklayer.Der.Slice.{slice, slice-append}
use rmorie_bricklayer.Der.Encode.{header}
use rmorie_bricklayer.Der.Tag.{read_tag-Ensures}
use rmorie_bricklayer.Der.Length.{read_len-Ensures}

-- `h` was read from `start`, and its value ends before `n`.
pub record IsHeader (p : List ℕ) (n start : ℕ) (h : NodeHeader) : Type 0 where
  pub header_size : start + h.header_len ≡ h.offset
  pub two_bytes : 2 ≤ h.header_len
  pub room : h.offset + h.len ≤ n
  pub octets : slice p start h.offset ≡ header h.tag_class h.constructed h.tag h.len
  pub no_end_marker : (h.tag_class == 0 && h.tag == 0) ≡ false

module _ (p : List ℕ) (n : ℕ) (hp : IsBytes p) (hn : n ≤ length p) where
  -- The header part of `parse_one` reads inside the first `n` bytes only. The octets of a header
  -- that it accepts are the shortest encoding of the class, form, tag and length that it gives, the
  -- value fits before `n`, and it is no end-of-contents marker.
  pub parse_header-Ensures : (start : ℕ) → Ensures (IsHeader p n start) (parse_header p n start)
  unfolding parse_header
  parse_header-Ensures start = Ensures-bind (check-Ensures (ltb start n)) λ _ room.
      Ensures-bind (read-Ensures p start (ground arith)) λ id eid.
        Ensures-bind (read_tag-Ensures p n hp hn start id (ground arith) eid) λ (t, pos) h.
          Ensures-bind (check-Ensures (not (bit_and (id / 2 ^ 6) 0x03 == 0 && t == 0))) λ _ marker.
            Ensures-bind (read_len-Ensures p n hp hn pos) λ (l, pos') k.
              Ensures-bind (check-Ensures (not (ltb (n - pos') l))) λ _ fit. holds record {
                header_size = omega (arith, h, k);
                two_bytes = omega (arith, h, k);
                room = ground (arith, h, k);
                octets =
                    sym (slice-append p start pos pos' (omega (arith, h)) (omega (arith, k)))
                    ∙ ap₂ (λ (xs ys : List ℕ). xs ++ ys) h.2 k.2;
                no_end_marker = ground (arith, marker);
              }
