-- ===== src/Der/Canonical.antt =====
-- `parse_one` and `parse_seq` accept nothing but DER: the bytes that they consume are the one
-- encoding of the tree that they return. Neither reads outside its bytes, and the stated fuel is
-- enough.
use rmorie_bricklayer.Prelude.{
  ℕ, zero, suc, ◌+◌, ◌-◌, ◌*◌, ◌≤◌, ◌<◌, ◌≡◌, refl, ap, sym, ◌∙◌, List, ◌++◌, Bool, arith, length,
  ltb, leb, ◌==◌, ==_iff, not, max,
}
use mathlib.Core.Path.{ap₂}
use rmorie_bricklayer.Prelude.Bytes.{IsBytes}
use rmorie_bricklayer.Der.{Node, Nodes, node, no_nodes, cons, parse_one, parse_seq, NodeHeader}
use rmorie_bricklayer.Der.Monad.{Ensures, holds, Ensures-bind, Ensures-cases, check-Ensures}
use rmorie_bricklayer.Der.Slice.{slice, slice-append, slice_empty, length-slice}
use rmorie_bricklayer.Der.Encode.{encode, encode_all, tlv_of, tlvs_of, header}
use rmorie_bricklayer.Der.Header.{IsHeader, parse_header-Ensures}

-- The number of nodes, and the number of levels.
mutual
  pub size : Node → ℕ
  size (node h kids) = 1 + size_all kids

  pub size_all : Nodes → ℕ
  size_all no_nodes = 0
  size_all (cons c cs) = size c + size_all cs

mutual
  pub height : Node → ℕ
  height (node h kids) = 1 + height_all kids

  pub height_all : Nodes → ℕ
  height_all no_nodes = 0
  height_all (cons c cs) = max (height c) (height_all cs)

-- A node was read from `pos` up to `pos'`, with `budget'` of the budget left.
pub record IsRead (p : List ℕ) (n pos depth budget : ℕ) (result : Node × ℕ × ℕ) : Type 0 where
  pub advances : pos < result.1
  pub inside : result.1 ≤ n
  pub octets : slice p pos result.1 ≡ encode (tlv_of p result.0)
  pub spent : size result.0 + result.2 ≡ budget
  pub levels : depth + height result.0 ≤ 33

pub record AreRead (p : List ℕ) (pos end depth budget : ℕ) (result : Nodes × ℕ) : Type 0 where
  pub octets : slice p pos end ≡ encode_all (tlvs_of p result.0)
  pub spent : size_all result.0 + result.1 ≡ budget
  pub levels : depth + height_all result.0 ≤ 32

module _ (p : List ℕ) (hp : IsBytes p) where
  -- A header and the value behind it.
  join :
      (pos n : ℕ) (h : NodeHeader)
      → n ≤ length p
      → IsHeader p n pos h
      → (value : List ℕ) → slice p h.offset (h.offset + h.len) ≡ value
      → slice p pos (h.offset + h.len)
        ≡ header h.tag_class h.constructed h.tag (length value) ++ value
  join pos n h hn ih value e =
      let size : length value ≡ h.len =
        ap length (sym e)
        ∙ length-slice p h.offset (h.offset + h.len) (omega (arith, ih.room))
        ∙ omega arith in
      sym (
        slice-append p pos h.offset (h.offset + h.len) (omega (arith, ih.header_size))
          (omega arith))
      ∙ ap₂ (λ (xs ys : List ℕ). xs ++ ys) ih.octets e
      ∙ ap (λ (l : ℕ). header h.tag_class h.constructed h.tag l ++ value) (sym size)

  mutual
    unfolding parse_one encode tlv_of size height

    one-Ensures :
        (fuel n pos depth budget : ℕ)
        → n ≤ length p
        → 2 * (n - pos) < fuel
        → Ensures (IsRead p n pos depth budget) (parse_one fuel p n pos depth budget)
    one-Ensures zero n pos depth budget hn enough = absurd (omega arith)
    one-Ensures (suc fuel) n pos depth budget hn enough =
        Ensures-bind (check-Ensures (not (ltb 32 depth))) λ _ shallow.
          Ensures-bind (check-Ensures (not (budget == 0))) λ _ budget_pos.
            Ensures-bind (parse_header-Ensures p n hp hn pos) λ h ih.
              Ensures-cases h.constructed
                (λ form.
                  Ensures-bind
                    (seq-Ensures fuel h.offset (h.offset + h.len) depth (budget - 1) (omega arith)
                      (omega (arith, ih.room)) (ground arith)
                      (omega (arith, ih.two_bytes, ih.header_size)))
                    λ (kids, budget') ks. holds record {
                      advances = omega (arith, ih.two_bytes, ih.header_size);
                      inside = ih.room;
                      octets = rw form (
                          join pos n h hn ih (encode_all (tlvs_of p kids)) ks.octets
                          ∙ ap
                              (λ (b : Bool).
                                header h.tag_class b h.tag (length (encode_all (tlvs_of p kids)))
                                ++ encode_all (tlvs_of p kids))
                              form);
                      spent = ground (arith, ks.spent);
                      levels = omega (arith, ks.levels);
                    })
                (λ form. holds record {
                  advances = omega (arith, ih.two_bytes, ih.header_size);
                  inside = ih.room;
                  octets = rw form (
                      join pos n h hn ih (slice p h.offset (h.offset + h.len)) refl
                      ∙ ap
                          (λ (b : Bool).
                            header h.tag_class b h.tag
                              (length (slice p h.offset (h.offset + h.len)))
                            ++ slice p h.offset (h.offset + h.len))
                          form);
                  spent = ground arith;
                  levels = ground arith;
                })

    seq-Ensures :
        (fuel pos end depth budget : ℕ)
        → pos ≤ end
        → end ≤ length p
        → depth ≤ 32
        → 2 * (end - pos) + 1 < fuel
        → Ensures (AreRead p pos end depth budget) (parse_seq fuel p pos end depth budget)
    seq-Ensures zero pos end depth budget le he hd enough = absurd (omega arith)
    seq-Ensures (suc fuel) pos end depth budget le he hd enough =
        Ensures-cases (ltb pos end)
          (λ more.
            Ensures-bind (one-Ensures fuel end pos (depth + 1) budget he (omega arith))
              λ (c, pos', budget') one. Ensures-bind (check-Ensures (not (leb pos' pos))) λ _ _.
                Ensures-bind
                  (seq-Ensures fuel pos' end depth budget' one.inside he hd
                    (omega (arith, one.advances)))
                  λ (cs, budget'') rest. holds record {
                    octets =
                        sym (slice-append p pos pos' end (omega (arith, one.advances)) one.inside)
                        ∙ ap₂ (λ (xs ys : List ℕ). xs ++ ys) one.octets rest.octets;
                    spent = omega (arith, one.spent, rest.spent);
                    levels = omega (arith, one.levels, rest.levels);
                  })
          (λ last. Ensures-bind (check-Ensures (pos == end)) λ _ same. holds record {
            octets = ap (slice p pos) (sym ((==_iff pos end).0 same)) ∙ slice_empty p pos;
            spent = omega arith;
            levels = omega arith;
          })

  -- With more than `2 * (n - pos)` fuel `parse_one` reads no byte outside its bounds and does not
  -- run
  -- out. On success it advances and stays within `n`, the bytes that it passed are the DER encoding
  -- of the node, each node has cost one unit of the budget, and no node is below level 33.
  pub parse_one-Ensures :
      (fuel n pos depth budget : ℕ)
      → n ≤ length p
      → 2 * (n - pos) < fuel
      → Ensures (IsRead p n pos depth budget) (parse_one fuel p n pos depth budget)
  parse_one-Ensures = one-Ensures
