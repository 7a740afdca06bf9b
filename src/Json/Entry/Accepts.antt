-- ===== src/Json/Entry/Accepts.antt =====
-- C_rmbl_json_fast_impl of src/rmbl_json.cpp accepts what is written as JSON.
use rmorie_bricklayer.Prelude.{
  ℕ, ◌+◌, ◌*◌, ◌≤◌, ◌≡◌, refl, Bool, true, false, [], ◌∷◌, ◌++◌, none, length, length-append, arith,
}
use mathlib.Core.List.{append-nil}
use rmorie_bricklayer.Json.{
  Host, Options, Value, null, logical, integer, real, text, items, Items, nil, cons,
}
use rmorie_bricklayer.Json.Utf8.{valid_utf8}
use rmorie_bricklayer.Json.Text.Written.{quoted}
use rmorie_bricklayer.Json.Read.{ws, close}
use rmorie_bricklayer.Json.Read.Written.{
  label, print, print_more, cost, cost_all, Writable, AllWritable, value-print,
}
use rmorie_bricklayer.Json.Entry.{parsed, report, read_all, json_fast}

module _ (h : Host) (o : Options) (runs : (c : ℕ) → h.stops c ≡ false) where
  -- The fuel of the entry is enough for a written value.
  mutual
    unfolding print print_more cost cost_all Writable AllWritable

    cost-le :
        (v : Value h.Double) (depth : ℕ)
        → Writable h o runs depth v
        → cost v + 1 ≤ 2 * length (print v)
    cost-le null depth w = omega arith
    cost-le (logical true) depth w = omega arith
    cost-le (logical false) depth w = omega arith
    cost-le (integer z) depth w = elim w [ ]
    cost-le (real d) depth w = elim w [ ]
    cost-le (text s) depth w = omega (arith, length-append (quoted s) (b'"' ∷ []))
    cost-le (items obj nil) depth w = omega arith
    cost-le (items obj (cons k v vs)) depth (fits, new, (wk, wv, ws')) =
        let m = print_more obj vs in
        omega (
          arith,
          cost-le v (depth + 1) wv,
          cost_all-le obj vs (depth + 1) ws',
          length-append (label obj k) (print v ++ (m ++ close obj ∷ [])),
          length-append (print v) (m ++ close obj ∷ []),
          length-append m (close obj ∷ []),
        )

    cost_all-le :
        (obj : Bool) (vs : Items h.Double) (depth : ℕ)
        → AllWritable h o runs obj depth vs
        → cost_all vs ≤ 2 * length (print_more obj vs)
    cost_all-le obj nil depth w = omega arith
    cost_all-le obj (cons k v vs) depth (wk, wv, ws') = omega (
      arith,
      cost-le v depth wv,
      cost_all-le obj vs depth ws',
      length-append (label obj k) (print v ++ print_more obj vs),
      length-append (print v) (print_more obj vs),
    )

  -- Where no interrupt is pending and the text of a value with no number is UTF-8, json_fast gives
  -- the value back, with no number to warn of. The value has no zero byte, its containers are
  -- inside fewer than 100 others, its objects repeat no key, where that is refused, and the
  -- elements of its arrays have no key.
  pub json_fast-print :
      (v : Value h.Double)
      → Writable h o runs 0 v
      → valid_utf8 (print v) ≡ true
      → json_fast h o (print v) ≡ parsed v none
  unfolding json_fast read_all report ws
  json_fast-print v w valid =
      let p = print v in
      let (c, e) =
        value-print h o runs v (2 * length p + 1) 0 0 [] none w (omega (arith, cost-le v 0 w)) in
      let e' = rw (append-nil p) at e in rw (json_fast, valid, read_all, e') refl
