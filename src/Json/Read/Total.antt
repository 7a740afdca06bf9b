-- ===== src/Json/Read/Total.antt =====
-- value and container of src/rmbl_json.cpp on every text, with enough fuel.
use rmorie_bricklayer.Prelude.{
  ℕ, zero, suc, ◌+◌, ◌*◌, ◌%◌, ◌^◌, ◌≤◌, ◌<◌, ◌≡◌, inl, inr, bit_and, Bool, true, false, ◌&&◌, ◌||◌,
  not, List, [], ◌∷◌, Option, none, length, length-drop, drop, ltb, ◌==◌, arith, Bool-cases,
  Option-cases,
}
use rmorie_bricklayer.Json.{
  ok, ◌>>=◌, Host, Options, Value, null, logical, integer, real, text, items, Items, nil, cons,
}
use rmorie_bricklayer.Json.Number.{is_digit, starts}
use rmorie_bricklayer.Json.Number.Total.{IsScalar, number-Ensures}
use rmorie_bricklayer.Json.Text.{string}
use rmorie_bricklayer.Json.Text.Fast.{string_lem}
use rmorie_bricklayer.Json.Keys.{first_dup}
use rmorie_bricklayer.Json.Ensures.{
  Ensures, holds, fails, stops, Ensures-bind, Ensures-if, Ensures-branch, Ensures-map,
}
use rmorie_bricklayer.Json.Read.{
  Reader, ws, has_word, word_true, word_false, word_null, max_depth, Start, scalar, opens, close,
  keys, dispatch, poll, start, key, next, finish, value, members,
}

pub ws-le : (t : List ℕ) → length (ws t) ≤ length t
unfolding ws
ws-le [] = omega arith
ws-le (c ∷ t) = ground (arith, ws-le t)

abbrev Shorter : ℕ → List ℕ × List ℕ → Type 0
Shorter n (s, rest) = length rest < n

string-Ensures : (t : List ℕ) (n : ℕ) → length t ≤ n → Ensures (Shorter (length t)) n (string t)
string-Ensures t n le = elim (string_lem t) [
  | inl bad ↦ rw bad (fails le)
  | inr (s, rest, good, less) ↦ rw good (holds less)
]

module _ (h : Host) (o : Options) where
  open h use {Double}

  abbrev Starts : ℕ → ℕ → Start Double → Type 0
  Starts depth n (scalar v held rest) = (length rest < n) × IsScalar h o v
  Starts depth n (opens obj rest) = (length rest < n) × (depth < max_depth)

  dispatch-Ensures :
      (depth : ℕ) (t : List ℕ) (held : Option (List ℕ)) (n : ℕ)
      → length t ≤ n
      → Ensures (Starts depth (length t)) n (dispatch h o depth t held)
  unfolding dispatch
  dispatch-Ensures depth [] held n le = fails (omega arith)
  dispatch-Ensures depth (c ∷ t) held n le =
      Ensures-if (c == b'{' || c == b'[') n
        (λ container.
          Ensures-if (ltb max_depth (depth + 1)) n (λ deep. fails le)
            (λ fits. holds {a = opens (c == b'{') t} (omega arith, ground arith)))
        λ e1.
          Ensures-if (c == b'"') n
            (λ quote.
              Ensures-bind n (string-Ensures t n (omega arith))
                λ (s, rest) less. holds {a = scalar (text s) held rest} (omega arith, tt))
            λ e2.
              Ensures-if (c == b't' && has_word word_true (c ∷ t)) n
                (λ w.
                  holds {a = scalar (logical true) held (drop 3 t)}
                    (omega (arith, length-drop 3 t), tt))
                λ e3.
                  Ensures-if (c == b'f' && has_word word_false (c ∷ t)) n
                    (λ w.
                      holds {a = scalar (logical false) held (drop 4 t)}
                        (omega (arith, length-drop 4 t), tt))
                    λ e4.
                      Ensures-if (c == b'n' && has_word word_null (c ∷ t)) n
                        (λ w.
                          holds {a = scalar null held (drop 3 t)}
                            (omega (arith, length-drop 3 t), tt))
                        λ e5.
                          Ensures-if (c == b'-' || is_digit c) n
                            (λ digit.
                              Ensures-bind n
                                (Ensures-map (suc (length t)) n le
                                  (number-Ensures h o (c ∷ t) held (length t) (omega arith))
                                  (λ a p. p))
                                λ ((v, held'), rest) less.
                                  holds {a = scalar v held' rest} (omega arith, less.1))
                            λ e6. fails le

  poll-Ensures : (count n : ℕ) → Ensures (λ _. Unit {0}) n (poll h o count)
  unfolding poll
  poll-Ensures count n =
      Ensures-if (bit_and ((count + 1) % 2 ^ 64) 4095 == 0 && h.stops ((count + 1) % 2 ^ 64)) n
        (λ _. stops) (λ _. holds tt)

  start-Ensures :
      (depth : ℕ) (r : Reader)
      → Ensures (λ (s, count). Starts depth (length r.rest) s) (length r.rest) (start h o depth r)
  unfolding start
  start-Ensures depth r =
      let n = length r.rest in
      let le = ws-le r.rest in
      Ensures-bind n (poll-Ensures r.count n) λ count u.
        Ensures-bind n (dispatch-Ensures depth (ws r.rest) r.held n le)
          λ s hs. holds {a = (s, count)} (no_longer s hs)
    where
      no_longer :
          (s : Start Double) → Starts depth (length (ws r.rest)) s → Starts depth (length r.rest) s
      no_longer (scalar v held rest) (less, is) = (omega (arith, ws-le r.rest), is)
      no_longer (opens obj rest) (less, fits) = (omega (arith, ws-le r.rest), fits)

  key-Ensures :
      (obj : Bool) (t : List ℕ) (n : ℕ)
      → length t ≤ n
      → Ensures (λ (k, rest). length rest ≤ length t) n (key h o obj t)
  unfolding key
  key-Ensures false t n le = holds {a = ([], t)} (omega arith)
  key-Ensures true t n le =
      Ensures-if (starts b'"' (ws t)) n
        (λ quote.
          Ensures-bind n
            (string-Ensures (drop 1 (ws t)) n (omega (arith, ws-le t, length-drop 1 (ws t))))
            λ (k, t') less.
              Ensures-if (starts b':' (ws t')) n
                (λ colon.
                  holds {a = (k, drop 1 (ws t'))}
                    (omega (arith, ws-le t, ws-le t', length-drop 1 (ws t), length-drop 1 (ws t'))))
                (λ colon. fails (omega (arith, ws-le t, ws-le t', length-drop 1 (ws t)))))
        (λ quote. fails (omega (arith, ws-le t)))

  starts-less : (c : ℕ) (t : List ℕ) → starts c t ≡ true → length (drop 1 t) < length t
  starts-less c [] h = cc
  starts-less c (b ∷ t) h = omega arith

  next-Ensures :
      (obj : Bool) (t : List ℕ) (n : ℕ)
      → length t ≤ n
      → Ensures (λ (more, rest). length rest < length t) n (next h o obj t)
  unfolding next
  next-Ensures obj t n le =
      Ensures-if (starts b',' (ws t)) n
        (λ c. holds {a = (true, drop 1 (ws t))} (omega (arith, ws-le t, starts-less b',' (ws t))))
        (λ c.
          Ensures-if (starts (close obj) (ws t)) n
            (λ d.
              holds {a = (false, drop 1 (ws t))}
                (omega (arith, ws-le t, starts-less (close obj) (ws t))))
            (λ d. fails (omega (arith, ws-le t))))

  -- What is known of the keys of an object that is accepted.
  module _ (Distinct : List (List ℕ) → Type 0)
      (settles : (ks : List (List ℕ)) → first_dup h ks ≡ none → Distinct ks) where
    abbrev pub Unrepeated : Bool → Items Double → Type 0
    Unrepeated obj vs = (obj && not o.keep_dups) ≡ true → Distinct (keys vs)

    -- A value inside `depth` containers whose own containers are inside fewer than 100, with no
    -- key twice unless repeated keys are kept.
    unfoldable mutual
      pub Accepted : ℕ → Value Double → Type 0
      Accepted depth (items obj vs) =
          (depth < max_depth) × Unrepeated obj vs × AcceptedItems (depth + 1) vs
      Accepted depth v = Unit

      pub AcceptedItems : ℕ → Items Double → Type 0
      AcceptedItems depth nil = Unit
      AcceptedItems depth (cons k v vs) = Accepted depth v × AcceptedItems depth vs

    scalar-Accepted : (depth : ℕ) (v : Value Double) → IsScalar h o v → Accepted depth v
    unfolding Accepted
    scalar-Accepted depth null s = tt
    scalar-Accepted depth (logical b) s = tt
    scalar-Accepted depth (integer z) s = tt
    scalar-Accepted depth (real d) s = tt
    scalar-Accepted depth (text t) s = tt
    scalar-Accepted depth (items obj vs) s = elim s [ ]

    abbrev Read : ℕ → ℕ → Value Double × Reader → Type 0
    Read depth n (v, r) = (length r.rest < n) × Accepted depth v

    abbrev ReadItems : ℕ → ℕ → Items Double × Reader → Type 0
    ReadItems depth n (vs, r) = (length r.rest < n) × AcceptedItems depth vs

    finish-Ensures :
        (depth n : ℕ) (obj : Bool) (vs : Items Double) (r : Reader)
        → depth < max_depth
        → length r.rest < n
        → AcceptedItems (depth + 1) vs
        → Ensures (Read depth n) n (finish h o obj vs r)
    unfolding finish Accepted
    finish-Ensures depth n obj vs r fits less all = elim (Bool-cases (obj && not o.keep_dups)) [
      | inr kept ↦ rw (finish, kept) (holds {a = (items obj vs, r)} (less, (fits, (λ e. cc), all)))
      | inl tested ↦ elim (Option-cases (first_dup h (keys vs))) [
        | inl new ↦
            rw (finish, tested, new)
              (holds {a = (items obj vs, r)} (less, (fits, (λ e. settles (keys vs) new), all)))
        | inr (k, twice) ↦ rw (finish, tested, twice) (fails (omega arith))
      ]
    ]

    mutual
      unfolding value members Accepted

      pub value-Ensures :
          (fuel depth : ℕ) (r : Reader)
          → 2 * length r.rest + 1 ≤ fuel
          → Ensures (Read depth (length r.rest)) (length r.rest) (value h o fuel depth r)
      value-Ensures zero depth r le = absurd (omega arith)
      value-Ensures (suc fuel) depth r le =
          let n = length r.rest in
          Ensures-bind n (start-Ensures depth r) λ (s, count) hs.
            elim s
                as (λ s.
                  Starts depth n s
                  → Ensures (Read depth n) n (elim s [
                    | scalar v held t ↦ ok (v, record { rest = t; count = count; held = held })
                    | opens obj t ↦ elim (starts (close obj) (ws t)) [
                      | true ↦ finish h o obj nil (record r { rest = drop 1 (ws t); count = count })
                      | false ↦
                          members h o fuel obj (depth + 1) (record r { rest = ws t; count = count })
                          >>= λ (vs, r'). finish h o obj vs r'
                    ]
                  ])) [
                    | scalar v held t ↦ λ (less, is).
                        holds {a = (v, record { rest = t; count = count; held = held })}
                          (less, scalar-Accepted depth v is)
                    | opens obj t ↦ λ (less, fits).
                        Ensures-branch (starts (close obj) (ws t)) n
                          (λ closed.
                            finish-Ensures depth n obj nil
                              (record r { rest = drop 1 (ws t); count = count }) fits
                              (omega (arith, ws-le t, length-drop 1 (ws t))) tt)
                          (λ filled.
                            Ensures-bind n
                              (Ensures-map (length (ws t)) n (omega (arith, ws-le t))
                                (members-Ensures fuel obj (depth + 1)
                                  (record r { rest = ws t; count = count })
                                  (omega (arith, ws-le t)))
                                (λ a p. p))
                              λ (vs, r') (less', all).
                                finish-Ensures depth n obj vs r' fits (omega (arith, ws-le t)) all)
                  ]
              hs

      pub members-Ensures :
          (fuel : ℕ) (obj : Bool) (depth : ℕ) (r : Reader)
          → 2 * length r.rest + 2 ≤ fuel
          → Ensures (ReadItems depth (length r.rest)) (length r.rest) (members h o fuel obj depth r)
      members-Ensures zero obj depth r le = absurd (omega arith)
      members-Ensures (suc fuel) obj depth r le =
          let n = length r.rest in
          Ensures-bind n (key-Ensures obj r.rest n (omega arith)) λ (k, t) hk.
            Ensures-bind n
              (Ensures-map (length t) n hk
                (value-Ensures fuel depth (record r { rest = t }) (omega arith)) (λ a p. p))
              λ (v, r1) (less, ok_v).
                Ensures-bind n (next-Ensures obj r1.rest n (omega arith)) λ (more, t') less'.
                  elim more
                    as (λ more. Ensures (ReadItems depth n) n (elim more [
                      | false ↦ ok (cons k v nil, record r1 { rest = t' })
                      | true ↦ members h o fuel obj depth (record r1 { rest = t' }) >>= λ (vs, r2).
                          ok (cons k v vs, r2)
                    ])) [
                      | false ↦
                          holds {a = (cons k v nil, record r1 { rest = t' })}
                            (omega arith, (ok_v, tt))
                      | true ↦
                          Ensures-bind n
                            (Ensures-map (length t') n (omega arith)
                              (members-Ensures fuel obj depth (record r1 { rest = t' })
                                (omega arith))
                              (λ a p. p))
                            λ (vs, r2) (less2, ok_vs).
                              holds {a = (cons k v vs, r2)} (omega arith, (ok_v, ok_vs))
                    ]
