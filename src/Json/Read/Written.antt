-- ===== src/Json/Read/Written.antt =====
-- value and container of src/rmbl_json.cpp read back a value that is written as JSON.
use rmorie_bricklayer.Prelude.{
  ℕ, zero, suc, ◌+◌, ◌%◌, ◌^◌, ◌≤◌, ◌<◌, ◌≡◌, refl, ap, sym, ◌∙◌, Bool, true, false, ◌&&◌, not,
  List, [], ◌∷◌, ◌++◌, Option, none, length, ltb, leb, if◌then◌else◌, arith, Bool-cases, inl, inr,
  drop, &&_false,
}
use mathlib.Core.List.{append_assoc}
use rmorie_bricklayer.Json.{
  Outcome, ok, ◌>>=◌, Host, Options, Value, null, logical, integer, real, text, items, Items, nil,
  cons,
}
use rmorie_bricklayer.Json.Number.{starts}
use rmorie_bricklayer.Json.Text.Written.{quoted, NoZero, string-quoted}
use rmorie_bricklayer.Json.Keys.{first_dup}
use rmorie_bricklayer.Json.Read.{
  Reader, ws, word_true, word_false, word_null, max_depth, Start, scalar, opens, close, keys,
  dispatch, poll, start, key, next, finish, value, members,
}

-- The text of a key and its colon, in an object.
unfoldable pub label : Bool → List ℕ → List ℕ
unfolding quoted
label false k = []
label true k = b'"' ∷ (quoted k ++ b'"' ∷ b':' ∷ [])

module _ {D : Type 0} where
  -- JSON with no white space.
  unfoldable mutual
    unfolding label quoted

    pub print : Value D → List ℕ
    print null = word_null
    print (logical true) = word_true
    print (logical false) = word_false
    print (integer z) = []
    print (real d) = []
    print (text s) = b'"' ∷ (quoted s ++ b'"' ∷ [])
    print (items obj nil) = (if obj then b'{' else b'[') ∷ close obj ∷ []
    print (items obj (cons k v vs)) =
        (if obj then b'{' else b'[')
        ∷ (label obj k ++ (print v ++ (print_more obj vs ++ close obj ∷ [])))

    pub print_more : Bool → Items D → List ℕ
    print_more obj nil = []
    print_more obj (cons k v vs) = b',' ∷ (label obj k ++ (print v ++ print_more obj vs))

  -- The calls of value and of the loop of container, one inside the other.
  unfoldable mutual
    pub cost : Value D → ℕ
    cost null = 1
    cost (logical b) = 1
    cost (integer z) = 1
    cost (real d) = 1
    cost (text s) = 1
    cost (items obj vs) = 1 + cost_all vs

    pub cost_all : Items D → ℕ
    cost_all nil = 0
    cost_all (cons k v vs) = 1 + cost v + cost_all vs

module _ (h : Host) (o : Options) (runs : (c : ℕ) → h.stops c ≡ false) where
  open h use {Double}

  -- A value with no number and no zero byte, whose containers are inside fewer than 100 others and
  -- whose objects repeat no key, where that is refused; the elements of an array have no key.
  unfoldable mutual
    pub Writable : ℕ → Value Double → Type 0
    Writable depth null = Unit
    Writable depth (logical b) = Unit
    Writable depth (integer z) = ⊥
    Writable depth (real d) = ⊥
    Writable depth (text s) = NoZero s
    Writable depth (items obj vs) =
        (depth < max_depth)
        × ((obj && not o.keep_dups) ≡ true → first_dup h (keys vs) ≡ none)
        × AllWritable obj (depth + 1) vs

    pub AllWritable : Bool → ℕ → Items Double → Type 0
    AllWritable obj depth nil = Unit
    AllWritable obj depth (cons k v vs) =
        (if obj then NoZero k else (k ≡ [])) × Writable depth v × AllWritable obj depth vs

  key_lem :
      (obj : Bool) (k t : List ℕ)
      → (if obj then NoZero k else (k ≡ []))
      → key h o obj (label obj k ++ t) ≡ ok (k, t)
  unfolding key label
  key_lem false k t e = ap (λ (s : List ℕ). ok (s, t)) (sym e)
  key_lem true k t e =
      ap (λ (u : List ℕ). key h o true (b'"' ∷ u)) (append_assoc (quoted k) (b'"' ∷ b':' ∷ []) t)
      ∙ rw (key, string-quoted k (b':' ∷ t) e) refl

  poll_lem : (count : ℕ) → poll h o count ≡ ok ((count + 1) % 2 ^ 64)
  unfolding poll
  poll_lem count = rw (runs ((count + 1) % 2 ^ 64), &&_false) refl

  finish_lem :
      (obj : Bool) (vs : Items Double) (r : Reader)
      → ((obj && not o.keep_dups) ≡ true → first_dup h (keys vs) ≡ none)
      → finish h o obj vs r ≡ ok (items obj vs, r)
  unfolding finish
  finish_lem obj vs r new = elim (Bool-cases (obj && not o.keep_dups)) [
    | inl tested ↦ rw (finish, tested, new tested)
    | inr kept ↦ rw (finish, kept)
  ]

  start_lem :
      (depth : ℕ) (r : Reader) (s : Start Double)
      → dispatch h o depth (ws r.rest) r.held ≡ ok s
      → start h o depth r ≡ ok (s, (r.count + 1) % 2 ^ 64)
  unfolding start
  start_lem depth r s e = rw (start, poll_lem r.count, e)

  -- What reading gives: the value, and the rest of the text.
  abbrev Reads : ℕ → ℕ → Value Double → List ℕ → List ℕ → ℕ → Option (List ℕ) → Type 0
  Reads fuel depth v s t count held =
      (c : ℕ) × (value h o fuel depth (record { rest = s; count = count; held = held })
        ≡ ok (v, record { rest = t; count = c; held = held }))

  scalar_lem :
      (fuel depth count : ℕ) (v : Value Double) (s t : List ℕ) (held : Option (List ℕ))
      → dispatch h o depth (ws s) held ≡ ok (scalar v held t)
      → Reads (suc fuel) depth v s t count held
  unfolding value
  scalar_lem fuel depth count v s t held e = (
    (count + 1) % 2 ^ 64,
    rw (
      value,
      start_lem depth (record { rest = s; count = count; held = held }) (scalar v held t) e,
    ),
  )

  null_lem :
      (depth : ℕ) (t : List ℕ) (held : Option (List ℕ))
      → dispatch h o depth (ws (word_null ++ t)) held ≡ ok (scalar null held t)
  unfolding dispatch ws
  null_lem depth t held =
      let long : leb 4 (suc (suc (suc (suc (length t))))) ≡ true = ground arith in rw long refl

  true_lem :
      (depth : ℕ) (t : List ℕ) (held : Option (List ℕ))
      → dispatch h o depth (ws (word_true ++ t)) held ≡ ok (scalar (logical true) held t)
  unfolding dispatch ws
  true_lem depth t held =
      let long : leb 4 (suc (suc (suc (suc (length t))))) ≡ true = ground arith in rw long refl

  false_lem :
      (depth : ℕ) (t : List ℕ) (held : Option (List ℕ))
      → dispatch h o depth (ws (word_false ++ t)) held ≡ ok (scalar (logical false) held t)
  unfolding dispatch ws
  false_lem depth t held =
      let long : leb 5 (suc (suc (suc (suc (suc (length t)))))) ≡ true = ground arith in
      rw long refl

  text_lem :
      (depth : ℕ) (s t : List ℕ) (held : Option (List ℕ))
      → NoZero s
      → dispatch h o depth (ws (b'"' ∷ (quoted s ++ b'"' ∷ t))) held ≡ ok (scalar (text s) held t)
  unfolding dispatch ws
  text_lem depth s t held n = rw (string-quoted s t n) refl

  -- A bracket within the depth.
  open_lem :
      (depth : ℕ) (obj : Bool) (t : List ℕ) (held : Option (List ℕ))
      → depth < max_depth
      → dispatch h o depth (ws ((if obj then b'{' else b'[') ∷ t)) held ≡ ok (opens obj t)
  unfolding dispatch ws
  open_lem depth true t held fits =
      let e : ltb max_depth (depth + 1) ≡ false = ground arith in rw e refl
  open_lem depth false t held fits =
      let e : ltb max_depth (depth + 1) ≡ false = ground arith in rw e refl

  next_more : (obj : Bool) (t : List ℕ) → next h o obj (b',' ∷ t) ≡ ok (true, t)
  unfolding next ws
  next_more obj t = refl

  next-close : (obj : Bool) (t : List ℕ) → next h o obj (close obj ∷ t) ≡ ok (false, t)
  unfolding next ws
  next-close true t = refl
  next-close false t = refl

  -- The element after a bracket: no space and no closing bracket comes first.
  first_lem :
      (obj : Bool) (k : List ℕ) (depth : ℕ) (v : Value Double) (w : List ℕ)
      → Writable depth v
      → (ws (label obj k ++ (print v ++ w)) ≡ label obj k ++ (print v ++ w))
        × (starts (close obj) (label obj k ++ (print v ++ w)) ≡ false)
  unfolding label print ws Writable
  first_lem true k depth v w wr = (refl, refl)
  first_lem false k depth null w wr = (refl, refl)
  first_lem false k depth (logical true) w wr = (refl, refl)
  first_lem false k depth (logical false) w wr = (refl, refl)
  first_lem false k depth (integer z) w wr = elim wr [ ]
  first_lem false k depth (real d) w wr = elim wr [ ]
  first_lem false k depth (text s) w wr = (refl, refl)
  first_lem false k depth (items true nil) w wr = (refl, refl)
  first_lem false k depth (items false nil) w wr = (refl, refl)
  first_lem false k depth (items true (cons j u us)) w wr = (refl, refl)
  first_lem false k depth (items false (cons j u us)) w wr = (refl, refl)

  abbrev at : List ℕ → ℕ → Option (List ℕ) → Reader
  at s count held = record { rest = s; count = count; held = held }

  -- One round of the loop of container, the last one and another.
  last_round :
      (fuel : ℕ) (obj : Bool) (depth : ℕ) (k : List ℕ) (v : Value Double) (r r1 : Reader)
      (t t' : List ℕ)
      → key h o obj r.rest ≡ ok (k, t)
      → value h o fuel depth (record r { rest = t }) ≡ ok (v, r1)
      → next h o obj r1.rest ≡ ok (false, t')
      → members h o (suc fuel) obj depth r ≡ ok (cons k v nil, record r1 { rest = t' })
  unfolding members
  last_round fuel obj depth k v r r1 t t' e1 e2 e3 = rw (members, e1, e2, e3) refl

  another_round :
      (fuel : ℕ) (obj : Bool) (depth : ℕ) (k : List ℕ) (v : Value Double) (vs : Items Double)
      (r r1 r2 : Reader) (t t' : List ℕ)
      → key h o obj r.rest ≡ ok (k, t)
      → value h o fuel depth (record r { rest = t }) ≡ ok (v, r1)
      → next h o obj r1.rest ≡ ok (true, t')
      → members h o fuel obj depth (record r1 { rest = t' }) ≡ ok (vs, r2)
      → members h o (suc fuel) obj depth r ≡ ok (cons k v vs, r2)
  unfolding members
  another_round fuel obj depth k v vs r r1 r2 t t' e1 e2 e3 e4 = rw (members, e1, e2, e3, e4) refl

  -- A container that is not empty.
  container_lem :
      (fuel : ℕ) (obj : Bool) (depth : ℕ) (vs : Items Double) (s u : List ℕ) (count : ℕ)
      (held : Option (List ℕ)) (r : Reader)
      → dispatch h o depth (ws s) held ≡ ok (opens obj u)
      → ws u ≡ u
      → starts (close obj) u ≡ false
      → members h o fuel obj (depth + 1) (at u ((count + 1) % 2 ^ 64) held) ≡ ok (vs, r)
      → finish h o obj vs r ≡ ok (items obj vs, r)
      → value h o (suc fuel) depth (at s count held) ≡ ok (items obj vs, r)
  unfolding value
  container_lem fuel obj depth vs s u count held r e1 e2 e3 e4 e5 =
      let e3' : starts (close obj) (ws u) ≡ false = rw e2 e3 in
      let e4' =
        ap (λ (x : List ℕ). members h o fuel obj (depth + 1) (at x ((count + 1) % 2 ^ 64) held)) e2
        ∙ e4 in
      let c : ℕ = (count + 1) % 2 ^ 64 in
      rw (value, start_lem depth (at s count held) (opens obj u) e1)
        (ap
            (λ (b : Bool). elim b [
              | true ↦ finish h o obj nil (at (drop 1 (ws u)) c held)
              | false ↦ members h o fuel obj (depth + 1) (at (ws u) c held) >>= λ (us, r').
                  finish h o obj us r'
            ])
            e3'
          ∙ ap (λ (m : Outcome (Items Double × Reader)). m >>= λ (us, r'). finish h o obj us r') e4'
          ∙ e5)

  empty_lem :
      (fuel : ℕ) (obj : Bool) (depth : ℕ) (s t : List ℕ) (count : ℕ) (held : Option (List ℕ))
      → dispatch h o depth (ws s) held ≡ ok (opens obj (close obj ∷ t))
      → finish h o obj nil (at t ((count + 1) % 2 ^ 64) held)
        ≡ ok (items obj nil, at t ((count + 1) % 2 ^ 64) held)
      → value h o (suc fuel) depth (at s count held)
        ≡ ok (items obj nil, at t ((count + 1) % 2 ^ 64) held)
  unfolding value ws
  empty_lem fuel true depth s t count held e1 e2 =
      rw (value, start_lem depth (at s count held) (opens true (close true ∷ t)) e1) e2
  empty_lem fuel false depth s t count held e1 e2 =
      rw (value, start_lem depth (at s count held) (opens false (close false ∷ t)) e1) e2

  cost_pos : (v : Value Double) → 1 ≤ cost v
  unfolding cost
  cost_pos null = omega arith
  cost_pos (logical b) = omega arith
  cost_pos (integer z) = omega arith
  cost_pos (real d) = omega arith
  cost_pos (text s) = omega arith
  cost_pos (items obj vs) = omega arith

  regroup_more :
      (obj : Bool) (k : List ℕ) (v : Value Double) (vs : Items Double) (t : List ℕ)
      → (label obj k ++ (print v ++ print_more obj vs)) ++ t
        ≡ label obj k ++ (print v ++ (print_more obj vs ++ t))
  regroup_more obj k v vs t = simp (append_assoc)

  regroup :
      (obj : Bool) (k : List ℕ) (v : Value Double) (vs : Items Double) (t : List ℕ)
      → (label obj k ++ (print v ++ (print_more obj vs ++ close obj ∷ []))) ++ t
        ≡ label obj k ++ (print v ++ (print_more obj vs ++ close obj ∷ t))
  regroup obj k v vs t = simp (append_assoc)

  mutual
    unfolding print print_more cost cost_all Writable AllWritable

    pub value-print :
        (v : Value Double) (fuel depth count : ℕ) (t : List ℕ) (held : Option (List ℕ))
        → Writable depth v
        → cost v ≤ fuel
        → Reads fuel depth v (print v ++ t) t count held
    value-print v zero depth count t held w le = absurd (omega (arith, cost_pos v))
    value-print null (suc fuel) depth count t held w le =
        scalar_lem fuel depth count null (word_null ++ t) t held (null_lem depth t held)
    value-print (logical true) (suc fuel) depth count t held w le =
        scalar_lem fuel depth count (logical true) (word_true ++ t) t held (true_lem depth t held)
    value-print (logical false) (suc fuel) depth count t held w le =
        scalar_lem fuel depth count (logical false) (word_false ++ t) t held
          (false_lem depth t held)
    value-print (integer z) (suc fuel) depth count t held w le = elim w [ ]
    value-print (real d) (suc fuel) depth count t held w le = elim w [ ]
    value-print (text s) (suc fuel) depth count t held w le =
        let e = append_assoc (quoted s) (b'"' ∷ []) t in
        scalar_lem fuel depth count (text s) (print {D = Double} (text s) ++ t) t held (
          ap (λ (u : List ℕ). dispatch h o depth (ws (b'"' ∷ u)) held) e
          ∙ text_lem depth s t held w)
    value-print (items obj nil) (suc fuel) depth count t held (fits, new, all) le = (
      (count + 1) % 2 ^ 64,
      empty_lem fuel obj depth (print {D = Double} (items obj nil) ++ t) t count held
          (open_lem depth obj (close obj ∷ t) held fits)
          (finish_lem obj nil (at t ((count + 1) % 2 ^ 64) held) new),
    )
    value-print (items obj (cons k v vs)) (suc fuel) depth count t held (fits, new, all) le =
        let c1 = (count + 1) % 2 ^ 64 in
        let w = print_more obj vs ++ close obj ∷ t in
        let u = label obj k ++ (print v ++ w) in
        let (c, e) = members-print obj k v vs fuel (depth + 1) c1 t held all (omega arith) in
        let (e_ws, e_close) = first_lem obj k (depth + 1) v w all.1 in
        (
          c,
          ap
                (λ (x : List ℕ).
                  value h o (suc fuel) depth (at ((if obj then b'{' else b'[') ∷ x) count held))
                (regroup obj k v vs t)
              ∙ container_lem fuel obj depth (cons k v vs) ((if obj then b'{' else b'[') ∷ u) u
                  count held (at t c held) (open_lem depth obj u held fits) e_ws e_close e
                  (finish_lem obj (cons k v vs) (at t c held) new),
        )

    members-print :
        (obj : Bool) (k : List ℕ) (v : Value Double) (vs : Items Double) (fuel depth count : ℕ)
        (t : List ℕ) (held : Option (List ℕ))
        → AllWritable obj depth (cons k v vs)
        → 1 + cost v + cost_all vs ≤ fuel
        → (c : ℕ) × (members h o fuel obj depth
              (at (label obj k ++ (print v ++ (print_more obj vs ++ close obj ∷ t))) count held)
            ≡ ok (cons k v vs, at t c held))
    members-print obj k v vs zero depth count t held w le = absurd (omega arith)
    members-print obj k v nil (suc fuel) depth count t held (wk, wv, ws') le =
        let x = close obj ∷ t in
        let (c, e) = value-print v fuel depth count x held wv (omega arith) in
        (
          c,
          last_round fuel obj depth k v (at (label obj k ++ (print v ++ x)) count held)
              (at x c held) (print v ++ x) t (key_lem obj k (print v ++ x) wk) e (next-close obj t),
        )
    members-print obj k v (cons k2 v2 vs) (suc fuel) depth count t held (wk, wv, ws') le =
        let y = label obj k2 ++ (print v2 ++ (print_more obj vs ++ close obj ∷ t)) in
        let x = b',' ∷ y in
        let (c, e) = value-print v fuel depth count x held wv (omega arith) in
        let (c2, e2) = members-print obj k2 v2 vs fuel depth c t held ws' (omega arith) in
        (
          c2,
          ap
                (λ (z : List ℕ).
                  members h o (suc fuel) obj depth
                    (at (label obj k ++ (print v ++ b',' ∷ z)) count held))
                (regroup_more obj k2 v2 vs (close obj ∷ t))
              ∙ another_round fuel obj depth k v (cons k2 v2 vs)
                  (at (label obj k ++ (print v ++ x)) count held) (at x c held) (at t c2 held)
                  (print v ++ x) y (key_lem obj k (print v ++ x) wk) e (next_more obj y) e2,
        )
