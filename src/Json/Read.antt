-- ===== src/Json/Read.antt =====
-- value and container of src/rmbl_json.cpp. The parser's state is the bytes from P.i on, the count of
-- values and the first token that R is to warn of; P.depth is an argument, since each call leaves it
-- as it was.
pub mod Total
pub mod Written
use rmorie_bricklayer.Prelude.{
  ℕ, zero, suc, ◌+◌, ◌%◌, ◌^◌, bit_and, Bool, true, false, ◌&&◌, ◌||◌, not, List, [], ◌∷◌, Option,
  none, some, length, take, drop, ltb, leb, ◌==◌, if◌then◌else◌,
}
use rmorie_bricklayer.Json.{
  Outcome, ok, failed, interrupted, out_of_fuel, ◌>>=◌, no_key, no_colon, no_comma, too_deep,
  end_of_text, bad_character, duplicate_key, Host, Options, Value, null, logical, text, items,
  Items, nil, cons,
}
use rmorie_bricklayer.Json.Number.{is_digit, starts, number, memcmp, is_eq}
use rmorie_bricklayer.Json.Text.{string}
use rmorie_bricklayer.Json.Keys.{first_dup}

pub record Reader : Type 0 where
  pub rest : List ℕ
  pub count : ℕ
  pub held : Option (List ℕ)

unfoldable pub is_space : ℕ → Bool
is_space c = c == b' ' || c == 9 || c == 10 || c == 13

unfoldable pub ws : List ℕ → List ℕ
unfolding is_space
ws [] = []
ws (c ∷ t) = let rest = ws t in if is_space c then rest else c ∷ t

-- The rest after `word`, if the text starts with it: `P.i + 4 <= P.n && memcmp(...) == 0`.
unfoldable pub has_word : List ℕ → List ℕ → Bool
unfolding memcmp
has_word word t = leb (length word) (length t) && is_eq (memcmp word t)

abbrev pub word_true : List ℕ
word_true = b't' ∷ b'r' ∷ b'u' ∷ b'e' ∷ []

abbrev pub word_false : List ℕ
word_false = b'f' ∷ b'a' ∷ b'l' ∷ b's' ∷ b'e' ∷ []

abbrev pub word_null : List ℕ
word_null = b'n' ∷ b'u' ∷ b'l' ∷ b'l' ∷ []

abbrev pub max_depth : ℕ
max_depth = 100

-- What `value` comes to before it calls `container`: a value that is no container, or one to read,
-- with the text after its bracket.
pub data Start (Double : Type 0) : Type 0 where
  scalar : Value Double → Option (List ℕ) → List ℕ → Start Double
  opens : Bool → List ℕ → Start Double

abbrev pub close : Bool → ℕ
close obj = if obj then b'}' else b']'

-- The keys of an object, in document order.
unfoldable pub keys : {D : Type 0} → Items D → List (List ℕ)
keys nil = []
keys (cons k v vs) = k ∷ keys vs

module _ (h : Host) (o : Options) where
  open h use {Double}

  -- The branches of `value`, at the first byte that is no space.
  unfoldable pub dispatch : ℕ → List ℕ → Option (List ℕ) → Outcome (Start Double)
  unfolding has_word is_digit string number
  dispatch depth [] held = failed end_of_text 0
  dispatch depth (c ∷ t) held =
      if c == b'{' || c == b'['
      then if ltb max_depth (depth + 1)
        then failed too_deep (length (c ∷ t))
        else ok (opens (c == b'{') t)
      else if c == b'"'
      then (string t >>= λ (s, rest). ok (scalar (text s) held rest))
      else if c == b't' && has_word word_true (c ∷ t)
      then ok (scalar (logical true) held (drop 4 (c ∷ t)))
      else if c == b'f' && has_word word_false (c ∷ t)
      then ok (scalar (logical false) held (drop 5 (c ∷ t)))
      else if c == b'n' && has_word word_null (c ∷ t)
      then ok (scalar null held (drop 4 (c ∷ t)))
      else if c == b'-' || is_digit c
      then (number h o (c ∷ t) held >>= λ ((v, held'), rest). ok (scalar v held' rest))
      else failed bad_character (length (c ∷ t))

  -- The poll for an interrupt, at every 4096th value.
  unfoldable pub poll : ℕ → Outcome ℕ
  poll count =
      let next = (count + 1) % 2 ^ 64 in
      if bit_and next 4095 == 0 && h.stops next then interrupted else ok next

  unfoldable pub start : ℕ → Reader → Outcome (Start Double × ℕ)
  unfolding poll ws dispatch
  start depth r = do count ← poll r.count; s ← dispatch depth (ws r.rest) r.held; ok (s, count)

  -- The key of an element and its colon, in an object.
  unfoldable pub key : Bool → List ℕ → Outcome (List ℕ × List ℕ)
  unfolding ws string
  key false t = ok ([], t)
  key true t =
      if starts b'"' (ws t)
      then (string (drop 1 (ws t)) >>= λ (k, t').
          if starts b':' (ws t') then ok (k, drop 1 (ws t')) else failed no_colon (length (ws t')))
      else failed no_key (length (ws t))

  -- Whether another element follows.
  unfoldable pub next : Bool → List ℕ → Outcome (Bool × List ℕ)
  unfolding ws
  next obj t =
      if starts b',' (ws t)
      then ok (true, drop 1 (ws t))
      else if starts (close obj) (ws t)
      then ok (false, drop 1 (ws t))
      else failed no_comma (length (ws t))

  -- The end of `container`: the refusal of a repeated key.
  unfoldable pub finish : Bool → Items Double → Reader → Outcome (Value Double × Reader)
  unfolding keys first_dup
  finish obj vs r = elim (if obj && not o.keep_dups then first_dup h (keys vs) else none) [
    | none ↦ ok (items obj vs, r)
    | some k ↦ failed (duplicate_key (take 255 k)) (length r.rest)
  ]

  unfoldable mutual
    unfolding start key next finish

    pub value : ℕ → ℕ → Reader → Outcome (Value Double × Reader)
    value zero depth r = out_of_fuel
    value (suc fuel) depth r = start depth r >>= λ (s, count). elim s [
      | scalar v held t ↦ ok (v, record { rest = t; count = count; held = held })
      | opens obj t ↦ elim (starts (close obj) (ws t)) [
        | true ↦ finish obj nil (record r { rest = drop 1 (ws t); count = count })
        | false ↦
            members fuel obj (depth + 1) (record r { rest = ws t; count = count }) >>= λ (vs, r').
            finish obj vs r'
      ]
    ]

    -- The loop of `container`, after the text of its bracket.
    pub members : ℕ → Bool → ℕ → Reader → Outcome (Items Double × Reader)
    members zero obj depth r = out_of_fuel
    members (suc fuel) obj depth r = key obj r.rest >>= λ (k, t).
        value fuel depth (record r { rest = t }) >>= λ (v, r1). next obj r1.rest >>= λ (more, t').
        elim more [
          | false ↦ ok (cons k v nil, record r1 { rest = t' })
          | true ↦
              members fuel obj depth (record r1 { rest = t' }) >>= λ (vs, r2). ok (cons k v vs, r2)
        ]
