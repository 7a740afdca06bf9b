-- ===== src/Json/Text/Scratch.antt =====
-- The scratch of string_ in src/rmbl_json.cpp: its second loop finds the quote at which the last loop
-- ends, and an escape is never shorter than what it stands for.
use rmorie_bricklayer.Prelude.{
  ℕ, zero, suc, ◌+◌, ◌*◌, ◌≤◌, ◌<◌, ◌≡◌, refl, ap, sym, ◌∙◌, ◌≢◌, inl, inr, ◌⊎◌, true, false, ◌&&◌,
  List, [], ◌∷◌, ◌++◌, Option, none, some, length, length-append, drop, get_or, ltb, leb, ◌==◌,
  arith, Bool-cases, ==_iff, Option-cases, ltb_ge,
}
use rmorie_bricklayer.Json.{Outcome, ok}
use rmorie_bricklayer.Json.Utf8.{put_utf8}
use rmorie_bricklayer.Json.Text.{
  hexval, hex_digits, hex4, find_end, Step, closed, writes, invalid, low_half, join, written,
  unicode, simple_escape, escape, step, decode,
}

-- `rest` is `t` without its first n bytes, none of which is the closing quote.
abbrev pub Consumes : List ℕ → List ℕ → ℕ → Type 0
Consumes t rest n = (length t ≡ n + length rest) × ((e : ℕ) → find_end t e ≡ find_end rest (e + n))

abbrev pub IsPlain : ℕ → Type 0
IsPlain c = (c ≢ b'"') × (c ≢ b'\\')

pub find_end-plain :
    (c : ℕ) (t : List ℕ) (e : ℕ) → IsPlain c → find_end (c ∷ t) e ≡ find_end t (e + 1)
unfolding find_end
find_end-plain c [] e h = ground arith
find_end-plain c (d ∷ t) e h = ground arith

pub find_end-escape : (d : ℕ) (t : List ℕ) (e : ℕ) → find_end (b'\\' ∷ d ∷ t) e ≡ find_end t (e + 2)
unfolding find_end
find_end-escape d t e = refl

hexval-IsPlain : (c v : ℕ) → hexval c ≡ some v → IsPlain c
unfolding hexval
hexval-IsPlain c v h = (λ q. ground arith, λ q. ground arith)

Consumes-trans : (t u v : List ℕ) (n m : ℕ) → Consumes t u n → Consumes u v m → Consumes t v (n + m)
Consumes-trans t u v n m (l, f) (l', f') =
    (omega arith, λ e. f e ∙ f' (e + n) ∙ ap (find_end v) (omega arith))

Consumes-one : (c : ℕ) (t : List ℕ) → IsPlain c → Consumes (c ∷ t) t 1
Consumes-one c t h = (omega arith, λ e. find_end-plain c t e h)

Consumes-two : (d : ℕ) (t : List ℕ) → Consumes (b'\\' ∷ d ∷ t) t 2
Consumes-two d t = (omega arith, λ e. find_end-escape d t e)

hex_digits-Consumes :
    (k : ℕ) (t : List ℕ) (v w : ℕ) → hex_digits k t v ≡ some w → Consumes t (drop k t) k
unfolding hex_digits
hex_digits-Consumes zero t v w h = (omega arith, λ e. ap (find_end t) (omega arith))
hex_digits-Consumes (suc k) [] v w h = cc
hex_digits-Consumes (suc k) (c ∷ t) v w h = elim (Option-cases (hexval c)) [
  | inl bad ↦ cc (rw (hex_digits, bad) at h)
  | inr (x, good) ↦
      let h' = rw (hex_digits, good) at h in
      let (l, f) =
        Consumes-trans (c ∷ t) t (drop k t) 1 k (Consumes-one c t (hexval-IsPlain c x good))
          (hex_digits-Consumes k t (v * 16 + x) w h') in
      (omega arith, λ e. f e ∙ ap (find_end (drop k t)) (omega arith))
]

hex4-Consumes : (t : List ℕ) (w : ℕ) → hex4 t ≡ some w → Consumes t (drop 4 t) 4
unfolding hex4
hex4-Consumes t w h = elim (Bool-cases (ltb (length t) 4)) [
  | inl short ↦ cc (rw short at h)
  | inr long ↦ hex_digits-Consumes 4 t 0 w (rw long at h)
]

length-put_utf8-le : (cp : ℕ) → length (put_utf8 cp) ≤ 4
unfolding put_utf8
length-put_utf8-le cp = ground arith

Consumes-none : (t : List ℕ) → Consumes t t 0
Consumes-none t = (omega arith, λ e. ap (find_end t) (omega arith))

second_half :
    (t : List ℕ) (lo : ℕ)
    → (get_or t 0 0 == b'\\') ≡ true
    → hex4 (drop 2 t) ≡ some lo
    → Consumes t (drop 6 t) 6
unfolding hex4
second_half [] lo h k = ground arith
second_half (c ∷ []) lo h k = cc
second_half (c ∷ d ∷ t) lo h k =
    let e : c ≡ b'\\' = ground arith in
    rw e (Consumes-trans (b'\\' ∷ d ∷ t) t (drop 4 t) 2 4 (Consumes-two d t) (hex4-Consumes t lo k))

low_half-Consumes :
    (cp : ℕ) (t : List ℕ) (lo : ℕ) → low_half cp t ≡ some lo → Consumes t (drop 6 t) 6
unfolding low_half
low_half-Consumes cp t lo h = second_half t lo (ground arith) (ground arith)

join-Consumes :
    (cp : ℕ) (t : List ℕ) (o : Option ℕ)
    → ((lo : ℕ) → o ≡ some lo → Consumes t (drop 6 t) 6)
    → (n : ℕ) × Consumes t (join cp t o).1 n
unfolding join
join-Consumes cp t none k = (0, Consumes-none t)
join-Consumes cp t (some lo) k = elim (Bool-cases (leb 0xdc00 lo && leb lo 0xdfff)) [
  | inl low ↦ rw (join, low) (6, k lo refl)
  | inr high ↦ rw (join, high) (0, Consumes-none t)
]

-- A round that writes takes as many bytes at least, and does not pass the closing quote.
abbrev Progress : ℕ → List ℕ → List ℕ → List ℕ → Type 0
Progress least t bs rest = (n : ℕ) × Consumes t rest n × (length bs ≤ n) × (least ≤ n)

written-writes :
    (a : ℕ × List ℕ) (bs rest : List ℕ)
    → written a ≡ writes bs rest
    → (bs ≡ put_utf8 a.0) × (a.1 ≡ rest)
unfolding written
written-writes (cp, after) bs rest h = ground arith

unicode-Progress : (t bs rest : List ℕ) → unicode t ≡ writes bs rest → Progress 4 t bs rest
unfolding unicode
unicode-Progress t bs rest h = elim (Option-cases (hex4 t)) [
  | inl bad ↦ cc (rw (unicode, bad) at h)
  | inr (cp, good) ↦
      let t4 = drop 4 t in
      let pair = join cp t4 (low_half cp t4) in
      let (n, used) = join-Consumes cp t4 (low_half cp t4) (low_half-Consumes cp t4) in
      let (eb, er) = written-writes pair bs rest (rw (unicode, good) at h) in
      let (l, f) = Consumes-trans t t4 pair.1 4 n (hex4-Consumes t cp good) used in
      rw (← er, eb) (4 + n, (l, f), omega (arith, length-put_utf8-le pair.0), omega arith)
]

escape-Progress : (t bs rest : List ℕ) → escape t ≡ writes bs rest → Progress 2 (b'\\' ∷ t) bs rest
unfolding escape
escape-Progress [] bs rest h = cc
escape-Progress (e ∷ t) bs rest h = elim (Option-cases (simple_escape e)) [
  | inr (b, letter) ↦
      let h' = rw (escape, letter) at h in
      let eb : b ∷ [] ≡ bs = cc in
      let er : t ≡ rest = cc in rw (← er, ← eb) (2, Consumes-two e t, omega arith, omega arith)
  | inl other ↦ elim (Bool-cases (e == b'u')) [
    | inr unknown ↦ cc (rw (escape, other, unknown) at h)
    | inl u ↦
        let (n, used, small, least) = unicode-Progress t bs rest (rw (escape, other, u) at h) in
        (
          2 + n,
          Consumes-trans (b'\\' ∷ e ∷ t) t rest 2 n (Consumes-two e t) used,
          omega arith,
          omega arith,
        )
  ]
]

step-escape : (t : List ℕ) → step (b'\\' ∷ t) ≡ escape t
unfolding step
step-escape t = refl

step_plain :
    (c : ℕ) (t bs rest : List ℕ)
    → (c == b'\\') ≡ false
    → step (c ∷ t) ≡ writes bs rest
    → (c ∷ [] ≡ bs) × (t ≡ rest)
unfolding step
step_plain c t bs rest other h = elim (Bool-cases (c == b'"')) [
  | inl quote ↦ cc (rw (step, quote) at h)
  | inr inner ↦ elim (Bool-cases (ltb c 0x20)) [
    | inl control ↦ cc (rw (step, inner, control) at h)
    | inr printed ↦ let h' = rw (step, inner, printed, other) at h in (cc, cc)
  ]
]

step_apart :
    (c : ℕ) (t bs rest : List ℕ) → (c == b'\\') ≡ false → step (c ∷ t) ≡ writes bs rest → IsPlain c
unfolding step
step_apart c t bs rest other h = (
  λ q. elim (Bool-cases (c == b'"')) [
    | inl quote ↦ cc (rw (step, quote) at h)
    | inr inner ↦ absurd (ground arith)
  ],
  λ q. ground arith,
)

pub step-Progress : (t bs rest : List ℕ) → step t ≡ writes bs rest → Progress 1 t bs rest
unfolding step
step-Progress [] bs rest h = cc
step-Progress (c ∷ t) bs rest h = elim (Bool-cases (c == b'\\')) [
  | inl slash ↦
      let e = (==_iff c b'\\').0 slash in
      let h' : escape t ≡ writes bs rest = sym (step-escape t) ∙ rw e at h in
      let (n, used, small, least) = escape-Progress t bs rest h' in
      rw e (n, used, small, omega arith)
  | inr other ↦
      let (eb, er) = step_plain c t bs rest other h in
      let apart : IsPlain c = step_apart c t bs rest other h in
      rw (← er, ← eb) (1, Consumes-one c t apart, omega arith, omega arith)
]

pub find_end-le : (t : List ℕ) (e end : ℕ) → find_end t e ≡ some end → e ≤ end
unfolding find_end
find_end-le [] e end h = cc
find_end-le (c ∷ []) e end h = ground arith
find_end-le (c ∷ d ∷ t) e end h =
    ground (arith, find_end-le t (e + 2) end, find_end-le (d ∷ t) (e + 1) end)

-- What the last loop comes to: no write past the scratch, and on success less text.
abbrev pub Decoded : List ℕ → Outcome (Option (List ℕ × List ℕ)) → Type 0
Decoded t r =
    (r ≡ ok none)
    ⊎ ((s : List ℕ) × (rest : List ℕ) × (r ≡ ok (some (s, rest))) × (length rest < length t))

written-ne-closed : (a : ℕ × List ℕ) (rest : List ℕ) → written a ≢ closed rest
unfolding written
written-ne-closed (cp, after) rest h = ground arith

escape-ne-closed : (t rest : List ℕ) → escape t ≢ closed rest
unfolding escape unicode
escape-ne-closed [] rest h = cc
escape-ne-closed (e ∷ t) rest h = elim (Option-cases (simple_escape e)) [
  | inr (b, letter) ↦ cc (rw (escape, letter) at h)
  | inl other ↦ elim (Bool-cases (e == b'u')) [
    | inr unknown ↦ cc (rw (escape, other, unknown) at h)
    | inl u ↦ elim (Option-cases (hex4 t)) [
      | inl bad ↦ cc (rw (escape, other, u, unicode, bad) at h)
      | inr (cp, good) ↦
          written-ne-closed (join cp (drop 4 t) (low_half cp (drop 4 t))) rest
            (rw (escape, other, u, unicode, good) at h)
    ]
  ]
]

step-closed : (t rest : List ℕ) → step t ≡ closed rest → length rest < length t
unfolding step
step-closed [] rest h = cc
step-closed (c ∷ t) rest h = elim (Bool-cases (c == b'"')) [
  | inl quote ↦ let e : t ≡ rest = cc (rw (step, quote) at h) in rw (← e) (omega arith)
  | inr other ↦ ground (arith, escape-ne-closed t rest)
]

Decoded-weaken :
    (t u : List ℕ) (r : Outcome (Option (List ℕ × List ℕ)))
    → length u ≤ length t
    → Decoded u r
    → Decoded t r
Decoded-weaken t u r le (inl bad) = inl bad
Decoded-weaken t u r le (inr (s, rest, e, less)) = inr (s, rest, e, omega arith)

pub decode_lem :
    (fuel size : ℕ) (t out : List ℕ) (k : ℕ)
    → length t < fuel
    → find_end t k ≡ some size
    → length out ≤ k
    → Decoded t (decode fuel (size + 1) t out)
unfolding decode
decode_lem zero size t out k lf he ho = absurd (omega arith)
decode_lem (suc fuel) size t out k lf he ho =
    go (step t) refl (λ u o m lu hu lo. decode_lem fuel size u o m lu hu lo)
  where
    go :
        (s : Step)
        → step t ≡ s
        → ((u o : List ℕ) (m : ℕ)
            → length u < fuel
            → find_end u m ≡ some size
            → length o ≤ m
            → Decoded u (decode fuel (size + 1) u o))
        → Decoded t (decode (suc fuel) (size + 1) t out)
    go (closed rest) e ih = rw (decode, e) (inr (out, rest, refl, step-closed t rest e))
    go invalid e ih = rw (decode, e) (inl refl)
    go (writes bs rest) e ih =
        let (n, (l, f), small, least) = step-Progress t bs rest e in
        let he' = sym (f k) ∙ he in
        let le = find_end-le rest (k + n) size he' in
        rw (decode, e, ltb_ge (size + 1) (length out + length bs) (omega arith))
          (Decoded-weaken t rest (decode fuel (size + 1) rest (out ++ bs)) (omega arith)
            (ih rest (out ++ bs) (k + n) (omega arith) he' (omega (arith, length-append out bs))))
