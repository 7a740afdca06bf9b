-- ===== src/Json/Text/Fast.antt =====
-- The fast path of string_ in src/rmbl_json.cpp, for a string with no escape.
use rmorie_bricklayer.Prelude.{
  ℕ, suc, ◌+◌, ◌-◌, ◌≤◌, ◌<◌, ◌≡◌, refl, ap, sym, ◌∙◌, inl, inr, ◌⊎◌, true, false, List, [], ◌∷◌,
  ◌++◌, Option, none, some, length, length-append, ltb, ◌==◌, arith, Bool-cases, Option-cases,
  ltb_ge,
}
use mathlib.Core.List.{append_assoc, append-nil}
use rmorie_bricklayer.Json.{Outcome, ok, failed, ◌>>=◌, bad_string}
use rmorie_bricklayer.Json.Text.{
  closed, invalid, writes, is_special, plain, find_end, step, decode, read_or_fail, after_plain,
  string,
}
use rmorie_bricklayer.Json.Text.Scratch.{find_end-plain, find_end-le, Decoded, decode_lem}

-- A string read by the decoding loop alone.
unfoldable pub decoded : List ℕ → Outcome (List ℕ × List ℕ)
decoded t = elim (find_end t 0) [
  | none ↦ failed bad_string (length t)
  | some end ↦ decode (length t + 1) (end + 1) t [] >>= read_or_fail t
]

abbrev pub Ordinary : List ℕ → Type 0
Ordinary [] = Unit
Ordinary (c ∷ t) = (is_special c ≡ false) × Ordinary t

plain_lem : (t : List ℕ) → (t ≡ (plain t).0 ++ (plain t).1) × Ordinary (plain t).0
unfolding plain
plain_lem [] = (refl, tt)
plain_lem (c ∷ t) = elim (Bool-cases (is_special c)) [
  | inl special ↦ rw (plain, special) (refl, tt)
  | inr other ↦
      let (e, all) = plain_lem t in rw (plain, other) (ap (λ (u : List ℕ). c ∷ u) e, (other, all))
]

pub find_end-run :
    (run t : List ℕ) (e : ℕ) → Ordinary run → find_end (run ++ t) e ≡ find_end t (e + length run)
unfolding is_special
find_end-run [] t e h = ap (find_end t) (omega arith)
find_end-run (c ∷ run) t e (h, all) =
    find_end-plain c (run ++ t) e (λ q. ground arith, λ q. ground arith)
    ∙ find_end-run run t (e + 1) all
    ∙ ap (find_end t) (omega arith)

pub decode-writes :
    (t bs rest out : List ℕ) (fuel size : ℕ)
    → step t ≡ writes bs rest
    → length out + length bs ≤ size
    → decode (suc fuel) size t out ≡ decode fuel size rest (out ++ bs)
unfolding decode
decode-writes t bs rest out fuel size e le = rw (decode, e, ltb_ge size (length out + length bs) le)

pub step_ordinary : (c : ℕ) (t : List ℕ) → is_special c ≡ false → step (c ∷ t) ≡ writes (c ∷ []) t
unfolding step is_special
step_ordinary c t h = ground arith

pub decode-run :
    (run t out : List ℕ) (fuel size : ℕ)
    → Ordinary run
    → length out + length run ≤ size
    → decode (length run + fuel) size (run ++ t) out ≡ decode fuel size t (out ++ run)
decode-run [] t out fuel size h le =
    rw append-nil (ap (λ (f : ℕ). decode f size t out) (omega arith))
decode-run (c ∷ run) t out fuel size (h, all) le =
    let more : suc (length run) + fuel ≡ suc (length run + fuel) = omega arith in
    ap (λ (f : ℕ). decode f size (c ∷ (run ++ t)) out) more
    ∙ decode-writes (c ∷ (run ++ t)) (c ∷ []) (run ++ t) out (length run + fuel) size
        (step_ordinary c (run ++ t) h) (omega arith)
    ∙ decode-run run t (out ++ c ∷ []) fuel size all (omega (arith, length-append out (c ∷ [])))
    ∙ ap (decode fuel size t) (append_assoc out (c ∷ []) run)

-- After the plain part the loop meets the closing quote, or a control character.
ends :
    (c : ℕ) (run after : List ℕ) (fuel size : ℕ) (r : Option (List ℕ × List ℕ))
    → Ordinary run
    → length run ≤ size
    → length (run ++ c ∷ after) < fuel
    → ((f : ℕ) → decode (suc f) size (c ∷ after) run ≡ ok r)
    → decode fuel size (run ++ c ∷ after) [] ≡ ok r
ends c run after fuel size r all le lf last =
    let more : fuel ≡ length run + suc (fuel - length run - 1) =
      omega (arith, length-append run (c ∷ after)) in
    ap (λ (f : ℕ). decode f size (run ++ c ∷ after) []) more
    ∙ decode-run run (c ∷ after) [] (suc (fuel - length run - 1)) size all (omega arith)
    ∙ last (fuel - length run - 1)

pub find_end_quote : (c : ℕ) (t : List ℕ) (e : ℕ) → (c == b'"') ≡ true → find_end (c ∷ t) e ≡ some e
unfolding find_end
find_end_quote c [] e h = rw h
find_end_quote c (d ∷ t) e h = rw h

decode_control :
    (c : ℕ) (t out : List ℕ) (fuel size : ℕ)
    → ltb c 0x20 ≡ true
    → decode (suc fuel) size (c ∷ t) out ≡ ok none
unfolding decode step
decode_control c t out fuel size h = let e : step (c ∷ t) ≡ invalid = ground arith in rw (decode, e)

pub decode_quote :
    (c : ℕ) (t out : List ℕ) (fuel size : ℕ)
    → (c == b'"') ≡ true
    → decode (suc fuel) size (c ∷ t) out ≡ ok (some (out, t))
unfolding decode step
decode_quote c t out fuel size h = let e : step (c ∷ t) ≡ closed t = ground arith in rw (decode, e)

-- The text `run ++ c ∷ after`, by where the second loop ends.
module _ (run : List ℕ) (c : ℕ) (after : List ℕ) (all : Ordinary run) where
  abbrev t : List ℕ
  t = run ++ c ∷ after

  abbrev by_end : Option ℕ → Outcome (List ℕ × List ℕ)
  by_end o = elim o [
    | none ↦ failed bad_string (length t)
    | some end ↦ decode (length t + 1) (end + 1) t [] >>= read_or_fail t
  ]

  decoded-by_end : decoded t ≡ by_end (find_end (c ∷ after) (length run))
  unfolding decoded
  decoded-by_end =
      ap by_end (find_end-run run (c ∷ after) 0 all ∙ ap (find_end (c ∷ after)) (omega arith))

  by_end_closes :
      (end : ℕ) (r : Option (List ℕ × List ℕ))
      → length run ≤ end
      → ((f : ℕ) → decode (suc f) (end + 1) (c ∷ after) run ≡ ok r)
      → by_end (some end) ≡ read_or_fail t r
  by_end_closes end r le last =
      ap (λ (o : Outcome (Option (List ℕ × List ℕ))). o >>= read_or_fail t)
        (ends c run after (length t + 1) (end + 1) r all (omega arith) (omega arith) last)

  control_by_end :
      (o : Option ℕ)
      → ltb c 0x20 ≡ true
      → ((end : ℕ) → o ≡ some end → length run ≤ end)
      → by_end o ≡ failed bad_string (length t)
  unfolding read_or_fail
  control_by_end none h le = refl
  control_by_end (some end) h le =
      by_end_closes end none (le end refl) (λ f. decode_control c after run f (end + 1) h)

  decoded_run : after_plain t run (c ∷ after) ≡ decoded t
  unfolding after_plain read_or_fail
  decoded_run = elim (Bool-cases (ltb c 0x20)) [
    | inl control ↦
        rw (after_plain, control)
          (sym (
            decoded-by_end
            ∙ control_by_end (find_end (c ∷ after) (length run)) control
                (λ end e. find_end-le (c ∷ after) (length run) end e)))
    | inr printed ↦ elim (Bool-cases (c == b'"')) [
      | inl quote ↦
          rw (after_plain, printed, quote)
            (sym (
              decoded-by_end
              ∙ ap by_end (find_end_quote c after (length run) quote)
              ∙ by_end_closes (length run) (some (run, after)) (omega arith)
                  (λ f. decode_quote c after run f (length run + 1) quote)))
      | inr slash ↦ rw (after_plain, printed, slash) (sym decoded-by_end)
    ]
  ]

decoded_plain :
    (run rest : List ℕ) → Ordinary run → after_plain (run ++ rest) run rest ≡ decoded (run ++ rest)
unfolding decoded after_plain
decoded_plain run [] all = rw (decoded, find_end-run run [] 0 all, find_end) refl
decoded_plain run (c ∷ after) all = decoded_run run c after all

-- string_ with its fast path, for strings with no escape, gives what its decoding loop alone gives
-- on every text: the same string and rest, or the same failure.
pub string-eq-decoded : (t : List ℕ) → string t ≡ decoded t
unfolding string
string-eq-decoded t =
    let (e, all) = plain_lem t in
    ap (λ (u : List ℕ). after_plain u (plain t).0 (plain t).1) e
    ∙ decoded_plain (plain t).0 (plain t).1 all
    ∙ ap decoded (sym e)

-- The two outcomes of reading a string: a failure at the byte after the quote, or a string and less
-- text.
abbrev pub ReadString : List ℕ → Outcome (List ℕ × List ℕ) → Type 0
ReadString t r =
    (r ≡ failed bad_string (length t))
    ⊎ ((s : List ℕ) × (rest : List ℕ) × (r ≡ ok (s, rest)) × (length rest < length t))

from_Decoded :
    (t : List ℕ) (r : Outcome (Option (List ℕ × List ℕ)))
    → Decoded t r
    → ReadString t (r >>= read_or_fail t)
unfolding read_or_fail
from_Decoded t r (inl bad) = rw bad (inl refl)
from_Decoded t r (inr (s, rest, good, less)) = rw good (inr (s, rest, refl, less))

decoded_lem : (t : List ℕ) → ReadString t (decoded t)
unfolding decoded
decoded_lem t = elim (Option-cases (find_end t 0)) [
  | inl endless ↦ rw (decoded, endless) (inl refl)
  | inr (end, e) ↦
      rw (decoded, e)
        (from_Decoded t (decode (length t + 1) (end + 1) t [])
          (decode_lem (length t + 1) end t [] 0 (omega arith) e (omega arith)))
]

-- For every text the reader of strings either fails at the byte after the opening quote or gives a
-- string and a shorter text: it ends, and never writes past its scratch.
pub string_lem : (t : List ℕ) → ReadString t (string t)
string_lem t = rw (string-eq-decoded t) (decoded_lem t)
