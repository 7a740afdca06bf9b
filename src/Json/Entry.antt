-- ===== src/Json/Entry.antt =====
-- C_rmbl_json_fast_impl of src/rmbl_json.cpp, from the bytes of the text on.
pub mod Answers
pub mod Accepts
use rmorie_bricklayer.Prelude.{
  ℕ, ◌+◌, ◌-◌, ◌*◌, ◌||◌, Bool, true, false, List, [], ◌∷◌, Option, none, some, length, ltb,
  if◌then◌else◌,
}
use rmorie_bricklayer.Json.{
  Why, Outcome, ok, failed, interrupted, overflow, out_of_fuel, ◌>>=◌, bad_string, trailing,
  too_deep, duplicate_key, Host, Options, Value,
}
use rmorie_bricklayer.Json.Utf8.{valid_utf8, char_pos}
use rmorie_bricklayer.Json.Read.{Reader, ws, value}

-- The value and the token that R is to warn of; NULL, for the parser in R to take; an R error, with
-- the reason and the character position; or no answer.
pub data Answer (Double : Type 0) : Type 0 where
  parsed : Value Double → Option (List ℕ) → Answer Double
  gives_up : Answer Double
  not_utf8 : Answer Double
  refusal : Why → ℕ → Answer Double
  stopped stuck : Answer Double

-- `strict`
abbrev pub is_large : List ℕ → Bool
is_large p = ltb 131072 (length p)

-- Whether a failure is an R error at every size. An empty repeated key leaves `dupkey` an empty
-- string, which the source takes for none.
unfoldable pub always_refused : Why → Bool
always_refused (duplicate_key []) = false
always_refused (duplicate_key (c ∷ k)) = true
always_refused too_deep = true
always_refused why = false

-- What the entry does with the reader's outcome.
unfoldable pub report : {D : Type 0} → List ℕ → Outcome (Value D × Reader) → Answer D
unfolding always_refused char_pos
report p (ok (v, r)) = parsed v r.held
report p (failed why left) =
    if always_refused why || is_large p
    then refusal why (char_pos p (length p - left))
    else gives_up
report p interrupted = stopped
report p overflow = stuck
report p out_of_fuel = stuck

unfoldable pub read_all : (h : Host) → Options → List ℕ → Outcome (Value h.Double × Reader)
unfolding value ws
read_all h o p =
    value h o (2 * length p + 1) 0 (record { rest = p; count = 0; held = none }) >>= λ (v, r).
    elim (ws r.rest) [ [] ↦ ok (v, r) | c ∷ t ↦ failed trailing (length (ws r.rest)) ]

unfoldable pub json_fast : (h : Host) → Options → List ℕ → Answer h.Double
unfolding valid_utf8 read_all report
json_fast h o p = if valid_utf8 p then report p (read_all h o p) else not_utf8
