-- ===== src/Json/Entry/Answers.antt =====
-- C_rmbl_json_fast_impl of src/rmbl_json.cpp on every text.
use rmorie_bricklayer.Prelude.{ℕ, ◌+◌, ◌-◌, ◌≤◌, ◌<◌, ◌≡◌, ◌⊎◌, true, false, List, length}
use mathlib.Core.List.{Nodup}
use rmorie_bricklayer.Json.{Why, failed, Host, Options, Value}
use rmorie_bricklayer.Json.Utf8.{valid_utf8}
use rmorie_bricklayer.Json.Utf8.Encoding.{AreScalars, utf8}
use rmorie_bricklayer.Json.Utf8.Places.{starting}
use rmorie_bricklayer.Json.Keys.Distinct.{Sorts, first_dup-none}
use rmorie_bricklayer.Json.Ensures.{Ensures}
use rmorie_bricklayer.Json.Read.{Reader}
use rmorie_bricklayer.Json.Read.Total.{Accepted}
use rmorie_bricklayer.Json.Entry.{
  Answer, parsed, gives_up, not_utf8, refusal, stopped, stuck, always_refused, read_all,
}

module _ (h : Host) (o : Options) (sorts : (ks : List (List ℕ)) → Sorts h ks) where
  -- At most 100 containers inside one another, and no key twice in an object, unless that is asked.
  abbrev pub IsAccepted : Value h.Double → Type 0
  IsAccepted = Accepted h o Nodup (λ ks e. (first_dup-none h ks (sorts ks)).0 e) 0

  -- The text is UTF-8 and the reader failed with `left` bytes of it left; the place is the number of
  -- the characters that start before these, and one: a character, or the end after the last one.
  abbrev pub FailedAt : List ℕ → Why → ℕ → Type 0
  FailedAt p why place =
      (cps : List ℕ) × (left : ℕ) × AreScalars cps
      × (p ≡ utf8 cps)
      × (left ≤ length p)
      × (read_all h o p ≡ failed why left)
      × (place ≡ starting (length p - left) cps + 1)
      × (place ≤ length cps + 1)

  -- What each answer says of the text.
  abbrev pub Explains : List ℕ → Answer h.Double → Type 0
  Explains p (parsed v held) = (valid_utf8 p ≡ true) × IsAccepted v
  Explains p gives_up = (valid_utf8 p ≡ true) × (length p ≤ 131072)
  Explains p not_utf8 = valid_utf8 p ≡ false
  Explains p (refusal why place) =
      ((always_refused why ≡ true) ⊎ (131072 < length p)) × FailedAt p why place
  Explains p stopped = valid_utf8 p ≡ true
  Explains p stuck = ⊥

  abbrev IsGood : Value h.Double × Reader → Type 0
  IsGood (v, r) = IsAccepted v
