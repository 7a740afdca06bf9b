-- ===== src/Xmss/Digits.antt =====
-- src/rmbl_pqc.cpp: the digits of a digest and of its checksum.
use rmorie_bricklayer.Prelude.{
  ℕ, zero, suc, ◌+◌, ◌*◌, ◌/◌, ◌%◌, ◌^◌, ◌<◌, ◌≤◌, bit_and, List, [], ◌∷◌, ◌++◌, length, take, ◌≡◌,
  refl, sym, ap, ◌∙◌, arith, length-append,
}
use mathlib.Core.List.{head-eq_of_cons-eq, tail-eq_of_cons-eq}
use rmorie_bricklayer.Prelude.Bits.{bit_and_mask}
use rmorie_bricklayer.Prelude.Bytes.{IsBytes}
use rmorie_bricklayer.Xmss.{base_w, checksum, checksum_digits, wots_digits}

abbrev pub IsDigits : List ℕ → Type 0
IsDigits [] = Unit
IsDigits (d ∷ digits) = (d < 16) × IsDigits digits

low_digit : (v : ℕ) → bit_and v 0x0f ≡ v % 16
low_digit v = bit_and_mask 4 v

base_w-IsDigits : (k : ℕ) (bytes : List ℕ) → IsDigits (base_w k bytes)
unfolding base_w
base_w-IsDigits zero bytes = tt
base_w-IsDigits (suc k) [] = tt
base_w-IsDigits (suc zero) (b ∷ bytes) = (omega (arith, low_digit (b / 2 ^ 4)), tt)
base_w-IsDigits (suc (suc k)) (b ∷ bytes) =
    (omega (arith, low_digit (b / 2 ^ 4)), (omega (arith, low_digit b), base_w-IsDigits k bytes))

length-base_w : (n : ℕ) (bytes : List ℕ) → length bytes ≡ n → length (base_w (n + n) bytes) ≡ n + n
unfolding base_w
length-base_w zero bytes h = refl
length-base_w (suc n) [] h = absurd (omega arith)
length-base_w (suc n) (b ∷ bytes) h =
    let even : suc n + suc n ≡ suc (suc (n + n)) = omega arith in
    rw even (ap (λ (k : ℕ). suc (suc k)) (length-base_w n bytes (omega arith)))

IsDigits-append : (p q : List ℕ) → IsDigits p → IsDigits q → IsDigits (p ++ q)
IsDigits-append [] q hp hq = hq
IsDigits-append (d ∷ p) q (hd, hp) hq = (hd, IsDigits-append p q hp hq)

IsDigits-take : (n : ℕ) (p : List ℕ) → IsDigits p → IsDigits (take n p)
IsDigits-take zero p h = tt
IsDigits-take (suc n) [] h = tt
IsDigits-take (suc n) (d ∷ p) (hd, h) = (hd, IsDigits-take n p h)

-- All digits of every message are below sixteen.
pub wots_digits-IsDigits : (msg : List ℕ) → IsDigits (wots_digits msg)
unfolding wots_digits checksum_digits
wots_digits-IsDigits msg =
    let digits : List ℕ = base_w 64 msg in
    let csum : ℕ = checksum digits * 2 ^ 4 in
    let cs : List ℕ = bit_and (csum / 2 ^ 8) 0xff ∷ bit_and csum 0xff ∷ [] in
    IsDigits-append digits (take 3 (base_w 4 cs)) (base_w-IsDigits 64 msg)
      (IsDigits-take 3 (base_w 4 cs) (base_w-IsDigits 4 cs))

pub length-wots_digits : (msg : List ℕ) → length msg ≡ 32 → length (wots_digits msg) ≡ 67
unfolding wots_digits checksum_digits base_w
length-wots_digits msg h =
    let digits : List ℕ = base_w 64 msg in
    let count : length digits ≡ 64 = length-base_w 32 msg h in
    length-append digits (checksum_digits (checksum digits)) ∙ ap (λ (n : ℕ). n + 3) count

-- The digits of the first list are at most those of the second, place by place.
abbrev pub IsBelow : List ℕ → List ℕ → Type 0
IsBelow [] [] = Unit
IsBelow [] (e ∷ es) = Unit
IsBelow (d ∷ ds) [] = Unit
IsBelow (d ∷ ds) (e ∷ es) = (d ≤ e) × IsBelow ds es

IsBelow-append :
    (ds es cs fs : List ℕ)
    → length ds ≡ length es
    → IsBelow (ds ++ cs) (es ++ fs)
    → IsBelow ds es × IsBelow cs fs
IsBelow-append [] [] cs fs n h = (tt, h)
IsBelow-append [] (e ∷ es) cs fs n h = absurd (omega arith)
IsBelow-append (d ∷ ds) [] cs fs n h = absurd (omega arith)
IsBelow-append (d ∷ ds) (e ∷ es) cs fs n (hd, h) =
    let rest = IsBelow-append ds es cs fs (omega arith) h in ((hd, rest.0), rest.1)

-- Smaller digits have a larger checksum, and one that is not larger leaves them equal.
checksum_down :
    (ds es : List ℕ)
    → length ds ≡ length es
    → IsDigits ds
    → IsDigits es
    → IsBelow ds es
    → (checksum es ≤ checksum ds) × (checksum ds ≤ checksum es → ds ≡ es)
unfolding checksum
checksum_down [] [] n hd he h = (omega arith, λ le. refl)
checksum_down [] (e ∷ es) n hd he h = absurd (omega arith)
checksum_down (d ∷ ds) [] n hd he h = absurd (omega arith)
checksum_down (d ∷ ds) (e ∷ es) n (hd, hds) (he, hes) (hde, h) =
    let rest = checksum_down ds es (omega arith) hds hes h in
    let more = rest.0 in
    (omega arith, λ le. let same : d ≡ e = omega arith in rw (same, rest.1 (omega arith)) refl)

checksum-bound : (ds : List ℕ) → checksum ds ≤ 15 * length ds
unfolding checksum
checksum-bound [] = omega arith
checksum-bound (d ∷ ds) = omega (arith, checksum-bound ds)

checksum_fields :
    (a : ℕ)
    → a < 2 ^ 12
    → (bit_and (bit_and (a * 2 ^ 4 / 2 ^ 8) 255 / 2 ^ 4) 15 ≡ a / 256)
      × (bit_and (bit_and (a * 2 ^ 4 / 2 ^ 8) 255) 15 ≡ a / 16 % 16)
      × (bit_and (bit_and (a * 2 ^ 4) 255 / 2 ^ 4) 15 ≡ a % 16)
checksum_fields a small =
    let high : bit_and (a * 2 ^ 4 / 2 ^ 8) 255 ≡ a / 16 =
      omega (arith, bit_and_mask 8 (a * 2 ^ 4 / 2 ^ 8)) in
    let low : bit_and (a * 2 ^ 4) 255 ≡ a % 16 * 16 = omega (arith, bit_and_mask 8 (a * 2 ^ 4)) in
    rw (high, low)
      (
        omega (arith, low_digit (a / 16 / 2 ^ 4)),
        low_digit (a / 16),
        omega (arith, low_digit (a % 16 * 16 / 2 ^ 4)),
      )

-- The three digits hold the checksum.
checksum_up :
    (a b : ℕ) → a < 2 ^ 12 → b < 2 ^ 12 → IsBelow (checksum_digits a) (checksum_digits b) → a ≤ b
unfolding checksum_digits base_w
checksum_up a b ha hb (h2, (h1, (h0, _))) =
    let fa = checksum_fields a ha in
    let fb = checksum_fields b hb in omega (arith, h2, h1, h0, fa.0, fa.1, fa.2, fb.0, fb.1, fb.2)

bytes_equal :
    (n : ℕ) (p q : List ℕ)
    → length p ≡ n
    → length q ≡ n
    → IsBytes p
    → IsBytes q
    → base_w (n + n) p ≡ base_w (n + n) q
    → p ≡ q
unfolding base_w
bytes_equal zero [] [] np nq hp hq e = refl
bytes_equal zero [] (b ∷ q) np nq hp hq e = absurd (omega arith)
bytes_equal zero (a ∷ p) q np nq hp hq e = absurd (omega arith)
bytes_equal (suc n) [] q np nq hp hq e = absurd (omega arith)
bytes_equal (suc n) (a ∷ p) [] np nq hp hq e = absurd (omega arith)
bytes_equal (suc n) (a ∷ p) (b ∷ q) np nq (ha, hp) (hb, hq) e =
    let even : suc n + suc n ≡ suc (suc (n + n)) = omega arith in
    let digits : base_w (suc (suc (n + n))) (a ∷ p) ≡ base_w (suc (suc (n + n))) (b ∷ q) =
      ap (λ (k : ℕ). base_w k (a ∷ p)) (sym even) ∙ e ∙ ap (λ (k : ℕ). base_w k (b ∷ q)) even in
    let high = head-eq_of_cons-eq digits in
    let low = head-eq_of_cons-eq (tail-eq_of_cons-eq digits) in
    let rest = tail-eq_of_cons-eq (tail-eq_of_cons-eq digits) in
    let same : a ≡ b =
      omega (
        arith,
        high,
        low,
        low_digit (a / 2 ^ 4),
        low_digit (b / 2 ^ 4),
        low_digit a,
        low_digit b,
      ) in
    rw (same, bytes_equal n p q (omega arith) (omega arith) hp hq rest) refl

-- Two digests of 32 bytes are equal when no digit of the first one, the checksum's included, is
-- larger than that of the second at its place: a signature's chains can only be walked forward,
-- and so never from one digest to another.
pub wots_digits-IsBelow :
    (p q : List ℕ)
    → length p ≡ 32
    → length q ≡ 32
    → IsBytes p
    → IsBytes q
    → IsBelow (wots_digits p) (wots_digits q)
    → p ≡ q
unfolding wots_digits
wots_digits-IsBelow p q np nq hp hq h =
    let counts = length-base_w 32 p np in
    let counts' = length-base_w 32 q nq in
    let halves =
      IsBelow-append (base_w 64 p) (base_w 64 q) (checksum_digits (checksum (base_w 64 p)))
        (checksum_digits (checksum (base_w 64 q))) (counts ∙ sym counts') h in
    let bound_p = checksum-bound (base_w 64 p) in
    let bound_q = checksum-bound (base_w 64 q) in
    let up =
      checksum_up (checksum (base_w 64 p)) (checksum (base_w 64 q)) (omega arith) (omega arith)
        halves.1 in
    bytes_equal 32 p q np nq hp hq (
      (checksum_down (base_w 64 p) (base_w 64 q) (counts ∙ sym counts') (base_w-IsDigits 64 p)
          (base_w-IsDigits 64 q) halves.0).1
        up)
