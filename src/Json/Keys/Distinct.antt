-- ===== src/Json/Keys/Distinct.antt =====
-- first_dup of src/rmbl_json.cpp, whose sorted scan relies on qsort with cmp_chars.
use rmorie_bricklayer.Prelude.{
  ℕ, ◌+◌, ◌≤◌, ◌<◌, ◌≡◌, refl, ◌≢◌, ◌↔◌, inl, inr, true, false, List, [], ◌∷◌, ◌++◌, none, some,
  length, length-drop, length-take, ltb-false, drop, take, ltb, arith, Bool-cases, Option-cases,
}
use Prim.Native.Nat.{Ordering, compare}
use mathlib.Core.Logic.Or
use mathlib.Core.HLevel.{⊥_prop}
use mathlib.Core.List.Perm
use mathlib.Core.List.{
  Mem, Nodup, Perm, mem-cons, mem-cons_self, mem-cons_of_mem, not-mem-nil, Nodup-append, Nodup-cons,
  Nodup-nil, append_assoc, append-nil,
}
use rmorie_bricklayer.Json.{Host}
use rmorie_bricklayer.Json.Number.{is_eq}
use rmorie_bricklayer.Json.Keys.{cmp_chars, neighbours, is_among, scan_order, first_dup}

-- The order of texts byte by byte, a beginning of a text being before it.
unfoldable pub lex : List ℕ → List ℕ → Ordering
lex [] [] = Ordering.eq
lex [] (y ∷ ys) = Ordering.lt
lex (x ∷ xs) [] = Ordering.gt
lex (x ∷ xs) (y ∷ ys) =
    let rest = lex xs ys in
    elim (compare x y) [
      | Ordering.lt ↦ Ordering.lt
      | Ordering.gt ↦ Ordering.gt
      | Ordering.eq ↦ rest
    ]

pub cmp_chars_lem : (x y : List ℕ) → cmp_chars x y ≡ lex x y
unfolding cmp_chars lex
cmp_chars_lem [] [] = refl
cmp_chars_lem [] (y ∷ ys) = ground arith
cmp_chars_lem (x ∷ xs) [] = ground arith
cmp_chars_lem (x ∷ xs) (y ∷ ys) = ground (arith, cmp_chars_lem xs ys)

lex-eq : (x y : List ℕ) → lex x y ≡ Ordering.eq → x ≡ y
unfolding lex
lex-eq [] [] h = refl
lex-eq [] (y ∷ ys) h = ground arith
lex-eq (x ∷ xs) [] h = ground arith
lex-eq (x ∷ xs) (y ∷ ys) h = ground (arith, lex-eq xs ys)

lex_refl : (x : List ℕ) → lex x x ≡ Ordering.eq
unfolding lex
lex_refl [] = refl
lex_refl (x ∷ xs) = ground (arith, lex_refl xs)

lex_trans : (x y z : List ℕ) → lex x y ≡ Ordering.lt → lex y z ≡ Ordering.lt → lex x z ≡ Ordering.lt
unfolding lex
lex_trans [] [] z h k = ground arith
lex_trans [] (y ∷ ys) [] h k = ground arith
lex_trans [] (y ∷ ys) (z ∷ zs) h k = refl
lex_trans (x ∷ xs) [] z h k = ground arith
lex_trans (x ∷ xs) (y ∷ ys) [] h k = ground arith
lex_trans (x ∷ xs) (y ∷ ys) (z ∷ zs) h k = ground (arith, lex_trans xs ys zs)

-- What qsort leaves: no key is after its neighbour.
abbrev pub IsSorted : List (List ℕ) → Type 0
IsSorted [] = Unit
IsSorted (x ∷ []) = Unit
IsSorted (x ∷ y ∷ ks) = (cmp_chars x y ≢ Ordering.gt) × IsSorted (y ∷ ks)

abbrev AllAfter : List ℕ → List (List ℕ) → Type 0
AllAfter x [] = Unit
AllAfter x (y ∷ ks) = (lex x y ≡ Ordering.lt) × AllAfter x ks

AllAfter-trans :
    (x y : List ℕ) (ks : List (List ℕ)) → lex x y ≡ Ordering.lt → AllAfter y ks → AllAfter x ks
AllAfter-trans x y [] h all = tt
AllAfter-trans x y (k ∷ ks) h (first, all) = (lex_trans x y k h first, AllAfter-trans x y ks h all)

AllAfter-not-Mem : (x : List ℕ) (ks : List (List ℕ)) → AllAfter x ks → ¬ Mem x ks
AllAfter-not-Mem x [] all m = not-mem-nil m
AllAfter-not-Mem x (y ∷ ks) (first, all) m =
    Or.elim ⊥_prop (mem-cons.0 m) (λ e. cc (lex_refl y, rw e at first)) (AllAfter-not-Mem x ks all)

tail-IsSorted : (x : List ℕ) (ks : List (List ℕ)) → IsSorted (x ∷ ks) → IsSorted ks
tail-IsSorted x [] h = tt
tail-IsSorted x (y ∷ ks) h = h.1

neighbours_apart :
    (x : List ℕ) (ks : List (List ℕ))
    → IsSorted (x ∷ ks)
    → neighbours (x ∷ ks) ≡ none
    → AllAfter x ks × Nodup ks
unfolding neighbours
neighbours_apart x [] s h = (tt, Nodup-nil)
neighbours_apart x (y ∷ ks) s h =
    let here : lex x y ≡ Ordering.lt = ground (arith, cmp_chars_lem x y, s.0) in
    let (all, rest) = neighbours_apart y ks s.1 (ground arith) in
    ((here, AllAfter-trans x y ks here all), Nodup-cons.1 (AllAfter-not-Mem y ks all, rest))

neighbours-none : (ks : List (List ℕ)) → IsSorted ks → neighbours ks ≡ none → Nodup ks
neighbours-none [] s h = Nodup-nil
neighbours-none (x ∷ ks) s h =
    let (all, rest) = neighbours_apart x ks s h in Nodup-cons.1 (AllAfter-not-Mem x ks all, rest)

neighbours-some : (ks : List (List ℕ)) (k : List ℕ) → neighbours ks ≡ some k → ¬ Nodup ks
unfolding neighbours
neighbours-some [] k h d = cc
neighbours-some (x ∷ []) k h d = cc
neighbours-some (x ∷ y ∷ ks) k h d = elim (Bool-cases (is_eq (cmp_chars x y))) [
  | inl same ↦
      let e : x ≡ y = lex-eq x y (ground (arith, cmp_chars_lem x y)) in
      (Nodup-cons.0 d).0 (rw e mem-cons_self)
  | inr apart ↦ neighbours-some (y ∷ ks) k (rw (neighbours, apart) at h) (Nodup-cons.0 d).1
]

short-Nodup : (ks : List (List ℕ)) → length ks < 2 → Nodup ks
short-Nodup [] h = Nodup-nil
short-Nodup (x ∷ []) h = Nodup-cons.1 (not-mem-nil, Nodup-nil)
short-Nodup (x ∷ y ∷ ks) h = absurd (omega arith)

-- What qsort is relied on for: the same keys, sorted by cmp_chars.
abbrev pub Sorts : Host → List (List ℕ) → Type 0
Sorts h ks = Perm (h.sort ks) ks × IsSorted (h.sort ks)

-- Where qsort sorts the keys, first_dup gives NULL exactly when no two of them are equal.
pub first_dup-none :
    (h : Host) (ks : List (List ℕ)) → Sorts h ks → (first_dup h ks ≡ none) ↔ Nodup ks
unfolding first_dup
first_dup-none h ks (perm, sorted) = elim (Bool-cases (ltb (length ks) 2)) [
  | inl short ↦ rw (first_dup, short) (λ e. short-Nodup ks (ground arith), λ d. refl)
  | inr long ↦ elim (Option-cases (neighbours (h.sort ks))) [
    | inl unseen ↦
        rw (first_dup, long, unseen)
          (λ e. Perm.nodup perm (neighbours-none (h.sort ks) sorted unseen), λ d. refl)
    | inr (k, seen) ↦
        rw (first_dup, long, seen)
          (
            λ e. cc,
            λ d. absurd (neighbours-some (h.sort ks) k seen (Perm.nodup (Perm.symm perm) d)),
          )
  ]
]

is_among-Mem : (k : List ℕ) (ks : List (List ℕ)) → is_among k ks ≡ true → Mem k ks
unfolding is_among
is_among-Mem k [] h = cc
is_among-Mem k (x ∷ ks) h = elim (Bool-cases (is_eq (cmp_chars x k))) [
  | inl same ↦ let e : x ≡ k = lex-eq x k (ground (arith, cmp_chars_lem x k)) in rw e mem-cons_self
  | inr apart ↦ mem-cons_of_mem x (is_among-Mem k ks (rw (is_among, apart) at h))
]

is_among-false : (k : List ℕ) (ks : List (List ℕ)) → is_among k ks ≡ false → ¬ Mem k ks
unfolding is_among
is_among-false k [] h m = not-mem-nil m
is_among-false k (x ∷ ks) h m =
    Or.elim ⊥_prop (mem-cons.0 m)
      (λ e.
        let same : is_eq (cmp_chars x k) ≡ true = rw (e, cmp_chars_lem x x, lex_refl x) in
        cc (rw (is_among, same) at h))
      (is_among-false k ks (ground arith))

-- The first key in document order that repeats an earlier one.
abbrev pub FirstRepeat : List (List ℕ) → List ℕ → Type 0
FirstRepeat ks k =
    (before : List (List ℕ)) × (after : List (List ℕ)) × (ks ≡ before ++ k ∷ after)
    × Mem k before
    × Nodup before

snoc-Nodup :
    (k : List ℕ) (before : List (List ℕ)) → Nodup before → ¬ Mem k before → Nodup (before ++ k ∷ [])
snoc-Nodup k before d new = Nodup-append.1 (
  d,
  short-Nodup (k ∷ []) (omega arith),
  λ a m m'. Or.elim ⊥_prop (mem-cons.0 m') (λ e. new (rw e at m)) not-mem-nil,
)

empty : (ks : List (List ℕ)) → length ks ≡ 0 → ks ≡ []
empty [] h = refl
empty (k ∷ ks) h = absurd (omega arith)

scan_order_lem :
    (t : ℕ) (before ks : List (List ℕ)) (dup : List ℕ)
    → t + length ks ≤ 4098
    → Nodup before
    → ¬ Nodup (before ++ ks)
    → FirstRepeat (before ++ ks) (scan_order t before ks dup)
unfolding scan_order
scan_order_lem t before [] dup le d nd = absurd (nd (rw append-nil d))
scan_order_lem t before (k ∷ ks) dup le d nd = elim (Bool-cases (is_among k before)) [
  | inl found ↦ rw (scan_order, found) (before, ks, refl, is_among-Mem k before found, d)
  | inr new ↦
      let d' = snoc-Nodup k before d (is_among-false k before new) in
      elim (Bool-cases (ltb 4096 t)) [
        | inl last ↦ absurd (nd (rw (empty ks (ground arith)) d'))
        | inr inner ↦
            rw (scan_order, new, inner, ← append_assoc before (k ∷ []) ks)
              (scan_order_lem (t + 1) (before ++ k ∷ []) ks dup (omega arith) d'
                (rw (append_assoc before (k ∷ []) ks) nd))
      ]
]

first_split : (ks : List (List ℕ)) → take 1 ks ++ drop 1 ks ≡ ks
first_split [] = refl
first_split (k ∷ ks) = refl

-- Where qsort sorts the keys and there are at most 4098, a key that first_dup gives is the first in
-- document order that repeats an earlier key: the keys before it have no repetition and it is among
-- them.
pub first_dup-some :
    (h : Host) (ks : List (List ℕ)) (k : List ℕ)
    → Sorts h ks
    → length ks ≤ 4098
    → first_dup h ks ≡ some k
    → FirstRepeat ks k
unfolding first_dup
first_dup-some h ks k (perm, sorted) le e = elim (Bool-cases (ltb (length ks) 2)) [
  | inl short ↦ cc (rw (first_dup, short) at e)
  | inr long ↦ elim (Option-cases (neighbours (h.sort ks))) [
    | inl unseen ↦ cc (rw (first_dup, long, unseen) at e)
    | inr (dup, seen) ↦
        let same : scan_order 1 (take 1 ks) (drop 1 ks) dup ≡ k =
          cc (rw (first_dup, long, seen) at e) in
        rw (← same) (
          rw (first_split ks) at (
            scan_order_lem 1 (take 1 ks) (drop 1 ks) dup
              (omega (arith, length-drop 1 ks, ltb-false (length ks) 2 long))
              (short-Nodup (take 1 ks) (ground (arith, length-take 1 ks)))
              (rw (first_split ks)
                (λ d. neighbours-some (h.sort ks) dup seen (Perm.nodup (Perm.symm perm) d)))))
  ]
]
