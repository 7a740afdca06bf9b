-- ===== src/Json/Keys.antt =====
-- cmp_chars and first_dup of src/rmbl_json.cpp. A key is its bytes: R keeps one CHARSXP for equal ones,
-- so the source's comparison of pointers is that of the bytes.
pub mod Distinct
use rmorie_bricklayer.Prelude.{
  ℕ, zero, suc, ◌+◌, Bool, true, false, ◌&&◌, ◌||◌, List, [], ◌∷◌, ◌++◌, Option, none, some, length,
  drop, take, ltb, ◌==◌, if◌then◌else◌,
}
use Prim.Native.Nat.{Ordering, compare}
use rmorie_bricklayer.Json.{Host}
use rmorie_bricklayer.Json.Number.{memcmp, is_eq}

-- The order of two keys: by their bytes, and then by their lengths.
unfoldable pub cmp_chars : List ℕ → List ℕ → Ordering
unfolding memcmp
cmp_chars x y = let c = memcmp x y in if is_eq c then compare (length x) (length y) else c

-- The scan of the sorted keys for two equal neighbours: the second of the first such two.
unfoldable pub neighbours : List (List ℕ) → Option (List ℕ)
unfolding cmp_chars
neighbours [] = none
neighbours (x ∷ []) = none
neighbours (x ∷ y ∷ ks) =
    let rest = neighbours (y ∷ ks) in if is_eq (cmp_chars x y) then some y else rest

unfoldable pub is_among : List ℕ → List (List ℕ) → Bool
unfolding cmp_chars
is_among k [] = false
is_among k (x ∷ ks) = is_eq (cmp_chars x k) || is_among k ks

-- The scan in document order: `before` are the keys before index `t`, `dup` what the sorted scan
-- found. It stops past index 4096.
unfoldable pub scan_order : ℕ → List (List ℕ) → List (List ℕ) → List ℕ → List ℕ
unfolding is_among
scan_order t before [] dup = dup
scan_order t before (k ∷ ks) dup =
    let rest = scan_order (t + 1) (before ++ k ∷ []) ks dup in
    if is_among k before then k else if ltb 4096 t then dup else rest

unfoldable pub first_dup : Host → List (List ℕ) → Option (List ℕ)
unfolding neighbours scan_order
first_dup h ks = if ltb (length ks) 2 then none else elim (neighbours (h.sort ks)) [
  | none ↦ none
  | some dup ↦ some (scan_order 1 (take 1 ks) (drop 1 ks) dup)
]
