-- ===== src/Tests/JsonTests.antt =====
-- The JSON reader on small texts, with whole numbers for doubles and insertion for qsort.
use rmorie_bricklayer.Prelude.{
  ℕ, ◌+◌, ◌-◌, ◌*◌, ◌≡◌, ◌≢◌, ◌↔◌, refl, true, false, List, [], ◌∷◌, ◌++◌, none, some, ltb,
  if◌then◌else◌, arith, Bool-cases, inl, inr,
}
use Prim.Native.Nat.{Ordering}
use mathlib.Core.List.Perm
use mathlib.Core.List.{Perm, Nodup}
use rmorie_bricklayer.Prelude.Bytes.{bytes_sound}
use rmorie_bricklayer.Prelude.Int.{pos}
use rmorie_bricklayer.Json.{
  text, Value, ok, Host, Options, null, logical, integer, items, nil, cons, duplicate_key,
}
use rmorie_bricklayer.Json.Utf8.{valid_utf8}
use rmorie_bricklayer.Json.Utf8.Encoding.{AreScalars, utf8, valid_utf8_lem}
use rmorie_bricklayer.Json.Text.{string}
use rmorie_bricklayer.Json.Text.Fast.{decoded, string-eq-decoded, ReadString, string_lem}
use rmorie_bricklayer.Json.Number.{is_gt}
use rmorie_bricklayer.Json.Keys.{cmp_chars, first_dup}
use rmorie_bricklayer.Json.Keys.Distinct.{
  lex, cmp_chars_lem, IsSorted, Sorts, first_dup-none, FirstRepeat, first_dup-some,
}
use rmorie_bricklayer.Json.Entry.{parsed, gives_up, refusal, json_fast}
use rmorie_bricklayer.Json.Read.{keys}
use rmorie_bricklayer.Json.Read.Written.{print, Writable}
use rmorie_bricklayer.Json.Entry.Accepts.{json_fast-print}

insert : List ℕ → List (List ℕ) → List (List ℕ)
insert k [] = k ∷ []
insert k (x ∷ ks) = let rest = insert k ks in if is_gt (cmp_chars k x) then x ∷ rest else k ∷ x ∷ ks

unfoldable sort : List (List ℕ) → List (List ℕ)
unfolding insert
sort [] = []
sort (k ∷ ks) = insert k (sort ks)

insert-perm : (k : List ℕ) (ks : List (List ℕ)) → Perm (insert k ks) (k ∷ ks)
unfolding insert
insert-perm k [] = Perm.refl (k ∷ [])
insert-perm k (x ∷ ks) = elim (Bool-cases (is_gt (cmp_chars k x))) [
  | inl after ↦ rw (insert, after) (Perm.trans (Perm.cons x (insert-perm k ks)) (Perm.swap k x ks))
  | inr here ↦ rw (insert, here) (Perm.refl (k ∷ x ∷ ks))
]

not_both : (x y : List ℕ) → lex x y ≡ Ordering.gt → lex y x ≢ Ordering.gt
unfolding lex
not_both [] [] h = ground arith
not_both [] (y ∷ ys) h = ground arith
not_both (x ∷ xs) [] h = ground arith
not_both (x ∷ xs) (y ∷ ys) h = ground (arith, not_both xs ys)

insert_after :
    (k x : List ℕ) (ks : List (List ℕ))
    → is_gt (cmp_chars k x) ≡ true
    → IsSorted (x ∷ ks)
    → IsSorted (x ∷ insert k ks)
unfolding insert
insert_after k x [] g s = (ground (arith, cmp_chars_lem k x, cmp_chars_lem x k, not_both k x), tt)
insert_after k x (y ∷ ks) g s = elim (Bool-cases (is_gt (cmp_chars k y))) [
  | inl after ↦ rw (insert, after) (s.0, insert_after k y ks after s.1)
  | inr here ↦
      rw (insert, here)
        (ground (arith, cmp_chars_lem k x, cmp_chars_lem x k, not_both k x), (ground arith, s.1))
]

insert-IsSorted : (k : List ℕ) (ks : List (List ℕ)) → IsSorted ks → IsSorted (insert k ks)
unfolding insert
insert-IsSorted k [] s = tt
insert-IsSorted k (x ∷ ks) s = elim (Bool-cases (is_gt (cmp_chars k x))) [
  | inl after ↦ rw (insert, after) (insert_after k x ks after s)
  | inr here ↦ rw (insert, here) (ground arith, s)
]

sort-IsSorted : (ks : List (List ℕ)) → IsSorted (sort ks)
unfolding sort
sort-IsSorted [] = tt
sort-IsSorted (k ∷ ks) = insert-IsSorted k (sort ks) (sort-IsSorted ks)

sort-perm : (ks : List (List ℕ)) → Perm (sort ks) ks
unfolding sort
sort-perm [] = Perm.refl []
sort-perm (k ∷ ks) = Perm.trans (insert-perm k (sort ks)) (Perm.cons k (sort-perm ks))

decimal : List ℕ → ℕ → ℕ
decimal [] n = n
decimal (c ∷ t) n = decimal t (n * 10 + (c - b'0'))

abbrev toy : Host
toy = record {
  Double = ℕ;
  strtod = λ t. some (decimal t 0);
  of_ℕ = λ n. n;
  neg = λ n. 0;
  less = ltb;
  is_finite = λ n. true;
  to_int = pos;
  print_whole = λ n. [];
  sort = sort;
  stops = λ n. false;
}

toy_sorts : (ks : List (List ℕ)) → Sorts toy ks
toy_sorts ks = (sort-perm ks, sort-IsSorted ks)

abbrev strict : Options
strict = record { keep_dups = false; as_char = false }

-- {"a": [12, true], "b\n": null}
abbrev document : List ℕ
document =
    b'{' ∷ b'"' ∷ b'a' ∷ b'"' ∷ b':' ∷ b' ' ∷ b'[' ∷ b'1' ∷ b'2' ∷ b',' ∷ b' ' ∷ b't' ∷ b'r' ∷ b'u'
    ∷ b'e' ∷ b']' ∷ b',' ∷ b'"' ∷ b'b' ∷ b'\\' ∷ b'n' ∷ b'"' ∷ b':' ∷ b'n' ∷ b'u' ∷ b'l' ∷ b'l'
    ∷ b'}' ∷ []

document_test :
    json_fast toy strict document
    ≡ parsed
        (items true (
          cons
            (b'a' ∷ [])
            (items false (cons [] (integer (pos 12)) (cons [] (logical true) nil)))
            (cons (b'b' ∷ 10 ∷ []) null nil)))
        none
unfolding json_fast sort decimal
document_test = refl

-- {"a":1,"a":2} and {"":1,"":2}
abbrev repeated : List ℕ → List ℕ
repeated k =
    b'{' ∷ b'"' ∷ (k ++ b'"' ∷ b':' ∷ b'1' ∷ b',' ∷ b'"' ∷ (k ++ b'"' ∷ b':' ∷ b'2' ∷ b'}' ∷ []))

repeated_test : json_fast toy strict (repeated (b'a' ∷ [])) ≡ refusal (duplicate_key (b'a' ∷ [])) 14
unfolding json_fast sort decimal
repeated_test = refl

repeated_empty_test : json_fast toy strict (repeated []) ≡ gives_up
unfolding json_fast sort decimal
repeated_empty_test = refl

-- "\ud83d\ude00"
abbrev surrogates : List ℕ
surrogates =
    b'\\' ∷ b'u' ∷ b'd' ∷ b'8' ∷ b'3' ∷ b'd' ∷ b'\\' ∷ b'u' ∷ b'd' ∷ b'e' ∷ b'0' ∷ b'0' ∷ b'"' ∷ []

surrogates_test : string surrogates ≡ ok (0xf0 ∷ 0x9f ∷ 0x98 ∷ 0x80 ∷ [], [])
unfolding string
surrogates_test = refl

valid_utf8_lem_example :
    (valid_utf8 (0xc3 ∷ 0xa9 ∷ 0x41 ∷ []) ≡ true)
    ↔ ((cps : List ℕ) × AreScalars cps × (0xc3 ∷ 0xa9 ∷ 0x41 ∷ [] ≡ utf8 cps))
valid_utf8_lem_example =
    valid_utf8_lem (0xc3 ∷ 0xa9 ∷ 0x41 ∷ []) (bytes_sound (0xc3 ∷ 0xa9 ∷ 0x41 ∷ []) refl)

string-eq-decoded_example : string surrogates ≡ decoded surrogates
string-eq-decoded_example = string-eq-decoded surrogates

string_lem_example : ReadString surrogates (string surrogates)
string_lem_example = string_lem surrogates

abbrev three_keys : List (List ℕ)
three_keys = (b'b' ∷ []) ∷ (b'a' ∷ []) ∷ (b'b' ∷ []) ∷ []

first_dup-none_example : (first_dup toy three_keys ≡ none) ↔ Nodup three_keys
first_dup-none_example = first_dup-none toy three_keys (toy_sorts three_keys)

three_keys_first : first_dup toy three_keys ≡ some (b'b' ∷ [])
unfolding first_dup sort
three_keys_first = refl

first_dup-some_example : FirstRepeat three_keys (b'b' ∷ [])
first_dup-some_example =
    first_dup-some toy three_keys (b'b' ∷ []) (toy_sorts three_keys) (omega arith) three_keys_first

-- {"a":[true,"\""],"":{}}
abbrev sample : Value ℕ
sample = items true (
    cons (b'a' ∷ []) (items false (cons [] (logical true) (cons [] (text (b'"' ∷ [])) nil)))
      (cons [] (items true nil) nil))

sample_text :
    print sample
    ≡ b'{' ∷ b'"' ∷ b'a' ∷ b'"' ∷ b':' ∷ b'[' ∷ b't' ∷ b'r' ∷ b'u' ∷ b'e' ∷ b',' ∷ b'"' ∷ b'\\'
      ∷ b'"' ∷ b'"' ∷ b']' ∷ b',' ∷ b'"' ∷ b'"' ∷ b':' ∷ b'{' ∷ b'}' ∷ b'}' ∷ []
unfolding print
sample_text = refl

sample_valid : valid_utf8 (print sample) ≡ true
unfolding print valid_utf8
sample_valid = refl

toy_runs : (c : ℕ) → toy.stops c ≡ false
toy_runs c = refl

sample-Writable : Writable toy strict toy_runs 0 sample
unfolding Writable first_dup sort keys
sample-Writable = (
  omega arith,
  (λ e. refl),
  (
    (omega arith, tt),
    (omega arith, (λ e. cc), (refl, tt, (refl, (omega arith, tt), tt))),
    (tt, (omega arith, (λ e. refl), tt), tt),
  ),
)

json_fast-print_example : json_fast toy strict (print sample) ≡ parsed sample none
json_fast-print_example = json_fast-print toy strict toy_runs sample sample-Writable sample_valid
