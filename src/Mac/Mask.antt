-- ===== src/Mac/Mask.antt =====
-- MGF1 against RFC 8017 (B.2.1), and the comparison of digests.
use rmorie_bricklayer.Prelude.{
  ℕ, zero, suc, ◌+◌, ◌-◌, ◌*◌, ◌%◌, ◌^◌, ◌<◌, ◌≤◌, bit_xor, bit_or, List, [], ◌∷◌, ◌++◌, length,
  take, get_or, ◌==◌, ltb, ltb-false, ltb→lt, ==_iff, if◌then◌else◌, true, ◌≡◌, ◌↔◌, ◌≢◌, inl, inr,
  refl, sym, ap, ◌∙◌, arith, Bool-cases,
}
use mathlib.Core.Path.{ap₂}
use mathlib.Core.Bool.{false≢true}
use mathlib.Core.List.{head-eq_of_cons-eq, tail-eq_of_cons-eq}
use rmorie_bricklayer.Prelude.Bytes.{be_bytes, IsBytes}
use rmorie_bricklayer.Prelude.Bits.{
  bit_xor-zero, bit_xor_self, bit_xor_assoc, zero-bit_xor, bit_xor-lt, bit_or-lt, le-bit_or,
  bit_or_comm,
}
use rmorie_bricklayer.Prelude.Chunks.{
  spread, length-spread, get_or-spread, spread_none, take_cut, left_cut,
}
use rmorie_bricklayer.Sha2.Sha256.Digest.{length-sha256_raw}
use rmorie_bricklayer.Sha2.Sha512.Digest.{length-sha512_raw}
use rmorie_bricklayer.Mac.{shax, mgf1_loop, mgf1_shax, difference, digest_equal}

-- The bytes of a digest.
abbrev pub digest_size : ℕ → ℕ
digest_size hashlen = if hashlen == 64 then 64 else 32

length-shax : (hashlen : ℕ) (bytes : List ℕ) → length (shax hashlen bytes) ≡ digest_size hashlen
unfolding shax
length-shax hashlen bytes = elim (Bool-cases (hashlen == 64)) [
  | inl large ↦ rw large (length-sha512_raw bytes)
  | inr small ↦ rw small (length-sha256_raw bytes)
]

-- The specification's block: the digest of the seed and the counter's four bytes.
abbrev pub mask_block : ℕ → List ℕ → ℕ → List ℕ
mask_block hashlen seed ctr = shax hashlen (seed ++ be_bytes 4 ctr)

enough : (hashlen outlen : ℕ) → outlen ≤ outlen * digest_size hashlen
enough hashlen outlen = elim (Bool-cases (hashlen == 64)) [
  | inl large ↦ rw large (omega arith)
  | inr small ↦ rw small (omega arith)
]

module _ (hashlen : ℕ) (seed : List ℕ) where
  whole : (ctr : ℕ) → length (mask_block hashlen seed ctr) ≡ digest_size hashlen
  whole ctr = length-shax hashlen (seed ++ be_bytes 4 ctr)

  loop_spread :
      (fuel ctr left : ℕ)
      → ctr + left < 2 ^ 32
      → mgf1_loop fuel hashlen ctr left seed
        ≡ spread (mask_block hashlen seed) (digest_size hashlen) whole fuel ctr left
  unfolding mgf1_loop spread
  loop_spread zero ctr left h = refl
  loop_spread (suc fuel) ctr left h =
      let size : ℕ = digest_size hashlen in
      elim (Bool-cases (ltb 0 left)) [
        | inl more ↦
            let under = ltb→lt 0 left more in
            let next : (ctr + 1) % 2 ^ 32 ≡ ctr + 1 = omega arith in
            rw
              (
                more,
                take_cut size left (mask_block hashlen seed ctr) (whole ctr),
                left_cut size left,
                next,
              )
              (ap (λ (t : List ℕ). take left (mask_block hashlen seed ctr) ++ t)
                (loop_spread fuel (ctr + 1) (left - size) (omega (arith, enough hashlen 1))))
        | inr done ↦
            let none_left : left ≡ 0 = (let z = ltb-false 0 left done in omega arith) in
            rw none_left (sym (spread_none (mask_block hashlen seed) size whole (suc fuel) ctr))
      ]

-- For a length below 2 ^ 32 and a place `r` of block `q` within it: MGF1 returns a mask of that
-- length, and its byte at the place is byte `r` of the digest of the seed and the counter `q` in
-- four bytes, whichever the hash.
pub mgf1_shax_lem :
    (hashlen outlen : ℕ) (seed : List ℕ) (q r : ℕ)
    → outlen < 2 ^ 32
    → r < digest_size hashlen
    → q * digest_size hashlen + r < outlen
    → (length (mgf1_shax hashlen outlen seed) ≡ outlen)
      × (get_or (mgf1_shax hashlen outlen seed) (q * digest_size hashlen + r) 0
          ≡ get_or (mask_block hashlen seed q) r 0)
unfolding mgf1_shax
mgf1_shax_lem hashlen outlen seed q r small hr inside =
    let size : ℕ = digest_size hashlen in
    let all : mgf1_loop outlen hashlen 0 outlen seed
        ≡ spread (mask_block hashlen seed) size (whole hashlen seed) outlen 0 outlen =
      loop_spread hashlen seed outlen 0 outlen (omega arith) in
    let room : outlen ≤ outlen * size = enough hashlen outlen in
    let from_0 : 0 + q ≡ q = omega arith in
    rw all (
      length-spread (mask_block hashlen seed) size (whole hashlen seed) outlen 0 outlen room,
      get_or-spread (mask_block hashlen seed) size (whole hashlen seed) outlen 0 outlen q r room hr
            inside
          ∙ ap (λ (i : ℕ). get_or (mask_block hashlen seed i) r 0) from_0,
    )

differs : (x y : ℕ) → bit_xor x y ≡ 0 → x ≡ y
differs x y e =
    sym (bit_xor-zero x)
    ∙ ap (bit_xor x) (sym (bit_xor_self y))
    ∙ sym (bit_xor_assoc x y y)
    ∙ ap (λ (t : ℕ). bit_xor t y) e
    ∙ zero-bit_xor y

-- The difference stays a byte, and is zero where every byte agrees.
pub difference_lem :
    (diff : ℕ) (a b : List ℕ)
    → diff < 2 ^ 8
    → IsBytes a
    → IsBytes b
    → length a ≡ length b
    → (difference diff a b ≡ 0) ↔ ((diff ≡ 0) × (a ≡ b))
unfolding difference
difference_lem diff [] [] hd ha hb n = (λ e. (e, refl), λ e. e.0)
difference_lem diff [] (y ∷ b) hd ha hb n = absurd (omega arith)
difference_lem diff (x ∷ a) [] hd ha hb n = absurd (omega arith)
difference_lem diff (x ∷ a) (y ∷ b) hd (hx, ha) (hy, hb) n =
    let changed : bit_xor x y < 2 ^ 8 = bit_xor-lt 8 x y hx hy in
    let fits : bit_or diff (bit_xor x y) < 2 ^ 8 = bit_or-lt 8 diff (bit_xor x y) hd changed in
    let kept : bit_or diff (bit_xor x y) % 256 ≡ bit_or diff (bit_xor x y) = omega arith in
    let rest =
      difference_lem (bit_or diff (bit_xor x y) % 256) a b (omega arith) ha hb (omega arith) in
    (
      λ e.
          let zero_or : bit_or diff (bit_xor x y) ≡ 0 = sym kept ∙ (rest.0 e).0 in
          let zero_diff : diff ≡ 0 = omega (arith, le-bit_or diff (bit_xor x y)) in
          let zero_xor : bit_xor x y ≡ 0 =
            omega (arith, bit_or_comm diff (bit_xor x y), le-bit_or (bit_xor x y) diff) in
          (zero_diff, ap₂ (λ (t : ℕ) (ts : List ℕ). t ∷ ts) (differs x y zero_xor) (rest.0 e).1),
      λ (zero_diff, same).
          let agree : bit_xor x y ≡ 0 =
            ap (λ (t : ℕ). bit_xor t y) (head-eq_of_cons-eq same) ∙ bit_xor_self y in
          let nothing : bit_or diff (bit_xor x y) % 256 ≡ 0 = rw (zero_diff, agree) refl in
          rest.1 (nothing, tail-eq_of_cons-eq same),
    )

-- The comparison of two digests of one length returns 1 for equal ones and 0 for others, though
-- it tests no byte on the way.
pub digest_equal_lem :
    (a b : List ℕ)
    → IsBytes a
    → IsBytes b
    → length a ≡ length b
    → ((digest_equal a b ≡ 1) ↔ (a ≡ b)) × ((digest_equal a b ≡ 0) ↔ (a ≢ b))
unfolding digest_equal
digest_equal_lem a b ha hb n =
    let same = difference_lem 0 a b (omega arith) ha hb n in
    elim (Bool-cases (difference 0 a b == 0)) [
      | inl none ↦
          let equal : a ≡ b = (same.0 ((==_iff (difference 0 a b) 0).0 none)).1 in
          rw none (
            (λ e. equal, λ e. refl),
            ((λ e. absurd (let f : 1 ≡ 0 = e in omega arith)), λ apart. absurd (apart equal)),
          )
      | inr some_bit ↦
          let apart : a ≢ b = λ equal.
            let on : (difference 0 a b == 0) ≡ true =
              (==_iff (difference 0 a b) 0).1 (same.1 (refl, equal)) in
            false≢true (sym some_bit ∙ on) in
          rw some_bit (
            (λ e. absurd (let f : 0 ≡ 1 = e in omega arith), λ equal. absurd (apart equal)),
            (λ e. apart, λ e. refl),
          )
    ]
