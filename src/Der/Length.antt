-- ===== src/Der/Length.antt =====
-- The length octets that `read_len` accepts are the DER encoding of the length.
use rmorie_bricklayer.Prelude.{
  ℕ, zero, suc, ◌+◌, ◌-◌, ◌*◌, ◌%◌, ◌^◌, ◌≤◌, ◌<◌, ◌≡◌, refl, ap, sym, ◌∙◌, ◌≢◌, inl, inr, List, [],
  ◌∷◌, ◌++◌, true, false, arith, length, ltb, leb, ◌==◌, bit_and, bit_or, get_elem?, some, not,
  ◌&&◌, Bool-cases, ltb→lt,
}
use mathlib.Core.Path.{ap₂}
use native.Mathlib.Nat.{
  mod-eq_of_lt, one-le-pow, mul-le-mul_left, mul-le-mul_right, pow-le-pow_right,
}
use rmorie_bricklayer.Prelude.Numbers.{byte_weight-suc}
use rmorie_bricklayer.Prelude.Bits.{bit_and_mask, bit_or_fields}
use rmorie_bricklayer.Prelude.Bytes.{IsBytes, byte-lt, marked}
use rmorie_bricklayer.Der.{len_bytes, read_len}
use rmorie_bricklayer.Der.Monad.{
  Ensures, holds, Ensures-bind, Ensures-map, check-Ensures, read-Ensures, check, read, ◌>>=◌, ◌>>◌,
}
use rmorie_bricklayer.Der.Slice.{
  slice, slice-snoc, slice-one, slice-append, slice_empty, length-slice,
}
use rmorie_bricklayer.Der.Encode.{digits, digits-zero, digits-snoc, length_octets}

-- Lengths below 128 have the short form, others the long one.
short_form : (l : ℕ) → ltb l 128 ≡ true → length_octets l ≡ l ∷ []
short_form l e = rw e

long_form :
    (l : ℕ) → ltb l 128 ≡ false → length_octets l ≡ (128 + length (digits 256 0 l)) ∷ digits 256 0 l
long_form l e = rw e

digits_small : (l : ℕ) → 0 < l → l < 256 → digits 256 0 l ≡ l ∷ []
digits_small l lo hi =
    ap (digits 256 0) (let e : l ≡ 0 * 256 + l = omega arith in e)
    ∙ digits-snoc 256 0 0 l (omega arith) hi (omega arith)
    ∙ ap₂ (λ (xs : List ℕ) (y : ℕ). xs ++ y ∷ []) (digits-zero 256 0) (omega arith)

weight_fits : (k : ℕ) → k < 8 → (0 + 1) * 2 ^ (8 * k) ≤ 2 ^ 64
weight_fits k h =
    omega (arith, pow-le-pow_right {n = 2} (omega arith) (let q : 8 * k ≤ 64 = omega arith in q))

-- Digits that start with neither 0 nor, where there is one alone, less than 128.
large_digits :
    (k first l : ℕ) (rest : List ℕ)
    → digits 256 0 l ≡ first ∷ rest
    → k ≡ suc (length rest)
    → (k ≡ 1 → 128 ≤ first)
    → ltb l 128 ≡ false
large_digits k first l rest e size one_byte = elim (Bool-cases (ltb l 128)) [
  | inr large ↦ large
  | inl small ↦ absurd (contradiction l small e)
]
  where
    contradiction : (m : ℕ) → ltb m 128 ≡ true → digits 256 0 m ≡ first ∷ rest → ⊥
    contradiction zero small e' = cc (digits-zero 256 0)
    contradiction (suc m) small e' =
        let q = sym (digits_small (suc m) (omega arith) (ground arith)) ∙ e' in ground (arith, q)

-- Appending a byte to a length.
shift_len :
    (len b : ℕ)
    → (len + 1) * 256 ≤ 2 ^ 64
    → b < 256
    → bit_or (len * 2 ^ 8 % 2 ^ 64) b ≡ len * 256 + b
shift_len len b h hb =
    ap (λ (t : ℕ). bit_or t b) (mod-eq_of_lt {n = len * 2 ^ 8} {m = 2 ^ 64} (omega arith))
    ∙ bit_or_fields 8 len b hb

module _ (p : List ℕ) (n : ℕ) (hp : IsBytes p) (hn : n ≤ length p) where
  len_bytes-Ensures :
      (rounds start pos len : ℕ)
      → start ≤ pos
      → pos + rounds ≤ n
      → (len + 1) * 2 ^ (8 * rounds) ≤ 2 ^ 64
      → slice p start pos ≡ digits 256 0 len
      → ((b : ℕ) → get_elem? p pos ≡ some b → len * 256 + b ≢ 0)
      → Ensures
          (λ (l, pos'). (pos' ≡ pos + rounds) × (slice p start pos' ≡ digits 256 0 l))
          (len_bytes rounds p pos len)
  unfolding len_bytes
  len_bytes-Ensures zero start pos len le fit small e nz = holds (omega arith, e)
  len_bytes-Ensures (suc rounds) start pos len le fit small e nz =
      Ensures-bind (read-Ensures p pos (omega arith)) λ b eb.
        let hb = byte-lt p pos hp eb in
        let w = byte_weight-suc rounds in
        let pos_weight = one-le-pow (8 * rounds) 2 (omega arith) in
        rw
          (shift_len len b
            (omega
              (arith, small, ap (λ (t : ℕ). (len + 1) * t) w, mul-le-mul_left (len + 1) pos_weight))
            hb)
          (Ensures-map
            (len_bytes-Ensures rounds start (pos + 1) (len * 256 + b) (omega arith) (omega arith)
              (omega (
                arith,
                small,
                ap (λ (t : ℕ). (len + 1) * t) w,
                mul-le-mul_right (2 ^ (8 * rounds)) hb,
              ))
              (slice-snoc p start pos b le eb
                ∙ ap₂ (λ (xs : List ℕ) (y : ℕ). xs ++ y ∷ []) e (omega arith)
                ∙ sym (digits-snoc 256 0 len b (omega arith) hb (nz b eb)))
              (λ c ec. ground (arith, nz b eb)))
            λ (l, pos') h. (omega (arith, h.0), h.1))

  -- A length in the short form, or in the shortest long form.
  pub read_len-Ensures :
      (pos : ℕ)
      → Ensures
          (λ (l, pos'). (pos < pos') × (pos' ≤ n) × (slice p pos pos' ≡ length_octets l))
          (read_len p n pos)
  unfolding read_len
  read_len-Ensures pos = Ensures-bind (check-Ensures (ltb pos n)) λ _ room.
      Ensures-bind (read-Ensures p pos (ground arith)) λ b eb.
        rw (marked b (byte-lt p pos hp eb)) (elim (Bool-cases (ltb b 128)) [
          | inl short ↦ rw short (
              holds {a = (b, pos + 1)}
                (omega arith, ground arith, slice-one p pos b eb ∙ sym (short_form b short)))
          | inr long ↦ rw long (long_len b eb (ltb→lt pos n room) long)
        ])
    where
      long_result :
          (b : ℕ)
          → get_elem? p pos ≡ some b
          → ltb b 128 ≡ false
          → (k first l pos' : ℕ) → bit_and b 0x7f ≡ k
          → get_elem? p (pos + 1) ≡ some first
          → 0 < k
          → pos + 1 + k ≤ n
          → (k ≡ 1 → 128 ≤ first)
          → (pos' ≡ pos + 1 + k) × (slice p (pos + 1) pos' ≡ digits 256 0 l)
          → (pos < pos') × (pos' ≤ n) × (slice p pos pos' ≡ length_octets l)
      long_result b eb long k first l pos' ek ef hk fit one_byte (at, e) =
          let rest = slice p (pos + 1 + 1) pos' in
          let split : slice p (pos + 1) pos' ≡ first ∷ rest =
            sym (slice-append p (pos + 1) (pos + 1 + 1) pos' (omega arith) (omega (arith, at)))
            ∙ ap (λ (t : List ℕ). t ++ rest) (slice-one p (pos + 1) first ef) in
          let size : k ≡ suc (length rest) =
            omega (arith, at, length-slice p (pos + 1 + 1) pos' (omega (arith, at))) in
          let octets : length (digits 256 0 l) ≡ k = ap length (sym e ∙ split) ∙ sym size in
          let head : b ≡ 128 + length (digits 256 0 l) =
            ground (arith, octets, ek, bit_and_mask 7 b, byte-lt p pos hp eb) in
          (
            omega (arith, at),
            omega (arith, at),
            sym (slice-append p pos (pos + 1) pos' (omega arith) (omega (arith, at)))
                ∙ ap₂ (λ (xs ys : List ℕ). xs ++ ys) (slice-one p pos b eb) e
                ∙ ap (λ (x : ℕ). x ∷ digits 256 0 l) head
                ∙ sym (long_form l (large_digits k first l rest (sym e ∙ split) size one_byte)),
          )

      long_len :
          (b : ℕ)
          → get_elem? p pos ≡ some b
          → pos < n
          → ltb b 128 ≡ false
          → Ensures
              (λ (l, pos'). (pos < pos') × (pos' ≤ n) × (slice p pos pos' ≡ length_octets l))
              (do
                let nbytes = bit_and b 0x7f
                check (not (nbytes == 0))
                check (not (leb 8 nbytes))
                check (not (ltb (n - (pos + 1)) nbytes))
                first ← read p (pos + 1)
                check (not (first == 0))
                check (not (nbytes == 1 && ltb first 0x80))
                len_bytes nbytes p (pos + 1) 0)
      long_len b eb room long =
          let k = bit_and b 0x7f in
          Ensures-bind (check-Ensures (not (k == 0))) λ _ k_pos.
            Ensures-bind (check-Ensures (not (leb 8 k))) λ _ k_lt.
              Ensures-bind (check-Ensures (not (ltb (n - (pos + 1)) k))) λ _ fit.
                Ensures-bind (read-Ensures p (pos + 1) (ground arith)) λ first ef.
                  Ensures-bind (check-Ensures (not (first == 0))) λ _ nz.
                    Ensures-bind (check-Ensures (not (k == 1 && ltb first 0x80))) λ _ short.
                      Ensures-map
                        (len_bytes-Ensures k (pos + 1) (pos + 1) 0 (omega arith) (ground arith)
                          (weight_fits k (ground arith))
                          (slice_empty p (pos + 1) ∙ sym (digits-zero 256 0))
                          (λ c ec. ground arith))
                        λ (l, pos') h.
                          long_result b eb long k first l pos' refl ef (ground arith) (ground arith)
                            (λ one. ground (arith, one)) h
