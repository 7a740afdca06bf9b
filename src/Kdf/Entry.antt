-- ===== src/Kdf/Entry.antt =====
-- src/rmbl_kdf.cpp: the entry point for a derived key, behind R's conversions. The return value of
-- `rmbl_pbkdf2_sha256` is not looked at.
use rmorie_bricklayer.Prelude.{
  ℕ, ◌^◌, ◌<◌, ◌≤◌, List, length, replicate, ltb, ltb_ge, lt→ltb, if◌then◌else◌, Bool, ◌||◌, Option,
  none, some, ◌≡◌, refl, sym, ap, ◌∙◌,
}
use rmorie_bricklayer.Hex.{hexlify}
use rmorie_bricklayer.Kdf.{Derived, refused, undefined, interrupted, derived, pbkdf2_inner}

pub data Answer : Type 0 where
  bad_iter : Answer
  too_many_iter : Answer
  bad_length : Answer
  raised : Answer
  returned : List ℕ → Answer

-- The string that is returned: `out` is zero where nothing was written, and an interrupt is raised.
-- At most 1024 bytes are asked for, so that nothing overflows.
abbrev pub key_string : ℕ → Derived → Answer
key_string dk refused = returned (hexlify (replicate dk 0))
key_string dk undefined = raised
key_string dk (interrupted out) = raised
key_string dk (derived out) = returned (hexlify out)

-- A missing number is `none`, and one below 1 stands for the negative ones too.
unfoldable pub pbkdf2_entry : (ℕ → ℕ → Bool) → List ℕ → List ℕ → Option ℕ → Option ℕ → Answer
pbkdf2_entry pending pb sb none dk = bad_iter
pbkdf2_entry pending pb sb (some iter) none =
    if ltb iter 1 then bad_iter else if ltb (2 ^ 26) iter then too_many_iter else bad_length
pbkdf2_entry pending pb sb (some iter) (some dk) =
    if ltb iter 1
    then bad_iter
    else if ltb (2 ^ 26) iter
    then too_many_iter
    else if ltb dk 1 || ltb 1024 dk
    then bad_length
    else key_string dk (pbkdf2_inner pending pb sb iter dk)

accepted :
    (pending : ℕ → ℕ → Bool) (pb sb : List ℕ) (iter dk : ℕ)
    → 1 ≤ iter
    → iter ≤ 2 ^ 26
    → 1 ≤ dk
    → dk ≤ 1024
    → pbkdf2_entry pending pb sb (some iter) (some dk)
      ≡ key_string dk (pbkdf2_inner pending pb sb iter dk)
unfolding pbkdf2_entry
accepted pending pb sb iter dk i1 i2 d1 d2 =
    rw (ltb_ge iter 1 i1, ltb_ge (2 ^ 26) iter i2, ltb_ge dk 1 d1, ltb_ge 1024 dk d2) refl

too_long :
    (pending : ℕ → ℕ → Bool) (pb sb : List ℕ) (iter dk : ℕ)
    → 1 ≤ iter
    → 1 ≤ dk
    → 2 ^ 20 < length sb
    → pbkdf2_inner pending pb sb iter dk ≡ refused
unfolding pbkdf2_inner
too_long pending pb sb iter dk i1 d1 long =
    rw (ltb_ge dk 1 d1, ltb_ge iter 1 i1, lt→ltb (2 ^ 20) (length sb) long) refl

-- For an iteration count from 1 to 2 ^ 26 and a length from 1 to 1024, the entry point answers every
-- passphrase and every two salts of more than 2 ^ 20 bytes with the same key, zeros of that length.
pub pbkdf2_entry-long_salt :
    (pending : ℕ → ℕ → Bool) (pb pb' sb sb' : List ℕ) (iter dk : ℕ)
    → 1 ≤ iter
    → iter ≤ 2 ^ 26
    → 1 ≤ dk
    → dk ≤ 1024
    → 2 ^ 20 < length sb
    → 2 ^ 20 < length sb'
    → (pbkdf2_entry pending pb sb (some iter) (some dk)
        ≡ pbkdf2_entry pending pb' sb' (some iter) (some dk))
      × (pbkdf2_entry pending pb sb (some iter) (some dk) ≡ returned (hexlify (replicate dk 0)))
pbkdf2_entry-long_salt pending pb pb' sb sb' iter dk i1 i2 d1 d2 long long' =
    let zeros : (pass salt : List ℕ)
        → 2 ^ 20 < length salt
        → pbkdf2_entry pending pass salt (some iter) (some dk)
          ≡ returned (hexlify (replicate dk 0)) =
      λ pass salt h.
        accepted pending pass salt iter dk i1 i2 d1 d2
        ∙ ap (key_string dk) (too_long pending pass salt iter dk i1 d1 h) in
    (zeros pb sb long ∙ sym (zeros pb' sb' long'), zeros pb sb long)
