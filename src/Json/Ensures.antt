-- ===== src/Json/Ensures.antt =====
-- What the parts of the JSON reader promise in all of their outcomes.
use rmorie_bricklayer.Prelude.{ℕ, Bool, true, false, ◌≤◌, ◌≡◌, arith, refl, if◌then◌else◌}
use rmorie_bricklayer.Json.{Why, Outcome, ok, failed, interrupted, ◌>>=◌}

-- `P` holds of a success, a failure leaves at most `n` bytes, and there is no other outcome but an
-- interrupt.
pub data Ensures {ℓ κ} {A : Type ℓ} (P : A → Type κ) (n : ℕ) : Outcome A → Type (ℓ ⊔ κ) where
  holds : {a : A} → P a → Ensures P n (ok a)
  fails : {why : Why} {left : ℕ} → left ≤ n → Ensures P n (failed why left)
  stops : Ensures P n interrupted

module _ {ℓ κ} {A : Type ℓ} {P : A → Type κ} where
  pub Ensures-bind {ℓ' κ'} :
      {B : Type ℓ'} {Q : B → Type κ'} (n : ℕ) {r : Outcome A} {f : A → Outcome B}
      → Ensures P n r
      → ((a : A) → P a → Ensures Q n (f a))
      → Ensures Q n (r >>= f)
  Ensures-bind n (holds {a} h) k = k a h
  Ensures-bind n (fails le) k = fails le
  Ensures-bind n stops k = stops

  pub Ensures-if :
      (t : Bool) (n : ℕ) {x y : Outcome A}
      → (t ≡ true → Ensures P n x)
      → (t ≡ false → Ensures P n y)
      → Ensures P n (if t then x else y)
  Ensures-if true n hx hy = hx refl
  Ensures-if false n hx hy = hy refl

  pub Ensures-branch :
      (t : Bool) (n : ℕ) {x y : Outcome A}
      → (t ≡ true → Ensures P n x)
      → (t ≡ false → Ensures P n y)
      → Ensures P n (elim t [ true ↦ x | false ↦ y ])
  Ensures-branch true n hx hy = hx refl
  Ensures-branch false n hx hy = hy refl

pub Ensures-map {ℓ κ κ'} :
    {A : Type ℓ} {P : A → Type κ} {Q : A → Type κ'} (m n : ℕ) {r : Outcome A}
    → m ≤ n
    → Ensures P m r
    → ((a : A) → P a → Q a)
    → Ensures Q n r
Ensures-map m n le (holds {a} h) k = holds (k a h)
Ensures-map m n le (fails {left = left} l) k = fails (omega arith)
Ensures-map m n le stops k = stops
