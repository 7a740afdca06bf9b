-- ===== src/Der/Monad.antt =====
-- The outcome of a step of the parser. `reject` is the source's `return false`; `fault` is a read
-- outside the bytes, which C++ leaves undefined; `out_of_fuel` has no counterpart in the source.
use rmorie_bricklayer.Prelude.{
  ℕ, Bool, true, false, List, ◌≡◌, ◌≢◌, refl, Option, none, some, get_elem?, length, ◌<◌, arith,
  zero, suc, [], ◌∷◌,
}
use mathlib.Core.Path.{subst}

pub data Outcome {ℓ} (A : Type ℓ) : Type ℓ where
  ok : A → Outcome A
  reject fault out_of_fuel : Outcome A

infixl 5 ◌>>=◌ ◌>>◌
abbrev pub ◌>>=◌ {ℓ κ} : {A : Type ℓ} {B : Type κ} → Outcome A → (A → Outcome B) → Outcome B
ok a >>= f = f a
reject >>= f = reject
fault >>= f = fault
out_of_fuel >>= f = out_of_fuel

abbrev pub ◌>>◌ {ℓ} : {B : Type ℓ} → Outcome (Unit {0}) → Outcome B → Outcome B
m >> k = m >>= λ _. k

abbrev pub check : Bool → Outcome (Unit {0})
check true = ok tt
check false = reject

abbrev pub found : Option ℕ → Outcome ℕ
found none = fault
found (some b) = ok b

-- `p[i]`
abbrev pub read : List ℕ → ℕ → Outcome ℕ
read p i = found (get_elem? p i)

-- The step neither faults nor runs out of fuel, and `P` holds of its value if it has one.
pub data Ensures {ℓ κ} {A : Type ℓ} (P : A → Type κ) : Outcome A → Type (ℓ ⊔ κ) where
  holds : {a : A} → P a → Ensures P (ok a)
  rejected : Ensures P reject

module _ {ℓ κ} {A : Type ℓ} {P : A → Type κ} where
  pub Ensures-ok : {r : Outcome A} {a : A} → Ensures P r → r ≡ ok a → P a
  Ensures-ok (holds h) e = subst P (cc) h
  Ensures-ok rejected e = cc

  pub Ensures-fault : {r : Outcome A} → Ensures P r → r ≢ fault
  Ensures-fault (holds h) = cc
  Ensures-fault rejected = cc

  pub Ensures-out_of_fuel : {r : Outcome A} → Ensures P r → r ≢ out_of_fuel
  Ensures-out_of_fuel (holds h) = cc
  Ensures-out_of_fuel rejected = cc

  pub Ensures-bind {ℓ' κ'} :
      {B : Type ℓ'} {Q : B → Type κ'} {r : Outcome A} {f : A → Outcome B}
      → Ensures P r
      → ((a : A) → P a → Ensures Q (f a))
      → Ensures Q (r >>= f)
  Ensures-bind (holds {a} h) k = k a h
  Ensures-bind rejected k = rejected

pub Ensures-cases {ℓ κ} :
    {A : Type ℓ} {P : A → Type κ} (b : Bool) {x y : Outcome A}
    → (b ≡ true → Ensures P x)
    → (b ≡ false → Ensures P y)
    → Ensures P (elim b [ true ↦ x | false ↦ y ])
Ensures-cases true hx hy = hx refl
Ensures-cases false hx hy = hy refl

pub Ensures-map {ℓ κ κ'} :
    {A : Type ℓ} {P : A → Type κ} {Q : A → Type κ'} {r : Outcome A}
    → Ensures P r
    → ((a : A) → P a → Q a)
    → Ensures Q r
Ensures-map (holds {a} h) k = holds (k a h)
Ensures-map rejected k = rejected

pub check-Ensures : (b : Bool) → Ensures (λ _. b ≡ true) (check b)
check-Ensures true = holds refl
check-Ensures false = rejected

pub read-Ensures :
    (p : List ℕ) (i : ℕ) → i < length p → Ensures (λ b. get_elem? p i ≡ some b) (read p i)
read-Ensures [] i h = absurd (omega arith)
read-Ensures (x ∷ p) zero h = holds refl
read-Ensures (x ∷ p) (suc i) h = read-Ensures p i (omega arith)
