-- ===== src/Prelude/Results.antt =====
-- A value or an error, for Go's functions that return both.
use mathlib.Core.Path.{◌≡◌, refl}
use mathlib.Core.Option.{Option, none, some}

pub data Result {ℓ κ} (E : Type κ) (A : Type ℓ) : Type (ℓ ⊔ κ) where
  ok : A → Result E A
  err : E → Result E A

module _ {ℓ κ} {E : Type κ} {A : Type ℓ} where
  -- A missing value as the error `e`.
  abbrev pub or_error : Option A → E → Result E A
  or_error (some x) e = ok x
  or_error none e = err e

  pub or_error-eq-ok : (o : Option A) (e : E) {x : A} → or_error o e ≡ ok x → o ≡ some x
  or_error-eq-ok (some x) e returned = cc
  or_error-eq-ok none e returned = cc

  pub ok_inj : {x y : A} → ◌≡◌ {A = Result E A} (ok x) (ok y) → x ≡ y
  ok_inj same = cc

module _ {ℓ κ μ} {E : Type κ} {A : Type ℓ} {B : Type μ} where
  -- `if err != nil { return nil, err }` after each step of a `do` block.
  infixl 5 ◌>>=◌
  abbrev pub ◌>>=◌ : Result E A → (A → Result E B) → Result E B
  err problem >>= next = err problem
  ok value >>= next = next value

  -- Where the steps succeed, so did the first one, and the others from its value.
  pub >>=-eq-ok :
      (first : Result E A) (next : A → Result E B) {y : B}
      → (first >>= next) ≡ ok y
      → (x : A) × (first ≡ ok x) × (next x ≡ ok y)
  >>=-eq-ok (err problem) next returned = cc
  >>=-eq-ok (ok value) next returned = (value, refl, returned)
