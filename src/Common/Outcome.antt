-- ===== src/Common/Outcome.antt =====
-- The (value, error) pairs of Go, as a value or an error.
use mathlib.Core.Path.{◌≡◌, refl}
use mathlib.Core.Logic.{◌⊎◌, inl, inr}
use native.Mathlib.Omega.{arith}
use mathlib.Core.Option.{Option, none, some}

pub data Result {ℓ} (E A : Type ℓ) : Type ℓ where
  ok : A → Result E A
  err : E → Result E A

infixl 5 ◌>>=◌
abbrev pub ◌>>=◌ {ℓ} : {E A B : Type ℓ} → Result E A → (A → Result E B) → Result E B
ok a >>= f = f a
err e >>= f = err e

abbrev pub or_error {ℓ} : {E A : Type ℓ} → E → Option A → Result E A
or_error e none = err e
or_error e (some a) = ok a

pub Result-cases {ℓ} :
    {E A : Type ℓ} (r : Result E A) → ((e : E) × (r ≡ err e)) ⊎ ((a : A) × (r ≡ ok a))
Result-cases (err e) = inl (e, refl)
Result-cases (ok a) = inr (a, refl)

pub ok-injective {ℓ} : {E A : Type ℓ} (r : Result E A) {a b : A} → r ≡ ok a → r ≡ ok b → a ≡ b
ok-injective r h k = ground arith
