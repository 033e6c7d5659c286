-- ===== src/Prelude/Result.antt =====
-- Rust's `Result`, with the `?` operator as bind.
use mathlib.Core.Path.{◌≡◌, refl}
use mathlib.Core.Logic.{◌⊎◌, inl, inr}

pub data Result {ℓ} (E A : Type ℓ) : Type ℓ where
  ok : A → Result E A
  err : E → Result E A

infixl 5 ◌>>=◌ ◌>>◌
abbrev pub ◌>>=◌ {ℓ} : {E A B : Type ℓ} → Result E A → (A → Result E B) → Result E B
ok a >>= f = f a
err e >>= f = err e

abbrev pub ◌>>◌ {ℓ} : {E A B : Type ℓ} → Result E A → Result E B → Result E B
m >> k = m >>= λ _. k

pub Result-cases :
    {E A : Type 0} (r : Result E A) → ((a : A) × (r ≡ ok a)) ⊎ ((e : E) × (r ≡ err e))
Result-cases (ok a) = inl (a, refl)
Result-cases (err e) = inr (e, refl)
