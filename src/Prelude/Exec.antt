-- ===== src/Prelude/Exec.antt =====
-- Code that reads and writes a store and may fail by `?`: what was written before a failure stays.
use mathlib.Core.Option.{Option, none, some}
use mathlib.Core.Path.{◌≡◌, refl, ap}
use lyra.Prelude.Result.{Result, ok, err}

abbrev pub Exec : Type 0 → Type 0 → Type 0 → Type 0
Exec S E A = S → Result E A × S

module _ {S E A : Type 0} where
  abbrev pub pure : A → Exec S E A
  pure a s = (ok a, s)

  abbrev pub fail : E → Exec S E A
  fail e s = (err e, s)

  -- A call that leaves the store alone.
  abbrev pub lift : Result E A → Exec S E A
  lift r s = (r, s)

module _ {S E A B : Type 0} where
  abbrev pub continue : Result E A → (A → Exec S E B) → Exec S E B
  continue (ok a) f s = f a s
  continue (err e) f s = (err e, s)

  infixl 5 ◌>>=◌ ◌>>◌
  abbrev pub ◌>>=◌ : Exec S E A → (A → Exec S E B) → Exec S E B
  ◌>>=◌ m f s = continue (m s).0 f (m s).1

  abbrev pub ◌>>◌ : Exec S E A → Exec S E B → Exec S E B
  m >> n = m >>= λ _. n

-- What ends in a failure never succeeds.
pub then_fail :
    {S E A B : Type 0} (m : Exec S E A) (e : E) (s : S) (b : B) → ((m >> fail e) s).0 ≡ ok b → ⊥
then_fail m e s b h =
    elim (m s).0 as (λ r. (continue r (λ _. fail e) (m s).1).0 ≡ ok b → ⊥) [
      | ok a ↦ λ k. cc k
      | err f ↦ λ k. cc k
    ]
      h

from_continue :
    {S E A B : Type 0} (r : Result E A) (f : A → Exec S E B) (s : S) (b : B)
    → (continue r f s).0 ≡ ok b
    → (a : A) × (r ≡ ok a) × ((f a s).0 ≡ ok b)
from_continue (ok a) f s b h = (a, refl, h)
from_continue (err e) f s b h = absurd (let impossible : ⊥ = cc (h) in impossible)

-- What succeeds has succeeded at each step.
pub bind_ok :
    {S E A B : Type 0} (m : Exec S E A) (f : A → Exec S E B) (s : S) (b : B)
    → ((m >>= f) s).0 ≡ ok b
    → (a : A) × ((m s).0 ≡ ok a) × ((f a (m s).1).0 ≡ ok b)
bind_ok m f s b h = from_continue (m s).0 f (m s).1 b h

abbrev pub relabel : {E F A : Type 0} → (E → F) → Result E A → Result F A
relabel f (ok a) = ok a
relabel f (err e) = err (f e)

module _ {S E F A : Type 0} where
  -- `.map_err(f)`
  abbrev pub map_err : (E → F) → Exec S E A → Exec S F A
  map_err f m s = (relabel f (m s).0, (m s).1)

  -- `let _ = call`: the failure is dropped.
  abbrev pub attempt : Exec S E A → Exec S F (Result E A)
  attempt m s = (ok (m s).0, (m s).1)

-- `.ok()`
abbrev pub to_option : {E A : Type 0} → Result E A → Option A
to_option (ok a) = some a
to_option (err e) = none

-- Code that does not fail with `e`.
pub record Never {S E A : Type 0} (e : E) (m : Exec S E A) : Type 0 where
  pub refuted : (s : S) → (m s).0 ≡ err e → ⊥

relabelled :
    {E F A : Type 0} {e : E} (f : F → E) (r : Result F A)
    → ((x : F) → f x ≡ e → ⊥)
    → relabel f r ≡ err e
    → ⊥
relabelled f (ok a) p h = cc h
relabelled f (err x) p h = p x (cc (h))

module _ {S E : Type 0} {e : E} where
  pub Never-pure : {A : Type 0} (a : A) → Never e (pure {S = S} a)
  Never-pure a = record { refuted = λ s h. cc h }

  pub Never-lift : {A : Type 0} (r : Result E A) → (r ≡ err e → ⊥) → Never e (lift {S = S} r)
  Never-lift r p = record { refuted = λ s h. p h }

  pub Never-fail : {A : Type 0} (f : E) → (f ≡ e → ⊥) → Never e (fail {S = S} {A = A} f)
  Never-fail f p = record { refuted = λ s h. p (cc (h)) }

  pub Never-map_err :
      {F A : Type 0} (f : F → E) (m : Exec S F A) → ((x : F) → f x ≡ e → ⊥) → Never e (map_err f m)
  Never-map_err f m p = record { refuted = λ s h. relabelled f (m s).0 p h }

  pub Never-attempt : {F A : Type 0} (m : Exec S F A) → Never e (attempt m)
  Never-attempt m = record { refuted = λ s h. cc h }

  continued :
      {A B : Type 0} (r : Result E A) (f : A → Exec S E B) (s : S)
      → (r ≡ err e → ⊥)
      → ((a : A) → Never e (f a))
      → (continue r f s).0 ≡ err e
      → ⊥
  continued (ok a) f s p q h = (q a).refuted s h
  continued (err x) f s p q h = p (let x_is : x ≡ e = cc (h) in ap err x_is)

  pub Never-bind :
      {A B : Type 0} {m : Exec S E A} {f : A → Exec S E B}
      → Never e m
      → ((a : A) → Never e (f a))
      → Never e (m >>= f)
  Never-bind {m = m} {f = f} p q = record {
    refuted = λ s h. continued (m s).0 f (m s).1 (p.refuted s) q h;
  }
