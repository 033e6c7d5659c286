-- ===== src/Kv/Frame.antt =====
-- Calls that leave a key alone: from a moment on, what can be read under it is what could be read.
use lyra.Prelude.{
  ℕ, ◌≤◌, ◌≡◌, refl, ◌∙◌, Bool, true, false, Option, Text, text_eq, arith, inl, inr, Option-cases,
  if◌then◌else◌,
}
use lyra.Prelude.Int.{ℤ}
use lyra.Prelude.Decimal.{parse_i64}
use lyra.Prelude.Result.{Result, ok, err}
use lyra.Prelude.Exec.{Exec, pure, fail, lift, map_err, attempt, ◌>>=◌, continue}
use lyra.Kv.{KvStore, KvLaws}

module _ (kv : KvStore) (laws : KvLaws kv) (now : ℕ) (j : Text) where
  open kv use {Store}
  open laws use {peek}

  pub record Keeps {E A : Type 0} (m : Exec Store E A) : Type 0 where
    pub unchanged : (s : Store) (u : ℕ) → now ≤ u → peek (m s).1 u j ≡ peek s u j

  incr_other :
      (k : Text) (d : ℤ) (ttl : Option ℕ) (s : Store) (u : ℕ)
      → now ≤ u
      → text_eq k j ≡ false
      → peek (kv.incr now k d ttl s).1 u j ≡ peek s u j
  incr_other k d ttl s u h e = elim (Option-cases (peek s now k)) [
    | inl fresh ↦ ground (arith, e, laws.incr_fresh_peek now u k d ttl j s h fresh)
    | inr (v, old) ↦ elim (Option-cases (parse_i64 v)) [
      | inl bad ↦ laws.incr_bad_peek now u k d ttl j s v h old bad
      | inr (c, good) ↦ ground (arith, e, laws.incr_next_peek now u k d ttl j s v c h old good)
    ]
  ]

module _ {kv : KvStore} {laws : KvLaws kv} {now : ℕ} {j : Text} where
  open kv use {Store}
  open laws use {peek}

  pub Keeps-pure : {E A : Type 0} (a : A) → Keeps kv laws now j (pure {E = E} a)
  Keeps-pure a = record { unchanged = λ s u h. refl }

  pub Keeps-fail : {E A : Type 0} (e : E) → Keeps kv laws now j (fail {A = A} e)
  Keeps-fail e = record { unchanged = λ s u h. refl }

  pub Keeps-lift : {E A : Type 0} (r : Result E A) → Keeps kv laws now j (lift r)
  Keeps-lift r = record { unchanged = λ s u h. refl }

  pub Keeps-map_err :
      {E F A : Type 0} {m : Exec Store E A} (f : E → F)
      → Keeps kv laws now j m
      → Keeps kv laws now j (map_err f m)
  Keeps-map_err f k = record { unchanged = k.unchanged }

  pub Keeps-attempt :
      {E F A : Type 0} {m : Exec Store E A}
      → Keeps kv laws now j m
      → Keeps kv laws now j (attempt {F = F} m)
  Keeps-attempt k = record { unchanged = k.unchanged }

  continued :
      {E A B : Type 0} (r : Result E A) (f : A → Exec Store E B) (s : Store) (u : ℕ)
      → now ≤ u
      → ((a : A) → Keeps kv laws now j (f a))
      → peek (continue r f s).1 u j ≡ peek s u j
  continued (ok a) f s u h k = (k a).unchanged s u h
  continued (err e) f s u h k = refl

  pub Keeps-bind :
      {E A B : Type 0} {m : Exec Store E A} {f : A → Exec Store E B}
      → Keeps kv laws now j m
      → ((a : A) → Keeps kv laws now j (f a))
      → Keeps kv laws now j (m >>= f)
  Keeps-bind {m = m} {f = f} p q = record {
    unchanged = λ s u h. continued (m s).0 f (m s).1 u h q ∙ p.unchanged s u h;
  }

  pub Keeps-if :
      {E A : Type 0} {m n : Exec Store E A} (b : Bool)
      → Keeps kv laws now j m
      → Keeps kv laws now j n
      → Keeps kv laws now j (if b then m else n)
  Keeps-if true p q = p
  Keeps-if false p q = q

  pub Keeps-get : (k : Text) → Keeps kv laws now j (kv.get now k)
  Keeps-get k = record { unchanged = λ s u h. laws.get_peek now u k j s h }

  pub Keeps-set :
      (k v : Text) (ttl : Option ℕ) → text_eq k j ≡ false → Keeps kv laws now j (kv.set now k v ttl)
  Keeps-set k v ttl e = record {
    unchanged = λ s u h. ground (arith, e, laws.set_peek now u k v ttl j s h);
  }

  pub Keeps-del : (k : Text) → text_eq k j ≡ false → Keeps kv laws now j (kv.del now k)
  Keeps-del k e = record { unchanged = λ s u h. ground (arith, e, laws.del_peek now u k j s h) }

  pub Keeps-incr :
      (k : Text) (d : ℤ) (ttl : Option ℕ)
      → text_eq k j ≡ false
      → Keeps kv laws now j (kv.incr now k d ttl)
  Keeps-incr k d ttl e = record { unchanged = λ s u h. incr_other kv laws now j k d ttl s u h e }
