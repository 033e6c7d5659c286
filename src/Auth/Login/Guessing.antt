-- ===== src/Auth/Login/Guessing.antt =====
-- Wrong logins one after another, as the limiter of backend/src/auth/session.rs counts them.
use lyra.Prelude.{
  ℕ, suc, ◌+◌, ◌≤◌, ◌<◌, ◌≡◌, ◌∙◌, ap, min, true, ◌&&◌, Option, none, List, [], ◌∷◌, length, Text,
  leb, ltb, arith, inl, inr, ◌↔◌, Bool-cases, if◌then◌else◌,
}
use lyra.Prelude.Result.{ok, err}
use lyra.Kv.{KvStore, KvLaws, from_secs}
use lyra.Auth.{too_many_requests, login_rl_key, rate_limit_window_secs}
use lyra.Auth.RateLimit.{ensure_not_rate_limited}
use lyra.Auth.RateLimit.Window.{Counts, first_failure, next_failure, ensure_lem, ensure_fresh}
use lyra.Auth.RateLimit.Frame.{Keeps-ensure}
use lyra.Auth.Users.{Db}
use lyra.Auth.Login.{LoginServices, LoginRequest, auth_login}
use lyra.Auth.Login.Lockout.{op, is_wrong, login_wrong, login_limited, login_limited_iff}

module _ (kv : KvStore) (laws : KvLaws kv) (sv : LoginServices) (db : Db) (token name : Text) where
  open kv use {Store}

  abbrev key : Text
  key = login_rl_key name

  -- A request of the guessed user.
  pub record Guess : Type 0 where
    pub at : ℕ
    pub password : Text
    pub captcha_token : Option Text

  abbrev pub request : Guess → LoginRequest
  request g = record { username = name; password = g.password; captcha_token = g.captcha_token }

  pub guesses : List Guess → Store → Store
  guesses [] s = s
  guesses (g ∷ gs) s = guesses gs (auth_login kv sv db g.at token (request g) s).1

  Counts-ensure :
      (from until n t : ℕ) (s : Store)
      → Counts kv laws key op from until n s
      → from ≤ t
      → t < until
      → Counts kv laws key op t until n (ensure_not_rate_limited kv t key op s).1
  Counts-ensure from until n t s c p q =
      let keeps = Keeps-ensure kv laws t key op key in
      record {
        open_now = λ u r v. keeps.unchanged s u r ∙ c.open_now u (omega arith) v;
        shut = λ u r. keeps.unchanged s u (omega arith) ∙ c.shut u r;
      }

  -- A wrong guess is counted up to the fifth; later ones are refused and not counted.
  Counts-guess :
      (from until n : ℕ) (g : Guess) (s : Store)
      → Counts kv laws key op from until n s
      → from ≤ g.at
      → g.at < until
      → n ≤ 5
      → is_wrong sv db (request g) ≡ true
      → Counts kv laws key op g.at until
          (min 5 (n + 1))
          (auth_login kv sv db g.at token (request g) s).1
  Counts-guess from until n g s c p q h wrong = elim (Bool-cases (leb 5 n)) [
    | inl full ↦
        let same : min 5 (n + 1) ≡ n = ground (arith, full) in
        let refused = ensure_lem kv laws key op from until n g.at s c p (omega arith) in
        let shut =
          login_limited kv laws sv db token g.at (request g) s (ground (arith, refused, full)) in
        rw (same, ap (λ r. r.1) shut) (Counts-ensure from until n g.at s c p q)
    | inr room ↦
        let same : min 5 (n + 1) ≡ n + 1 = ground (arith, room) in
        let passed = ensure_lem kv laws key op from until n g.at s c p (omega arith) in
        let noted =
          login_wrong kv laws sv db token g.at (request g) s wrong (ground (arith, passed, room)) in
        rw (same, noted)
          (next_failure kv laws key op g.at until n g.at _ (Counts-ensure from until n g.at s c p q)
            (omega arith) q (omega arith))
  ]

  -- The guesses come in order, before `until`, and all are wrong.
  abbrev pub WrongWithin : ℕ → ℕ → List Guess → Type 0
  WrongWithin from until [] = Unit
  WrongWithin from until (g ∷ gs) =
      (from ≤ g.at)
      × (g.at < until)
      × (is_wrong sv db (request g) ≡ true)
      × WrongWithin g.at until gs

  abbrev pub last_at : ℕ → List Guess → ℕ
  last_at t [] = t
  last_at t (g ∷ gs) = last_at g.at gs

  Counts-guesses :
      (from until n : ℕ) (gs : List Guess) (s : Store)
      → Counts kv laws key op from until n s
      → n ≤ 5
      → WrongWithin from until gs
      → Counts kv laws key op (last_at from gs) until (min 5 (n + length gs)) (guesses gs s)
  unfolding guesses
  Counts-guesses from until n [] s c h w = let same : min 5 (n + 0) ≡ n = omega arith in rw same c
  Counts-guesses from until n (g ∷ gs) s c h w =
      let same : min 5 (n + suc (length gs)) ≡ min 5 (min 5 (n + 1) + length gs) = omega arith in
      rw same (
        Counts-guesses g.at until (min 5 (n + 1)) gs _
          (Counts-guess from until n g s c w.0 w.1 h w.2) (omega arith) w.3)

  first_guess :
      (g : Guess) (s : Store)
      → laws.peek s g.at key ≡ none
      → is_wrong sv db (request g) ≡ true
      → Counts kv laws key op g.at
          (g.at + from_secs rate_limit_window_secs)
          1
          (auth_login kv sv db g.at token (request g) s).1
  first_guess g s fresh wrong =
      let keeps = Keeps-ensure kv laws g.at key op key in
      let noted =
        login_wrong kv laws sv db token g.at (request g) s wrong
          (ensure_fresh kv laws key op g.at s fresh) in
      rw noted (first_failure kv laws key op g.at _ (keeps.unchanged s g.at (omega arith) ∙ fresh))

  -- Wrong logins of one user name, which pass the captcha and whose password is wrong or whose
  -- name nobody has, the first at a moment when no failure of that name is counted and the others,
  -- in order, within 15 minutes of it: at any later moment a login of that name, whatever its
  -- password, is refused for too many requests exactly when there were at least five of them and
  -- the 15 minutes are not over.
  pub guessing_locks :
      (g last : Guess) (gs : List Guess) (s : Store)
      → laws.peek s g.at key ≡ none
      → is_wrong sv db (request g) ≡ true
      → WrongWithin g.at (g.at + from_secs rate_limit_window_secs) gs
      → last_at g.at gs ≤ last.at
      → ((auth_login kv sv db last.at token (request last) (guesses (g ∷ gs) s)).0
          ≡ err too_many_requests)
        ↔ (leb 5 (length gs + 1) && ltb last.at (g.at + from_secs rate_limit_window_secs) ≡ true)
  unfolding guesses
  guessing_locks g last gs s fresh wrong w p =
      let until = g.at + from_secs rate_limit_window_secs in
      let n = min 5 (1 + length gs) in
      let counts = Counts-guesses g.at until 1 gs _ (first_guess g s fresh wrong) (omega arith) w in
      let same : leb 5 n ≡ leb 5 (length gs + 1) = ground arith in
      let e =
        ensure_lem kv laws key op (last_at g.at gs) until n last.at _ counts p (omega arith) in
      login_limited_iff kv laws sv db token last.at (request last) _ _
        (e ∙ ap (λ b. if b && ltb last.at until then err too_many_requests else ok tt) same)
