-- ===== src/Auth/Login/Lockout.antt =====
-- The login of backend/src/auth/handlers.rs as the limiter sees it: which requests are counted, and
-- which answers are the limiter's.
use lyra.Prelude.{
  ℕ, ◌≡◌, refl, ap, Bool, true, false, ◌&&◌, not, Option, none, some, Text, codes, arith, inl, inr,
  ◌↔◌, Bool-cases, Option-cases, if◌then◌else◌,
}
use lyra.Prelude.Exec.{
  Never, Never-pure, Never-lift, Never-fail, Never-map_err, Never-attempt, Never-bind,
}
use lyra.Prelude.Result.{Result, ok, err, Result-cases}
use lyra.Kv.{KvStore, KvLaws}
use lyra.Auth.{
  internal, invalid_credentials, too_many_requests, login_rl_key, rate_limit_window_secs,
}
use lyra.Auth.RateLimit.{
  ensure_not_rate_limited, note_failed_attempt, record_failed_attempt, clear_failed_attempts,
}
use lyra.Auth.Session.{create_session, create_pending_session}
use lyra.Auth.Users.{UserData, Db, user_info_from, find_user_by_username}
use lyra.Auth.Totp.{or_fail}
use lyra.Auth.Login.{
  LoginServices, LoginRequest, LoginResponse, ensure_captcha, with_provider, auth_login, refuse,
  accept_password, login_user, open_session,
}

passes : {E A : Type 0} → Result E A → Bool
passes (ok a) = true
passes (err e) = false

wrong_hash : Option Bool → Bool
wrong_hash none = false
wrong_hash (some valid) = not valid

wrong_user : LoginServices → Text → Option Text → Bool
unfolding wrong_hash
wrong_user sv password none = false
wrong_user sv password (some hash) = wrong_hash (sv.verify_password password hash)

wrong_for : LoginServices → Text → Option UserData → Bool
unfolding wrong_user
wrong_for sv password none = true
wrong_for sv password (some user) = wrong_user sv password user.password_hash

-- A request that gets past the captcha and has the wrong password, or an unknown user.
unfoldable pub is_wrong : LoginServices → Db → LoginRequest → Bool
unfolding passes wrong_for
is_wrong sv db req =
    passes (ensure_captcha sv.captcha req.captcha_token)
    && wrong_for sv req.password (find_user_by_username db req.username)

abbrev pub op : Text
op = codes "Authentication failed"

module _ (kv : KvStore) (laws : KvLaws kv) (sv : LoginServices) (db : Db) (token : Text) where
  open kv use {Store}

  -- A wrong password is noted.
  login_user_wrong :
      (now : ℕ) (rl_key password : Text) (o : Option UserData) (s : Store)
      → wrong_for sv password o ≡ true
      → (login_user kv sv db now rl_key token password o s).1
        ≡ (note_failed_attempt kv now rl_key op s).1
  unfolding login_user refuse accept_password wrong_for wrong_user wrong_hash
  login_user_wrong now rl_key password none s h =
      elim (Result-cases (note_failed_attempt kv now rl_key op s).0) [
        | inl (a, r) ↦ ground (arith, r)
        | inr (x, r) ↦ ground (arith, r)
      ]
  login_user_wrong now rl_key password (some user) s h = elim (Option-cases user.password_hash) [
    | inl e ↦ ground (arith, e)
    | inr (hash, e) ↦ elim (Option-cases (sv.verify_password password hash)) [
      | inl f ↦ ground (arith, e, f)
      | inr (valid, f) ↦ elim (Bool-cases valid) [
        | inl g ↦ ground (arith, e, f, g)
        | inr g ↦ elim (Result-cases (note_failed_attempt kv now rl_key op s).0) [
          | inl (a, r) ↦ ground (arith, e, f, g, r)
          | inr (x, r) ↦ ground (arith, e, f, g, r)
        ]
      ]
    ]
  ]

  -- Past the limiter a wrong request is counted.
  pub login_wrong :
      (now : ℕ) (req : LoginRequest) (s : Store)
      → is_wrong sv db req ≡ true
      → (ensure_not_rate_limited kv now (login_rl_key req.username) op s).0 ≡ ok tt
      → (auth_login kv sv db now token req s).1
        ≡ (note_failed_attempt kv now
            (login_rl_key req.username)
            op
            (ensure_not_rate_limited kv now (login_rl_key req.username) op s).1).1
  unfolding auth_login is_wrong passes
  login_wrong now req s wrong free =
      let user = find_user_by_username db req.username in
      let checked = ensure_not_rate_limited kv now (login_rl_key req.username) op s in
      ground
        (arith, free, login_user_wrong now (login_rl_key req.username) req.password user checked.1)

  -- The limiter's refusal is the login's.
  pub login_limited :
      (now : ℕ) (req : LoginRequest) (s : Store)
      → (ensure_not_rate_limited kv now (login_rl_key req.username) op s).0 ≡ err too_many_requests
      → auth_login kv sv db now token req s ≡ (
        err too_many_requests,
        (ensure_not_rate_limited kv now (login_rl_key req.username) op s).1,
      )
  unfolding auth_login
  login_limited now req s limited = ground (arith, limited)

  -- What follows the limiter never answers as the limiter does.
  Never-or_fail :
      {A : Type 0} (m : Text) (o : Option A)
      → Never {S = Store} too_many_requests (or_fail (internal m) o)
  Never-or_fail m none = Never-fail (internal m) (λ e. cc e)
  Never-or_fail m (some a) = Never-pure a

  Never-note :
      (now : ℕ) (rl_key : Text) → Never too_many_requests (note_failed_attempt kv now rl_key op)
  unfolding note_failed_attempt
  Never-note now rl_key =
      Never-bind
        (Never-map_err (λ _. internal op)
          (record_failed_attempt kv now rl_key rate_limit_window_secs) (λ x e. cc e))
        (λ _. Never-pure tt)

  Never-refuse :
      (now : ℕ) (rl_key : Text)
      → Never too_many_requests (refuse kv sv db {A = LoginResponse} now rl_key invalid_credentials)
  unfolding refuse note_failed_attempt
  Never-refuse now rl_key =
      Never-bind (Never-note now rl_key) (λ _. Never-fail invalid_credentials (λ e. cc e))

  Never-accept :
      (now : ℕ) (rl_key : Text) (valid : Bool)
      → Never too_many_requests (accept_password kv sv db now rl_key valid)
  unfolding accept_password refuse note_failed_attempt clear_failed_attempts
  Never-accept now rl_key true = Never-bind (Never-attempt (kv.del now rl_key)) (λ r. Never-pure tt)
  Never-accept now rl_key false =
      Never-bind (Never-note now rl_key) (λ _. Never-fail invalid_credentials (λ e. cc e))

  Never-open :
      (now : ℕ) (user : UserData) (totp : Bool)
      → Never too_many_requests (open_session kv sv db now token user totp)
  unfolding open_session
  Never-open now user true =
      Never-bind
        (Never-map_err (λ _. internal (codes "Failed to create pending session"))
          (create_pending_session kv now token user.id) (λ x e. cc e))
        (λ made.
          Never-pure (record { token = made; user = user_info_from user; requires_totp = true }))
  Never-open now user false =
      Never-bind
        (Never-map_err (λ _. internal (codes "Failed to create session"))
          (create_session kv db.epochs now token user.id) (λ x e. cc e))
        (λ made.
          Never-pure (record { token = made; user = user_info_from user; requires_totp = false }))

  Never-login_user :
      (now : ℕ) (rl_key password : Text) (o : Option UserData)
      → Never too_many_requests (login_user kv sv db now rl_key token password o)
  unfolding login_user
  Never-login_user now rl_key password none = Never-refuse now rl_key
  Never-login_user now rl_key password (some user) =
      Never-bind (Never-or_fail (codes "Password hash not available") user.password_hash) (λ hash.
        Never-bind
          (Never-or_fail (codes "Authentication failed") (sv.verify_password password hash))
          (λ valid.
            Never-bind (Never-accept now rl_key valid)
              (λ _. Never-open now user user.totp_enabled)))

  captcha_answers :
      (req : LoginRequest) → ensure_captcha sv.captcha req.captcha_token ≡ err too_many_requests → ⊥
  unfolding ensure_captcha with_provider
  captcha_answers req = answers sv.captcha req.captcha_token
    where
      answers :
          (c : Option (Text → Bool)) (t : Option Text)
          → ensure_captcha c t ≡ err too_many_requests
          → ⊥
      answers none t h = cc h
      answers (some v) none h = cc h
      answers (some v) (some t) h = ground (arith, h)

  login_free :
      (now : ℕ) (req : LoginRequest) (s : Store)
      → (ensure_not_rate_limited kv now (login_rl_key req.username) op s).0 ≡ ok tt
      → (auth_login kv sv db now token req s).0 ≡ err too_many_requests
      → ⊥
  unfolding auth_login
  login_free now req s free h =
      let user = find_user_by_username db req.username in
      let rest =
        Never-bind
          (Never-lift {S = Store} (ensure_captcha sv.captcha req.captcha_token)
            (captcha_answers req))
          (λ _. Never-login_user now (login_rl_key req.username) req.password user) in
      rest.refuted (ensure_not_rate_limited kv now (login_rl_key req.username) op s).1
        (cc (h, free))

  -- A login answers as the limiter exactly where the limiter does.
  pub login_limited_iff :
      (now : ℕ) (req : LoginRequest) (s : Store) (limited : Bool)
      → (ensure_not_rate_limited kv now (login_rl_key req.username) op s).0
        ≡ (if limited then err too_many_requests else ok tt)
      → ((auth_login kv sv db now token req s).0 ≡ err too_many_requests) ↔ (limited ≡ true)
  login_limited_iff now req s true e = (λ h. refl, λ h. ap (λ r. r.0) (login_limited now req s e))
  login_limited_iff now req s false e = (λ h. absurd (login_free now req s e h), λ h. cc h)
