-- ===== src/Auth/Login/SecondFactor.antt =====
-- What the login of backend/src/auth/handlers.rs writes for a user with a second factor.
use lyra.Prelude.{
  ℕ, ◌≤◌, ◌≡◌, refl, sym, subst, ◌∙◌, Bool, true, false, Option, none, some, Text, text_eq, codes,
}
use lyra.Kv.{KvStore, KvLaws}
use lyra.Kv.Frame.{Keeps, Keeps-pure, Keeps-fail, Keeps-lift, Keeps-map_err, Keeps-bind, Keeps-set}
use lyra.Auth.RateLimit.Frame.{Keeps-ensure, Keeps-note, Keeps-clear}
use lyra.Auth.{
  internal, internal_server_error, invalid_credentials, login_rl_key, pending_key, sess_key,
  tok_key, pending_ttl_secs,
}
use lyra.Auth.Session.{get_session, create_pending_session}
use lyra.Auth.Session.Reads.{session_user, session_user-cong, get_session-session_user}
use lyra.Auth.Users.{UserData, Db, find_user_by_username, user_info_from}
use lyra.Auth.Totp.{or_fail}
use lyra.Auth.Login.{
  LoginServices, LoginRequest, ensure_captcha, auth_login, refuse, accept_password, login_user,
  open_session,
}

login-tok : (n t : Text) → text_eq (login_rl_key n) (tok_key t) ≡ false
unfolding login_rl_key tok_key text_eq
login-tok n t = refl

login-sess : (n : Text) (e : ℕ) (t : Text) → text_eq (login_rl_key n) (sess_key e t) ≡ false
unfolding login_rl_key sess_key text_eq
login-sess n e t = refl

pending-tok : (p t : Text) → text_eq (pending_key p) (tok_key t) ≡ false
unfolding pending_key tok_key text_eq
pending-tok p t = refl

pending-sess : (p : Text) (e : ℕ) (t : Text) → text_eq (pending_key p) (sess_key e t) ≡ false
unfolding pending_key sess_key text_eq
pending-sess p e t = refl

module _ {kv : KvStore} {laws : KvLaws kv} {now : ℕ} {j : Text} where
  Keeps-or_fail : {E A : Type 0} (e : E) (o : Option A) → Keeps kv laws now j (or_fail e o)
  Keeps-or_fail e none = Keeps-fail e
  Keeps-or_fail e (some a) = Keeps-pure a

module _ (kv : KvStore) (laws : KvLaws kv) (sv : LoginServices) (db : Db) (now : ℕ) where
  open kv use {Store}
  open laws use {peek}

  -- What a login writes for a user with a second factor.
  module _ (name token j : Text) (a : text_eq (login_rl_key name) j ≡ false)
      (b : text_eq (pending_key token) j ≡ false) where
    Keeps-accept :
        (valid : Bool)
        → Keeps kv laws now j (accept_password kv sv db now (login_rl_key name) valid)
    unfolding accept_password refuse
    Keeps-accept true = Keeps-clear kv laws now (login_rl_key name) j a
    Keeps-accept false =
        Keeps-bind (Keeps-note kv laws now (login_rl_key name) (codes "Authentication failed") j a)
          (λ _. Keeps-fail invalid_credentials)

    Keeps-open : (user : UserData) → Keeps kv laws now j (open_session kv sv db now token user true)
    unfolding open_session create_pending_session
    Keeps-open user =
        Keeps-bind
          (Keeps-map_err (λ _. internal (codes "Failed to create pending session"))
            (Keeps-bind
              (Keeps-map_err (λ _. internal_server_error)
                (Keeps-set (pending_key token) user.id (some pending_ttl_secs) b))
              (λ _. Keeps-pure token)))
          (λ made.
            Keeps-pure (record { token = made; user = user_info_from user; requires_totp = true }))

    Keeps-login_user :
        (password : Text) (user : UserData)
        → user.totp_enabled ≡ true
        → Keeps kv laws now j
            (login_user kv sv db now (login_rl_key name) token password (some user))
    unfolding login_user
    Keeps-login_user password user on =
        Keeps-bind
          (Keeps-or_fail (internal (codes "Password hash not available")) user.password_hash)
          (λ hash.
            Keeps-bind
              (Keeps-or_fail (internal (codes "Authentication failed"))
                (sv.verify_password password hash))
              (λ valid. Keeps-bind (Keeps-accept valid) (λ _.
                subst (λ t. Keeps kv laws now j (open_session kv sv db now token user t)) (sym on)
                  (Keeps-open user))))

    Keeps-login :
        (password : Text) (captcha_token : Option Text) (user : UserData)
        → user.totp_enabled ≡ true
        → find_user_by_username db name ≡ some user
        → Keeps kv laws now j (
            auth_login kv sv db now token
              (record { username = name; password = password; captcha_token = captcha_token }))
    unfolding auth_login
    Keeps-login password captcha_token user on found =
        Keeps-bind (Keeps-ensure kv laws now (login_rl_key name) (codes "Authentication failed") j)
          (λ _. Keeps-bind (Keeps-lift (ensure_captcha sv.captcha captcha_token)) (λ _.
            subst
              (λ o.
                Keeps kv laws now j (login_user kv sv db now (login_rl_key name) token password o))
              (sym found) (Keeps-login_user password user on)))

  -- For a user with a second factor, a login opens no session and ends none, whatever its password
  -- and whatever it answers: at any later moment each token answers the user that it would have
  -- answered without the login.
  pub password_opens_no_session :
      (u : ℕ) (token t : Text) (req : LoginRequest) (user : UserData) (s : Store)
      → now ≤ u
      → find_user_by_username db req.username ≡ some user
      → user.totp_enabled ≡ true
      → (get_session kv db.epochs u t (auth_login kv sv db now token req s).1).0
        ≡ (get_session kv db.epochs u t s).0
  password_opens_no_session u token t req user s h found on =
      get_session-session_user kv laws db.epochs u t _
      ∙ same
      ∙ sym (get_session-session_user kv laws db.epochs u t s)
    where
      same_tok : peek (auth_login kv sv db now token req s).1 u (tok_key t) ≡ peek s u (tok_key t)
      same_tok =
          (Keeps-login req.username token (tok_key t) (login-tok req.username t)
              (pending-tok token t) req.password req.captcha_token user on found).unchanged
            s u h

      same_sess :
          (e : ℕ)
          → peek (auth_login kv sv db now token req s).1 u (sess_key e t) ≡ peek s u (sess_key e t)
      same_sess e =
          (Keeps-login req.username token (sess_key e t) (login-sess req.username e t)
              (pending-sess token e t) req.password req.captcha_token user on found).unchanged
            s u h

      same :
          session_user kv laws db.epochs (auth_login kv sv db now token req s).1 u t
          ≡ session_user kv laws db.epochs s u t
      same = session_user-cong kv laws db.epochs _ s u t same_tok same_sess
