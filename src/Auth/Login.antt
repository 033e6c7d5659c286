-- ===== src/Auth/Login.antt =====
-- The login of backend/src/auth/handlers.rs over any store: the password, and for an account with
-- a second factor the code. Hashing, TOTP generation and the captcha provider answer through
-- `LoginServices`; a token from the generator is an argument.
pub mod Lockout
pub mod Guessing
pub mod SecondFactor
use lyra.Prelude.{ℕ, Bool, true, false, Option, none, some, Text, codes, if◌then◌else◌}
use lyra.Prelude.Trim.{is_empty, trim}
use lyra.Prelude.Result.{Result, ok, err}
use lyra.Prelude.Exec.{Exec, pure, fail, lift, map_err, attempt, ◌>>=◌, ◌>>◌}
use lyra.Kv.{KvStore}
use lyra.Auth.{
  StatusCode, AuthError, bad_request, unauthorized, internal, invalid_credentials, login_rl_key,
  totp_rl_key,
}
use lyra.Auth.RateLimit.{ensure_not_rate_limited, note_failed_attempt, clear_failed_attempts}
use lyra.Auth.Session.{
  create_session, create_pending_session, get_pending_session, promote_pending_session,
}
use lyra.Auth.Users.{UserData, UserInfo, user_info_from, Db, find_user_by_username, find_user_by_id}
use lyra.Auth.Totp.{TotpServices, verify_totp_code, or_fail}

pub record LoginRequest : Type 0 where
  pub username : Text
  pub password : Text
  pub captcha_token : Option Text

pub record LoginResponse : Type 0 where
  pub token : Text
  pub user : UserInfo
  pub requires_totp : Bool

-- `captcha` is what the provider in effect answers to a token, or none without a provider;
-- `verify_password` has no answer where the stored hash is malformed.
pub record LoginServices : Type 0 where
  pub captcha : Option (Text → Bool)
  pub verify_password : Text → Text → Option Bool
  pub hash_password : Text → Option Text
  pub totp : TotpServices

with_provider : (Text → Bool) → Option Text → Result AuthError Unit
with_provider verify none = err (bad_request (codes "Captcha verification required"))
with_provider verify (some token) =
    if is_empty (trim token)
    then err (bad_request (codes "Captcha verification required"))
    else if verify token
    then ok tt
    else err (bad_request (codes "Captcha verification failed"))

unfoldable pub ensure_captcha : Option (Text → Bool) → Option Text → Result AuthError Unit
unfolding with_provider
ensure_captcha none token = ok tt
ensure_captcha (some verify) token = with_provider verify token

module _ (kv : KvStore) (sv : LoginServices) (db : Db) where
  open kv use {Store}

  -- The checks of a request, up to the user whose password it has.
  refuse : {A : Type 0} → ℕ → Text → AuthError → Exec Store AuthError A
  refuse now rl_key e = do note_failed_attempt kv now rl_key (codes "Authentication failed"); fail e

  accept_password : ℕ → Text → Bool → Exec Store AuthError Unit
  unfolding refuse
  accept_password now rl_key false = refuse now rl_key invalid_credentials
  accept_password now rl_key true = clear_failed_attempts kv now rl_key

  -- A second factor leaves a pending session only.
  open_session : ℕ → Text → UserData → Bool → Exec Store AuthError LoginResponse
  open_session now token user true = do
    made ←
        map_err (λ _. internal (codes "Failed to create pending session"))
          (create_pending_session kv now token user.id)
    pure (record { token = made; user = user_info_from user; requires_totp = true })
  open_session now token user false = do
    made ←
        map_err (λ _. internal (codes "Failed to create session"))
          (create_session kv db.epochs now token user.id)
    pure (record { token = made; user = user_info_from user; requires_totp = false })

  login_user : ℕ → Text → Text → Text → Option UserData → Exec Store AuthError LoginResponse
  unfolding refuse accept_password open_session
  login_user now rl_key token password none = refuse now rl_key invalid_credentials
  login_user now rl_key token password (some user) = do
    hash ← or_fail (internal (codes "Password hash not available")) user.password_hash
    valid ← or_fail (internal (codes "Authentication failed")) (sv.verify_password password hash)
    accept_password now rl_key valid
    open_session now token user user.totp_enabled

  unfoldable pub auth_login : ℕ → Text → LoginRequest → Exec Store AuthError LoginResponse
  unfolding login_user
  auth_login now token req = do
    ensure_not_rate_limited kv now (login_rl_key req.username) (codes "Authentication failed")
    lift (ensure_captcha sv.captcha req.captcha_token)
    login_user now (login_rl_key req.username) token req.password
        (find_user_by_username db req.username)

  read_pending : ℕ → Text → Exec Store AuthError Text
  read_pending now pending_token s =
      let (found, s') = get_pending_session kv now pending_token s in
      or_fail (unauthorized (codes "Invalid or expired pending session")) found s'

  -- `token` is the session token that is generated if the code is good.
  unfoldable pub totp_verify : ℕ → Text → Text → Text → Exec Store AuthError LoginResponse
  unfolding read_pending
  totp_verify now pending_token code token = do
    user_id ← read_pending now pending_token
    ensure_not_rate_limited kv now (totp_rl_key user_id) (codes "Verification failed")
    user ← or_fail (internal (codes "User not found")) (find_user_by_id db user_id)
    verify_totp_code kv sv.totp now (totp_rl_key user_id) user_id user code
    promoted ←
        map_err (λ _. internal (codes "Failed to promote session"))
          (promote_pending_session kv db.epochs now pending_token token)
    made ← or_fail (unauthorized (codes "Invalid or expired pending session")) promoted
    pure (record { token = made; user = user_info_from user; requires_totp = false })
