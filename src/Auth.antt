-- ===== src/Auth.antt =====
-- Constants, errors and store keys of backend/src/auth (mod.rs, types.rs and the head of
-- session.rs).
pub mod Keys
pub mod RateLimit
pub mod Session
pub mod Users
pub mod Totp
pub mod Login
pub mod Account
use lyra.Prelude.{ℕ, ◌*◌, ◌/◌, ◌++◌, Text, codes}
use lyra.Prelude.Int.{ℤ, pos}
use lyra.Prelude.Decimal.{show_ℕ}

abbrev pub session_ttl_secs : ℕ
session_ttl_secs = 30 * 24 * 60 * 60

abbrev pub pending_ttl_secs : ℕ
pending_ttl_secs = 5 * 60

abbrev pub rate_limit_max_attempts : ℤ
rate_limit_max_attempts = pos 5

abbrev pub rate_limit_window_secs : ℕ
rate_limit_window_secs = 15 * 60

abbrev pub totp_last_step_ttl_secs : ℕ
totp_last_step_ttl_secs = 120

abbrev pub max_password_length : ℕ
max_password_length = 1024

-- The two statuses that the session code answers with.
pub data StatusCode : Type 0 where
  not_found internal_server_error : StatusCode

-- A crypto failure is kept without its message.
pub data AuthError : Type 0 where
  bad_request : Text → AuthError
  unauthorized : Text → AuthError
  too_many_requests : AuthError
  conflict : Text → AuthError
  internal : Text → AuthError
  crypto : AuthError

abbrev pub invalid_credentials : AuthError
invalid_credentials = unauthorized (codes "Invalid username or password")

-- `sess_epoch` starts at 0 and is only ever raised, so that it is printed without a sign.
unfoldable pub sess_prefix : ℕ → Text
sess_prefix epoch = codes "sess:" ++ (show_ℕ epoch ++ codes ":")

unfoldable pub sess_key : ℕ → Text → Text
sess_key epoch token = codes "sess:" ++ (show_ℕ epoch ++ (codes ":" ++ token))

unfoldable pub tok_key : Text → Text
tok_key token = codes "tok:" ++ token

unfoldable pub pending_key : Text → Text
pending_key token = codes "pending:" ++ token

unfoldable pub refresh_key : Text → Text
refresh_key token = codes "sess-refresh:" ++ token

unfoldable pub login_rl_key : Text → Text
login_rl_key username = codes "rl:login:" ++ username

unfoldable pub totp_rl_key : Text → Text
totp_rl_key user_id = codes "rl:totp:" ++ user_id

unfoldable pub pwd_rl_key : Text → Text
pwd_rl_key user_id = codes "rl:pwd:" ++ user_id

unfoldable pub totp_step_key : Text → Text
totp_step_key user_id = codes "totp_last_step:" ++ user_id
