-- ===== src/Auth/Totp.antt =====
-- The second factor: the time steps of backend/src/auth/totp.rs, and `verify_totp_code` of
-- auth/handlers.rs over any store. Codes come from the TOTP library, as a function of the second
-- since the epoch; what decrypts and builds a user's secret is an argument. The wall clock and the
-- clock of the store are one.
pub mod Replay
use lyra.Prelude.{
  ℕ, ◌+◌, ◌-◌, ◌*◌, ◌/◌, Bool, true, false, Option, none, some, Text, codes, text_eq, leb,
  if◌then◌else◌,
}
use lyra.Prelude.Decimal.{show_ℕ, parse_u64}
use lyra.Prelude.Result.{Result, ok, err}
use lyra.Prelude.Exec.{Exec, pure, fail, map_err, attempt, ◌>>=◌, ◌>>◌}
use lyra.Kv.{KvStore, KvError}
use lyra.Auth.{AuthError, internal, unauthorized, crypto, totp_step_key, totp_last_step_ttl_secs}
use lyra.Auth.RateLimit.{note_failed_attempt, clear_failed_attempts}
use lyra.Auth.Users.{UserData}

-- `totp.generate(second)`
abbrev pub Totp : Type 0
Totp = ℕ → Text

-- The step that `build_totp_from_raw` sets, in seconds.
abbrev pub totp_step : ℕ
totp_step = 30

-- A reading of the clock as seconds.
abbrev pub as_secs : ℕ → ℕ
as_secs now = now / 1_000_000_000

abbrev pub code_at : Totp → Text → ℕ → Bool
code_at totp code s = text_eq (totp (s * totp_step)) code

-- The first step with the code among the last, the current and the next one; at the very beginning
-- the last one is the current one.
unfoldable pub matched_totp_step : ℕ → Totp → Text → Option ℕ
matched_totp_step now totp code =
    let current = as_secs now / totp_step in
    if code_at totp code (current - 1)
    then some (current - 1)
    else if code_at totp code current
    then some current
    else if code_at totp code (current + 1)
    then some (current + 1)
    else none

-- `.ok().flatten().and_then(|v| v.parse().ok())`
unfoldable pub stored_step : Result KvError (Option Text) → Option ℕ
stored_step (err e) = none
stored_step (ok none) = none
stored_step (ok (some v)) = parse_u64 v

unfoldable pub is_replay : Option ℕ → ℕ → Bool
is_replay none step = false
is_replay (some s) step = leb step s

-- What opens a user's TOTP: the user's key decrypts the stored secret, and the library builds the
-- generator.
pub record TotpServices : Type 0 where
  pub decrypt_totp_secret : Text → Text → Option Text
  pub build_totp : Text → Text → Option Totp

abbrev pub or_fail : {S E A : Type 0} → E → Option A → Exec S E A
or_fail e none = fail e
or_fail e (some a) = pure a

module _ (kv : KvStore) where
  open kv use {Store}

  -- Whether the step is a replay decides.
  settle_step : ℕ → Text → Text → ℕ → Bool → Exec Store AuthError Unit
  settle_step now rl_key user_id step true = do
    note_failed_attempt kv now rl_key (codes "Verification failed")
    fail (unauthorized (codes "TOTP code already used"))
  settle_step now rl_key user_id step false = do
    map_err (λ _. internal (codes "Verification failed"))
        (kv.set now (totp_step_key user_id) (show_ℕ step) (some totp_last_step_ttl_secs))
    clear_failed_attempts kv now rl_key

  -- What follows a step that matched.
  unfoldable pub accept_step : ℕ → Text → Text → ℕ → Exec Store AuthError Unit
  unfolding settle_step
  accept_step now rl_key user_id step = do
    found ← attempt (kv.get now (totp_step_key user_id))
    settle_step now rl_key user_id step (is_replay (stored_step found) step)

  check_step : ℕ → Text → Text → Option ℕ → Exec Store AuthError Unit
  unfolding accept_step
  check_step now rl_key user_id (some step) = accept_step now rl_key user_id step
  check_step now rl_key user_id none = do
    note_failed_attempt kv now rl_key (codes "Verification failed")
    fail (unauthorized (codes "Invalid TOTP code"))

  unfoldable pub verify_totp_code :
      TotpServices → ℕ → Text → Text → UserData → Text → Exec Store AuthError Unit
  unfolding check_step
  verify_totp_code sv now rl_key user_id user code = do
    stored_secret ← or_fail (internal (codes "TOTP not configured")) user.totp_secret
    secret ← or_fail crypto (sv.decrypt_totp_secret user_id stored_secret)
    totp ← or_fail (internal (codes "Failed to build TOTP")) (sv.build_totp secret user.username)
    check_step now rl_key user_id (matched_totp_step now totp code)
