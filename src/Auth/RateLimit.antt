-- ===== src/Auth/RateLimit.antt =====
-- The fixed-window limiter of backend/src/auth/session.rs, over any store.
pub mod Window
pub mod Frame
use lyra.Prelude.{ℕ, Bool, Option, none, some, Text, codes, if◌then◌else◌}
use lyra.Prelude.Int.{ℤ, pos, leb_ℤ}
use lyra.Prelude.Decimal.{parse_i64}
use lyra.Prelude.Exec.{Exec, pure, fail, map_err, attempt, ◌>>=◌, ◌>>◌}
use lyra.Kv.{KvStore}
use lyra.Auth.{
  StatusCode, internal_server_error, AuthError, too_many_requests, internal,
  rate_limit_max_attempts, rate_limit_window_secs,
}

-- `.and_then(|v| v.parse::<i64>().ok()).unwrap_or(0)`
or_zero : Option ℤ → ℤ
or_zero none = pos 0
or_zero (some n) = n

unfoldable pub attempts_of : Option Text → ℤ
unfolding or_zero
attempts_of none = pos 0
attempts_of (some v) = or_zero (parse_i64 v)

module _ (kv : KvStore) where
  unfoldable pub is_rate_limited : ℕ → Text → ℤ → Exec kv.Store StatusCode Bool
  is_rate_limited now key max_attempts = do
    found ← map_err (λ _. internal_server_error) (kv.get now key)
    pure (leb_ℤ max_attempts (attempts_of found))

  unfoldable pub record_failed_attempt : ℕ → Text → ℕ → Exec kv.Store StatusCode ℤ
  record_failed_attempt now key window_secs =
      map_err (λ _. internal_server_error) (kv.incr now key (pos 1) (some window_secs))

  -- A failure to clear is only logged.
  unfoldable pub clear_failed_attempts : {E : Type 0} → ℕ → Text → Exec kv.Store E Unit
  clear_failed_attempts now key = do attempt (kv.del now key); pure tt

  unfoldable pub ensure_not_rate_limited : ℕ → Text → Text → Exec kv.Store AuthError Unit
  unfolding is_rate_limited
  ensure_not_rate_limited now key op = do
    limited ← map_err (λ _. internal op) (is_rate_limited now key rate_limit_max_attempts)
    if limited then fail too_many_requests else pure tt

  unfoldable pub note_failed_attempt : ℕ → Text → Text → Exec kv.Store AuthError Unit
  unfolding record_failed_attempt
  note_failed_attempt now key op = do
    map_err (λ _. internal op) (record_failed_attempt now key rate_limit_window_secs)
    pure tt
