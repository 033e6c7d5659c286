-- ===== src/Auth/RateLimit/Frame.antt =====
-- The keys that the limiter of backend/src/auth/session.rs leaves alone.
use lyra.Prelude.{ℕ, ◌≡◌, false, some, Text, text_eq}
use lyra.Prelude.Int.{pos, leb_ℤ}
use lyra.Kv.{KvStore, KvLaws}
use lyra.Kv.Frame.{
  Keeps, Keeps-pure, Keeps-fail, Keeps-map_err, Keeps-attempt, Keeps-bind, Keeps-if, Keeps-get,
  Keeps-del, Keeps-incr,
}
use lyra.Auth.{
  internal, internal_server_error, too_many_requests, rate_limit_window_secs,
  rate_limit_max_attempts,
}
use lyra.Auth.RateLimit.{
  attempts_of, is_rate_limited, record_failed_attempt, ensure_not_rate_limited, note_failed_attempt,
  clear_failed_attempts,
}

module _ (kv : KvStore) (laws : KvLaws kv) (now : ℕ) (key op j : Text) where
  pub Keeps-ensure : Keeps kv laws now j (ensure_not_rate_limited kv now key op)
  unfolding ensure_not_rate_limited is_rate_limited
  Keeps-ensure =
      Keeps-bind
        (Keeps-map_err (λ _. internal op)
          (Keeps-bind (Keeps-map_err (λ _. internal_server_error) (Keeps-get key))
            (λ found. Keeps-pure (leb_ℤ rate_limit_max_attempts (attempts_of found)))))
        (λ limited. Keeps-if limited (Keeps-fail too_many_requests) (Keeps-pure tt))

  pub Keeps-note : text_eq key j ≡ false → Keeps kv laws now j (note_failed_attempt kv now key op)
  unfolding note_failed_attempt record_failed_attempt
  Keeps-note e =
      Keeps-bind
        (Keeps-map_err (λ _. internal op)
          (Keeps-map_err (λ _. internal_server_error)
            (Keeps-incr key (pos 1) (some rate_limit_window_secs) e)))
        (λ _. Keeps-pure tt)

module _ (kv : KvStore) (laws : KvLaws kv) (now : ℕ) (key j : Text) where
  pub Keeps-clear :
      {E : Type 0}
      → text_eq key j ≡ false
      → Keeps kv laws now j (clear_failed_attempts kv {E = E} now key)
  unfolding clear_failed_attempts
  Keeps-clear e = Keeps-bind (Keeps-attempt (Keeps-del key e)) (λ _. Keeps-pure tt)
