-- ===== src/Scheduler/Delay.antt =====
-- How the delays of backend/src/scheduler.rs grow and stay in bounds.
use lyra.Prelude.{
  ℕ, zero, suc, ◌*◌, ◌^◌, min, ◌≤◌, ◌≡◌, refl, Text, text_eq, text_eq_refl, arith, if◌then◌else◌,
}
use lyra.Prelude.Map.{get-insert, get-remove}
use lyra.Scheduler.{Backoff, delay, fail, succeed}

pub delay-fail :
    (a c : Text) (b : Backoff)
    → delay (fail a b) c ≡ (if text_eq a c then min (delay b a * 2) b.max_delay else delay b c)
unfolding delay fail
delay-fail a c b = ground (arith, get-insert b.delays a c (min (delay b a * 2) b.max_delay))

pub delay-succeed :
    (a c : Text) (b : Backoff) → delay (succeed a b) c ≡ (if text_eq a c then b.base else delay b c)
unfolding delay succeed
delay-succeed a c b = ground (arith, get-remove b.delays a c)

-- `k` failures of one account in a row.
unfoldable pub fail_times : ℕ → Text → Backoff → Backoff
fail_times zero a b = b
fail_times (suc k) a b = fail a (fail_times k a b)

max-fail_times : (k : ℕ) (a : Text) (b : Backoff) → (fail_times k a b).max_delay ≡ b.max_delay
unfolding fail_times fail
max-fail_times zero a b = refl
max-fail_times (suc k) a b = max-fail_times k a b

min_double : (d m p : ℕ) → min (min (d * p) m * 2) m ≡ min (d * (2 * p)) m
min_double d m p = omega arith

-- After `k` failures of an account in a row, with no success between, its delay is the one before
-- doubled `k` times, or the cap where that is less, if the delay was within the cap.
pub delay-fail_times :
    (k : ℕ) (a : Text) (b : Backoff)
    → delay b a ≤ b.max_delay
    → delay (fail_times k a b) a ≡ min (delay b a * 2 ^ k) b.max_delay
unfolding fail_times
delay-fail_times zero a b bounded = omega arith
delay-fail_times (suc k) a b bounded = ground (
  arith,
  delay-fail a a (fail_times k a b),
  text_eq_refl a,
  max-fail_times k a b,
  delay-fail_times k a b bounded,
  min_double (delay b a) b.max_delay (2 ^ k),
)
