-- ===== src/Scheduler/Outcomes.antt =====
-- Terminal jobs and polls in any order: each job counts once, and delays stay between the base and
-- the cap.
use lyra.Prelude.{ℕ, max, ◌≤◌, ◌<◌, ◌≡◌, refl, List, [], ◌∷◌, Text, text_eq_refl, arith}
use lyra.Prelude.Map
use lyra.Prelude.Map.{Map, get-insert, get-remove, get-empty}
use lyra.Kv.{from_secs}
use lyra.Scheduler.{
  Backoff, with_base_secs, delay, fail, succeed, mark_enqueued, apply_status, observe_outcome,
  max_backoff_secs,
}
use lyra.Scheduler.Delay.{delay-fail, delay-succeed}

applied-apply_status :
    (a s : Text) (t : ℕ) (b : Backoff) → (apply_status a s t b).applied_job ≡ b.applied_job
unfolding apply_status fail succeed mark_enqueued
applied-apply_status a s t b = ground arith

-- A terminal job of an account counts once: to see it again, at any moment and with any status,
-- changes nothing.
pub observe_outcome_again :
    (account_id job_id s s2 : Text) (t t2 : ℕ) (b : Backoff)
    → observe_outcome account_id job_id s2 t2 (observe_outcome account_id job_id s t b)
      ≡ observe_outcome account_id job_id s t b
unfolding observe_outcome
observe_outcome_again a id s s2 t t2 b = ground (
  arith,
  text_eq_refl a,
  text_eq_refl id,
  applied-apply_status a s t (record b { applied_job = Map.insert b.applied_job a id }),
  get-insert b.applied_job a a id,
)

pub data Event : Type 0 where
  observed : (account_id job_id status : Text) (now : ℕ) → Event
  polled : (account_id : Text) (now : ℕ) → Event

unfoldable pub after : Event → Backoff → Backoff
after (observed a id s t) b = observe_outcome a id s t b
after (polled a t) b = mark_enqueued a t b

unfoldable pub run : List Event → Backoff → Backoff
run [] b = b
run (e ∷ es) b = run es (after e b)

record IsWithin (lo hi : ℕ) (b : Backoff) : Type 0 where
  base_is : b.base ≡ lo
  max_is : b.max_delay ≡ hi
  lo_le : (a : Text) → lo ≤ delay b a
  le_hi : (a : Text) → delay b a ≤ hi

fail-IsWithin :
    (lo hi : ℕ) (a : Text) (b : Backoff) → lo ≤ hi → IsWithin lo hi b → IsWithin lo hi (fail a b)
unfolding fail
fail-IsWithin lo hi a b p w = record {
  base_is = w.base_is;
  max_is = w.max_is;
  lo_le = λ c. ground (arith, delay-fail a c b, w.lo_le a, w.lo_le c, w.max_is);
  le_hi = λ c. ground (arith, delay-fail a c b, w.le_hi a, w.le_hi c, w.max_is);
}

succeed-IsWithin :
    (lo hi : ℕ) (a : Text) (b : Backoff) → lo ≤ hi → IsWithin lo hi b → IsWithin lo hi (succeed a b)
unfolding succeed
succeed-IsWithin lo hi a b p w = record {
  base_is = w.base_is;
  max_is = w.max_is;
  lo_le = λ c. ground (arith, delay-succeed a c b, w.lo_le c, w.base_is);
  le_hi = λ c. ground (arith, delay-succeed a c b, w.le_hi c, w.base_is);
}

-- What the delays do not depend on.
mark_enqueued-IsWithin :
    (lo hi : ℕ) (a : Text) (t : ℕ) (b : Backoff)
    → IsWithin lo hi b
    → IsWithin lo hi (mark_enqueued a t b)
unfolding mark_enqueued delay
mark_enqueued-IsWithin lo hi a t b w = record {
  base_is = w.base_is;
  max_is = w.max_is;
  lo_le = w.lo_le;
  le_hi = w.le_hi;
}

applied-IsWithin :
    (lo hi : ℕ) (m : Map Text) (b : Backoff)
    → IsWithin lo hi b
    → IsWithin lo hi (record b { applied_job = m })
unfolding delay
applied-IsWithin lo hi m b w = record {
  base_is = w.base_is;
  max_is = w.max_is;
  lo_le = w.lo_le;
  le_hi = w.le_hi;
}

apply_status-IsWithin :
    (lo hi : ℕ) (a s : Text) (t : ℕ) (b : Backoff)
    → lo ≤ hi
    → IsWithin lo hi b
    → IsWithin lo hi (apply_status a s t b)
unfolding apply_status
apply_status-IsWithin lo hi a s t b p w = ground (
  arith,
  mark_enqueued-IsWithin lo hi a t (fail a b) (fail-IsWithin lo hi a b p w),
  succeed-IsWithin lo hi a b p w,
)

after-IsWithin :
    (lo hi : ℕ) (e : Event) (b : Backoff) → lo ≤ hi → IsWithin lo hi b → IsWithin lo hi (after e b)
unfolding after observe_outcome
after-IsWithin lo hi (observed a id s t) b p w = ground (
  arith,
  apply_status-IsWithin lo hi a s t (record b { applied_job = Map.insert b.applied_job a id }) p
      (applied-IsWithin lo hi (Map.insert b.applied_job a id) b w),
)
after-IsWithin lo hi (polled a t) b p w = mark_enqueued-IsWithin lo hi a t b w

run-IsWithin :
    (lo hi : ℕ) (es : List Event) (b : Backoff)
    → lo ≤ hi
    → IsWithin lo hi b
    → IsWithin lo hi (run es b)
unfolding run
run-IsWithin lo hi [] b p w = w
run-IsWithin lo hi (e ∷ es) b p w =
    run-IsWithin lo hi es (after e b) p (after-IsWithin lo hi e b p w)

new-IsWithin :
    (n : ℕ)
    → n ≤ max_backoff_secs
    → IsWithin (from_secs (max n 1)) (from_secs max_backoff_secs) (with_base_secs n)
unfolding with_base_secs delay
new-IsWithin n p = record {
  base_is = refl;
  max_is = refl;
  lo_le = λ a. ground (arith, get-empty {V = ℕ} a);
  le_hi = λ a. ground (arith, get-empty {V = ℕ} a);
}

-- With a base interval of at most an hour, whatever terminal jobs are observed and polls are
-- enqueued, in any order and at any moments, each account's delay is at least the base interval and
-- at most an hour.
pub delay_in_bounds :
    (base_secs : ℕ) (es : List Event) (account_id : Text)
    → base_secs ≤ max_backoff_secs
    → (from_secs (max base_secs 1) ≤ delay (run es (with_base_secs base_secs)) account_id)
      × (delay (run es (with_base_secs base_secs)) account_id ≤ from_secs max_backoff_secs)
delay_in_bounds n es a p =
    let w =
      run-IsWithin (from_secs (max n 1)) (from_secs max_backoff_secs) es (with_base_secs n)
        (omega arith) (new-IsWithin n p) in
    (w.lo_le a, w.le_hi a)

delay-with_base_secs : (n : ℕ) (a : Text) → delay (with_base_secs n) a ≡ from_secs (max n 1)
unfolding with_base_secs delay
delay-with_base_secs n a = ground (arith, get-empty {V = ℕ} a)

max-with_base_secs : (n : ℕ) → (with_base_secs n).max_delay ≡ from_secs max_backoff_secs
unfolding with_base_secs
max-with_base_secs n = refl

-- With a base interval of more than an hour, the first failure of an account shortens its delay, to
-- an hour.
pub fail_shortens :
    (base_secs : ℕ) (account_id : Text)
    → max_backoff_secs < base_secs
    → (delay (fail account_id (with_base_secs base_secs)) account_id ≡ from_secs max_backoff_secs)
      × (delay (fail account_id (with_base_secs base_secs)) account_id
          < delay (with_base_secs base_secs) account_id)
fail_shortens n a p = ground (
  arith,
  delay-fail a a (with_base_secs n),
  text_eq_refl a,
  delay-with_base_secs n a,
  max-with_base_secs n,
)
