-- ===== src/Tests/KvRuns.antt =====
-- The in-memory store and the rate limiter, run.
use lyra.Prelude.{◌≡◌, refl, none, some, [], ◌∷◌, codes, arith}
use lyra.Tests.Open.{kv_run}
use lyra.Prelude.Int.{pos}
use lyra.Prelude.Result.{ok, err}
use lyra.Kv.{internal, from_secs}
use lyra.Kv.Memory.{MemoryKv, new, set, incr, memory_kv}
use lyra.Kv.Memory.Laws.{memory-KvLaws}
use lyra.Auth.{too_many_requests}
use lyra.Auth.RateLimit.{ensure_not_rate_limited}
use lyra.Auth.RateLimit.Window.{fail_at, rate_limit_window}

abbrev one : MemoryKv
one = (incr 0 (codes "n") (pos 1) (some 60) new).1

-- A later call without a time to live keeps the first one's, and the counter starts anew after it.
incr_window :
    ((incr (from_secs 59) (codes "n") (pos 2) none one).0 ≡ ok (pos 3))
    × ((incr (from_secs 60) (codes "n") (pos 2) none one).0 ≡ ok (pos 2))
unfolding kv_run
incr_window = (refl, refl)

incr_not_a_number :
    (incr 1 (codes "n") (pos 1) none (set 0 (codes "n") (codes "x") none new).1).0 ≡ err internal
unfolding kv_run
incr_not_a_number = refl

new_is_empty : (memory-KvLaws).peek new 0 (codes "rl:login:ann") ≡ none
unfolding kv_run
new_is_empty = cc (memory-KvLaws.get_result 0 (codes "rl:login:ann") new)

rate_limit_window_example :
    (ensure_not_rate_limited memory_kv (from_secs 5) (codes "rl:login:ann") (codes "op") (
      fail_at memory_kv memory-KvLaws
        (codes "rl:login:ann")
        (codes "op")
        (0 ∷ 1 ∷ 2 ∷ 3 ∷ from_secs 4 ∷ [])
        new)).0
    ≡ err too_many_requests
rate_limit_window_example =
    rate_limit_window memory_kv memory-KvLaws (codes "rl:login:ann") (codes "op") 0 (from_secs 5)
      (1 ∷ 2 ∷ 3 ∷ from_secs 4 ∷ []) new new_is_empty (omega arith) (omega arith) (omega arith)
