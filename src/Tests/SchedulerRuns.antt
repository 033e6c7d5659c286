-- ===== src/Tests/SchedulerRuns.antt =====
-- The poll scheduler, run.
use lyra.Prelude.{
  ◌+◌, ◌≡◌, ◌≤◌, max, refl, true, false, ◌||◌, not, List, [], ◌∷◌, ◌++◌, Text, codes, text_eq,
  arith,
}
use lyra.Prelude.Map
use lyra.Kv.{from_secs}
use lyra.Jobs.{Job, sync_account, enqueue, payload_kind, order_by_due, insert_by_due}
use lyra.Scheduler.{
  ActiveAccount, with_base_secs, delay, fail, succeed, mark_enqueued, observe_outcome, is_due,
  poll_tick, poll_account, has_pending_or_running_sync, pending_or_running_sync_job_id,
  latest_terminal_sync, max_backoff_secs,
}
use lyra.Scheduler.Delay.{fail_times}
use lyra.Scheduler.Outcomes.{Event, observed, polled, run, after, delay_in_bounds}
use lyra.Scheduler.{MailAccount, list_active_accounts, default_backoff}
use lyra.Scheduler.Accounts.{active_account_served}
use lyra.Scheduler.Tick.{open_syncs, poll_tick_opens_one}

unfoldable scheduler_run : Unit {0}
unfolding with_base_secs delay fail succeed mark_enqueued observe_outcome is_due poll_tick
    poll_account has_pending_or_running_sync pending_or_running_sync_job_id latest_terminal_sync
    enqueue payload_kind order_by_due insert_by_due text_eq Map.get Map.insert Map.remove Map.empty
    open_syncs run after fail_times
scheduler_run = tt

abbrev a : Text
a = codes "a"

abbrev accounts : List ActiveAccount
accounts =
    record { id = a; user_id = codes "u" }
    ∷ record { id = codes "b"; user_id = codes "u" }
    ∷ record { id = a; user_id = codes "u" }
    ∷ []

abbrev queue : List Job
queue = enqueue (codes "1") 7 (sync_account (codes "b") (codes "u")) 7 []

-- Of three listed accounts, one has its job already and one is listed twice.
one_enqueued : (poll_tick (λ s. s) 10 10 accounts queue (with_base_secs 300)).enqueued ≡ 1
unfolding scheduler_run
one_enqueued = refl

-- A second pass in the same interval enqueues nothing.
quiet :
    (poll_tick
      (λ s. s)
      (from_secs 300)
      11
      accounts
      []
      (poll_tick (λ s. s) 10 10 accounts [] (with_base_secs 300)).backoff).enqueued
    ≡ 0
unfolding scheduler_run
quiet = refl

again :
    (poll_tick
      (λ s. s)
      (10 + from_secs 300)
      11
      accounts
      []
      (poll_tick (λ s. s) 10 10 accounts [] (with_base_secs 300)).backoff).enqueued
    ≡ 2
unfolding scheduler_run
again = refl

abbrev events : List Event
events = observed a (codes "1") (codes "failed") 5 ∷ polled a 6 ∷ []

delay_in_bounds_example :
    (from_secs (max 300 1) ≤ delay (run events (with_base_secs 300)) a)
    × (delay (run events (with_base_secs 300)) a ≤ from_secs max_backoff_secs)
delay_in_bounds_example = delay_in_bounds 300 events a (omega arith)

poll_tick_opens_one_example :
    (open_syncs a queue
      ≤ open_syncs a (poll_tick (λ s. s) 10 10 accounts queue (with_base_secs 300)).table)
    × (open_syncs a (poll_tick (λ s. s) 10 10 accounts queue (with_base_secs 300)).table
        ≤ max 1 (open_syncs a queue))
poll_tick_opens_one_example =
    poll_tick_opens_one (λ s. s) 10 10 a accounts queue (with_base_secs 300)

abbrev account : MailAccount
account = record { id = a; user_id = codes "u"; is_active = true; sync_enabled = true }

abbrev idle : MailAccount
idle = record { id = codes "b"; user_id = codes "u"; is_active = true; sync_enabled = false }

active_account_served_example :
    (not (
        is_due
          (poll_tick
            (λ s. s)
            10
            10
            (list_active_accounts ((idle ∷ []) ++ account ∷ []))
            []
            default_backoff).backoff
          a
          10)
      || has_pending_or_running_sync
          (poll_tick
            (λ s. s)
            10
            10
            (list_active_accounts ((idle ∷ []) ++ account ∷ []))
            []
            default_backoff).table
          a)
    ≡ true
active_account_served_example =
    active_account_served (λ s. s) 10 10 account (idle ∷ []) [] [] default_backoff refl
