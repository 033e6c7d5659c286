-- ===== src/Scheduler.antt =====
-- The poll scheduler of backend/src/scheduler.rs: the per-account backoff and one poll pass. Moments
-- and durations are in nanoseconds; a pass takes one reading of the clock, and of the wall clock as
-- a stamp.
pub mod Delay
pub mod Outcomes
pub mod Tick
pub mod Accounts
use lyra.Prelude.{
  ℕ, ◌+◌, ◌*◌, min, max, Bool, true, false, ◌&&◌, ◌||◌, Option, none, some, List, [], ◌∷◌, map,
  Text, codes, text_eq, filter, is_some, leb, ltb, ◌==◌, if◌then◌else◌,
}
use lyra.Prelude.Map
use lyra.Prelude.Map.{Map}
use lyra.Kv.{from_secs}
use lyra.Jobs.{
  JobPayload, sync_account, Job, Status, pending, running, completed, failed, order_by_due, enqueue,
}

abbrev pub max_backoff_secs : ℕ
max_backoff_secs = 3600

pub record Backoff : Type 0 where
  pub delays : Map ℕ
  pub next_due : Map ℕ
  pub applied_job : Map Text
  pub base : ℕ
  pub max_delay : ℕ

unfoldable pub with_base_secs : ℕ → Backoff
with_base_secs base_secs = record {
  delays = Map.empty;
  next_due = Map.empty;
  applied_job = Map.empty;
  base = from_secs (max base_secs 1);
  max_delay = from_secs max_backoff_secs;
}

abbrev pub or_base : ℕ → Option ℕ → ℕ
or_base base none = base
or_base base (some d) = d

abbrev pub base_poll_secs : ℕ
base_poll_secs = 300

-- `Backoff::default`
unfoldable pub default_backoff : Backoff
unfolding with_base_secs
default_backoff = with_base_secs base_poll_secs

unfoldable pub delay : Backoff → Text → ℕ
delay b account_id = or_base b.base (Map.get b.delays account_id)

unfoldable pub fail : Text → Backoff → Backoff
fail account_id b = record b {
  delays = Map.insert b.delays account_id (min (delay b account_id * 2) b.max_delay);
}

-- The method `ok`.
unfoldable pub succeed : Text → Backoff → Backoff
succeed account_id b = record b { delays = Map.remove b.delays account_id }

unfoldable pub mark_enqueued : Text → ℕ → Backoff → Backoff
mark_enqueued account_id now b = record b {
  next_due = Map.insert b.next_due account_id (now + delay b account_id);
}

abbrev pub is_applied : Option Text → Text → Bool
is_applied none job_id = false
is_applied (some id) job_id = text_eq id job_id

-- A failure also puts the next poll off by the new delay.
apply_status : Text → Text → ℕ → Backoff → Backoff
apply_status account_id status now b =
    if text_eq status (codes "failed")
    then mark_enqueued account_id now (fail account_id b)
    else if text_eq status (codes "completed")
    then succeed account_id b
    else b

unfoldable pub observe_outcome : Text → Text → Text → ℕ → Backoff → Backoff
unfolding apply_status
observe_outcome account_id job_id status now b =
    if is_applied (Map.get b.applied_job account_id) job_id
    then b
    else apply_status account_id status now
        (record b { applied_job = Map.insert b.applied_job account_id job_id })

abbrev pub is_past : Option ℕ → ℕ → Bool
is_past none now = true
is_past (some due) now = leb due now

unfoldable pub is_due : Backoff → Text → ℕ → Bool
is_due b account_id now = is_past (Map.get b.next_due account_id) now

-- A row that the two queries select: a sync job of this account whose payload reads.
abbrev pub is_sync_of : Text → Option JobPayload → Bool
is_sync_of account_id (some (sync_account aid _)) = text_eq aid account_id
is_sync_of account_id _ = false

abbrev pub is_open : Status → Bool
is_open pending = true
is_open running = true
is_open _ = false

abbrev pub is_terminal : Status → Bool
is_terminal completed = true
is_terminal failed = true
is_terminal _ = false

first_of_account : Text → List Job → Option Job
first_of_account account_id [] = none
first_of_account account_id (j ∷ t) =
    if is_sync_of account_id j.payload then some j else first_of_account account_id t

abbrev pub job_id : Option Job → Option Text
job_id none = none
job_id (some j) = some j.id

unfoldable pub pending_or_running_sync_job_id : List Job → Text → Option Text
unfolding first_of_account
pending_or_running_sync_job_id table account_id = job_id (
    first_of_account account_id (
      order_by_due (filter (λ j. text_eq j.kind (codes "sync_account") && is_open j.status) table)))

unfoldable pub has_pending_or_running_sync : List Job → Text → Bool
has_pending_or_running_sync table account_id =
    is_some (pending_or_running_sync_job_id table account_id)

-- `ORDER BY updated_at DESC, created_at DESC`
abbrev later : Job → Job → Bool
later a b =
    ltb b.updated_at a.updated_at || (a.updated_at == b.updated_at && ltb b.created_at a.created_at)

insert_by_recency : Job → List Job → List Job
insert_by_recency j [] = j ∷ []
insert_by_recency j (k ∷ t) = if later k j then k ∷ insert_by_recency j t else j ∷ k ∷ t

order_by_recency : List Job → List Job
unfolding insert_by_recency
order_by_recency [] = []
order_by_recency (j ∷ t) = insert_by_recency j (order_by_recency t)

status_text : Status → Text
status_text pending = codes "pending"
status_text running = codes "running"
status_text completed = codes "completed"
status_text failed = codes "failed"

outcome_of : Option Job → Option (Text × Text)
outcome_of none = none
outcome_of (some j) = some (j.id, status_text j.status)

unfoldable pub latest_terminal_sync : List Job → Text → Option (Text × Text)
unfolding first_of_account order_by_recency status_text outcome_of
latest_terminal_sync table account_id = outcome_of (
    first_of_account account_id (
      order_by_recency
        (filter (λ j. text_eq j.kind (codes "sync_account") && is_terminal j.status) table)))

pub record ActiveAccount : Type 0 where
  pub id : Text
  pub user_id : Text

-- What the account query reads of a row of `mail_account`.
pub record MailAccount : Type 0 where
  pub id : Text
  pub user_id : Text
  pub is_active : Bool
  pub sync_enabled : Bool

unfoldable pub list_active_accounts : List MailAccount → List ActiveAccount
list_active_accounts rows =
    map (λ r. record { id = r.id; user_id = r.user_id })
      (filter (λ r. r.is_active && r.sync_enabled) rows)

-- A pass's state: the queue, the backoff, and how many jobs it has enqueued.
pub record Poll : Type 0 where
  pub table : List Job
  pub backoff : Backoff
  pub enqueued : ℕ

observe_latest : Text → ℕ → Option (Text × Text) → Backoff → Backoff
observe_latest account_id now none b = b
observe_latest account_id now (some (id, status)) b = observe_outcome account_id id status now b

-- One round of the loop of `poll_tick`; `new_id` gives the enqueued job's id.
unfoldable pub poll_account : (Text → Text) → ℕ → ℕ → ActiveAccount → Poll → Poll
unfolding observe_latest
poll_account new_id now run_at account p =
    let b = observe_latest account.id now (latest_terminal_sync p.table account.id) p.backoff in
    if is_due b account.id now
    then (if has_pending_or_running_sync p.table account.id
        then record p { backoff = b }
        else record {
          table =
              enqueue (new_id account.id) run_at (sync_account account.id account.user_id) run_at
                p.table;
          backoff = mark_enqueued account.id now b;
          enqueued = p.enqueued + 1;
        })
    else record p { backoff = b }

poll_loop : (Text → Text) → ℕ → ℕ → List ActiveAccount → Poll → Poll
poll_loop new_id now run_at [] p = p
poll_loop new_id now run_at (a ∷ rest) p =
    poll_loop new_id now run_at rest (poll_account new_id now run_at a p)

unfoldable pub poll_tick : (Text → Text) → ℕ → ℕ → List ActiveAccount → List Job → Backoff → Poll
unfolding poll_loop
poll_tick new_id now run_at accounts table backoff =
    poll_loop new_id now run_at accounts (record { table = table; backoff = backoff; enqueued = 0 })
