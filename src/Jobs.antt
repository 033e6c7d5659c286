-- ===== src/Jobs.antt =====
-- The durable job queue of backend/src/jobs.rs: its table, the in-flight set, enqueueing and claims.
-- The `jobs` table is the list of its rows. A stamp is a number, in the order in which the database
-- compares the text; a payload that is no JSON of a `JobPayload` is `none`. A driver's failure is
-- not modelled.
pub mod Claim
pub mod Worker
use lyra.Prelude.{
  ℕ, zero, suc, ◌+◌, Bool, true, false, ◌&&◌, ◌||◌, not, Option, none, some, List, [], ◌∷◌, ◌++◌,
  Text, codes, text_eq, contains, filter, ltb, leb, ◌==◌, if◌then◌else◌,
}

pub data JobPayload : Type 0 where
  sync_account : (account_id user_id : Text) → JobPayload
  unsnooze_message : (message_id : Text) → JobPayload
  send_message : (account_id outbound : Text) → JobPayload
  export_backup : (user_id artifact_id password_wrapped : Text) → JobPayload
  import_backup : (user_id upload_id password_wrapped : Text) → JobPayload

pub data Status : Type 0 where
  pending running completed failed : Status

pub record Job : Type 0 where
  pub id : Text
  pub kind : Text
  pub run_at : ℕ
  pub created_at : ℕ
  pub updated_at : ℕ
  pub payload : Option JobPayload
  pub status : Status
  pub attempts : ℕ
  pub last_error : Option Text
  pub last_error_detail : Option Text

pub record ClaimedJob : Type 0 where
  pub id : Text
  pub status : Status
  pub payload : JobPayload

abbrev pub is_pending : Status → Bool
is_pending pending = true
is_pending _ = false

abbrev pub is_running : Status → Bool
is_running running = true
is_running _ = false

-- The accounts in flight.
abbrev pub InFlight : Type 0
InFlight = List Text

-- `HashSet::insert`: whether the account was not there.
unfoldable pub try_begin : Text → InFlight → Bool × InFlight
try_begin account_id accounts =
    if contains accounts account_id then (false, accounts) else (true, account_id ∷ accounts)

-- The method `contains`.
abbrev in_flight : Text → InFlight → Bool
in_flight account_id accounts = contains accounts account_id

unfoldable pub finish : Text → InFlight → InFlight
finish account_id accounts = filter (λ a. not (text_eq a account_id)) accounts

unfoldable pub payload_kind : JobPayload → Text
payload_kind (sync_account _ _) = codes "sync_account"
payload_kind (unsnooze_message _) = codes "unsnooze_message"
payload_kind (send_message _ _) = codes "send_message"
payload_kind (export_backup _ _ _) = codes "export_backup"
payload_kind (import_backup _ _ _) = codes "import_backup"

-- The variant's name in traces.
abbrev kind_name : JobPayload → Text
kind_name (sync_account _ _) = codes "sync_account"
kind_name (unsnooze_message _) = codes "unsnooze_message"
kind_name (send_message _ _) = codes "send_message"
kind_name (export_backup _ _ _) = codes "export_backup"
kind_name (import_backup _ _ _) = codes "import_backup"

-- `id` is the new UUID, and `now` the stamp that the table's defaults write.
unfoldable pub enqueue : Text → ℕ → JobPayload → ℕ → List Job → List Job
enqueue id now payload run_at table =
    table
    ++ record {
      id = id;
      kind = payload_kind payload;
      run_at = run_at;
      created_at = now;
      updated_at = now;
      payload = some payload;
      status = pending;
      attempts = 0;
      last_error = none;
      last_error_detail = none;
    }
      ∷ []

-- `UPDATE jobs SET … WHERE …`
abbrev pub update_where : (Job → Bool) → (Job → Job) → List Job → List Job
update_where p set [] = []
update_where p set (j ∷ t) = (if p j then set j else j) ∷ update_where p set t

abbrev pub rows_affected : (Job → Bool) → List Job → ℕ
rows_affected p [] = 0
rows_affected p (j ∷ t) = if p j then suc (rows_affected p t) else rows_affected p t

-- `ORDER BY run_at ASC, created_at ASC`
abbrev pub earlier : Job → Job → Bool
earlier a b = ltb a.run_at b.run_at || (a.run_at == b.run_at && ltb a.created_at b.created_at)

unfoldable pub insert_by_due : Job → List Job → List Job
insert_by_due j [] = j ∷ []
insert_by_due j (k ∷ t) = if earlier k j then k ∷ insert_by_due j t else j ∷ k ∷ t

unfoldable pub order_by_due : List Job → List Job
order_by_due [] = []
order_by_due (j ∷ t) = insert_by_due j (order_by_due t)

-- The rows that a claim looks through.
unfoldable pub due : ℕ → List Job → List Job
due now table = order_by_due (filter (λ j. is_pending j.status && leb j.run_at now) table)

-- `WHERE id = … AND status = 'pending'`
abbrev pub pending_with : Text → Job → Bool
pending_with id j = text_eq j.id id && is_pending j.status

abbrev pub set_running : ℕ → Job → Job
set_running stamp j = record j { status = running; updated_at = stamp }

-- A sync job waits while its account is in flight.
abbrev pub is_busy : InFlight → JobPayload → Bool
is_busy inflight (sync_account account_id _) = in_flight account_id inflight
is_busy inflight _ = false

abbrev pub claimed : Text → JobPayload → ClaimedJob
claimed id payload = record { id = id; status = running; payload = payload }

-- The loop of `claim_next` over the selected rows. The table may have changed since the select, so
-- that the compare-and-set update can miss.
unfoldable pub claim_rows : ℕ → InFlight → List Job → List Job → Option ClaimedJob × List Job
claim_rows stamp inflight [] table = (none, table)
claim_rows stamp inflight (row ∷ rows) table =
    let skip = claim_rows stamp inflight rows table in
    let updated = update_where (pending_with row.id) (set_running stamp) table in
    let missed = claim_rows stamp inflight rows updated in
    elim row.payload [
      | none ↦ skip
      | some payload ↦
          if is_busy inflight payload
          then skip
          else if rows_affected (pending_with row.id) table == 1
          then (some (claimed row.id payload), updated)
          else missed
    ]

unfoldable pub claim_next : ℕ → ℕ → InFlight → List Job → Option ClaimedJob × List Job
claim_next now stamp inflight table = claim_rows stamp inflight (due now table) table

-- After a restart no worker runs: what is marked running is pending again.
unfoldable pub reclaim_stale_running : ℕ → List Job → ℕ × List Job
reclaim_stale_running stamp table = (
  rows_affected (λ j. is_running j.status) table,
  update_where (λ j. is_running j.status) (λ j. record j { status = pending; updated_at = stamp })
      table,
)

-- The permits left of `SYNC_MAX_CONCURRENT`: a claim holds one, and an empty claim gives it back.
abbrev keep_permit : ℕ → Option ClaimedJob × List Job → Option ClaimedJob × ℕ × List Job
keep_permit permits (none, table) = (none, suc permits, table)
keep_permit permits (some job, table) = (some job, permits, table)

unfoldable pub try_claim_with_permit :
    ℕ → ℕ → InFlight → ℕ → List Job → Option ClaimedJob × ℕ × List Job
try_claim_with_permit now stamp inflight zero table = (none, 0, table)
try_claim_with_permit now stamp inflight (suc permits) table =
    keep_permit permits (claim_next now stamp inflight table)

unfoldable pub mark_completed : Text → ℕ → List Job → List Job
mark_completed id stamp =
    update_where (λ j. text_eq j.id id)
      (λ j. record j {
        status = completed;
        last_error = none;
        last_error_detail = none;
        updated_at = stamp;
      })

unfoldable pub mark_failed : Text → ℕ → Text → Option Text → List Job → List Job
mark_failed id stamp last_error last_error_detail =
    update_where (λ j. text_eq j.id id)
      (λ j. record j {
        status = failed;
        last_error = some last_error;
        last_error_detail = last_error_detail;
        attempts = j.attempts + 1;
        updated_at = stamp;
      })

-- `now + delay_secs` is the new due time.
unfoldable pub reschedule_transient : Text → ℕ → Text → ℕ → List Job → List Job
reschedule_transient id now last_error delay_secs =
    update_where (λ j. text_eq j.id id)
      (λ j. record j {
        status = pending;
        last_error = some last_error;
        attempts = j.attempts + 1;
        run_at = now + delay_secs;
        updated_at = now;
      })

unfoldable pub revert_pending : Text → ℕ → List Job → List Job
revert_pending id stamp =
    update_where (λ j. text_eq j.id id) (λ j. record j { status = pending; updated_at = stamp })
