-- ===== src/Jobs/Worker.antt =====
-- `process_job` and what it calls in backend/src/jobs.rs. What a sync, a backup or a send plugin
-- answers is an argument, and so are the text of an error's scrubbed cause chain and the parser of
-- UUIDs. The only failure of the database that is modelled is that of an id which is no UUID.
pub mod Errors
pub mod Retry
pub mod Outcomes
pub mod Exclusive
use lyra.Prelude.{
  ℕ, ◌+◌, ◌*◌, ◌^◌, min, Bool, true, false, ◌&&◌, ◌||◌, Option, none, some, List, [], ◌∷◌, ◌++◌,
  Text, codes, text_eq, starts_with, ltb, is_some, if◌then◌else◌,
}
use lyra.Prelude.Map
use lyra.Prelude.Map.{Map}
use lyra.Prelude.Result.{Result, ok, err}
use lyra.Prelude.Exec.{Exec}
use lyra.Jobs.{
  JobPayload, sync_account, unsnooze_message, send_message, export_backup, import_backup, Job,
  ClaimedJob, InFlight, try_begin, finish, mark_completed, mark_failed, reschedule_transient,
  revert_pending,
}
use lyra.Jobs.Worker.Errors.{SyncError, sanitize_error}

pub data DbPool : Type 0 where
  sqlite postgres mysql : DbPool

pub data InvalidIdError : Type 0 where
  invalid_id : InvalidIdError

pub data IdParam : Type 0 where
  text uuid : (value : Text) → IdParam

parsed_uuid : Option Text → Result InvalidIdError IdParam
parsed_uuid none = err invalid_id
parsed_uuid (some u) = ok (uuid u)

-- `parse_str` gives a UUID in the form in which the database compares it.
unfoldable pub id_param : (Text → Option Text) → DbPool → Text → Result InvalidIdError IdParam
unfolding parsed_uuid
id_param parse_str sqlite id = ok (text id)
id_param parse_str mysql id = ok (text id)
id_param parse_str postgres id = parsed_uuid (parse_str id)

key_of : Result InvalidIdError IdParam → Result InvalidIdError Text
key_of (ok (text s)) = ok s
key_of (ok (uuid u)) = ok u
key_of (err e) = err e

-- The key that a row of that id has.
unfoldable pub fk_id_value : (Text → Option Text) → DbPool → Text → Result InvalidIdError Text
unfolding key_of
fk_id_value parse_str db id = key_of (id_param parse_str db id)

pub data AppEvent : Type 0 where
  sync_started sync_complete : (account_id : Text) → AppEvent
  sync_error : (account_id error : Text) → AppEvent

-- What a job reads and writes: its table, the in-flight set, the events that were sent, and the
-- messages' `snoozed_until`.
pub record World : Type 0 where
  pub table : List Job
  pub inflight : InFlight
  pub events : List AppEvent
  pub snoozed_until : Map ℕ

emit : AppEvent → World → World
emit e w = record w { events = w.events ++ e ∷ [] }

-- The first half of a sync job: `false` if the account was already in flight, and the job goes back.
unfoldable pub begin_sync : Text → Text → ℕ → World → Bool × World
unfolding emit
begin_sync job_id account_id now w =
    let (begun, accounts) = try_begin account_id w.inflight in
    if begun
    then (true, emit (sync_started account_id) (record w { inflight = accounts }))
    else (false, record w { inflight = accounts; table = revert_pending job_id now w.table })

-- The second half, with what the sync answered.
unfoldable pub end_sync :
    (SyncError → Text) → Text → Text → Result SyncError Unit → ℕ → World → World
unfolding emit
end_sync detail job_id account_id (ok _) now w =
    record (emit (sync_complete account_id)
      (record w { inflight = finish account_id w.inflight })) {
        table = mark_completed job_id now w.table;
      }
end_sync detail job_id account_id (err e) now w =
    record (emit (sync_error account_id (sanitize_error e))
      (record w { inflight = finish account_id w.inflight })) {
        table = mark_failed job_id now (sanitize_error e) (some (detail e)) w.table;
      }

unfoldable pub finalize_backup_job : Text → Result Text Unit → ℕ → List Job → List Job
finalize_backup_job job_id (ok _) now = mark_completed job_id now
finalize_backup_job job_id (err detail) now =
    mark_failed job_id now (codes "backup job failed") (some detail)

unfoldable pub find_job : Text → List Job → Option Job
find_job id [] = none
find_job id (j ∷ t) = if text_eq j.id id then some j else find_job id t

-- `SELECT attempts`, 0 for no row.
abbrev pub attempts_of : Option Job → ℕ
attempts_of none = 0
attempts_of (some j) = j.attempts

abbrev pub smtp_transient_max_attempts : ℕ
smtp_transient_max_attempts = 3

abbrev pub is_transient : Text → Bool
is_transient category =
    text_eq category (codes "SMTP transient") || text_eq category (codes "JMAP transient")

abbrev pub safe_category : Text → Text
safe_category category =
    if starts_with category (codes "SMTP ") || starts_with category (codes "JMAP ")
    then category
    else codes "send error"

abbrev pub retry_delay : ℕ → ℕ
retry_delay attempts = 30 * 2 ^ min attempts 4

-- What follows a failed send.
unfoldable pub send_failed : Text → Text → ℕ → List Job → List Job
send_failed job_id category now table =
    let attempts = attempts_of (find_job job_id table) in
    if is_transient category && ltb (attempts + 1) smtp_transient_max_attempts
    then reschedule_transient job_id now category (retry_delay attempts) table
    else mark_failed job_id now (safe_category category) none table

-- A send plugin, by account and message.
abbrev pub SendPlugin : Type 0
SendPlugin = Text → Text → Result Text Unit

sent : Text → ℕ → Result Text Unit → List Job → List Job
sent job_id now (ok _) = mark_completed job_id now
sent job_id now (err category) = send_failed job_id category now

with_plugin : Text → Text → Text → ℕ → Option SendPlugin → List Job → List Job
with_plugin job_id account_id raw now none =
    mark_failed job_id now (codes "unknown send protocol") none
with_plugin job_id account_id raw now (some plugin) = sent job_id now (plugin account_id raw)

with_protocol :
    (Text → Option SendPlugin) → Text → Text → Text → ℕ → Option Text → List Job → List Job
with_protocol plugins job_id account_id raw now none =
    mark_failed job_id now (codes "send protocol not configured") none
with_protocol plugins job_id account_id raw now (some []) =
    mark_failed job_id now (codes "send protocol not configured") none
with_protocol plugins job_id account_id raw now (some (c ∷ protocol)) =
    with_plugin job_id account_id raw now (plugins (c ∷ protocol))

-- What the rest of the program answers to a job. `protocols` is the column `send_protocol` of the
-- account table, `plugins` is `App::send`.
pub record Services : Type 0 where
  pub db : DbPool
  pub parse_str : Text → Option Text
  pub run_account_sync : Text → Text → Result SyncError Unit
  pub detail : SyncError → Text
  pub protocols : Text → Option Text
  pub plugins : Text → Option SendPlugin
  pub run_export : Text → Text → Text → Result Text Unit
  pub run_import : Text → Text → Text → Result Text Unit

send_to :
    Services
    → Text
    → Text
    → Text
    → ℕ
    → Result InvalidIdError Text
    → Exec (List Job) InvalidIdError Unit
unfolding with_protocol with_plugin sent
send_to sv job_id account_id outbound now (err e) table = (err e, table)
send_to sv job_id account_id outbound now (ok key) table =
    (ok tt, with_protocol sv.plugins job_id account_id outbound now (sv.protocols key) table)

unfoldable pub handle_send_message :
    Services → Text → Text → Text → ℕ → Exec (List Job) InvalidIdError Unit
unfolding send_to
handle_send_message sv job_id account_id outbound now =
    send_to sv job_id account_id outbound now (fk_id_value sv.parse_str sv.db account_id)

-- Where the id is refused, the job's row is left as it was.
unsnooze : Text → ℕ → Result InvalidIdError Text → Exec World InvalidIdError Unit
unsnooze job_id now (err e) w = (err e, w)
unsnooze job_id now (ok key) w = (
  ok tt,
  record w {
    snoozed_until = Map.remove w.snoozed_until key;
    table = mark_completed job_id now w.table;
  },
)

unfoldable pub process_payload : Services → Text → ℕ → JobPayload → Exec World InvalidIdError Unit
unfolding unsnooze
process_payload sv id now (sync_account account_id user_id) w =
    let (begun, w') = begin_sync id account_id now w in
    (
      ok tt,
      if begun
          then end_sync sv.detail id account_id (sv.run_account_sync user_id account_id) now w'
          else w',
    )
process_payload sv id now (unsnooze_message message_id) w =
    unsnooze id now (fk_id_value sv.parse_str sv.db message_id) w
process_payload sv id now (send_message account_id outbound) w =
    let (answer, table) = handle_send_message sv id account_id outbound now w.table in
    (answer, record w { table = table })
process_payload sv id now (export_backup user_id artifact_id password_wrapped) w = (
  ok tt,
  record w {
    table = finalize_backup_job id (sv.run_export user_id artifact_id password_wrapped) now w.table;
  },
)
process_payload sv id now (import_backup user_id upload_id password_wrapped) w = (
  ok tt,
  record w {
    table = finalize_backup_job id (sv.run_import user_id upload_id password_wrapped) now w.table;
  },
)

unfoldable pub process_job : Services → ClaimedJob → ℕ → Exec World InvalidIdError Unit
process_job sv job now w = process_payload sv job.id now job.payload w
