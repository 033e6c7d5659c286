-- ===== src/Jobs/Worker/Outcomes.antt =====
-- How a claimed job ends.
use lyra.Prelude.{◌≡◌, Bool, true, false, not, is_some, Option, none, some, Text}
use lyra.Prelude.Result.{Result, ok, err}
use lyra.Jobs.{
  JobPayload, sync_account, unsnooze_message, send_message, export_backup, import_backup, Job,
  is_running,
}
use lyra.Jobs.Worker.{
  World, find_job, Services, DbPool, sqlite, postgres, mysql, InvalidIdError, invalid_id,
}

-- Not left marked as running.
abbrev pub is_settled : Option Job → Bool
is_settled none = true
is_settled (some j) = not (is_running j.status)

-- Whether the id that a payload names can be the key of a row: any text can but on PostgreSQL, where
-- it has to be a UUID. `parse` reads one.
abbrev pub fits : (parse : Text → Option Text) → DbPool → Text → Bool
fits parse sqlite id = true
fits parse mysql id = true
fits parse postgres id = is_some (parse id)

abbrev pub names_key : Services → JobPayload → Bool
names_key sv (sync_account account user) = true
names_key sv (unsnooze_message message) = fits sv.parse_str sv.db message
names_key sv (send_message account outbound) = fits sv.parse_str sv.db account
names_key sv (export_backup a b c) = true
names_key sv (import_backup a b c) = true

-- How a call ends: it succeeds and settles the job, or its id is refused and nothing changes.
abbrev Ends : Text → Bool → Result InvalidIdError Unit × World → World → Type 0
Ends id ok_key out w =
    (ok_key ≡ true → (out.0 ≡ ok tt) × (is_settled (find_job id out.1.table) ≡ true))
    × (ok_key ≡ false → out ≡ (err invalid_id, w))
