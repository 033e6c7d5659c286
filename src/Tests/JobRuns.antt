-- ===== src/Tests/JobRuns.antt =====
-- The job queue, run.
use lyra.Prelude.{
  ◌≡◌, refl, true, false, if◌then◌else◌, none, some, List, [], ◌∷◌, codes, text_eq, contains,
}
use lyra.Prelude.Map
use lyra.Prelude.Result.{ok, err}
use lyra.Jobs.{
  Job, ClaimedJob, JobPayload, sync_account, send_message, pending, running, failed, enqueue,
  claim_rows, claim_next, due, order_by_due, insert_by_due, payload_kind, try_begin, finish,
  mark_completed, mark_failed, reschedule_transient, try_claim_with_permit,
}
use lyra.Jobs.Claim.{Attempt, AreDistinct, claim_all, claim_all-AreDistinct}
use lyra.Jobs.Worker.{
  World, Services, find_job, send_failed, process_job, begin_sync, end_sync, process_payload,
  handle_send_message, postgres, id_param, fk_id_value,
}
use lyra.Jobs.Worker.Errors.{imap, timeout, sanitize_error}
use lyra.Jobs.Worker.Retry.{progress, resend, resend_gives_up, find_job-send_failed}
use lyra.Jobs.Worker.Outcomes.{names_key}
use lyra.Jobs.Worker.Exclusive.{System, begun, Reach, here, next, IsExclusive, one_sync_per_account}

unfoldable job_run : Unit {0}
unfolding enqueue payload_kind due order_by_due insert_by_due claim_rows claim_next try_begin finish
    mark_completed mark_failed reschedule_transient try_claim_with_permit find_job send_failed
    begin_sync end_sync process_payload process_job handle_send_message id_param fk_id_value
    sanitize_error text_eq contains
job_run = tt

abbrev sync_a : JobPayload
sync_a = sync_account (codes "a") (codes "u")

abbrev mail : JobPayload
mail = send_message (codes "a") (codes "{}")

-- Three jobs: the second is due first, the third later.
abbrev queue : List Job
queue =
    enqueue (codes "3") 1 mail 90
      (enqueue (codes "2") 1 mail 10 (enqueue (codes "1") 1 sync_a 20 []))

claim_order :
    ((claim_next 50 51 [] queue).0
      ≡ some (record { id = codes "2"; status = running; payload = mail }))
    × ((claim_next 50 51 [] (claim_next 50 51 [] queue).1).0
        ≡ some (record { id = codes "1"; status = running; payload = sync_a }))
    × ((claim_next 50 52 (codes "a" ∷ []) (claim_next 50 51 [] queue).1).0 ≡ none)
    × ((try_claim_with_permit 50 51 [] 0 queue).0 ≡ none)
unfolding job_run
claim_order = (refl, refl, refl, refl)

abbrev stale : List Attempt
stale =
    record { stamp = 51; inflight = []; rows = due 50 queue }
    ∷ record { stamp = 52; inflight = []; rows = due 50 queue }
    ∷ record { stamp = 53; inflight = []; rows = due 50 queue }
    ∷ []

claim_all-AreDistinct_example : AreDistinct (claim_all stale queue)
claim_all-AreDistinct_example = claim_all-AreDistinct stale queue

one_mail : progress (find_job (codes "2") queue) ≡ some (pending, 0)
unfolding job_run
one_mail = refl

resend_gives_up_example :
    progress (
      find_job
        (codes "2")
        (resend (codes "2") (codes "SMTP transient") (10 ∷ 40 ∷ 100 ∷ 220 ∷ []) queue))
    ≡ some (failed, 3)
unfolding job_run
resend_gives_up_example =
    resend_gives_up (codes "2") (codes "SMTP transient") 10 40 100 (220 ∷ []) queue one_mail

abbrev mail_row : Job
mail_row = record {
  id = codes "2";
  kind = codes "send_message";
  run_at = 10;
  created_at = 1;
  updated_at = 1;
  payload = some mail;
  status = pending;
  attempts = 0;
  last_error = none;
  last_error_detail = none;
}

mail_there : find_job (codes "2") queue ≡ some mail_row
unfolding job_run
mail_there = refl

find_job-send_failed_example :
    find_job (codes "2") (send_failed (codes "2") (codes "JMAP transient") 100 queue)
    ≡ some (record mail_row {
      run_at = 130;
      updated_at = 100;
      attempts = 1;
      last_error = some (codes "JMAP transient");
    })
unfolding job_run
find_job-send_failed_example =
    find_job-send_failed (codes "2") (codes "2") (codes "JMAP transient") 100 queue mail_row
      mail_there

abbrev world : World
world = record { table = queue; inflight = []; events = []; snoozed_until = Map.empty }

abbrev services : Services
services = record {
  db = postgres;
  parse_str = λ t. if text_eq t (codes "a") then some t else none;
  run_account_sync = λ u a. err (imap timeout);
  detail = λ e. codes "timed out";
  protocols = λ a. some (codes "smtp");
  plugins = λ p. none;
  run_export = λ u a p. ok tt;
  run_import = λ u a p. err (codes "bad archive");
}

abbrev mail_job : ClaimedJob
mail_job = record { id = codes "2"; status = running; payload = mail }

abbrev odd_mail : ClaimedJob
odd_mail = record mail_job { payload = send_message (codes "b") (codes "{}") }

keys : (names_key services mail_job.payload ≡ true) × (names_key services odd_mail.payload ≡ false)
unfolding text_eq
keys = (refl, refl)

-- An unknown plugin fails the job; a failed sync takes its account out of flight.
process_runs :
    (progress (find_job (codes "2") (process_job services mail_job 60 world).1.table)
      ≡ some (failed, 1))
    × ((process_job services
          (record { id = codes "1"; status = running; payload = sync_a })
          60
          world).1.inflight
        ≡ [])
unfolding job_run
process_runs = (refl, refl)

abbrev busy : System
busy = record { world = (begin_sync (codes "1") (codes "a") 60 world).1; syncs = codes "a" ∷ [] }

busy_reached : Reach (record { world = world; syncs = [] }) busy
unfolding job_run
busy_reached = next here (begun (codes "1") (codes "a") 60 refl refl)

one_sync_per_account_example : IsExclusive busy
one_sync_per_account_example = one_sync_per_account world busy busy_reached
