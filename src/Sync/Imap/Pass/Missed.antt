-- ===== src/Sync/Imap/Pass/Missed.antt =====
-- What a change of a folder's UIDVALIDITY leaves for the next pass (backend/src/sync/imap_loop.rs).
use lyra.Prelude.{ℕ, ◌≤◌, ◌≡◌, ◌≢◌, Bool, false, Option, some, List, Text}
use lyra.Prelude.Decimal.{u32_max, u64_max}
use lyra.Sync.{ImapMessage, ImapSelectResult, Externals}
use lyra.Sync.Ids.{SyncCursorInfo}
use lyra.Sync.Rows.{load_cursor}
use lyra.Sync.Imap.{Replies, SyncPass, Progress, chunks, is_changed, after_uid, new_modseq}
use lyra.Sync.Imap.Pass.{prepare, sync_folder}
use lyra.Sync.Imap.Pass.Saved.{Follows}
use lyra.Sync.Imap.Pass.Fetched.{Fetches, Safe, fetched}
use lyra.Sync.Imap.Pass.Complete.{Answers, to_fetch}

module _ (ext : Externals) (now : ℕ) (account_id folder_id : Text) where
  module _ (r : Replies) (server_uids : List ℕ) (served : List ℕ → List ImapMessage)
      (fetches : Fetches r server_uids served) (uv ms : ℕ) (anew : Bool) (old : ℕ)
      (uv_fits : uv ≤ u32_max) (ms_fits : ms ≤ u64_max) where
    abbrev FollowsHere : Progress → Type 0
    FollowsHere = Follows ext now account_id folder_id r uv ms anew old uv_fits ms_fits

module _ (ext : Externals) (now : ℕ) (account_id folder_id : Text) (r : Replies)
    (server_uids : List ℕ) (served : List ℕ → List ImapMessage) (selected : ImapSelectResult)
    (old : SyncCursorInfo) (new_uids : List ℕ) (changes : List ImapMessage)
    (answers : Answers ext now account_id folder_id r server_uids served selected
      (some old)
      new_uids
      changes)
    (p : SyncPass) (loaded : load_cursor account_id folder_id p.db.cursors ≡ some old)
    (anew : old.uid_validity ≢ selected.uid_validity) where
  abbrev uv : ℕ
  uv = selected.uid_validity

  abbrev modseq : ℕ
  modseq = new_modseq r selected

  abbrev ready : SyncPass
  ready = prepare ext now account_id folder_id r p

  abbrev rest : List (List ℕ)
  rest = chunks (
      to_fetch ext now account_id folder_id r server_uids served selected (some old) new_uids
        changes answers)

  abbrev begun : Progress
  begun = record { pass = ready; chunk_cursor = old.last_uid; cleared = false }

  abbrev last_run : Progress
  last_run =
      (fetched ext now account_id folder_id r server_uids served answers.fetches uv modseq
        (is_changed (some old) uv) rest begun).0

  abbrev SafeHere : ℕ → Type 0
  SafeHere uid =
      Safe ext now account_id folder_id r server_uids served answers.fetches uv modseq
        (is_changed (some old) uv) uid begun

  module _ (uv_fits : uv ≤ u32_max) (old_fits : old.last_uid ≤ u32_max)
      (ms_fits : modseq ≤ u64_max) where
    abbrev after_pass : Option ℕ
    after_pass =
        after_uid
          (load_cursor account_id folder_id
            (sync_folder ext now account_id folder_id r p).1.db.cursors)
          uv
