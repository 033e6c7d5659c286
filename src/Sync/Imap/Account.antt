-- ===== src/Sync/Imap/Account.antt =====
-- The IMAP sync of an account: `run_imap_sync` of backend/src/sync/imap_loop.rs, its login, its list of
-- folders, and the passes over them one after the other.
use lyra.Prelude.{
  ℕ, Bool, Option, none, some, List, [], ◌∷◌, Text, codes, text_eq, leb, any, length, if◌then◌else◌,
}
use lyra.Prelude.Int.{ℤ, pos, negsuc}
use lyra.Prelude.Result.{Result, ok, err}
use lyra.Prelude.Exec.{Exec, pure, relabel, ◌>>◌}
use lyra.Netsec.{normalize_security_mode}
use lyra.Jobs.Worker.Errors.{ImapError, SyncError, imap, crypto, database, invalid_input}
use lyra.Sync.{Db, Externals}
use lyra.Sync.Messages.{includes}
use lyra.Sync.Folders.{
  ImapFolder, FolderTexts, sort_folders, upsert_folders, find_folder_id_by_external_id,
}
use lyra.Sync.Imap.{Replies, SyncPass}
use lyra.Sync.Imap.Pass.{sync_folder}

-- What a sync reads of the account's row.
pub record AccountSyncRow : Type 0 where
  pub email_address : Text
  pub imap_host : Option Text
  pub imap_port : Option ℤ
  pub imap_security : Option Text

pub data ImapSecurity : Type 0 where
  tls_security starttls_security : ImapSecurity

-- The secret, and how it is presented, are left to the client.
pub record ImapConfig : Type 0 where
  pub host : Text
  pub port : ℕ
  pub security : ImapSecurity
  pub username : Text

abbrev port_of : Option ℤ → ℕ
port_of none = 993
port_of (some (negsuc n)) = 993
port_of (some (pos n)) = if leb n 65_535 then n else 993

security_of : Option Text → Result SyncError ImapSecurity
security_of none = ok tls_security
security_of (some s) = elim (normalize_security_mode s) [
  | ok mode ↦ ok (if text_eq mode (codes "starttls") then starttls_security else tls_security)
  | err message ↦ err invalid_input
]

with_host : Option Text → AccountSyncRow → Result SyncError ImapConfig
unfolding security_of
with_host none row = err crypto
with_host (some host) row = elim (security_of row.imap_security) [
  | ok security ↦ ok (record {
    host = host;
    port = port_of row.imap_port;
    security = security;
    username = row.email_address;
  })
  | err e ↦ err e
]

unfoldable pub imap_config : AccountSyncRow → Result SyncError ImapConfig
unfolding with_host
imap_config row = with_host row.imap_host row

-- What a server answers in one sync: to the login, with the secret that the account has, to LIST, and on each folder.
pub record Client : Type 0 where
  pub connect : ImapConfig → Result ImapError (Unit {0})
  pub list_folders : Result ImapError (List ImapFolder)
  pub on_folder : Text → Replies

pub record SyncResponse : Type 0 where
  pub account_id : Text
  pub folders_synced : ℕ
  pub messages_synced : ℕ
  pub messages_updated : ℕ
  pub messages_deleted : ℕ

abbrev pub is_noselect : ImapFolder → Bool
is_noselect f = any (λ a. includes a (codes "Noselect")) f.attributes

module _ (ext : Externals) (texts : FolderTexts) (now : ℕ) (account_id : Text)
    (client : Client) where
  -- `get_folder_id`, and the pass over the folder, whose error ends the sync.
  pass_over : ImapFolder → Option Text → Exec SyncPass SyncError (Unit {0})
  pass_over f none p = (err database, p)
  pass_over f (some folder_id) p =
      let (answer, q) = sync_folder ext now account_id folder_id (client.on_folder f.name) p in
      (relabel imap answer, q)

  unfoldable pub sync_one : ImapFolder → Exec SyncPass SyncError (Unit {0})
  unfolding pass_over
  sync_one f p =
      if is_noselect f
      then (ok tt, p)
      else pass_over f (find_folder_id_by_external_id account_id f.name p.db.folders) p

  unfoldable pub sync_all : List ImapFolder → Exec SyncPass SyncError (Unit {0})
  sync_all [] = pure tt
  sync_all (f ∷ folders) = sync_one f >> sync_all folders

  abbrev begun : Db → SyncPass
  begun db = record { db = db; total_new = 0; total_updated = 0; total_deleted = 0 }

  answered : ℕ → Result SyncError (Unit {0}) × SyncPass → Result SyncError SyncResponse × Db
  answered n (err e, p) = (err e, p.db)
  answered n (ok _, p) = (
    ok (record {
      account_id = account_id;
      folders_synced = n;
      messages_synced = p.total_new;
      messages_updated = p.total_updated;
      messages_deleted = p.total_deleted;
    }),
    p.db,
  )

  listed_folders : Result ImapError (List ImapFolder) → Exec Db SyncError SyncResponse
  unfolding answered
  listed_folders (err e) db = (err (imap e), db)
  listed_folders (ok found) db =
      let folders = sort_folders found in
      let rows = record db { folders = upsert_folders texts account_id folders db.folders } in
      answered (length folders) (sync_all folders (begun rows))

  connected : Result SyncError ImapConfig → Exec Db SyncError SyncResponse
  unfolding listed_folders
  connected (err e) db = (err e, db)
  connected (ok config) db = elim (client.connect config) [
    | ok _ ↦ listed_folders client.list_folders db
    | err e ↦ (err (imap e), db)
  ]

  unfoldable pub run_imap_sync : AccountSyncRow → Exec Db SyncError SyncResponse
  unfolding connected
  run_imap_sync row = connected (imap_config row)
