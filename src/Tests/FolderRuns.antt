-- ===== src/Tests/FolderRuns.antt =====
-- The folders of an account, and its sync with a server of one mailbox.
use lyra.Prelude.{
  ◌≡◌, refl, true, some, none, [], ◌∷◌, List, Text, codes, text_eq, strip_prefix, starts_with,
}
use lyra.Spam.{ends_with}
use lyra.Prelude.Int.{pos}
use lyra.Prelude.Result.{ok, err}
use lyra.Netsec.{normalize_security_mode, to_ascii_lowercase}
use lyra.Jobs.Worker.Errors.{login, imap}
use lyra.Sync.{Db}
use lyra.Sync.Folders.{
  ImapFolder, FolderTexts, sort_folders, upsert_folders, find_folder_id_by_external_id,
  split_imap_folder_path, imap_folder_depth, rsplit_once, matches, special_use_role,
  effective_folder_role,
}
use lyra.Sync.Folders.Puts.{parent_found}
use lyra.Sync.Folders.Parents.{upsert_folders_parent}
use lyra.Sync.Imap.Account.{AccountSyncRow, Client, run_imap_sync, imap_config, starttls_security}
use lyra.Tests.SyncRuns.{texts, account, server}

abbrev folder_texts : FolderTexts
folder_texts = record {
  to_lowercase = λ t. t;
  is_alphanumeric = λ c. true;
  decode_utf7_imap = λ t. t;
  new_uuid = λ rows. codes "id";
}

abbrev mailbox_at : Text → ImapFolder
mailbox_at name = record { name = name; delimiter = some (codes "/"); attributes = [] }

-- The child is listed before its parent.
abbrev tree : List ImapFolder
tree = mailbox_at (codes "Work/2024") ∷ mailbox_at (codes "Work") ∷ []

upsert_folders_parent_example :
    (id : Text) × (find_folder_id_by_external_id account
        (codes "Work")
        (upsert_folders folder_texts account (sort_folders tree) [])
      ≡ some id)
    × (parent_found account
          (codes "Work/2024")
          (upsert_folders folder_texts account (sort_folders tree) [])
        ≡ some (some id))
unfolding text_eq
upsert_folders_parent_example =
    upsert_folders_parent folder_texts account 47 (codes "Work") (codes "2024") refl refl tree []
      (refl, (refl, tt)) refl refl

paths :
    (split_imap_folder_path (codes "a/b/c") (some (codes "/")) ≡ (some (codes "a/b"), codes "c"))
    × (split_imap_folder_path (codes "/c") (some (codes "/")) ≡ (none, codes "c"))
    × (split_imap_folder_path (codes "a/b") (some []) ≡ (none, codes "a/b"))
    × (imap_folder_depth (mailbox_at (codes "a/b/c")) ≡ 2)
unfolding split_imap_folder_path rsplit_once strip_prefix imap_folder_depth matches starts_with
paths = (refl, refl, refl, refl)

roles :
    (special_use_role folder_texts (codes "hasnochildren" ∷ codes "junk" ∷ [])
      ≡ some (codes "spam"))
    × (effective_folder_role (some (codes "inbox")) (some (codes "archive"))
        ≡ some (codes "archive"))
    × (effective_folder_role (some (codes "inbox")) (some []) ≡ some (codes "inbox"))
unfolding special_use_role ends_with text_eq effective_folder_role
roles = (refl, refl, refl)

abbrev row : AccountSyncRow
row = record {
  email_address = codes "a@b.com";
  imap_host = some (codes "imap.b.com");
  imap_port = some (pos 70_000);
  imap_security = some (codes "STARTTLS");
}

-- A port that does not fit 16 bits falls back to 993.
config :
    imap_config row
    ≡ ok (record {
      host = codes "imap.b.com";
      port = 993;
      security = starttls_security;
      username = codes "a@b.com";
    })
unfolding imap_config normalize_security_mode to_ascii_lowercase text_eq
config = refl

-- A login that is refused leaves the tables as they were.
abbrev locked_out : Client
locked_out = record {
  connect = λ c. err login;
  list_folders = ok tree;
  on_folder = λ name. server 8;
}

abbrev no_rows : Db
no_rows = record { messages = []; folders = []; cursors = [] }

refused :
    run_imap_sync texts folder_texts 0 account locked_out row no_rows ≡ (err (imap login), no_rows)
unfolding run_imap_sync imap_config normalize_security_mode to_ascii_lowercase text_eq
refused = refl
