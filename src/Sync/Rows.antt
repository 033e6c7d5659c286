-- ===== src/Sync/Rows.antt =====
-- The messages, cursors and counts of a folder in backend/src/sync/store.rs. A transaction is the
-- function of the tables that it commits; `now` is the moment at which it counts.
pub mod Laws
pub mod Cursors
use lyra.Prelude.{
  ℕ, zero, suc, ◌+◌, min, Bool, true, false, ◌&&◌, ◌||◌, not, Option, none, some, List, [], ◌∷◌,
  ◌++◌, map, Text, codes, text_eq, starts_with, contains, ltb, leb, ◌==◌, if◌then◌else◌, any,
  filter, length, take,
}
use lyra.Prelude.Trim.{is_empty}
use lyra.Labels.{array, labels_from_flags}
use lyra.Sync.{ImapMessage, Message, Folder, Cursor, Db, Externals}
use lyra.Sync.Ids.{
  imap_message_external_id, parse_imap_uid, SyncCursorInfo, parse_cursor_value, format_cursor_value,
}
use lyra.Sync.Messages.{has_mojibake, i32_max, upsert_all}

abbrev pub is_cursor : Text → Text → Text → Cursor → Bool
is_cursor account_id folder_id cursor_type c =
    text_eq c.account_id account_id
    && text_eq c.folder_id folder_id
    && text_eq c.cursor_type cursor_type

unfoldable pub load_cursor_value : Text → Text → Text → List Cursor → Option Text
load_cursor_value account_id folder_id cursor_type [] = none
load_cursor_value account_id folder_id cursor_type (c ∷ cursors) =
    if is_cursor account_id folder_id cursor_type c
    then some c.cursor_value
    else load_cursor_value account_id folder_id cursor_type cursors

abbrev pub uid_cursor : Text
uid_cursor = codes "uidvalidity_uid"

unfoldable pub parsed : Option Text → Option SyncCursorInfo
parsed none = none
parsed (some value) = some (parse_cursor_value value)

unfoldable pub load_cursor : Text → Text → List Cursor → Option SyncCursorInfo
unfolding parsed
load_cursor account_id folder_id cursors =
    parsed (load_cursor_value account_id folder_id uid_cursor cursors)

-- `INSERT … ON CONFLICT (account_id, folder_id, cursor_type) DO UPDATE SET cursor_value`
unfoldable pub save_cursor_value : Cursor → List Cursor → List Cursor
save_cursor_value new [] = new ∷ []
save_cursor_value new (c ∷ cursors) =
    let rest = save_cursor_value new cursors in
    if is_cursor new.account_id new.folder_id new.cursor_type c
    then record c { cursor_value = new.cursor_value } ∷ cursors
    else c ∷ rest

unfoldable pub save_cursor_in_tx : Text → Text → Text → ℕ → ℕ → ℕ → List Cursor → List Cursor
save_cursor_in_tx account_id folder_id protocol uid_validity last_uid last_modseq cursors =
    save_cursor_value
      (record {
        account_id = account_id;
        folder_id = folder_id;
        protocol = protocol;
        cursor_type = uid_cursor;
        cursor_value = format_cursor_value uid_validity last_uid last_modseq;
      })
      cursors

-- An IMAP wipe of a folder: its messages and its cursors, but the account's state that rests on it.
unfoldable pub clear_folder_messages_in_tx : Text → Db → Db
clear_folder_messages_in_tx folder_id db = record db {
  messages = filter (λ m. not (text_eq m.folder_id folder_id)) db.messages;
  cursors =
      filter
        (λ c.
          not (text_eq c.folder_id folder_id && not (text_eq c.cursor_type (codes "email_state"))))
        db.cursors;
}

-- Not soft-deleted, and not snoozed to a later moment.
unfoldable pub is_visible : ℕ → Text → Message → Bool
is_visible now folder_id m =
    text_eq m.folder_id folder_id && not m.is_deleted && awake m.snoozed_until
  where
    awake : Option ℕ → Bool
    awake none = true
    awake (some until) = leb until now

unfoldable pub folder_count : ℕ → Text → Bool → List Message → ℕ
folder_count now folder_id unread_only messages =
    length (filter (λ m. is_visible now folder_id m && not (unread_only && m.is_read)) messages)

unfoldable pub update_folder_counts_in_tx : ℕ → Text → Db → Db
update_folder_counts_in_tx now folder_id db = record db {
  folders =
      map
        (λ f.
          if text_eq f.id folder_id
          then record f {
            total_messages = min (folder_count now folder_id false db.messages) i32_max;
            unread_messages = min (folder_count now folder_id true db.messages) i32_max;
          }
          else f)
        db.folders;
}

abbrev marked : Option Text → Bool
marked none = false
marked (some t) = has_mojibake t

unfoldable pub clear_body : Text → Message → Message
clear_body folder_id m =
    if text_eq m.folder_id folder_id && (marked m.body_text || marked m.body_html)
    then record m { body_text = none; body_html = none }
    else m

module _ (ext : Externals) (now : ℕ) (account_id folder_id : Text) where
  -- Its messages, then the cursor, then the counts: one transaction.
  stored_batch : List ImapMessage → ℕ → ℕ → ℕ → Db → (ℕ × ℕ) × Db
  stored_batch msgs uid_validity last_uid last_modseq db =
      let (counts, messages) = upsert_all ext account_id folder_id msgs db.messages in
      (
        counts,
        update_folder_counts_in_tx now folder_id (record db {
          messages = messages;
          cursors =
              save_cursor_in_tx account_id folder_id (codes "imap") uid_validity last_uid
                last_modseq db.cursors;
        }),
      )

  unfoldable pub persist_imap_folder_batch : List ImapMessage → ℕ → ℕ → ℕ → Bool → Db → (ℕ × ℕ) × Db
  unfolding stored_batch
  persist_imap_folder_batch msgs uid_validity last_uid last_modseq clear_first db =
      stored_batch msgs uid_validity last_uid last_modseq
        (if clear_first then clear_folder_messages_in_tx folder_id db else db)

  -- `repaired` counts the messages.
  unfoldable pub repair_imap_messages : List ImapMessage → Db → ℕ × Db
  repair_imap_messages msgs db =
      let (counts, messages) = upsert_all ext account_id folder_id msgs db.messages in
      (
        length msgs,
        update_folder_counts_in_tx now folder_id
            (record db { messages = map (clear_body folder_id) messages }),
      )

abbrev pub gone : List ℕ → Option ℕ → Bool
gone server_uids none = false
gone server_uids (some uid) = not (any (λ u. u == uid) server_uids)

-- The ids of the rows whose UID the server does not list.
unfoldable pub stale_imap_row_ids : List Message → List ℕ → List Text
stale_imap_row_ids [] server_uids = []
stale_imap_row_ids (m ∷ rows) server_uids =
    let rest = stale_imap_row_ids rows server_uids in
    if gone server_uids (parse_imap_uid m.external_id) then m.id ∷ rest else rest

unfoldable pub live_rows : Text → Text → List Message → List Message
live_rows account_id folder_id messages =
    filter
      (λ m. text_eq m.account_id account_id && text_eq m.folder_id folder_id && not m.is_deleted)
      messages

unfoldable pub soft_delete : List Text → Message → Message
soft_delete ids m = if contains ids m.id then record m { is_deleted = true } else m

unfoldable pub deleted_rows : ℕ → Text → List Text → Db → ℕ × Db
unfolding soft_delete
deleted_rows now folder_id [] db = (0, db)
deleted_rows now folder_id (id ∷ ids) db = (
  length (id ∷ ids),
  update_folder_counts_in_tx now folder_id
      (record db { messages = map (soft_delete (id ∷ ids)) db.messages }),
)

-- How many rows were soft-deleted, and the tables after.
unfoldable pub reconcile_folder_deletions : ℕ → Text → Text → List ℕ → Db → ℕ × Db
unfolding deleted_rows
reconcile_folder_deletions now account_id folder_id server_uids db =
    deleted_rows now folder_id
      (stale_imap_row_ids (live_rows account_id folder_id db.messages) server_uids) db

unfoldable pub is_mangled : Message → Bool
is_mangled m =
    marked m.subject
    || marked m.snippet
    || marked m.from_address
    || marked m.to_addresses
    || marked m.body_text
    || marked m.body_html

push_uid : Option ℕ → List ℕ → List ℕ
push_uid none rest = rest
push_uid (some uid) rest = uid ∷ rest

unfoldable pub uids_of_rows : List Message → List ℕ
unfolding push_uid
uids_of_rows [] = []
uids_of_rows (m ∷ rows) = push_uid (parse_imap_uid m.external_id) (uids_of_rows rows)

-- At most `limit` rows are looked at; one without a UID takes a place.
unfoldable pub mojibake_message_uids : Text → ℕ → List Message → List ℕ
mojibake_message_uids folder_id limit messages =
    uids_of_rows (take limit (filter (λ m. text_eq m.folder_id folder_id && is_mangled m) messages))
