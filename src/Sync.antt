-- ===== src/Sync.antt =====
-- What the IMAP sync of backend/src/sync keeps and exchanges: the tables of messages, folders and
-- cursors, and what the mail client of backend/src/imap.rs answers. The tables are those of SQLite;
-- their `created_at` and `updated_at` stamps, and columns that a sync neither reads nor writes, are
-- left out, and so are the raw body and the attachments of a fetched message. A driver's failure is
-- not modelled.
pub mod Ids
pub mod Messages
pub mod Folders
pub mod Rows
pub mod Imap
use lyra.Prelude.{ℕ, Bool, true, false, Option, List, Text}

pub record ImapMessage : Type 0 where
  pub uid : ℕ
  pub message_id : Option Text
  pub subject : Option Text
  pub from_header : Option Text
  pub to_header : Option Text
  pub cc : Option Text
  pub date : Option Text
  pub in_reply_to : Option Text
  pub references : Option Text
  pub mailer : Option Text
  pub flags : List Text
  pub size : Option ℕ
  pub body_text : Option Text
  pub body_html : Option Text
  pub has_attachments : Bool

pub record ImapSelectResult : Type 0 where
  pub uid_validity : ℕ
  pub highest_modseq : Option ℕ

-- A row of the message table. Its JSON columns hold the text that was bound.
pub record Message : Type 0 where
  pub id : Text
  pub account_id : Text
  pub folder_id : Text
  pub external_id : Option Text
  pub message_id_header : Option Text
  pub subject : Option Text
  pub from_address : Option Text
  pub to_addresses : Option Text
  pub cc_addresses : Option Text
  pub date : Option Text
  pub is_read : Bool
  pub is_starred : Bool
  pub is_deleted : Bool
  pub flags : Option Text
  pub labels : Option Text
  pub size_bytes : Option ℕ
  pub in_reply_to : Option Text
  pub references_headers : Option Text
  pub mailer : Option Text
  pub snippet : Option Text
  pub has_attachments : Bool
  pub body_text : Option Text
  pub body_html : Option Text
  pub jmap_thread_id : Option Text
  pub snoozed_until : Option ℕ

pub record Folder : Type 0 where
  pub id : Text
  pub account_id : Text
  pub external_id : Option Text
  pub name : Text
  pub parent_id : Option Text
  pub role : Option Text
  pub role_override : Option Text
  pub sort_order : ℕ
  pub total_messages : ℕ
  pub unread_messages : ℕ

pub record Cursor : Type 0 where
  pub account_id : Text
  pub folder_id : Text
  pub protocol : Text
  pub cursor_type : Text
  pub cursor_value : Text

pub record Db : Type 0 where
  pub messages : List Message
  pub folders : List Folder
  pub cursors : List Cursor

-- Code outside the repository: serde_json's text of a list of strings and of `{"raw": …}`, the HTML
-- sanitizer, the parser of dates with the form that is stored, and a fresh UUID.
pub record Externals : Type 0 where
  pub json_strings : List Text → Text
  pub json_raw : Text → Text
  pub sanitize : Text → Text
  pub parse_ts : Text → Option Text
  pub new_uuid : List Message → Text
