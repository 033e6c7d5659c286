-- ===== src/Tests/SyncRuns.antt =====
-- A mailbox that the sync of a folder meets, and the theorems on such a pass applied to it.
use lyra.Prelude.{
  ℕ, ◌≤◌, ◌≡◌, refl, false, none, some, is_none, List, [], ◌∷◌, map, Text, codes, filter, ltb,
  arith, if◌then◌else◌,
}
use lyra.Prelude.Result.{Result, ok, err}
use lyra.Sync.{ImapMessage, ImapSelectResult, Externals}
use lyra.Jobs.Worker.Errors.{ImapError, timeout}
use lyra.Sync.Messages.{message_insert}
use lyra.Sync.Rows.{load_cursor, save_cursor_in_tx}
use lyra.Sync.Imap.{Replies, SyncPass, has, after_uid, max_uid, chunks, first_cursor, new_modseq}
use lyra.Sync.Imap.Pass.{fetch_new}
use lyra.Sync.Imap.Pass.Stored.{AreServed}
use lyra.Sync.Imap.Pass.Reached.{Fetched}
use lyra.Sync.Imap.Pass.Skipped.{failed_chunk_skipped}

abbrev pub texts : Externals
texts = record {
  json_strings = λ ts. codes "[]";
  json_raw = λ t. t;
  sanitize = λ t. t;
  parse_ts = λ t. some t;
  new_uuid = λ messages. codes "m";
}

abbrev message_of : ℕ → ImapMessage
message_of uid = record {
  uid = uid;
  message_id = none;
  subject = some (codes "Hello");
  from_header = none;
  to_header = none;
  cc = none;
  date = none;
  in_reply_to = none;
  references = none;
  mailer = none;
  flags = codes "\\Seen" ∷ [];
  size = some 10;
  body_text = none;
  body_html = none;
  has_attachments = false;
}

abbrev validity_of : Result ImapError ImapSelectResult → ℕ
validity_of (ok s) = s.uid_validity
validity_of (err e) = 0

abbrev mailbox : List ℕ
mailbox = 1 ∷ 2 ∷ 3 ∷ []

-- What a fetch of a chunk gives.
abbrev served : List ℕ → List ImapMessage
served chunk = map message_of (filter (λ uid. has uid mailbox) chunk)

-- A server whose commands all succeed. A search lists in no particular order.
abbrev pub server : ℕ → Replies
server uid_validity = record {
  select = ok (record { uid_validity = uid_validity; highest_modseq = none });
  listing = ok mailbox;
  search_uids = λ after. ok (3 ∷ 1 ∷ 2 ∷ []);
  supports_condstore = false;
  fetch_changed_since = λ modseq. ok [];
  fetch_metadata = λ chunk. ok (served chunk);
}

abbrev selected : ImapSelectResult
selected = record { uid_validity = 8; highest_modseq = none }

abbrev pub account : Text
account = codes "a"

abbrev inbox : Text
inbox = codes "f"

abbrev empty_pass : SyncPass
empty_pass = record {
  db = record { messages = []; folders = []; cursors = [] };
  total_new = 0;
  total_updated = 0;
  total_deleted = 0;
}

-- A cursor that was saved at UID 500 under UIDVALIDITY 7.
abbrev old_pass : SyncPass
old_pass = record empty_pass {
  db = record {
    messages = [];
    folders = [];
    cursors = save_cursor_in_tx account inbox (codes "imap") 7 500 0 [];
  };
}

-- A server without CONDSTORE that fails to give message 3.
abbrev flaky : Replies
flaky = record (server 8) {
  search_uids = λ after. if is_none after then ok mailbox else err timeout;
  fetch_metadata = λ chunk. if has 3 chunk then err timeout else ok (served chunk);
}

-- A server that lists the newest message first and fails to list the mailbox for the deletions.
abbrev above : ℕ → List ℕ
above l = filter (λ uid. ltb l uid) (3 ∷ 2 ∷ 1 ∷ [])

abbrev newest_first : Replies
newest_first = record (server 8) {
  listing = err timeout;
  search_uids = λ after. elim after [ none ↦ ok (above 0) | some l ↦ ok (above l) ];
}

-- Message 1 has a row, and the cursor is at it.
abbrev begun_pass : SyncPass
begun_pass = record empty_pass {
  db = record {
    messages = message_insert texts account inbox (codes "1") (message_of 1) ∷ [];
    folders = [];
    cursors = save_cursor_in_tx account inbox (codes "imap") 8 1 0 [];
  };
}

-- The first chunk brings message 90, and the second, with message 1, fails.
abbrev crowd : List ℕ
crowd = 90 ∷ 12 ∷ 13 ∷ 14 ∷ 15 ∷ 16 ∷ 17 ∷ 18 ∷ 1 ∷ []

abbrev broken : Replies
broken = record (server 8) {
  search_uids = λ after. ok crowd;
  fetch_metadata = λ chunk. if has 1 chunk then err timeout else ok (map message_of chunk);
}

crowd_served : AreServed crowd (map message_of (90 ∷ 12 ∷ 13 ∷ 14 ∷ 15 ∷ 16 ∷ 17 ∷ 18 ∷ []))
crowd_served = (
  (omega arith, refl),
  (
    (omega arith, refl),
    (
      (omega arith, refl),
      (
        (omega arith, refl),
        (
          (omega arith, refl),
          ((omega arith, refl), ((omega arith, refl), ((omega arith, refl), tt))),
        ),
      ),
    ),
  ),
)

failed_chunk_skipped_example :
    (l : ℕ) × (after_uid
        (load_cursor account inbox
          (fetch_new texts 0 account inbox broken selected none crowd [] empty_pass).1.db.cursors)
        8
      ≡ some l)
    × (max_uid (map message_of (90 ∷ 12 ∷ 13 ∷ 14 ∷ 15 ∷ 16 ∷ 17 ∷ 18 ∷ [])) ≤ l)
unfolding chunks first_cursor new_modseq
failed_chunk_skipped_example =
    failed_chunk_skipped texts 0 account inbox broken selected none empty_pass crowd
      (90 ∷ 12 ∷ 13 ∷ 14 ∷ 15 ∷ 16 ∷ 17 ∷ 18 ∷ []) (1 ∷ []) [] (message_of 90)
      (map message_of (12 ∷ 13 ∷ 14 ∷ 15 ∷ 16 ∷ 17 ∷ 18 ∷ [])) timeout refl refl refl crowd_served
      (omega arith) (omega arith) (omega arith)
