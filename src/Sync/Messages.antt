-- ===== src/Sync/Messages.antt =====
-- The rows of the message table that a sync inserts and fills in (backend/src/sync/store.rs).
use lyra.Prelude.{
  ℕ, suc, Bool, true, false, ◌&&◌, ◌||◌, Option, none, some, List, [], ◌∷◌, ◌++◌, map, Text, codes,
  text_eq, starts_with, leb, ◌==◌, if◌then◌else◌, any, length, take,
}
use lyra.Prelude.Trim.{is_empty}
use lyra.Labels.{array, labels_from_flags}
use lyra.Sync.{ImapMessage, Message, Externals}
use lyra.Sync.Ids.{imap_message_external_id}

abbrev pub opt_eq : Option Text → Text → Bool
opt_eq none t = false
opt_eq (some s) t = text_eq s t

abbrev pub i32_max : ℕ
i32_max = 2_147_483_647

-- `text.contains(part)`
unfoldable pub includes : Text → Text → Bool
includes [] part = is_empty part
includes (c ∷ text) part = starts_with (c ∷ text) part || includes text part

-- `LIKE '%=?%?=%'`
unfoldable pub is_encoded : Text → Bool
is_encoded [] = false
is_encoded (c ∷ text) =
    (starts_with (c ∷ text) (codes "=?") && includes (after_two (c ∷ text)) (codes "?="))
    || is_encoded text
  where
    after_two : Text → Text
    after_two (a ∷ b ∷ t) = t
    after_two _ = []

-- `LIKE '%\u{FFFD}%'`
abbrev pub has_mojibake : Text → Bool
has_mojibake text = any (λ c. c == 65533) text

unfoldable pub stale_text : Option Text → Bool
unfolding is_encoded
stale_text none = true
stale_text (some text) = is_empty text || is_encoded text || has_mojibake text

-- `COALESCE(current, excluded)`
coalesce : Option Text → Option Text → Option Text
coalesce none excluded = excluded
coalesce (some t) excluded = some t

-- `DO UPDATE SET …`
unfoldable pub fill_in : Message → Message → Message
unfolding coalesce
fill_in excluded row = record row {
  is_read = excluded.is_read;
  is_starred = excluded.is_starred;
  flags = excluded.flags;
  subject = if stale_text row.subject then excluded.subject else row.subject;
  from_address = if stale_text row.from_address then excluded.from_address else row.from_address;
  to_addresses = if stale_text row.to_addresses then excluded.to_addresses else row.to_addresses;
  cc_addresses = if stale_text row.cc_addresses then excluded.cc_addresses else row.cc_addresses;
  date = coalesce row.date excluded.date;
  snippet = if stale_text row.snippet then excluded.snippet else row.snippet;
  message_id_header = coalesce row.message_id_header excluded.message_id_header;
  mailer = coalesce row.mailer excluded.mailer;
}

abbrev pub is_message : Text → Text → Message → Bool
is_message account_id external_id m =
    text_eq m.account_id account_id && opt_eq m.external_id external_id

unfoldable pub find_message_id_in_tx : Text → Text → List Message → Option Text
find_message_id_in_tx account_id external_id [] = none
find_message_id_in_tx account_id external_id (m ∷ messages) =
    if is_message account_id external_id m
    then some m.id
    else find_message_id_in_tx account_id external_id messages

-- `INSERT … ON CONFLICT (account_id, external_id) DO UPDATE`, the row being of the key that is given.
unfoldable pub insert_or_fill : Text → Text → Message → List Message → List Message
insert_or_fill account_id external_id row [] = row ∷ []
insert_or_fill account_id external_id row (m ∷ messages) =
    let rest = insert_or_fill account_id external_id row messages in
    if is_message account_id external_id m then fill_in row m ∷ messages else m ∷ rest

unfoldable pub truncate_for_snippet : Text → Text
truncate_for_snippet s = if leb (length s) 120 then s else take 117 s ++ codes "..."

unfoldable pub labels_json : (List Text → Text) → List Text → Option Text
labels_json encode [] = none
labels_json encode (l ∷ labels) = some (encode (l ∷ labels))

fitting : Option ℕ → Option ℕ
fitting none = none
fitting (some s) = if leb s i32_max then some s else none

and_parsed : (Text → Option Text) → Option Text → Option Text
and_parsed parse none = none
and_parsed parse (some t) = parse t

mapped : (Text → Text) → Option Text → Option Text
mapped f none = none
mapped f (some t) = some (f t)

module _ (ext : Externals) (account_id folder_id : Text) where
  -- The row that is inserted for a message, with the columns that no insert names at their defaults.
  unfoldable pub message_insert : Text → ImapMessage → Message
  unfolding fitting and_parsed mapped
  message_insert id msg = record {
    id = id;
    account_id = account_id;
    folder_id = folder_id;
    external_id = some (imap_message_external_id folder_id msg.uid);
    message_id_header = msg.message_id;
    subject = msg.subject;
    from_address = mapped ext.json_raw msg.from_header;
    to_addresses = mapped (λ t. ext.json_strings (t ∷ [])) msg.to_header;
    cc_addresses = msg.cc;
    date = and_parsed ext.parse_ts msg.date;
    is_read = any (λ f. includes f (codes "Seen")) msg.flags;
    is_starred = any (λ f. includes f (codes "Flagged")) msg.flags;
    is_deleted = false;
    flags = some (ext.json_strings msg.flags);
    labels = labels_json ext.json_strings (labels_from_flags (array (map some msg.flags)));
    size_bytes = fitting msg.size;
    in_reply_to = msg.in_reply_to;
    references_headers = msg.references;
    mailer = msg.mailer;
    snippet = mapped truncate_for_snippet msg.subject;
    has_attachments = msg.has_attachments;
    body_text = msg.body_text;
    body_html = mapped ext.sanitize msg.body_html;
    jmap_thread_id = none;
    snoozed_until = none;
  }

  is_new : Option Text → Bool
  is_new none = true
  is_new (some id) = false

  -- Whether the message is new, and the table after.
  unfoldable pub upsert_message_in_tx : ImapMessage → List Message → Bool × List Message
  unfolding is_new
  upsert_message_in_tx msg messages =
      let external_id = imap_message_external_id folder_id msg.uid in
      (
        is_new (find_message_id_in_tx account_id external_id messages),
        insert_or_fill account_id external_id (message_insert (ext.new_uuid messages) msg) messages,
      )

  counted : Bool → ℕ × ℕ → ℕ × ℕ
  counted true (new, updated) = (suc new, updated)
  counted false (new, updated) = (new, suc updated)

  -- The new and the updated messages, and the table after.
  unfoldable pub upsert_all : List ImapMessage → List Message → (ℕ × ℕ) × List Message
  unfolding counted
  upsert_all [] messages = ((0, 0), messages)
  upsert_all (msg ∷ msgs) messages =
      let (was_new, next) = upsert_message_in_tx msg messages in
      let (counts, last) = upsert_all msgs next in (counted was_new counts, last)
