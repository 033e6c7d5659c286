-- ===== src/Push.antt =====
-- New messages for push notifications: backend/src/push/diff.rs. A sender column is read as JSON
-- by a parameter, `read`.
pub mod Baseline
use lyra.Prelude.{
  ℕ, Bool, true, false, ◌&&◌, not, Option, none, some, List, [], ◌∷◌, map, Text, codes, text_eq,
  contains, filter, take, ◌==◌, if◌then◌else◌,
}
use lyra.Prelude.Trim.{is_empty, trim}

-- What a diff reads of a `MessageResponse`.
pub record MessageResponse : Type 0 where
  pub id : Text
  pub folder_id : Text
  pub folder_role : Option Text
  pub thread_id : Option Text
  pub message_id_header : Option Text
  pub from_address : Option Text
  pub subject : Option Text

abbrev pub non_incoming_roles : List Text
non_incoming_roles =
    codes "sent"
    ∷ codes "drafts"
    ∷ codes "trash"
    ∷ codes "spam"
    ∷ codes "junk"
    ∷ codes "outbox"
    ∷ []

abbrev pub diff_limit : ℕ
diff_limit = 15

pub record PushCandidate : Type 0 where
  pub id : Text
  pub identity : Text
  pub title : Text
  pub body : Text

pub record DiffOutcome : Type 0 where
  pub fresh : List PushCandidate
  pub new_baseline : List Text
  pub seeded : Bool

abbrev or_default : Option Text → Text
or_default none = []
or_default (some s) = s

or_else : Option Text → Option Text → Option Text
or_else none o = o
or_else (some s) o = some s

unfoldable pub is_incoming : Option Text → Bool
is_incoming role = not (contains non_incoming_roles (or_default role))

header_or : Text → Option Text → Text
header_or id none = id
header_or id (some s) = if is_empty s then id else s

unfoldable pub identity : MessageResponse → Text
unfolding header_or
identity m = header_or m.id m.message_id_header

-- An element of a JSON array: a string, or what its string fields hold.
pub data Entry : Type 0 where
  plain : Text → Entry
  fields : (name email : Option Text) → Entry

-- What a sender column reads as.
pub data Address : Type 0 where
  entries : List Entry → Address
  object : (raw email : Option Text) → Address
  other : Address

-- The text before the last `<` and the text after it.
unfoldable pub at_last_lt : Text → Option (Text × Text)
at_last_lt [] = none
at_last_lt (c ∷ t) = elim (at_last_lt t) [
  | some (before, after) ↦ some (c ∷ before, after)
  | none ↦ if c == 60 then some ([], t) else none
]

-- The text before a closing `>`.
unfoldable pub before_gt : Text → Option Text
before_gt [] = none
before_gt (c ∷ t) = elim (before_gt t) [
  | some rest ↦ some (c ∷ rest)
  | none ↦ if c == 62 && is_empty t then some [] else none
]

named : Text → Option (Text × Text) → Text
named text none = text
named text (some (before, after)) = elim (before_gt after) [
  | none ↦ text
  | some address ↦ if is_empty (trim before) then trim address else trim before
]

unfoldable pub display_from_address : Text → Text
unfolding named
display_from_address text = named text (at_last_lt text)

entry_label : Entry → Text
entry_label (plain s) = s
entry_label (fields name email) = or_default (or_else name email)

address_label : Text → Address → Text
unfolding entry_label or_else
address_label raw (entries []) = raw
address_label raw (entries (first ∷ rest)) = entry_label first
address_label raw (object text email) = display_from_address (or_default (or_else text email))
address_label raw other = raw

module _ (read : Text → Address) where
  unfoldable pub sender_label : Option Text → Text
  unfolding address_label
  sender_label from_address =
      address_label (or_default from_address) (read (or_default from_address))

  candidate : MessageResponse → PushCandidate
  candidate m = record {
    id = m.id;
    identity = identity m;
    title = sender_label m.from_address;
    body = or_default m.subject;
  }

  is_muted : List Text → Option Text → Bool
  is_muted muted none = false
  is_muted muted (some t) = contains muted t

  abbrev pub incoming : List MessageResponse → List MessageResponse
  incoming messages = take diff_limit (filter (λ m. is_incoming m.folder_role) messages)

  -- The three filters of `fresh`, in one.
  unfoldable pub is_fresh : List Text → List Text → List Text → MessageResponse → Bool
  unfolding is_muted
  is_fresh baseline muted_folders muted_threads m =
      not (contains baseline (identity m))
      && not (contains muted_folders m.folder_id)
      && not (is_muted muted_threads m.thread_id)

  unfoldable pub diff_new_messages :
      List MessageResponse → List Text → List Text → List Text → DiffOutcome
  unfolding candidate
  diff_new_messages messages baseline muted_folders muted_threads = elim baseline [
    | [] ↦ record { fresh = []; new_baseline = map identity (incoming messages); seeded = true }
    | b ∷ bs ↦ record {
      fresh =
          map candidate
            (filter (is_fresh (b ∷ bs) muted_folders muted_threads) (incoming messages));
      new_baseline = map identity (incoming messages);
      seeded = false;
    }
  ]
