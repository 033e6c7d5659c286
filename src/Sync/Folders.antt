-- ===== src/Sync/Folders.antt =====
-- The folder rows of an IMAP account in backend/src/sync/store.rs. Unicode's lower-case mapping, its
-- alphanumeric characters, the decoding of Modified UTF-7 and a fresh UUID are parameters.
pub mod Puts
pub mod Depths
pub mod Parents
use lyra.Prelude.{
  ℕ, zero, suc, ◌+◌, ◌-◌, Bool, true, false, ◌&&◌, ◌||◌, Option, none, some, is_none, List, [], ◌∷◌,
  Text, codes, text_eq, strip_prefix, starts_with, leb, ◌==◌, if◌then◌else◌, any, filter, length,
}
use lyra.Prelude.Trim.{is_empty}
use lyra.Spam.{ends_with}
use lyra.Sync.{Folder}
use lyra.Sync.Messages.{opt_eq}

pub record ImapFolder : Type 0 where
  pub name : Text
  pub delimiter : Option Text
  pub attributes : List Text

pub record FolderTexts : Type 0 where
  pub to_lowercase : Text → Text
  pub is_alphanumeric : ℕ → Bool
  pub decode_utf7_imap : Text → Text
  pub new_uuid : List Folder → Text

-- `delimiter.filter(|d| !d.is_empty())`
unfoldable pub filled : Option Text → Option Text
filled none = none
filled (some d) = if is_empty d then none else some d

before_char : ℕ → Option (Text × Text) → Option Text → Option (Text × Text)
before_char c (some (parent, leaf)) here = some (c ∷ parent, leaf)
before_char c none none = none
before_char c none (some rest) = some ([], rest)

-- Around the last place where the delimiter, which is not empty, stands.
unfoldable pub rsplit_once : Text → Text → Option (Text × Text)
unfolding before_char
rsplit_once [] delim = none
rsplit_once (c ∷ t) delim = before_char c (rsplit_once t delim) (strip_prefix (c ∷ t) delim)

parent_and_leaf : Text → Option (Text × Text) → Option Text × Text
parent_and_leaf wire_name none = (none, wire_name)
parent_and_leaf wire_name (some (parent, leaf)) =
    if is_empty parent then (none, leaf) else (some parent, leaf)

split_at : Text → Option Text → Option Text × Text
unfolding parent_and_leaf
split_at wire_name none = (none, wire_name)
split_at wire_name (some delim) = parent_and_leaf wire_name (rsplit_once wire_name delim)

-- The parent's path, if there is one, and the leaf.
unfoldable pub split_imap_folder_path : Text → Option Text → Option Text × Text
unfolding split_at filled
split_imap_folder_path wire_name delimiter = split_at wire_name (filled delimiter)

-- `wire_name.matches(d).count()`: `skip` characters belong to a match that was counted.
unfoldable pub matches : Text → ℕ → Text → ℕ
matches delim skip [] = 0
matches delim (suc skip) (c ∷ t) = matches delim skip t
matches delim zero (c ∷ t) =
    let found = suc (matches delim (length delim - 1) t) in
    let other = matches delim 0 t in if starts_with (c ∷ t) delim then found else other

depth_with : Text → Option Text → ℕ
depth_with wire_name none = 0
depth_with wire_name (some delim) = matches delim 0 wire_name

unfoldable pub imap_folder_depth : ImapFolder → ℕ
unfolding depth_with filled
imap_folder_depth f = depth_with f.name (filled f.delimiter)

-- `sort_by_key`, which is stable.
unfoldable pub insert_folder : ImapFolder → List ImapFolder → List ImapFolder
insert_folder f [] = f ∷ []
insert_folder f (g ∷ folders) =
    let rest = insert_folder f folders in
    if leb (imap_folder_depth f) (imap_folder_depth g) then f ∷ g ∷ folders else g ∷ rest

unfoldable pub sort_folders : List ImapFolder → List ImapFolder
sort_folders [] = []
sort_folders (f ∷ folders) = insert_folder f (sort_folders folders)

abbrev special_uses : List (Text × Text)
special_uses =
    (codes "archive", codes "archive")
    ∷ (codes "all", codes "archive")
    ∷ (codes "drafts", codes "drafts")
    ∷ (codes "junk", codes "spam")
    ∷ (codes "sent", codes "sent")
    ∷ (codes "trash", codes "trash")
    ∷ []

use_of : Text → List (Text × Text) → Option Text
use_of token [] = none
use_of token ((suffix, role) ∷ uses) =
    if ends_with token suffix then some role else use_of token uses

-- `a.or(b)`
unfoldable pub or_role : Option Text → Option Text → Option Text
or_role none b = b
or_role (some a) b = some a

module _ (texts : FolderTexts) where
  unfoldable pub special_use_role : List Text → Option Text
  unfolding use_of or_role
  special_use_role [] = none
  special_use_role (attr ∷ attributes) =
      or_role (use_of (texts.to_lowercase (filter texts.is_alphanumeric attr)) special_uses)
        (special_use_role attributes)

  unfoldable pub decode_imap_mailbox_name : Text → Text
  decode_imap_mailbox_name encoded =
      if any (λ c. c == 38) encoded then texts.decode_utf7_imap encoded else encoded

  abbrev one_of : Text → List Text → Bool
  one_of lower names = any (text_eq lower) names

  unfoldable pub infer_folder_role : Text → Option Text
  infer_folder_role name =
      let lower = texts.to_lowercase name in
      if text_eq lower (codes "inbox")
      then some (codes "inbox")
      else if one_of lower (codes "sent" ∷ codes "sent mail" ∷ codes "sent messages" ∷ [])
      then some (codes "sent")
      else if one_of lower (codes "drafts" ∷ codes "draft" ∷ [])
      then some (codes "drafts")
      else if one_of lower (codes "trash" ∷ codes "deleted" ∷ codes "deleted messages" ∷ [])
      then some (codes "trash")
      else if one_of lower (codes "spam" ∷ codes "junk" ∷ codes "bulk mail" ∷ [])
      then some (codes "spam")
      else if one_of lower (codes "archive" ∷ codes "all mail" ∷ codes "all messages" ∷ [])
      then some (codes "archive")
      else none

abbrev pub is_folder : Text → Text → Folder → Bool
is_folder account_id external_id f =
    text_eq f.account_id account_id && opt_eq f.external_id external_id

unfoldable pub find_folder_id_by_external_id : Text → Text → List Folder → Option Text
find_folder_id_by_external_id account_id external_id [] = none
find_folder_id_by_external_id account_id external_id (f ∷ folders) =
    if is_folder account_id external_id f
    then some f.id
    else find_folder_id_by_external_id account_id external_id folders

parent_of : Text → Option Text → List Folder → Option Text
parent_of account_id none folders = none
parent_of account_id (some wire) folders = find_folder_id_by_external_id account_id wire folders

-- The row of the account and the wire name is given its name, its role and its parent; `role_override`
-- stays. Without one, `new` is inserted.
unfoldable pub put_folder : Text → Text → Folder → List Folder → List Folder
put_folder account_id external_id new [] = new ∷ []
put_folder account_id external_id new (f ∷ folders) =
    let rest = put_folder account_id external_id new folders in
    if is_folder account_id external_id f
    then record f { name = new.name; role = new.role; parent_id = new.parent_id } ∷ folders
    else f ∷ rest

-- The row that is inserted, or that an existing one is updated from.
unfoldable pub folder_row : FolderTexts → Text → ImapFolder → List Folder → Folder
unfolding parent_of
folder_row texts account_id f folders =
    let (parent_wire, leaf) = split_imap_folder_path f.name f.delimiter in
    let display_name = decode_imap_mailbox_name texts leaf in
    record {
      id = texts.new_uuid folders;
      account_id = account_id;
      external_id = some f.name;
      name = display_name;
      parent_id = parent_of account_id parent_wire folders;
      role = or_role (special_use_role texts f.attributes) (infer_folder_role texts display_name);
      role_override = none;
      sort_order = 0;
      total_messages = 0;
      unread_messages = 0;
    }

unfoldable pub upsert_folder : FolderTexts → Text → ImapFolder → List Folder → List Folder
upsert_folder texts account_id f folders =
    put_folder account_id f.name (folder_row texts account_id f folders) folders

unfoldable pub upsert_folders : FolderTexts → Text → List ImapFolder → List Folder → List Folder
upsert_folders texts account_id [] rows = rows
upsert_folders texts account_id (f ∷ folders) rows =
    upsert_folders texts account_id folders (upsert_folder texts account_id f rows)

-- The local override of a role wins.
unfoldable pub effective_folder_role : Option Text → Option Text → Option Text
unfolding filled or_role
effective_folder_role role role_override = or_role (filled role_override) role
