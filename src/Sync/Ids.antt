-- ===== src/Sync/Ids.antt =====
-- The texts under which backend/src/sync/store.rs keeps IMAP messages and folder cursors.
pub mod RoundTrip
use lyra.Prelude.{
  ℕ, ◌<◌, ltb, Bool, true, false, ◌||◌, Option, none, some, List, [], ◌∷◌, ◌++◌, Text, codes, ◌==◌,
  if◌then◌else◌, any,
}
use lyra.Prelude.Split.{split_on}
use lyra.Prelude.Decimal.{show_ℕ, parse_u32, parse_u64}

unfoldable pub imap_message_external_id : Text → ℕ → Text
imap_message_external_id folder_id uid = folder_id ++ (58 ∷ show_ℕ uid)

-- `raw.rsplit(':').next()`: what follows the last colon.
unfoldable pub last_part : Text → Text
last_part [] = []
last_part (c ∷ t) = if any (λ d. d == 58) t then last_part t else if c == 58 then t else c ∷ t

and_parse : Option Text → Option ℕ
and_parse none = none
and_parse (some raw) = parse_u32 (last_part raw)

-- The UID, or nothing where the source has its `InvalidInput` error.
unfoldable pub parse_imap_uid : Option Text → Option ℕ
unfolding and_parse
parse_imap_uid external_id = and_parse external_id

pub record SyncCursorInfo : Type 0 where
  pub uid_validity : ℕ
  pub last_uid : ℕ
  pub last_modseq : ℕ

or_zero : Option ℕ → ℕ
or_zero none = 0
or_zero (some n) = n

cursor_of_parts : List Text → SyncCursorInfo
unfolding or_zero
cursor_of_parts (uv ∷ lu ∷ ms ∷ []) = record {
  uid_validity = or_zero (parse_u32 uv);
  last_uid = or_zero (parse_u32 lu);
  last_modseq = or_zero (parse_u64 ms);
}
cursor_of_parts (uv ∷ lu ∷ []) = record {
  uid_validity = or_zero (parse_u32 uv);
  last_uid = or_zero (parse_u32 lu);
  last_modseq = 0;
}
cursor_of_parts _ = record { uid_validity = 0; last_uid = 0; last_modseq = 0 }

unfoldable pub parse_cursor_value : Text → SyncCursorInfo
unfolding cursor_of_parts
parse_cursor_value value = cursor_of_parts (split_on 58 value)

unfoldable pub format_cursor_value : ℕ → ℕ → ℕ → Text
format_cursor_value uid_validity last_uid last_modseq =
    if ltb 0 last_modseq
    then show_ℕ uid_validity ++ (58 ∷ (show_ℕ last_uid ++ (58 ∷ show_ℕ last_modseq)))
    else show_ℕ uid_validity ++ (58 ∷ show_ℕ last_uid)
