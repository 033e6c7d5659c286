-- ===== src/Sync/Rows/Cursors.antt =====
-- The cursor of a folder, saved and loaded (backend/src/sync/store.rs).
use lyra.Prelude.{
  ℕ, ◌≤◌, ◌≡◌, refl, ap, ◌∙◌, true, some, List, [], ◌∷◌, Text, text_eq_refl, Bool-cases, inl, inr,
  arith,
}
use lyra.Prelude.Decimal.{u32_max, u64_max}
use lyra.Sync.{Cursor}
use lyra.Sync.Ids.{format_cursor_value}
use lyra.Sync.Ids.RoundTrip.{cursor, parse_cursor_value-format}
use lyra.Sync.Rows.{
  is_cursor, load_cursor_value, parsed, load_cursor, save_cursor_value, save_cursor_in_tx,
  uid_cursor,
}

is_cursor_self : (c : Cursor) → is_cursor c.account_id c.folder_id c.cursor_type c ≡ true
is_cursor_self c =
    ground (arith, text_eq_refl c.account_id, text_eq_refl c.folder_id, text_eq_refl c.cursor_type)

load_cursor_value-save :
    (new : Cursor) (cursors : List Cursor)
    → load_cursor_value new.account_id new.folder_id new.cursor_type (save_cursor_value new cursors)
      ≡ some new.cursor_value
unfolding load_cursor_value save_cursor_value
load_cursor_value-save new [] = rw (is_cursor_self new)
load_cursor_value-save new (c ∷ cursors) =
    elim (Bool-cases (is_cursor new.account_id new.folder_id new.cursor_type c)) [
      | inl here ↦ rw here (rw here refl)
      | inr other ↦ rw other (rw other (load_cursor_value-save new cursors))
    ]

-- The cursor that is saved for a folder is the one that is loaded.
pub load_cursor-save :
    (account_id folder_id protocol : Text) (uv lu ms : ℕ) (cursors : List Cursor)
    → uv ≤ u32_max
    → lu ≤ u32_max
    → ms ≤ u64_max
    → load_cursor account_id folder_id
        (save_cursor_in_tx account_id folder_id protocol uv lu ms cursors)
      ≡ some (cursor uv lu ms)
unfolding load_cursor save_cursor_in_tx parsed
load_cursor-save account_id folder_id protocol uv lu ms cursors h k l =
    let new : Cursor = record {
      account_id = account_id;
      folder_id = folder_id;
      protocol = protocol;
      cursor_type = uid_cursor;
      cursor_value = format_cursor_value uv lu ms;
    } in
    ap parsed (load_cursor_value-save new cursors)
    ∙ ap some (parse_cursor_value-format uv lu ms h k l)
