-- ===== src/Sync/Ids/RoundTrip.antt =====
-- The texts of backend/src/sync/store.rs are read back.
use lyra.Prelude.{
  ℕ, ◌≤◌, ◌≡◌, refl, ap, ◌∙◌, Bool, true, false, some, [], ◌∷◌, ◌++◌, Text, any, ◌==◌, ltb, All,
  inl, inr, Bool-cases, arith,
}
use lyra.Prelude.Decimal.{
  show_ℕ, show_ℕ-IsDigit, IsDigit, parse_u32, parse_u32-show_ℕ, parse_u64-show_ℕ, u32_max, u64_max,
}
use lyra.Prelude.Split.{split_on, split_none, split_first}
use lyra.Sync.Ids.{
  imap_message_external_id, last_part, parse_imap_uid, SyncCursorInfo, cursor_of_parts,
  parse_cursor_value, format_cursor_value,
}

abbrev has_colon : Text → Bool
has_colon t = any (λ d. d == 58) t

no_colon : (t : Text) → All IsDigit t → has_colon t ≡ false
no_colon [] h = refl
no_colon (c ∷ t) (d, h) = ground (arith, no_colon t h, d)

colon_inside : (s t : Text) → has_colon (s ++ (58 ∷ t)) ≡ true
colon_inside [] t = refl
colon_inside (c ∷ s) t = ground (arith, colon_inside s t)

last_part-digits : (s t : Text) → has_colon t ≡ false → last_part (s ++ (58 ∷ t)) ≡ t
unfolding last_part
last_part-digits [] t h = rw h
last_part-digits (c ∷ s) t h = ground (arith, colon_inside s t, last_part-digits s t h)

-- The UID of a message comes back from its external id, whatever the folder's id.
pub parse_imap_uid-external_id :
    (folder_id : Text) (uid : ℕ)
    → uid ≤ u32_max
    → parse_imap_uid (some (imap_message_external_id folder_id uid)) ≡ some uid
unfolding parse_imap_uid imap_message_external_id
parse_imap_uid-external_id folder_id uid h =
    ap parse_u32
      (last_part-digits folder_id (show_ℕ uid) (no_colon (show_ℕ uid) (show_ℕ-IsDigit uid)))
    ∙ parse_u32-show_ℕ uid h

abbrev pub cursor : ℕ → ℕ → ℕ → SyncCursorInfo
cursor uv lu ms = record { uid_validity = uv; last_uid = lu; last_modseq = ms }

module _ (uv lu ms : ℕ) (uv_fits : uv ≤ u32_max) (lu_fits : lu ≤ u32_max)
    (ms_fits : ms ≤ u64_max) where
  two_parts : cursor_of_parts (show_ℕ uv ∷ show_ℕ lu ∷ []) ≡ cursor uv lu 0
  unfolding cursor_of_parts
  two_parts = rw (parse_u32-show_ℕ uv uv_fits, parse_u32-show_ℕ lu lu_fits)

  three_parts : cursor_of_parts (show_ℕ uv ∷ show_ℕ lu ∷ show_ℕ ms ∷ []) ≡ cursor uv lu ms
  unfolding cursor_of_parts
  three_parts =
      rw (parse_u32-show_ℕ uv uv_fits, parse_u32-show_ℕ lu lu_fits, parse_u64-show_ℕ ms ms_fits)

  split_last : (n : ℕ) → split_on 58 (show_ℕ n) ≡ show_ℕ n ∷ []
  split_last n = split_none 58 (show_ℕ n) (no_colon (show_ℕ n) (show_ℕ-IsDigit n))

  split_number : (n : ℕ) (t : Text) → split_on 58 (show_ℕ n ++ (58 ∷ t)) ≡ show_ℕ n ∷ split_on 58 t
  split_number n t = split_first 58 (show_ℕ n) t (no_colon (show_ℕ n) (show_ℕ-IsDigit n))

  -- A cursor is read back, with or without a mod-sequence.
  pub parse_cursor_value-format :
      parse_cursor_value (format_cursor_value uv lu ms) ≡ cursor uv lu ms
  unfolding parse_cursor_value format_cursor_value
  parse_cursor_value-format = elim (Bool-cases (ltb 0 ms)) [
    | inl some_ms ↦ rw (some_ms, split_number uv, split_number lu, split_last ms) three_parts
    | inr no_ms ↦
        let none_left : ms ≡ 0 = ground (arith, no_ms) in
        rw (no_ms, split_number uv, split_last lu) (two_parts ∙ ap (cursor uv lu) (omega arith))
  ]
