-- ===== src/Sync/Imap/Pass/Skipped.antt =====
-- What a failed chunk leaves for the next pass, in whatever order the search lists UIDs
-- (backend/src/sync/imap_loop.rs). `uid_search` gives a set, whose order is arbitrary.
use lyra.Prelude.{
  ℕ, ◌≤◌, ◌≡◌, refl, ap, ◌∙◌, Bool, true, false, Option, none, some, List, [], ◌∷◌, Text, arith,
  if◌then◌else◌,
}
use lyra.Prelude.Result.{ok, err}
use lyra.Prelude.Decimal.{u32_max, u64_max}
use lyra.Sync.{ImapMessage, ImapSelectResult, Externals}
use lyra.Jobs.Worker.Errors.{ImapError}
use lyra.Sync.Ids.{SyncCursorInfo}
use lyra.Sync.Ids.RoundTrip.{cursor as cursor_info}
use lyra.Sync.Rows.{load_cursor}
use lyra.Sync.Imap.{
  Replies, SyncPass, Progress, max_uid, chunks, is_changed, after_uid, stored_modseq, first_cursor,
  new_modseq, closed, session_may_be_poisoned,
}
use lyra.Sync.Imap.Pass.{store_chunk, fetch_chunks, close_folder, fetch_new}
use lyra.Sync.Imap.Pass.Stored.{AreServed}
use lyra.Sync.Imap.Pass.Kept.{kept_all}
use lyra.Sync.Imap.Pass.Saved.{Follows, Follows-store_chunk, saved_cursor, after_own}

module _ (ext : Externals) (now : ℕ) (account_id folder_id : Text) (r : Replies)
    (selected : ImapSelectResult) (cursor : Option SyncCursorInfo) (p : SyncPass)
    (new_uids first second : List ℕ) (rest : List (List ℕ)) (m : ImapMessage)
    (msgs : List ImapMessage) (e : ImapError) (chunked : chunks new_uids ≡ first ∷ second ∷ rest)
    (first_there : r.fetch_metadata first ≡ ok (m ∷ msgs))
    (second_fails : r.fetch_metadata second ≡ err e) (served : AreServed new_uids (m ∷ msgs))
    (uv_fits : selected.uid_validity ≤ u32_max) (cursor_fits : first_cursor cursor ≤ u32_max)
    (ms_fits : new_modseq r selected ≤ u64_max) where
  abbrev uv : ℕ
  uv = selected.uid_validity

  abbrev ms : ℕ
  ms = new_modseq r selected

  abbrev anew : Bool
  anew = is_changed cursor uv

  abbrev begun : Progress
  begun = record { pass = p; chunk_cursor = first_cursor cursor; cleared = false }

  abbrev one : Progress
  one = store_chunk ext now account_id folder_id r uv ms anew (m ∷ msgs) begun

  abbrev poison : Option ImapError
  poison = if session_may_be_poisoned e then some e else none

  broken_off :
      fetch_chunks ext now account_id folder_id r uv ms anew (first ∷ second ∷ rest) begun
      ≡ (one, poison)
  unfolding fetch_chunks
  broken_off = ground (arith, first_there, second_fails)

  followed :
      Follows ext now account_id folder_id r uv ms anew (first_cursor cursor) uv_fits ms_fits one
  followed =
      Follows-store_chunk ext now account_id folder_id r uv ms anew (first_cursor cursor) uv_fits
        ms_fits new_uids (m ∷ msgs) begun served
        (omega arith, cursor_fits, λ k. absurd (let impossible : ⊥ = cc (k) in impossible))

  one_cleared : one.cleared ≡ true
  unfolding store_chunk
  one_cleared = refl

  abbrev close : Progress → SyncPass
  close g = close_folder ext now account_id folder_id r uv ms anew (stored_modseq cursor uv) [] g

  saved :
      (stop : Option ImapError)
      → load_cursor account_id folder_id (closed close (one, stop)).1.db.cursors
        ≡ some (cursor_info uv one.chunk_cursor ms)
  unfolding closed
  saved none =
      saved_cursor ext now account_id folder_id r uv ms anew (first_cursor cursor) uv_fits ms_fits
        (stored_modseq cursor uv) one followed one_cleared
  saved (some e) = followed.2 one_cleared

  passed :
      fetch_new ext now account_id folder_id r selected cursor new_uids [] p
      ≡ closed close (one, poison)
  unfolding fetch_new
  passed =
      ap (λ left. closed close (fetch_chunks ext now account_id folder_id r uv ms anew left begun))
        (ap chunks (kept_all new_uids) ∙ chunked)
      ∙ ap (closed close) broken_off

  reached : max_uid (m ∷ msgs) ≤ one.chunk_cursor
  unfolding store_chunk
  reached = omega arith

  -- Where no changes were reported, the first chunk of a search brings messages and the fetch of the
  -- second fails, in any way, the next search under the same UIDVALIDITY names a UID that is not below
  -- any of the first chunk's messages: a UID of the failed chunk that is smaller is not searched for
  -- again.
  pub failed_chunk_skipped :
      (l : ℕ) × (after_uid
          (load_cursor account_id folder_id
            (fetch_new ext now account_id folder_id r selected cursor new_uids [] p).1.db.cursors)
          selected.uid_validity
        ≡ some l)
      × (max_uid (m ∷ msgs) ≤ l)
  failed_chunk_skipped = (
    one.chunk_cursor,
    ap (λ out. after_uid (load_cursor account_id folder_id out.1.db.cursors) uv) passed
        ∙ ap (λ c. after_uid c uv) (saved poison)
        ∙ after_own uv one.chunk_cursor ms,
    reached,
  )
