-- ===== src/Sync/Imap/Pass.antt =====
-- The pass over one folder in `run_imap_sync` of backend/src/sync/imap_loop.rs.
pub mod Stored
pub mod Chunks
pub mod Reached
pub mod Fetched
pub mod Ended
pub mod Kept
pub mod Complete
pub mod Saved
pub mod Missed
pub mod Skipped
use lyra.Prelude.{
  ℕ, ◌+◌, max, Bool, true, false, ◌&&◌, not, Option, none, some, List, [], ◌∷◌, ltb, if◌then◌else◌,
  filter, Text,
}
use lyra.Prelude.Result.{Result, ok, err}
use lyra.Sync.{ImapMessage, ImapSelectResult, Db, Externals}
use lyra.Jobs.Worker.Errors.{ImapError}
use lyra.Sync.Ids.{SyncCursorInfo}
use lyra.Sync.Rows.{
  load_cursor, persist_imap_folder_batch, repair_imap_messages, reconcile_folder_deletions,
  mojibake_message_uids,
}
use lyra.Sync.Imap.{
  session_may_be_poisoned, Replies, SyncPass, uids_of, has, max_uid, chunks, with_counts, Progress,
  Step, stop_or_skip, is_changed, after_uid, stored_modseq, first_cursor, new_modseq, closed,
}

module _ (ext : Externals) (now : ℕ) (account_id folder_id : Text) where
  -- A batch is persisted and its counts are added.
  unfoldable pub persist : List ImapMessage → ℕ → ℕ → ℕ → Bool → SyncPass → SyncPass
  persist msgs uid_validity last_uid last_modseq clear_first p =
      let (counts, db) =
        persist_imap_folder_batch ext now account_id folder_id msgs uid_validity last_uid
          last_modseq clear_first p.db in
      with_counts counts p db

  refetched : Result ImapError (List ImapMessage) → Db → Db
  refetched (err e) db = db
  refetched (ok []) db = db
  refetched (ok (m ∷ msgs)) db = (repair_imap_messages ext now account_id folder_id (m ∷ msgs) db).1

  -- A failed repair is passed over.
  repaired : Replies → List ℕ → Db → Db
  unfolding refetched
  repaired r [] db = db
  repaired r (uid ∷ uids) db = refetched (r.fetch_metadata (uid ∷ uids)) db

  unfoldable pub repair_folder_mojibake : Replies → Db → Db
  unfolding repaired
  repair_folder_mojibake r db = repaired r (mojibake_message_uids folder_id 200 db.messages) db

  -- A failed listing deletes nothing.
  unfoldable pub reconcile : Result ImapError (List ℕ) → SyncPass → SyncPass
  reconcile (err e) p = p
  reconcile (ok server_uids) p =
      let (n, db) = reconcile_folder_deletions now account_id folder_id server_uids p.db in
      record p { db = db; total_deleted = p.total_deleted + n }

  module _ (r : Replies) (uid_validity new_modseq : ℕ) (changed : Bool) where
    unfoldable pub store_chunk : List ImapMessage → Progress → Progress
    store_chunk [] g = g
    store_chunk (m ∷ msgs) g =
        let chunk_cursor = max g.chunk_cursor (max_uid (m ∷ msgs)) in
        record {
          pass =
              persist (m ∷ msgs) uid_validity chunk_cursor new_modseq (changed && not g.cleared)
                g.pass;
          chunk_cursor = chunk_cursor;
          cleared = true;
        }

    -- A soft failure leaves the chunks that are left to the next pass; a poisoned session ends this
    -- one.
    unfoldable pub fetch_chunks : List (List ℕ) → Progress → Progress × Option ImapError
    unfolding store_chunk
    fetch_chunks [] g = (g, none)
    fetch_chunks (chunk ∷ rest) g = elim (r.fetch_metadata chunk) [
      | ok msgs ↦ fetch_chunks rest (store_chunk msgs g)
      | err e ↦ (g, if session_may_be_poisoned e then some e else none)
    ]

    -- What follows the chunks. `changes` are the messages that CONDSTORE reported.
    unfoldable pub close_folder : ℕ → List ImapMessage → Progress → SyncPass
    close_folder stored_modseq [] g =
        if changed && not g.cleared
        then persist [] uid_validity 0 new_modseq true g.pass
        else if ltb stored_modseq new_modseq
        then persist [] uid_validity g.chunk_cursor new_modseq false g.pass
        else g.pass
    close_folder stored_modseq (m ∷ changes) g =
        persist (m ∷ changes) uid_validity (max (max_uid (m ∷ changes)) g.chunk_cursor) new_modseq
          changed g.pass

  module _ (r : Replies) (selected : ImapSelectResult) (cursor : Option SyncCursorInfo) where
    unfoldable pub fetch_new : List ℕ → List ImapMessage → Step
    unfolding closed
    fetch_new new_uids changes p =
        let fetch_uids = filter (λ uid. not (has uid (uids_of changes))) new_uids in
        let uid_validity = selected.uid_validity in
        let changed = is_changed cursor uid_validity in
        let modseq = new_modseq r selected in
        closed
          (close_folder r uid_validity modseq changed (stored_modseq cursor uid_validity) changes)
          (fetch_chunks r uid_validity modseq changed (chunks fetch_uids)
            (record { pass = p; chunk_cursor = first_cursor cursor; cleared = false }))

    with_changes : List ℕ → Result ImapError (List ImapMessage) → Step
    with_changes new_uids (err e) = stop_or_skip e
    with_changes new_uids (ok changes) = fetch_new new_uids changes

    unfoldable pub changes_since : ℕ → Result ImapError (List ImapMessage)
    changes_since modseq =
        if r.supports_condstore && ltb 0 modseq then r.fetch_changed_since modseq else ok []

    with_uids : Result ImapError (List ℕ) → Step
    unfolding with_changes
    with_uids (err e) = stop_or_skip e
    with_uids (ok new_uids) =
        with_changes new_uids (changes_since (stored_modseq cursor selected.uid_validity))

    unfoldable pub fetch_folder : Step
    unfolding with_uids
    fetch_folder = with_uids (r.search_uids (after_uid cursor selected.uid_validity))

  -- The self-heal and the deletions, before the cursor is read.
  unfoldable pub prepare : Replies → SyncPass → SyncPass
  prepare r p = reconcile r.listing (record p { db = repair_folder_mojibake r p.db })

  opened : Replies → Result ImapError ImapSelectResult → Step
  opened r (err e) p = stop_or_skip e p
  opened r (ok selected) p =
      let q = prepare r p in
      fetch_folder r selected (load_cursor account_id folder_id q.db.cursors) q

  unfoldable pub sync_folder : Replies → Step
  unfolding opened
  sync_folder r = opened r r.select
