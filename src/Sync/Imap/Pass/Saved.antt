-- ===== src/Sync/Imap/Pass/Saved.antt =====
-- The cursor that the chunk loop of a folder saves (backend/src/sync/imap_loop.rs).
use lyra.Prelude.{
  ℕ, ◌≤◌, ◌≡◌, Bool, true, false, ◌&&◌, not, some, List, [], ◌∷◌, Text, ltb, Bool-cases, inl, inr,
  arith,
}
use lyra.Prelude.Decimal.{u32_max, u64_max}
use lyra.Sync.{ImapMessage, Externals}
use lyra.Sync.Ids.RoundTrip.{cursor as cursor_info}
use lyra.Sync.Rows.{load_cursor}
use lyra.Sync.Imap.{Replies, Progress, after_uid}
use lyra.Sync.Imap.Pass.{store_chunk, close_folder}
use lyra.Sync.Imap.Pass.Stored.{AreServed, max_uid_fits, load_cursor-persist}

module _ (ext : Externals) (now : ℕ) (account_id folder_id : Text) where
  module _ (r : Replies) (uv ms : ℕ) (anew : Bool) (old : ℕ) (uv_fits : uv ≤ u32_max)
      (ms_fits : ms ≤ u64_max) where
    -- The chunk loop's cursor is never below the old one, and is what is saved once a chunk is stored.
    abbrev pub Follows : Progress → Type 0
    Follows g =
        (old ≤ g.chunk_cursor)
        × (g.chunk_cursor ≤ u32_max)
        × ((g.cleared ≡ true)
            → load_cursor account_id folder_id g.pass.db.cursors
              ≡ some (cursor_info uv g.chunk_cursor ms))

    pub Follows-store_chunk :
        (server_uids : List ℕ) (msgs : List ImapMessage) (g : Progress)
        → AreServed server_uids msgs
        → Follows g
        → Follows (store_chunk ext now account_id folder_id r uv ms anew msgs g)
    unfolding store_chunk
    Follows-store_chunk server_uids [] g h f = f
    Follows-store_chunk server_uids (m ∷ msgs) g h (above, fits, saved) =
        let new_fits = max_uid_fits server_uids (m ∷ msgs) h in
        (
          omega arith,
          omega arith,
          λ _.
              load_cursor-persist ext now account_id folder_id (m ∷ msgs) uv _ ms _ g.pass uv_fits
                (omega arith) ms_fits,
        )

    -- Where a chunk was stored and nothing was reported as changed, the saved cursor is the loop's.
    pub saved_cursor :
        (stored : ℕ) (g : Progress)
        → Follows g
        → g.cleared ≡ true
        → load_cursor account_id folder_id
            (close_folder ext now account_id folder_id r uv ms anew stored [] g).db.cursors
          ≡ some (cursor_info uv g.chunk_cursor ms)
    unfolding close_folder
    saved_cursor stored g (above, fits, saved) done =
        let no_wipe : (anew && not g.cleared) ≡ false = ground (arith, done) in
        rw no_wipe (elim (Bool-cases (ltb stored ms)) [
          | inl newer ↦ rw newer (
              load_cursor-persist ext now account_id folder_id [] uv g.chunk_cursor ms false g.pass
                uv_fits fits ms_fits)
          | inr same ↦ rw same (saved done)
        ])

pub after_own : (uv l ms : ℕ) → after_uid (some (cursor_info uv l ms)) uv ≡ some l
unfolding after_uid
after_own uv l ms = ground arith
