-- ===== src/Sync/Imap/Pass/Complete.antt =====
-- A pass over a folder in which every command succeeds (backend/src/sync/imap_loop.rs).
use lyra.Prelude.{
  ℕ, ◌<◌, ◌≡◌, refl, ap, ◌∙◌, ◌⊎◌, Bool, true, false, not, Option, none, some, List, [], ◌∷◌, Text,
  filter, ◌==◌, Bool-cases, inl, inr, arith,
}
use lyra.Prelude.Result.{ok}
use lyra.Sync.{ImapMessage, ImapSelectResult, Externals}
use lyra.Jobs.Worker.Errors.{ImapError}
use lyra.Sync.Ids.{SyncCursorInfo}
use lyra.Sync.Rows.{load_cursor}
use lyra.Sync.Rows.Laws.{uids, listed}
use lyra.Sync.Imap.{
  Replies, SyncPass, Progress, has, uids_of, chunks, is_changed, after_uid, stored_modseq,
  first_cursor, new_modseq, closed,
}
use lyra.Sync.Imap.Pass.{
  fetch_new, with_changes, changes_since, with_uids, fetch_folder, prepare, opened, sync_folder,
}
use lyra.Sync.Imap.Pass.Stored.{AreServed, cursors_prepare}
use lyra.Sync.Imap.Pass.Chunks.{pending, pending-chunks}
use lyra.Sync.Imap.Pass.Fetched.{Fetches, Safe, fetched, close, all_fetched}

listed-filter :
    (uid : ℕ) (keep : ℕ → Bool) (all : List ℕ)
    → listed uid all ≡ true
    → keep uid ≡ true
    → listed uid (filter keep all) ≡ true
listed-filter uid keep [] h k = cc
listed-filter uid keep (u ∷ all) h k = elim (Bool-cases (u == uid)) [
  | inl same ↦
      let e : u ≡ uid = ground (arith, same) in
      let kept : keep u ≡ true = ap keep e ∙ k in ground (arith, kept, same)
  | inr other ↦ ground (arith, other, listed-filter uid keep all)
]

no_modseq :
    (cursor : Option SyncCursorInfo) (uv : ℕ)
    → is_changed cursor uv ≡ true
    → stored_modseq cursor uv ≡ 0
unfolding is_changed stored_modseq
no_modseq none uv h = refl
no_modseq (some c) uv h = ground (arith, h)

closed-none :
    (close_with : Progress → SyncPass) (o : Progress × Option ImapError)
    → o.1 ≡ none
    → closed close_with o ≡ (ok tt, close_with o.0)
unfolding closed
closed-none close_with (g, none) h = refl
closed-none close_with (g, some e) h = cc

module _ (ext : Externals) (now : ℕ) (account_id folder_id : Text) where
  pub no_changes :
      (r : Replies) (selected : ImapSelectResult) (cursor : Option SyncCursorInfo)
      (changes : List ImapMessage)
      → changes_since ext now account_id folder_id r selected cursor
          (stored_modseq cursor selected.uid_validity)
        ≡ ok changes
      → is_changed cursor selected.uid_validity ≡ true
      → changes ≡ []
  unfolding changes_since
  no_changes r selected cursor changes h k =
      let none_known = no_modseq cursor selected.uid_validity k in ground (arith, h, none_known)

  -- What a server answers in a pass in which every command succeeds: the mailbox has the UIDs
  -- `server_uids` all along.
  pub record Answers (r : Replies) (server_uids : List ℕ) (served : List ℕ → List ImapMessage)
      (selected : ImapSelectResult) (cursor : Option SyncCursorInfo) (new_uids : List ℕ)
      (changes : List ImapMessage) : Type 0 where
    pub selects : r.select ≡ ok selected
    pub lists : r.listing ≡ ok server_uids
    pub searches : r.search_uids (after_uid cursor selected.uid_validity) ≡ ok new_uids
    -- The search finds what is above the UID that it names.
    pub finds :
        (uid : ℕ)
        → listed uid server_uids ≡ true
        → ((l : ℕ) → after_uid cursor selected.uid_validity ≡ some l → l < uid)
        → listed uid new_uids ≡ true
    pub reports :
        changes_since ext now account_id folder_id r selected cursor
          (stored_modseq cursor selected.uid_validity)
        ≡ ok changes
    pub reports_own : AreServed server_uids changes
    pub fetches : Fetches r server_uids served

  module _ (r : Replies) (server_uids : List ℕ) (served : List ℕ → List ImapMessage)
      (selected : ImapSelectResult) (cursor : Option SyncCursorInfo) (new_uids : List ℕ)
      (changes : List ImapMessage)
      (answers : Answers r server_uids served selected cursor new_uids changes) where
    abbrev pub changed : Bool
    changed = is_changed cursor selected.uid_validity

    abbrev pub to_fetch : List ℕ
    to_fetch = filter (λ uid. not (has uid (uids_of changes))) new_uids

    abbrev pub start : SyncPass → Progress
    start p = record { pass = p; chunk_cursor = first_cursor cursor; cleared = false }

    abbrev pub run : SyncPass → Progress × Option ImapError
    run p =
        fetched ext now account_id folder_id r server_uids served answers.fetches
          selected.uid_validity (new_modseq r selected) changed (chunks to_fetch) (start p)

    abbrev SafeIn : ℕ → Progress → Type 0
    SafeIn uid g =
        Safe ext now account_id folder_id r server_uids served answers.fetches selected.uid_validity
          (new_modseq r selected) changed uid g

    -- A message above the cursor is fetched, or was reported as changed.
    pub new_one :
        (uid : ℕ) (p : SyncPass)
        → listed uid new_uids ≡ true
        → (SafeIn uid (start p) ⊎ (pending uid (chunks to_fetch) ≡ true))
          ⊎ (listed uid (uids changes) ≡ true)
    new_one uid p h = elim (Bool-cases (has uid (uids_of changes))) [
      | inl reported ↦ inr reported
      | inr other ↦
          let kept : listed uid to_fetch ≡ true = listed-filter uid _ new_uids h (rw other) in
          inl (inr (pending-chunks uid to_fetch ∙ kept))
    ]

    abbrev pub closing : Progress → SyncPass
    closing g =
        close ext now account_id folder_id r server_uids served answers.fetches
          selected.uid_validity (new_modseq r selected) changed
          (stored_modseq cursor selected.uid_validity) changes g

    folder_fetched :
        (p : SyncPass)
        → fetch_folder ext now account_id folder_id r selected cursor p ≡ (ok tt, closing (run p).0)
    unfolding fetch_folder with_uids with_changes fetch_new
    folder_fetched p =
        rw (answers.searches, with_uids)
          (rw (answers.reports, with_changes)
            (closed-none closing (run p) (
              all_fetched ext now account_id folder_id r server_uids served answers.fetches
                selected.uid_validity (new_modseq r selected) changed (chunks to_fetch) (start p))))

    module _ (p : SyncPass) (loaded : load_cursor account_id folder_id p.db.cursors ≡ cursor) where
      abbrev pub prepared : SyncPass
      prepared = prepare ext now account_id folder_id r p

      pub still_loaded : load_cursor account_id folder_id prepared.db.cursors ≡ cursor
      still_loaded =
          ap (load_cursor account_id folder_id) (cursors_prepare ext now account_id folder_id r p)
          ∙ loaded

      opened_fetched :
          opened ext now account_id folder_id r (ok selected) p ≡ (ok tt, closing (run prepared).0)
      unfolding opened
      opened_fetched =
          ap (λ c. fetch_folder ext now account_id folder_id r selected c prepared) still_loaded
          ∙ folder_fetched prepared

      pub synced : sync_folder ext now account_id folder_id r p ≡ (ok tt, closing (run prepared).0)
      unfolding sync_folder
      synced =
          ap (λ answer. opened ext now account_id folder_id r answer p) answers.selects
          ∙ opened_fetched
