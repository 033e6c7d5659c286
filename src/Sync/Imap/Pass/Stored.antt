-- ===== src/Sync/Imap/Pass/Stored.antt =====
-- What the steps of a pass over a folder leave of its messages and of its cursor
-- (backend/src/sync/imap_loop.rs).
use lyra.Prelude.{
  ℕ, ◌≤◌, ◌≡◌, refl, sym, subst, ◌∙◌, Bool, true, false, some, List, [], ◌∷◌, map, Text, codes,
  contains, any, filter, All, arith, if◌then◌else◌,
}
use lyra.Prelude.Result.{Result, ok, err}
use lyra.Prelude.Decimal.{u32_max, u64_max}
use lyra.Sync.{ImapMessage, Message, Db, Externals}
use lyra.Jobs.Worker.Errors.{ImapError}
use lyra.Sync.Ids.RoundTrip.{cursor}
use lyra.Sync.Messages.{upsert_all}
use lyra.Sync.Rows.{
  load_cursor, clear_folder_messages_in_tx, update_folder_counts_in_tx, persist_imap_folder_batch,
  repair_imap_messages, soft_delete, deleted_rows, reconcile_folder_deletions, stale_imap_row_ids,
  live_rows, mojibake_message_uids,
}
use lyra.Sync.Rows.Cursors.{load_cursor-save}
use lyra.Sync.Rows.Laws.{
  uids, listed, stored, ghost, stored-upsert_all, stored_upserted, ghost-upsert_all,
  stored-soft_delete, stored-clear_body, ghost-soft_delete,
}
use lyra.Sync.Imap.{Replies, SyncPass, max_uid}
use lyra.Sync.Imap.Pass.{persist, refetched, repaired, repair_folder_mojibake, reconcile, prepare}

-- Messages that the server has, with UIDs of its type.
abbrev pub AreServed : List ℕ → List ImapMessage → Type 0
AreServed server_uids msgs = All (λ m. (m.uid ≤ u32_max) × (listed m.uid server_uids ≡ true)) msgs

pub max_uid_fits :
    (server_uids : List ℕ) (msgs : List ImapMessage)
    → AreServed server_uids msgs
    → max_uid msgs ≤ u32_max
unfolding max_uid
max_uid_fits server_uids [] h = omega arith
max_uid_fits server_uids (m ∷ msgs) ((fits, on_server), h) =
    let rest = max_uid_fits server_uids msgs h in omega arith

pub le-max_uid :
    (uid : ℕ) (msgs : List ImapMessage) → listed uid (uids msgs) ≡ true → uid ≤ max_uid msgs
unfolding max_uid
le-max_uid uid [] h = absurd (let impossible : ⊥ = cc in impossible)
le-max_uid uid (m ∷ msgs) h = ground (arith, le-max_uid uid msgs)

module _ (ext : Externals) (now : ℕ) (account_id folder_id : Text) where
  abbrev pub has_message : ℕ → SyncPass → Bool
  has_message uid p = stored account_id folder_id uid p.db.messages

  abbrev pub has_ghost : List ℕ → SyncPass → Bool
  has_ghost server_uids p = any (ghost account_id folder_id server_uids) p.db.messages

  pub stored_persist :
      (uid : ℕ) (msgs : List ImapMessage) (uv lu ms : ℕ) (p : SyncPass)
      → has_message uid p ≡ true
      → has_message uid (persist ext now account_id folder_id msgs uv lu ms false p) ≡ true
  unfolding persist persist_imap_folder_batch update_folder_counts_in_tx
  stored_persist uid msgs uv lu ms p h =
      stored-upsert_all account_id folder_id ext uid msgs p.db.messages h

  abbrev cleared_db : Bool → Db → Db
  cleared_db clear_first db = if clear_first then clear_folder_messages_in_tx folder_id db else db

  pub stored_persisted :
      (uid : ℕ) (msgs : List ImapMessage) (uv lu ms : ℕ) (clear_first : Bool) (p : SyncPass)
      → listed uid (uids msgs) ≡ true
      → has_message uid (persist ext now account_id folder_id msgs uv lu ms clear_first p) ≡ true
  unfolding persist persist_imap_folder_batch update_folder_counts_in_tx
  stored_persisted uid msgs uv lu ms clear_first p h =
      stored_upserted account_id folder_id ext uid msgs (cleared_db clear_first p.db).messages h

  ghost-filter :
      (server_uids : List ℕ) (keep : Message → Bool) (messages : List Message)
      → any (ghost account_id folder_id server_uids) messages ≡ false
      → any (ghost account_id folder_id server_uids) (filter keep messages) ≡ false
  ghost-filter server_uids keep [] h = refl
  ghost-filter server_uids keep (m ∷ messages) h =
      ground (arith, ghost-filter server_uids keep messages)

  ghost-cleared :
      (server_uids : List ℕ) (clear_first : Bool) (db : Db)
      → any (ghost account_id folder_id server_uids) db.messages ≡ false
      → any (ghost account_id folder_id server_uids) (cleared_db clear_first db).messages ≡ false
  unfolding clear_folder_messages_in_tx
  ghost-cleared server_uids true db h = ghost-filter server_uids _ db.messages h
  ghost-cleared server_uids false db h = h

  pub ghost_persist :
      (server_uids : List ℕ) (msgs : List ImapMessage) (uv lu ms : ℕ) (clear_first : Bool)
      (p : SyncPass)
      → AreServed server_uids msgs
      → has_ghost server_uids p ≡ false
      → has_ghost server_uids (persist ext now account_id folder_id msgs uv lu ms clear_first p)
        ≡ false
  unfolding persist persist_imap_folder_batch update_folder_counts_in_tx
  ghost_persist server_uids msgs uv lu ms clear_first p h k =
      ghost-upsert_all account_id folder_id ext server_uids msgs
        (cleared_db clear_first p.db).messages h (ghost-cleared server_uids clear_first p.db k)

  pub load_cursor-persist :
      (msgs : List ImapMessage) (uv lu ms : ℕ) (clear_first : Bool) (p : SyncPass)
      → uv ≤ u32_max
      → lu ≤ u32_max
      → ms ≤ u64_max
      → load_cursor account_id folder_id
          (persist ext now account_id folder_id msgs uv lu ms clear_first p).db.cursors
        ≡ some (cursor uv lu ms)
  unfolding persist persist_imap_folder_batch update_folder_counts_in_tx
  load_cursor-persist msgs uv lu ms clear_first p h k l =
      load_cursor-save account_id folder_id (codes "imap") uv lu ms
        (cleared_db clear_first p.db).cursors h k l

  stored-refetched :
      (uid : ℕ) (answer : Result ImapError (List ImapMessage)) (db : Db)
      → stored account_id folder_id uid db.messages ≡ true
      → stored account_id folder_id uid (refetched ext now account_id folder_id answer db).messages
        ≡ true
  unfolding refetched repair_imap_messages update_folder_counts_in_tx
  stored-refetched uid (err e) db h = h
  stored-refetched uid (ok []) db h = h
  stored-refetched uid (ok (m ∷ msgs)) db h =
      stored-clear_body account_id folder_id uid
        (upsert_all ext account_id folder_id (m ∷ msgs) db.messages).1
      ∙ stored-upsert_all account_id folder_id ext uid (m ∷ msgs) db.messages h

  stored-repaired :
      (uid : ℕ) (r : Replies) (mangled : List ℕ) (db : Db)
      → stored account_id folder_id uid db.messages ≡ true
      → stored account_id folder_id uid
          (repaired ext now account_id folder_id r mangled db).messages
        ≡ true
  unfolding repaired
  stored-repaired uid r [] db h = h
  stored-repaired uid r (u ∷ mangled) db h =
      stored-refetched uid (r.fetch_metadata (u ∷ mangled)) db h

  stored-deleted_rows :
      (uid : ℕ) (ids : List Text) (db : Db)
      → stored account_id folder_id uid db.messages ≡ true
      → stored account_id folder_id uid (deleted_rows now folder_id ids db).1.messages ≡ true
  unfolding deleted_rows update_folder_counts_in_tx
  stored-deleted_rows uid [] db h = h
  stored-deleted_rows uid (id ∷ ids) db h =
      stored-soft_delete account_id folder_id uid (id ∷ ids) db.messages ∙ h

  stored_reconcile :
      (uid : ℕ) (answer : Result ImapError (List ℕ)) (p : SyncPass)
      → has_message uid p ≡ true
      → has_message uid (reconcile ext now account_id folder_id answer p) ≡ true
  unfolding reconcile reconcile_folder_deletions
  stored_reconcile uid (err e) p h = h
  stored_reconcile uid (ok server_uids) p h =
      stored-deleted_rows uid
        (stale_imap_row_ids (live_rows account_id folder_id p.db.messages) server_uids) p.db h

  -- The self-heal and the deletions lose no message of the folder.
  pub stored_prepare :
      (uid : ℕ) (r : Replies) (p : SyncPass)
      → has_message uid p ≡ true
      → has_message uid (prepare ext now account_id folder_id r p) ≡ true
  unfolding prepare repair_folder_mojibake
  stored_prepare uid r p h =
      stored_reconcile uid r.listing _
        (stored-repaired uid r (mojibake_message_uids folder_id 200 p.db.messages) p.db h)

  none_deleted :
      (server_uids : List ℕ) (messages : List Message)
      → any (ghost account_id folder_id server_uids) (map (soft_delete []) messages)
        ≡ any (ghost account_id folder_id server_uids) messages
  unfolding soft_delete contains
  none_deleted server_uids [] = refl
  none_deleted server_uids (m ∷ messages) = ground (arith, none_deleted server_uids messages)

  ghost-deleted_rows :
      (server_uids : List ℕ) (ids : List Text) (db : Db)
      → any (ghost account_id folder_id server_uids) (map (soft_delete ids) db.messages) ≡ false
      → any (ghost account_id folder_id server_uids) (deleted_rows now folder_id ids db).1.messages
        ≡ false
  unfolding deleted_rows update_folder_counts_in_tx
  ghost-deleted_rows server_uids [] db h = sym (none_deleted server_uids db.messages) ∙ h
  ghost-deleted_rows server_uids (id ∷ ids) db h = h

  ghost_reconcile :
      (server_uids : List ℕ) (p : SyncPass)
      → has_ghost server_uids (reconcile ext now account_id folder_id (ok server_uids) p) ≡ false
  unfolding reconcile reconcile_folder_deletions
  ghost_reconcile server_uids p =
      ghost-deleted_rows server_uids _ p.db
        (ghost-soft_delete account_id folder_id server_uids p.db.messages)

  -- After a listing is reconciled, each live row of the folder is on the server.
  pub ghost_prepare :
      (server_uids : List ℕ) (r : Replies) (p : SyncPass)
      → r.listing ≡ ok server_uids
      → has_ghost server_uids (prepare ext now account_id folder_id r p) ≡ false
  unfolding prepare
  ghost_prepare server_uids r p h =
      let healed : SyncPass = record p {
        db = repair_folder_mojibake ext now account_id folder_id r p.db;
      } in
      subst
        (λ answer.
          has_ghost server_uids (reconcile ext now account_id folder_id answer healed) ≡ false)
        (sym h) (ghost_reconcile server_uids healed)

  cursors_refetched :
      (answer : Result ImapError (List ImapMessage)) (db : Db)
      → (refetched ext now account_id folder_id answer db).cursors ≡ db.cursors
  unfolding refetched repair_imap_messages update_folder_counts_in_tx
  cursors_refetched (err e) db = refl
  cursors_refetched (ok []) db = refl
  cursors_refetched (ok (m ∷ msgs)) db = refl

  cursors_repaired :
      (r : Replies) (mangled : List ℕ) (db : Db)
      → (repaired ext now account_id folder_id r mangled db).cursors ≡ db.cursors
  unfolding repaired
  cursors_repaired r [] db = refl
  cursors_repaired r (u ∷ mangled) db = cursors_refetched (r.fetch_metadata (u ∷ mangled)) db

  cursors_deleted_rows :
      (ids : List Text) (db : Db) → (deleted_rows now folder_id ids db).1.cursors ≡ db.cursors
  unfolding deleted_rows update_folder_counts_in_tx
  cursors_deleted_rows [] db = refl
  cursors_deleted_rows (id ∷ ids) db = refl

  cursors_reconcile :
      (answer : Result ImapError (List ℕ)) (p : SyncPass)
      → (reconcile ext now account_id folder_id answer p).db.cursors ≡ p.db.cursors
  unfolding reconcile reconcile_folder_deletions
  cursors_reconcile (err e) p = refl
  cursors_reconcile (ok server_uids) p = cursors_deleted_rows _ p.db

  pub cursors_prepare :
      (r : Replies) (p : SyncPass)
      → (prepare ext now account_id folder_id r p).db.cursors ≡ p.db.cursors
  unfolding prepare repair_folder_mojibake
  cursors_prepare r p =
      cursors_reconcile r.listing _
      ∙ cursors_repaired r (mojibake_message_uids folder_id 200 p.db.messages) p.db
