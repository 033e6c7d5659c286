-- ===== src/Sync/Rows/Laws.antt =====
-- Which messages the upserts and the deletions of backend/src/sync/store.rs leave in the table.
use lyra.Prelude.{
  ℕ, ◌≤◌, ◌≡◌, refl, sym, subst, Bool, true, false, ◌&&◌, not, List, [], ◌∷◌, map, Text, text_eq,
  text_eq_refl, contains, any, ◌==◌, All, Bool-cases, inl, inr, arith, if◌then◌else◌,
}
use lyra.Prelude.Decimal.{u32_max}
use lyra.Sync.{ImapMessage, Message, Externals}
use lyra.Sync.Ids.{imap_message_external_id, parse_imap_uid}
use lyra.Sync.Ids.RoundTrip.{parse_imap_uid-external_id}
use lyra.Sync.Messages.{
  is_message, fill_in, insert_or_fill, message_insert, upsert_message_in_tx, upsert_all,
}
use lyra.Sync.Rows.{gone, stale_imap_row_ids, live_rows, soft_delete, clear_body}

abbrev pub uids : List ImapMessage → List ℕ
uids msgs = map (λ m. m.uid) msgs

abbrev pub listed : ℕ → List ℕ → Bool
listed uid server_uids = any (λ u. u == uid) server_uids

module _ (account_id folder_id : Text) where
  -- Whether the table has the message of a UID of the folder.
  abbrev pub stored : ℕ → List Message → Bool
  stored uid messages =
      any (is_message account_id (imap_message_external_id folder_id uid)) messages

  -- A live row of the folder whose UID is not on the server.
  abbrev pub ghost : List ℕ → Message → Bool
  ghost server_uids m =
      text_eq m.account_id account_id
      && text_eq m.folder_id folder_id
      && not m.is_deleted
      && gone server_uids (parse_imap_uid m.external_id)

  stored-insert_or_fill :
      (uid : ℕ) (external_id : Text) (row : Message) (messages : List Message)
      → stored uid messages ≡ true
      → stored uid (insert_or_fill account_id external_id row messages) ≡ true
  unfolding insert_or_fill fill_in
  stored-insert_or_fill uid external_id row [] h = cc
  stored-insert_or_fill uid external_id row (m ∷ messages) h =
      ground (arith, stored-insert_or_fill uid external_id row messages)

  inserted :
      (external_id : Text) (row : Message) (messages : List Message)
      → is_message account_id external_id row ≡ true
      → any (is_message account_id external_id) (insert_or_fill account_id external_id row messages)
        ≡ true
  unfolding insert_or_fill fill_in
  inserted external_id row [] h = rw h
  inserted external_id row (m ∷ messages) h = ground (arith, inserted external_id row messages)

  ghost-insert_or_fill :
      (server_uids : List ℕ) (external_id : Text) (row : Message) (messages : List Message)
      → ghost server_uids row ≡ false
      → any (ghost server_uids) messages ≡ false
      → any (ghost server_uids) (insert_or_fill account_id external_id row messages) ≡ false
  unfolding insert_or_fill fill_in
  ghost-insert_or_fill server_uids external_id row [] h k = rw h
  ghost-insert_or_fill server_uids external_id row (m ∷ messages) h k =
      ground (arith, ghost-insert_or_fill server_uids external_id row messages)

  module _ (ext : Externals) where
    stored-upsert :
        (uid : ℕ) (msg : ImapMessage) (messages : List Message)
        → stored uid messages ≡ true
        → stored uid (upsert_message_in_tx ext account_id folder_id msg messages).1 ≡ true
    unfolding upsert_message_in_tx
    stored-upsert uid msg messages h =
        stored-insert_or_fill uid (imap_message_external_id folder_id msg.uid)
          (message_insert ext account_id folder_id (ext.new_uuid messages) msg) messages h

    -- An upserted message is in the table.
    stored-upsert_self :
        (msg : ImapMessage) (messages : List Message)
        → stored msg.uid (upsert_message_in_tx ext account_id folder_id msg messages).1 ≡ true
    unfolding upsert_message_in_tx message_insert
    stored-upsert_self msg messages =
        inserted (imap_message_external_id folder_id msg.uid)
          (message_insert ext account_id folder_id (ext.new_uuid messages) msg) messages
          (ground (
            arith,
            text_eq_refl account_id,
            text_eq_refl (imap_message_external_id folder_id msg.uid),
          ))

    pub stored-upsert_all :
        (uid : ℕ) (msgs : List ImapMessage) (messages : List Message)
        → stored uid messages ≡ true
        → stored uid (upsert_all ext account_id folder_id msgs messages).1 ≡ true
    unfolding upsert_all
    stored-upsert_all uid [] messages h = h
    stored-upsert_all uid (msg ∷ msgs) messages h =
        stored-upsert_all uid msgs _ (stored-upsert uid msg messages h)

    pub stored_upserted :
        (uid : ℕ) (msgs : List ImapMessage) (messages : List Message)
        → listed uid (uids msgs) ≡ true
        → stored uid (upsert_all ext account_id folder_id msgs messages).1 ≡ true
    unfolding upsert_all
    stored_upserted uid [] messages h = cc
    stored_upserted uid (msg ∷ msgs) messages h = elim (Bool-cases (msg.uid == uid)) [
      | inl same ↦
          let e : msg.uid ≡ uid = ground (arith, same) in
          subst (λ u. stored u (upsert_all ext account_id folder_id (msg ∷ msgs) messages).1 ≡ true)
            e (stored-upsert_all msg.uid msgs _ (stored-upsert_self msg messages))
      | inr other ↦ stored_upserted uid msgs _ (ground (arith, h, other))
    ]

    ghost-message_insert :
        (server_uids : List ℕ) (id : Text) (msg : ImapMessage)
        → msg.uid ≤ u32_max
        → listed msg.uid server_uids ≡ true
        → ghost server_uids (message_insert ext account_id folder_id id msg) ≡ false
    unfolding message_insert
    ghost-message_insert server_uids id msg h k =
        rw (parse_imap_uid-external_id folder_id msg.uid h, k) (ground arith)

    -- Upserts of messages that are on the server bring no ghosts.
    pub ghost-upsert_all :
        (server_uids : List ℕ) (msgs : List ImapMessage) (messages : List Message)
        → All (λ m. (m.uid ≤ u32_max) × (listed m.uid server_uids ≡ true)) msgs
        → any (ghost server_uids) messages ≡ false
        → any (ghost server_uids) (upsert_all ext account_id folder_id msgs messages).1 ≡ false
    unfolding upsert_all upsert_message_in_tx
    ghost-upsert_all server_uids [] messages h k = k
    ghost-upsert_all server_uids (msg ∷ msgs) messages ((fits, on_server), h) k =
        ghost-upsert_all server_uids msgs _ h (
          ghost-insert_or_fill server_uids (imap_message_external_id folder_id msg.uid)
            (message_insert ext account_id folder_id (ext.new_uuid messages) msg) messages
            (ghost-message_insert server_uids (ext.new_uuid messages) msg fits on_server) k)

  -- Rows are changed one by one and keep their key.
  pub stored-soft_delete :
      (uid : ℕ) (ids : List Text) (messages : List Message)
      → stored uid (map (soft_delete ids) messages) ≡ stored uid messages
  unfolding soft_delete
  stored-soft_delete uid ids [] = refl
  stored-soft_delete uid ids (m ∷ messages) = ground (arith, stored-soft_delete uid ids messages)

  pub stored-clear_body :
      (uid : ℕ) (messages : List Message)
      → stored uid (map (clear_body folder_id) messages) ≡ stored uid messages
  unfolding clear_body
  stored-clear_body uid [] = refl
  stored-clear_body uid (m ∷ messages) = ground (arith, stored-clear_body uid messages)

  abbrev Caught : List ℕ → List Text → Message → Type 0
  Caught server_uids ids m = ghost server_uids m ≡ true → contains ids m.id ≡ true

  more_ids :
      (server_uids : List ℕ) (id : Text) (ids : List Text) (messages : List Message)
      → All (Caught server_uids ids) messages
      → All (Caught server_uids (id ∷ ids)) messages
  unfolding contains
  more_ids server_uids id ids [] h = tt
  more_ids server_uids id ids (m ∷ messages) (c, h) =
      (λ g. ground (arith, c g), more_ids server_uids id ids messages h)

  abbrev stale_ids : List ℕ → List Message → List Text
  stale_ids server_uids messages =
      stale_imap_row_ids (live_rows account_id folder_id messages) server_uids

  stale_ids-cons :
      (server_uids : List ℕ) (m : Message) (messages : List Message)
      → stale_ids server_uids (m ∷ messages) ≡ (
          if ghost server_uids m
          then m.id ∷ stale_ids server_uids messages
          else stale_ids server_uids messages)
  unfolding live_rows stale_imap_row_ids
  stale_ids-cons server_uids m messages = ground arith

  caught :
      (server_uids : List ℕ) (messages : List Message)
      → All (Caught server_uids (stale_ids server_uids messages)) messages
  unfolding contains
  caught server_uids [] = tt
  caught server_uids (m ∷ messages) =
      let ids = stale_ids server_uids messages in
      let split = stale_ids-cons server_uids m messages in
      elim (Bool-cases (ghost server_uids m)) [
        | inl g ↦
            let more : stale_ids server_uids (m ∷ messages) ≡ m.id ∷ ids =
              ground (arith, split, g) in
            subst (λ found. All (Caught server_uids found) (m ∷ messages)) (sym more)
              (
                λ _. rw (text_eq_refl m.id),
                more_ids server_uids m.id ids messages (caught server_uids messages),
              )
        | inr g ↦
            let same : stale_ids server_uids (m ∷ messages) ≡ ids = ground (arith, split, g) in
            subst (λ found. All (Caught server_uids found) (m ∷ messages)) (sym same)
              (
                λ k. let impossible : ⊥ = ground (arith, k, g) in absurd impossible,
                caught server_uids messages,
              )
      ]

  no_ghosts :
      (server_uids : List ℕ) (ids : List Text) (messages : List Message)
      → All (Caught server_uids ids) messages
      → any (ghost server_uids) (map (soft_delete ids) messages) ≡ false
  unfolding soft_delete
  no_ghosts server_uids ids [] h = refl
  no_ghosts server_uids ids (m ∷ messages) (c, h) = elim (Bool-cases (ghost server_uids m)) [
    | inl g ↦ ground (arith, c g, g, no_ghosts server_uids ids messages h)
    | inr g ↦ ground (arith, g, no_ghosts server_uids ids messages h)
  ]

  -- After the stale rows are soft-deleted, no live row of the folder is missing on the server.
  pub ghost-soft_delete :
      (server_uids : List ℕ) (messages : List Message)
      → any (ghost server_uids) (map (soft_delete (stale_ids server_uids messages)) messages)
        ≡ false
  ghost-soft_delete server_uids messages =
      no_ghosts server_uids (stale_ids server_uids messages) messages (caught server_uids messages)
