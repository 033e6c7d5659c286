-- ===== src/Sync/Imap/Pass/Reached.antt =====
-- How far the chunk loop of a folder has come, where fetches may fail (backend/src/sync/imap_loop.rs).
use lyra.Prelude.{
  ℕ, ◌≤◌, ◌<◌, ◌≡◌, max, true, false, some, List, [], ◌∷◌, Text, leb, Bool-cases, inl, inr, arith,
}
use lyra.Prelude.Result.{ok}
use lyra.Prelude.Decimal.{u32_max}
use lyra.Sync.{ImapMessage, Externals}
use lyra.Sync.Ids.{SyncCursorInfo}
use lyra.Sync.Rows.{load_cursor}
use lyra.Sync.Rows.Laws.{uids, listed}
use lyra.Sync.Imap.{Replies, SyncPass, Progress, max_uid}
use lyra.Sync.Imap.Pass.{persist, store_chunk}
use lyra.Sync.Imap.Pass.Stored.{
  AreServed, max_uid_fits, le-max_uid, has_message, stored_persist, stored_persisted,
  load_cursor-persist,
}
use lyra.Sync.Imap.Pass.Chunks.{pending, Ordered}

-- What a fetch that succeeds gives: the messages of the chunk that the mailbox has.
pub record Fetched (server_uids chunk : List ℕ) (msgs : List ImapMessage) : Type 0 where
  pub on_server : AreServed server_uids msgs
  pub asked : (uid : ℕ) → listed uid (uids msgs) ≡ true → listed uid chunk ≡ true
  pub complete :
      (uid : ℕ)
      → listed uid chunk ≡ true
      → listed uid server_uids ≡ true
      → listed uid (uids msgs) ≡ true

max_listed :
    (m : ImapMessage) (msgs : List ImapMessage)
    → listed (max_uid (m ∷ msgs)) (uids (m ∷ msgs)) ≡ true
unfolding max_uid
max_listed m [] = ground arith
max_listed m (n ∷ msgs) = ground (arith, max_listed n msgs)

module _ (ext : Externals) (now : ℕ) (account_id folder_id : Text) (server_uids : List ℕ)
    (uv : ℕ) where
  -- Each message of the mailbox up to the cursor's UID is in the table.
  abbrev pub Covered : SyncPass → Type 0
  Covered p =
      (c : SyncCursorInfo)
      → load_cursor account_id folder_id p.db.cursors ≡ some c
      → c.uid_validity ≡ uv
      → (uid : ℕ) → listed uid server_uids ≡ true
      → uid ≤ c.last_uid
      → has_message ext now account_id folder_id uid p ≡ true

  module _ (r : Replies)
      (fetches : (chunk : List ℕ) (msgs : List ImapMessage)
        → r.fetch_metadata chunk ≡ ok msgs
        → Fetched server_uids chunk msgs)
      (uv_fits : uv ≤ u32_max) where
    pub record Invariant (rest : List (List ℕ)) (g : Progress) : Type 0 where
      pub behind :
          (uid : ℕ)
          → listed uid server_uids ≡ true
          → uid ≤ g.chunk_cursor
          → has_message ext now account_id folder_id uid g.pass ≡ true
      pub ahead :
          (uid : ℕ) → listed uid server_uids ≡ true → g.chunk_cursor < uid → pending uid rest ≡ true
      pub fits : g.chunk_cursor ≤ u32_max
      pub saved :
          (c : SyncCursorInfo)
          → load_cursor account_id folder_id g.pass.db.cursors ≡ some c
          → c.uid_validity ≡ uv
          → c.last_uid ≤ g.chunk_cursor

    pub Covered-by : (rest : List (List ℕ)) (g : Progress) → Invariant rest g → Covered g.pass
    Covered-by rest g i c loaded same uid h below =
        let reached = i.saved c loaded same in i.behind uid h (omega arith)

    abbrev pub step : List ImapMessage → Progress → Progress
    step msgs g = store_chunk ext now account_id folder_id r uv 0 false msgs g

    module _ (chunk : List ℕ) (rest : List (List ℕ)) (ordered : Ordered (chunk ∷ rest)) where
      skipped :
          (g : Progress)
          → Fetched server_uids chunk []
          → Invariant (chunk ∷ rest) g
          → Invariant rest g
      skipped g f i = record {
        behind = i.behind;
        ahead = λ uid h k. elim (Bool-cases (listed uid chunk)) [
          | inl here ↦ absurd (let impossible : ⊥ = cc (f.complete uid here h) in impossible)
          | inr later ↦ ground (arith, i.ahead uid h k, later)
        ];
        fits = i.fits;
        saved = i.saved;
      }

      module _ (m : ImapMessage) (msgs : List ImapMessage)
          (f : Fetched server_uids chunk (m ∷ msgs)) (g : Progress)
          (i : Invariant (chunk ∷ rest) g) where
        abbrev reached : ℕ
        reached = max g.chunk_cursor (max_uid (m ∷ msgs))

        abbrev kept : SyncPass
        kept = persist ext now account_id folder_id (m ∷ msgs) uv reached 0 false g.pass

        reached_fits : reached ≤ u32_max
        reached_fits =
            let some_fits = max_uid_fits server_uids (m ∷ msgs) f.on_server in
            let old_fits = i.fits in omega arith

        -- What the cursor passes with this chunk was in the chunk.
        in_chunk :
            (uid : ℕ)
            → listed uid server_uids ≡ true
            → g.chunk_cursor < uid
            → uid ≤ reached
            → listed uid chunk ≡ true
        in_chunk uid h above below = elim (Bool-cases (listed uid chunk)) [
          | inl here ↦ here
          | inr later ↦
              let waiting : pending uid rest ≡ true = ground (arith, i.ahead uid h above, later) in
              let highest = f.asked (max_uid (m ∷ msgs)) (max_listed m msgs) in
              absurd (let lower = ordered.0 (max_uid (m ∷ msgs)) uid highest waiting in omega arith)
        ]

        kept_behind :
            (uid : ℕ)
            → listed uid server_uids ≡ true
            → uid ≤ reached
            → has_message ext now account_id folder_id uid kept ≡ true
        kept_behind uid h below = elim (Bool-cases (leb uid g.chunk_cursor)) [
          | inl old ↦
              stored_persist ext now account_id folder_id uid (m ∷ msgs) uv reached 0 g.pass
                (i.behind uid h (ground (arith, old)))
          | inr new ↦
              stored_persisted ext now account_id folder_id uid (m ∷ msgs) uv reached 0 false g.pass
                (f.complete uid (in_chunk uid h (ground (arith, new)) below) h)
        ]

        kept_ahead :
            (uid : ℕ) → listed uid server_uids ≡ true → reached < uid → pending uid rest ≡ true
        kept_ahead uid h above = elim (Bool-cases (listed uid chunk)) [
          | inl here ↦
              let passed = le-max_uid uid (m ∷ msgs) (f.complete uid here h) in absurd (omega arith)
          | inr later ↦ let waiting = i.ahead uid h (omega arith) in ground (arith, waiting, later)
        ]

        kept_saved :
            (c : SyncCursorInfo)
            → load_cursor account_id folder_id kept.db.cursors ≡ some c
            → c.last_uid ≤ reached
        kept_saved c loaded =
            let new =
              load_cursor-persist ext now account_id folder_id (m ∷ msgs) uv reached 0 false g.pass
                uv_fits reached_fits (omega arith) in
            ground (arith, loaded, new)

      pub Invariant-step :
          (msgs : List ImapMessage) (g : Progress)
          → Fetched server_uids chunk msgs
          → Invariant (chunk ∷ rest) g
          → Invariant rest (step msgs g)
      unfolding store_chunk
      Invariant-step [] g f i = skipped g f i
      Invariant-step (m ∷ msgs) g f i = record {
        behind = kept_behind m msgs f g i;
        ahead = kept_ahead m msgs f g i;
        fits = reached_fits m msgs f g i;
        saved = λ c loaded same. kept_saved m msgs f g i c loaded;
      }
