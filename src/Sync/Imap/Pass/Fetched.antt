-- ===== src/Sync/Imap/Pass/Fetched.antt =====
-- The chunk loop of a folder and what follows it, where every fetch succeeds
-- (backend/src/sync/imap_loop.rs).
use lyra.Prelude.{
  ℕ, ◌≡◌, refl, ap, sym, subst, ◌∙◌, ◌⊎◌, max, Bool, true, false, ◌&&◌, not, Option, none, List, [],
  ◌∷◌, Text, ltb, Bool-cases, inl, inr, arith,
}
use lyra.Prelude.Result.{ok}
use lyra.Sync.{ImapMessage, Externals}
use lyra.Jobs.Worker.Errors.{ImapError}
use lyra.Sync.Rows.Laws.{uids, listed}
use lyra.Sync.Imap.{Replies, SyncPass, Progress, max_uid}
use lyra.Sync.Imap.Pass.{persist, store_chunk, fetch_chunks, close_folder}
use lyra.Sync.Imap.Pass.Stored.{
  AreServed, has_message, has_ghost, stored_persist, stored_persisted, ghost_persist,
}
use lyra.Sync.Imap.Pass.Chunks.{pending}

-- A mailbox whose messages have the UIDs `server_uids` answers a fetch with those that were asked for.
pub record Fetches (r : Replies) (server_uids : List ℕ) (served : List ℕ → List ImapMessage)
    : Type 0 where
  pub answered : (chunk : List ℕ) → r.fetch_metadata chunk ≡ ok (served chunk)
  pub on_server : (chunk : List ℕ) → AreServed server_uids (served chunk)
  pub complete :
      (chunk : List ℕ) (uid : ℕ)
      → listed uid chunk ≡ true
      → listed uid server_uids ≡ true
      → listed uid (uids (served chunk)) ≡ true

module _ (ext : Externals) (now : ℕ) (account_id folder_id : Text) where
  module _ (r : Replies) (server_uids : List ℕ) (served : List ℕ → List ImapMessage)
      (fetches : Fetches r server_uids served) (uv ms : ℕ) (changed : Bool) where
    -- The message is there, and no wipe is to come.
    abbrev pub Safe : ℕ → Progress → Type 0
    Safe uid g =
        (has_message ext now account_id folder_id uid g.pass ≡ true)
        × ((changed ≡ true) → g.cleared ≡ true)

    abbrev pub step : List ImapMessage → Progress → Progress
    step msgs g = store_chunk ext now account_id folder_id r uv ms changed msgs g

    Safe-store_chunk :
        (uid : ℕ) (msgs : List ImapMessage) (g : Progress) → Safe uid g → Safe uid (step msgs g)
    unfolding store_chunk
    Safe-store_chunk uid [] g s = s
    Safe-store_chunk uid (m ∷ msgs) g (there, clear) =
        let no_wipe : (changed && not g.cleared) ≡ false = ground (arith, clear) in
        (
          subst
              (λ wipe.
                has_message ext now account_id folder_id uid (
                  persist ext now account_id folder_id (m ∷ msgs) uv
                    (max g.chunk_cursor (max_uid (m ∷ msgs))) ms wipe g.pass)
                ≡ true)
              (sym no_wipe)
              (stored_persist ext now account_id folder_id uid (m ∷ msgs) uv _ ms g.pass there),
          λ _. refl,
        )

    Safe-stored :
        (uid : ℕ) (msgs : List ImapMessage) (g : Progress)
        → listed uid (uids msgs) ≡ true
        → Safe uid (step msgs g)
    unfolding store_chunk
    Safe-stored uid [] g h = absurd (let impossible : ⊥ = cc in impossible)
    Safe-stored uid (m ∷ msgs) g h =
        (stored_persisted ext now account_id folder_id uid (m ∷ msgs) uv _ ms _ g.pass h, λ _. refl)

    abbrev pub fetched : List (List ℕ) → Progress → Progress × Option ImapError
    fetched rest g = fetch_chunks ext now account_id folder_id r uv ms changed rest g

    pub fetched-cons :
        (chunk : List ℕ) (rest : List (List ℕ)) (g : Progress)
        → fetched (chunk ∷ rest) g ≡ fetched rest (step (served chunk) g)
    unfolding fetch_chunks
    fetched-cons chunk rest g = ground (arith, fetches.answered chunk)

    pub all_fetched : (rest : List (List ℕ)) (g : Progress) → (fetched rest g).1 ≡ none
    all_fetched [] g = unfold fetch_chunks in refl
    all_fetched (chunk ∷ rest) g =
        ap (λ o. o.1) (fetched-cons chunk rest g) ∙ all_fetched rest (step (served chunk) g)

    step-Safe :
        (uid : ℕ) (chunk : List ℕ) (rest : List (List ℕ)) (g : Progress)
        → listed uid server_uids ≡ true
        → Safe uid g ⊎ (pending uid (chunk ∷ rest) ≡ true)
        → Safe uid (step (served chunk) g) ⊎ (pending uid rest ≡ true)
    step-Safe uid chunk rest g h (inl safe) = inl (Safe-store_chunk uid (served chunk) g safe)
    step-Safe uid chunk rest g h (inr k) = elim (Bool-cases (listed uid chunk)) [
      | inl here ↦ inl (Safe-stored uid (served chunk) g (fetches.complete chunk uid here h))
      | inr later ↦ inr (ground (arith, k, later))
    ]

    pub all-Safe :
        (uid : ℕ) (rest : List (List ℕ)) (g : Progress)
        → listed uid server_uids ≡ true
        → Safe uid g ⊎ (pending uid rest ≡ true)
        → Safe uid (fetched rest g).0
    all-Safe uid [] g h (inl safe) = unfold fetch_chunks in safe
    all-Safe uid [] g h (inr k) = absurd (let impossible : ⊥ = cc (k) in impossible)
    all-Safe uid (chunk ∷ rest) g h k =
        subst (λ o. Safe uid o.0) (sym (fetched-cons chunk rest g))
          (all-Safe uid rest (step (served chunk) g) h (step-Safe uid chunk rest g h k))

    ghost_step :
        (msgs : List ImapMessage) (g : Progress)
        → AreServed server_uids msgs
        → has_ghost ext now account_id folder_id server_uids g.pass ≡ false
        → has_ghost ext now account_id folder_id server_uids (step msgs g).pass ≡ false
    unfolding store_chunk
    ghost_step [] g h k = k
    ghost_step (m ∷ msgs) g h k =
        ghost_persist ext now account_id folder_id server_uids (m ∷ msgs) uv _ ms _ g.pass h k

    pub ghost_fetched :
        (rest : List (List ℕ)) (g : Progress)
        → has_ghost ext now account_id folder_id server_uids g.pass ≡ false
        → has_ghost ext now account_id folder_id server_uids (fetched rest g).0.pass ≡ false
    ghost_fetched [] g k = unfold fetch_chunks in k
    ghost_fetched (chunk ∷ rest) g k =
        subst (λ o. has_ghost ext now account_id folder_id server_uids o.0.pass ≡ false)
          (sym (fetched-cons chunk rest g))
          (ghost_fetched rest (step (served chunk) g)
            (ghost_step (served chunk) g (fetches.on_server chunk) k))

    abbrev pub close : ℕ → List ImapMessage → Progress → SyncPass
    close stored changes g =
        close_folder ext now account_id folder_id r uv ms changed stored changes g

    pub closed-Safe :
        (uid stored : ℕ) (changes : List ImapMessage) (g : Progress)
        → ((changed ≡ true) → changes ≡ [])
        → Safe uid g ⊎ (listed uid (uids changes) ≡ true)
        → has_message ext now account_id folder_id uid (close stored changes g) ≡ true
    unfolding close_folder
    closed-Safe uid stored [] g h (inr k) = absurd (let impossible : ⊥ = cc (k) in impossible)
    closed-Safe uid stored [] g h (inl (there, clear)) =
        let no_wipe : (changed && not g.cleared) ≡ false = ground (arith, clear) in
        rw no_wipe (elim (Bool-cases (ltb stored ms)) [
          | inl newer ↦
              rw newer (
                stored_persist ext now account_id folder_id uid [] uv g.chunk_cursor ms g.pass
                  there)
          | inr same ↦ rw same there
        ])
    closed-Safe uid stored (m ∷ changes) g h (inr k) =
        stored_persisted ext now account_id folder_id uid (m ∷ changes) uv _ ms changed g.pass k
    closed-Safe uid stored (m ∷ changes) g h (inl (there, clear)) =
        let same : changed ≡ false = ground (arith, h) in
        rw same (stored_persist ext now account_id folder_id uid (m ∷ changes) uv _ ms g.pass there)

    pub ghost_closed :
        (stored : ℕ) (changes : List ImapMessage) (g : Progress)
        → AreServed server_uids changes
        → has_ghost ext now account_id folder_id server_uids g.pass ≡ false
        → has_ghost ext now account_id folder_id server_uids (close stored changes g) ≡ false
    unfolding close_folder
    ghost_closed stored [] g h k = elim (Bool-cases (changed && not g.cleared)) [
      | inl wipe ↦
          rw wipe
            (ghost_persist ext now account_id folder_id server_uids [] uv 0 ms true g.pass h k)
      | inr keep ↦ rw keep (elim (Bool-cases (ltb stored ms)) [
        | inl newer ↦ rw newer (
            ghost_persist ext now account_id folder_id server_uids [] uv g.chunk_cursor ms false
              g.pass h k)
        | inr same ↦ rw same k
      ])
    ]
    ghost_closed stored (m ∷ changes) g h k =
        ghost_persist ext now account_id folder_id server_uids (m ∷ changes) uv _ ms changed g.pass
          h k
