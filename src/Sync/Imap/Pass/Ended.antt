-- ===== src/Sync/Imap/Pass/Ended.antt =====
-- The chunk loop and the end of a pass over a folder, where commands may fail
-- (backend/src/sync/imap_loop.rs).
use lyra.Prelude.{
  ℕ, ◌≤◌, ◌≡◌, ◌⊎◌, sym, subst, true, false, Bool-cases, All, Option, none, some, List, [], ◌∷◌,
  Text, inl, inr, arith,
}
use lyra.Prelude.Result.{ok, err, Result-cases}
use lyra.Prelude.Decimal.{u32_max}
use lyra.Sync.{ImapMessage, Externals}
use lyra.Jobs.Worker.Errors.{ImapError}
use lyra.Sync.Imap.{Replies, SyncPass, Progress, closed}
use lyra.Sync.Imap.Pass.{store_chunk, fetch_chunks, close_folder}
use lyra.Sync.Rows.Laws.{listed}
use lyra.Sync.Imap.Pass.Stored.{has_message, stored_persist, stored_persisted}
use lyra.Sync.Imap.Pass.Chunks.{Ordered, pending}
use lyra.Sync.Imap.Pass.Reached.{Fetched, Covered, Invariant, Covered-by, Invariant-step}

module _ (ext : Externals) (now : ℕ) (account_id folder_id : Text) (server_uids : List ℕ)
    (uv : ℕ) where
  module _ (r : Replies)
      (fetches : (chunk : List ℕ) (msgs : List ImapMessage)
        → r.fetch_metadata chunk ≡ ok msgs
        → Fetched server_uids chunk msgs)
      (uv_fits : uv ≤ u32_max) where
    abbrev pub Reaches : List (List ℕ) → Progress → Type 0
    Reaches = Invariant ext now account_id folder_id server_uids uv r fetches uv_fits

    abbrev pub fetched : List (List ℕ) → Progress → Progress × Option ImapError
    fetched rest g = fetch_chunks ext now account_id folder_id r uv 0 false rest g

    fetched_ok :
        (chunk : List ℕ) (rest : List (List ℕ)) (g : Progress) (msgs : List ImapMessage)
        → r.fetch_metadata chunk ≡ ok msgs
        → fetched (chunk ∷ rest) g
          ≡ fetched rest (store_chunk ext now account_id folder_id r uv 0 false msgs g)
    unfolding fetch_chunks
    fetched_ok chunk rest g msgs h = ground (arith, h)

    fetched_err :
        (chunk : List ℕ) (rest : List (List ℕ)) (g : Progress) (e : ImapError)
        → r.fetch_metadata chunk ≡ err e
        → (fetched (chunk ∷ rest) g).0 ≡ g
    unfolding fetch_chunks
    fetched_err chunk rest g e h = ground (arith, h)

    -- However the chunks end, the loop's cursor has passed nothing that is not in the table.
    pub Reaches-fetched :
        (rest : List (List ℕ)) (g : Progress)
        → Ordered rest
        → Reaches rest g
        → (left : List (List ℕ)) × Reaches left (fetched rest g).0
    Reaches-fetched [] g o i = ([], unfold fetch_chunks in i)
    Reaches-fetched (chunk ∷ rest) g o i = elim (Result-cases (r.fetch_metadata chunk)) [
      | inl (msgs, h) ↦
          let (left, j) = Reaches-fetched rest _ o.1 (
            Invariant-step ext now account_id folder_id server_uids uv r fetches uv_fits chunk rest
              o msgs g (fetches chunk msgs h) i) in
          (left, subst (λ out. Reaches left out.0) (sym (fetched_ok chunk rest g msgs h)) j)
      | inr (e, h) ↦ (
        chunk ∷ rest,
        subst (λ g'. Reaches (chunk ∷ rest) g') (sym (fetched_err chunk rest g e h)) i,
      )
    ]

    abbrev pub close : ℕ → Progress → SyncPass
    close stored g = close_folder ext now account_id folder_id r uv 0 false stored [] g

    close_same : (stored : ℕ) (g : Progress) → close stored g ≡ g.pass
    unfolding close_folder
    close_same stored g = ground arith

    pub Covered-closed :
        (stored : ℕ) (left : List (List ℕ)) (out : Progress × Option ImapError)
        → Reaches left out.0
        → Covered ext now account_id folder_id server_uids uv (closed (close stored) out).1
    unfolding closed
    Covered-closed stored left (g, none) i =
        subst (λ p. Covered ext now account_id folder_id server_uids uv p)
          (sym (close_same stored g))
          (Covered-by ext now account_id folder_id server_uids uv r fetches uv_fits left g i)
    Covered-closed stored left (g, some e) i =
        Covered-by ext now account_id folder_id server_uids uv r fetches uv_fits left g i

    -- A message of the mailbox has a row, or waits in a chunk that is left.
    abbrev pub Waits : List (List ℕ) → Progress → Type 0
    Waits rest g =
        (uid : ℕ)
        → listed uid server_uids ≡ true
        → (has_message ext now account_id folder_id uid g.pass ≡ true) ⊎ (pending uid rest ≡ true)

    Waits-store_chunk :
        (chunk : List ℕ) (rest : List (List ℕ)) (msgs : List ImapMessage) (g : Progress)
        → Fetched server_uids chunk msgs
        → Waits (chunk ∷ rest) g
        → Waits rest (store_chunk ext now account_id folder_id r uv 0 false msgs g)
    unfolding store_chunk
    Waits-store_chunk chunk rest [] g f w uid h = elim (w uid h) [
      | inl old ↦ inl old
      | inr waits ↦ elim (Bool-cases (listed uid chunk)) [
        | inl here ↦ absurd (let impossible : ⊥ = cc (f.complete uid here h) in impossible)
        | inr later ↦ inr (ground (arith, waits, later))
      ]
    ]
    Waits-store_chunk chunk rest (m ∷ msgs) g f w uid h = elim (w uid h) [
      | inl old ↦ inl (stored_persist ext now account_id folder_id uid (m ∷ msgs) uv _ 0 g.pass old)
      | inr waits ↦ elim (Bool-cases (listed uid chunk)) [
        | inl here ↦ inl (
            stored_persisted ext now account_id folder_id uid (m ∷ msgs) uv _ 0 false g.pass
              (f.complete uid here h))
        | inr later ↦ inr (ground (arith, waits, later))
      ]
    ]

    -- If the fetch of each chunk succeeds, in whatever order they come, all of the mailbox has rows.
    pub All-stored :
        (rest : List (List ℕ)) (g : Progress)
        → All (λ chunk. (msgs : List ImapMessage) × (r.fetch_metadata chunk ≡ ok msgs)) rest
        → Waits rest g
        → (uid : ℕ) → listed uid server_uids ≡ true
        → has_message ext now account_id folder_id uid (fetched rest g).0.pass ≡ true
    All-stored [] g a w uid h = elim (w uid h) [
      | inl old ↦ unfold fetch_chunks in old
      | inr waits ↦ absurd (let impossible : ⊥ = cc (waits) in impossible)
    ]
    All-stored (chunk ∷ rest) g ((msgs, answer), a) w uid h =
        subst (λ out. has_message ext now account_id folder_id uid out.0.pass ≡ true)
          (sym (fetched_ok chunk rest g msgs answer))
          (All-stored rest (store_chunk ext now account_id folder_id r uv 0 false msgs g) a
            (Waits-store_chunk chunk rest msgs g (fetches chunk msgs answer) w) uid h)

    pub Covered-whole :
        (stored : ℕ) (out : Progress × Option ImapError)
        → ((uid : ℕ)
            → listed uid server_uids ≡ true
            → has_message ext now account_id folder_id uid out.0.pass ≡ true)
        → Covered ext now account_id folder_id server_uids uv (closed (close stored) out).1
    unfolding closed
    Covered-whole stored (g, none) w c loaded same uid h below =
        subst (λ p. has_message ext now account_id folder_id uid p ≡ true)
          (sym (close_same stored g)) (w uid h)
    Covered-whole stored (g, some e) w c loaded same uid h below = w uid h
