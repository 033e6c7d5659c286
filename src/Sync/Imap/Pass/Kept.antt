-- ===== src/Sync/Imap/Pass/Kept.antt =====
-- A pass over a folder in which commands may fail (backend/src/sync/imap_loop.rs): what the cursor
-- has passed has a row.
use lyra.Prelude.{
  ℕ, ◌≤◌, ◌<◌, ◌≡◌, refl, ap, sym, subst, ◌∙◌, Bool, true, false, not, Option, some, List, [], ◌∷◌,
  Text, filter, Option-cases, Bool-cases, leb, inl, inr, arith,
}
use lyra.Prelude.Result.{Result, ok, err}
use lyra.Prelude.Decimal.{u32_max}
use lyra.Sync.{ImapMessage, ImapSelectResult, Externals}
use lyra.Jobs.Worker.Errors.{ImapError}
use lyra.Sync.Ids.{SyncCursorInfo}
use lyra.Sync.Rows.{load_cursor}
use lyra.Sync.Rows.Laws.{listed}
use lyra.Sync.Imap.{
  Replies, SyncPass, Progress, has, uids_of, chunks, is_changed, after_uid, stored_modseq,
  first_cursor, new_modseq, closed, stop_or_skip,
}
use lyra.Sync.Imap.Pass.{
  fetch_chunks, close_folder, fetch_new, with_changes, changes_since, with_uids, fetch_folder,
}
use lyra.Sync.Imap.Pass.Stored.{has_message}
use lyra.Sync.Imap.Pass.Chunks.{pending-chunks, Suits, Ordered, Ordered-chunks, Ordered-few}
use lyra.Sync.Imap.Pass.Reached.{Fetched, Covered, Invariant}
use lyra.Sync.Imap.Pass.Ended.{
  fetched, Reaches-fetched, Covered-closed, Waits, All-stored, Covered-whole,
}

pub kept_all : (all : List ℕ) → filter (λ u. not (has u (uids_of []))) all ≡ all
kept_all [] = refl
kept_all (u ∷ all) = ap (λ rest. u ∷ rest) (kept_all all)

stopped : (e : ImapError) (p : SyncPass) → (stop_or_skip e p).1 ≡ p
stopped e p = ground arith

module _ (ext : Externals) (now : ℕ) (account_id folder_id : Text) (server_uids : List ℕ)
    (uv : ℕ) where
  module _ (r : Replies)
      (fetches : (chunk : List ℕ) (msgs : List ImapMessage)
        → r.fetch_metadata chunk ≡ ok msgs
        → Fetched server_uids chunk msgs)
      (uv_fits : uv ≤ u32_max) where
    module _ (plain : r.supports_condstore ≡ false)
        (finds : (new_uids : List ℕ) (after : Option ℕ)
          → r.search_uids after ≡ ok new_uids
          → Suits r new_uids
            × ((uid : ℕ)
                → listed uid server_uids ≡ true
                → ((l : ℕ) → after ≡ some l → l < uid)
                → listed uid new_uids ≡ true))
        (positive : listed 0 server_uids ≡ false) (selected : ImapSelectResult)
        (same_validity : selected.uid_validity ≡ uv) (cursor : Option SyncCursorInfo)
        (unchanged : (c : SyncCursorInfo)
          → cursor ≡ some c
          → (c.uid_validity ≡ uv) × (c.last_uid ≤ u32_max))
        (p : SyncPass) (loaded : load_cursor account_id folder_id p.db.cursors ≡ cursor)
        (covered : Covered ext now account_id folder_id server_uids uv p) where
      abbrev begun : Progress
      begun = record { pass = p; chunk_cursor = first_cursor cursor; cleared = false }

      first_behind :
          (uid : ℕ)
          → listed uid server_uids ≡ true
          → uid ≤ first_cursor cursor
          → has_message ext now account_id folder_id uid p ≡ true
      unfolding first_cursor
      first_behind uid h below = elim (Option-cases cursor) [
        | inl fresh ↦
            let first : uid ≡ 0 = ground (arith, fresh, below) in
            let none_there = ap (λ u. listed u server_uids) first ∙ positive in
            absurd (let impossible : ⊥ = ground (arith, none_there, h) in impossible)
        | inr (c, kept) ↦
            covered c (loaded ∙ kept) (unchanged c kept).0 uid h (ground (arith, kept, below))
      ]

      first_after : (l : ℕ) → after_uid cursor uv ≡ some l → l ≡ first_cursor cursor
      unfolding first_cursor after_uid
      first_after l h = elim (Option-cases cursor) [
        | inl fresh ↦ ground (arith, fresh, h)
        | inr (c, kept) ↦ let same = (unchanged c kept).0 in ground (arith, kept, h, same)
      ]

      first_fits : first_cursor cursor ≤ u32_max
      unfolding first_cursor
      first_fits = elim (Option-cases cursor) [
        | inl fresh ↦ ground (arith, fresh)
        | inr (c, kept) ↦ let fits = (unchanged c kept).1 in ground (arith, kept, fits)
      ]

      first_saved :
          (c : SyncCursorInfo)
          → load_cursor account_id folder_id p.db.cursors ≡ some c
          → c.last_uid ≤ first_cursor cursor
      unfolding first_cursor
      first_saved c h = ground (arith, loaded, h)

      Reaches-begun :
          (new_uids : List ℕ)
          → r.search_uids (after_uid cursor uv) ≡ ok new_uids
          → Invariant ext now account_id folder_id server_uids uv r fetches uv_fits
              (chunks new_uids)
              begun
      Reaches-begun new_uids h = record {
        behind = first_behind;
        ahead = λ uid k above.
            pending-chunks uid new_uids
            ∙ (finds new_uids (after_uid cursor uv) h).1 uid k
                (λ l e. let first = first_after l e in omega arith);
        fits = first_fits;
        saved = λ c k same. first_saved c k;
      }

      no_modseq : new_modseq r selected ≡ 0
      unfolding new_modseq
      no_modseq = ground (arith, plain)

      not_changed : is_changed cursor uv ≡ false
      unfolding is_changed
      not_changed = elim (Option-cases cursor) [
        | inl fresh ↦ ground (arith, fresh)
        | inr (c, kept) ↦ let same = (unchanged c kept).0 in ground (arith, kept, same)
      ]

      nothing_reported :
          (modseq : ℕ) → changes_since ext now account_id folder_id r selected cursor modseq ≡ ok []
      unfolding changes_since
      nothing_reported modseq = ground (arith, plain)

      abbrev Keeps : SyncPass → Type 0
      Keeps = Covered ext now account_id folder_id server_uids uv

      abbrev shape : ℕ → ℕ → Bool → List ℕ → Result ImapError (Unit {0}) × SyncPass
      shape u ms anew to_fetch =
          closed
            (close_folder ext now account_id folder_id r u ms anew
              (stored_modseq cursor selected.uid_validity) [])
            (fetch_chunks ext now account_id folder_id r u ms anew (chunks to_fetch) begun)

      plain_shape :
          (new_uids : List ℕ)
          → fetch_new ext now account_id folder_id r selected cursor new_uids [] p
            ≡ shape uv 0 false new_uids
      unfolding fetch_new
      plain_shape new_uids =
          let all = filter (λ u. not (has u (uids_of []))) new_uids in
          ap (λ u. shape u (new_modseq r selected) (is_changed cursor u) all) same_validity
          ∙ ap (λ ms. shape uv ms (is_changed cursor uv) all) no_modseq
          ∙ ap (λ anew. shape uv 0 anew all) not_changed
          ∙ ap (shape uv 0 false) (kept_all new_uids)

      found_ordered :
          (new_uids : List ℕ)
          → r.search_uids (after_uid cursor uv) ≡ ok new_uids
          → Ordered (chunks new_uids)
          → Keeps (fetch_new ext now account_id folder_id r selected cursor new_uids [] p).1
      found_ordered new_uids h ordered =
          let (left, i) =
            Reaches-fetched ext now account_id folder_id server_uids uv r fetches uv_fits
              (chunks new_uids) begun ordered (Reaches-begun new_uids h) in
          subst (λ out. Keeps out.1) (sym (plain_shape new_uids))
            (Covered-closed ext now account_id folder_id server_uids uv r fetches uv_fits
              (stored_modseq cursor selected.uid_validity) left
              (fetched ext now account_id folder_id server_uids uv r fetches uv_fits
                (chunks new_uids) begun)
              i)

      Waits-begun :
          (new_uids : List ℕ)
          → r.search_uids (after_uid cursor uv) ≡ ok new_uids
          → Waits ext now account_id folder_id server_uids uv r fetches uv_fits
              (chunks new_uids)
              begun
      Waits-begun new_uids h uid k = elim (Bool-cases (leb uid (first_cursor cursor))) [
        | inl old ↦ inl (first_behind uid k (ground (arith, old)))
        | inr new ↦ inr ((Reaches-begun new_uids h).ahead uid k (ground (arith, new)))
      ]

      found :
          (new_uids : List ℕ)
          → r.search_uids (after_uid cursor uv) ≡ ok new_uids
          → Keeps (fetch_new ext now account_id folder_id r selected cursor new_uids [] p).1
      found new_uids h = elim (finds new_uids (after_uid cursor uv) h).0 [
        | inl few ↦ found_ordered new_uids h (Ordered-few new_uids few)
        | inr (inl ascending) ↦ found_ordered new_uids h (Ordered-chunks new_uids ascending)
        | inr (inr answered) ↦
            subst (λ out. Keeps out.1) (sym (plain_shape new_uids))
              (Covered-whole ext now account_id folder_id server_uids uv r fetches uv_fits
                (stored_modseq cursor selected.uid_validity)
                (fetched ext now account_id folder_id server_uids uv r fetches uv_fits
                  (chunks new_uids) begun)
                (All-stored ext now account_id folder_id server_uids uv r fetches uv_fits
                  (chunks new_uids) begun answered (Waits-begun new_uids h)))
      ]

      reported :
          (new_uids : List ℕ) (answer : Result ImapError (List ImapMessage))
          → r.search_uids (after_uid cursor uv) ≡ ok new_uids
          → ok [] ≡ answer
          → Keeps (with_changes ext now account_id folder_id r selected cursor new_uids answer p).1
      unfolding with_changes
      reported new_uids answer h k =
          subst
            (λ a.
              Keeps (with_changes ext now account_id folder_id r selected cursor new_uids a p).1)
            k (found new_uids h)

      searched :
          (answer : Result ImapError (List ℕ))
          → r.search_uids (after_uid cursor uv) ≡ answer
          → Keeps (with_uids ext now account_id folder_id r selected cursor answer p).1
      unfolding with_uids
      searched (err e) h = subst Keeps (sym (stopped e p)) covered
      searched (ok new_uids) h = reported new_uids _ h (sym (nothing_reported _))

      pub folder_kept : Keeps (fetch_folder ext now account_id folder_id r selected cursor p).1
      unfolding fetch_folder
      folder_kept = searched _ (ap (λ u. r.search_uids (after_uid cursor u)) (sym same_validity))
