-- ===== src/Sync/Folders/Parents.antt =====
-- The parents of an account's folders (backend/src/sync/store.rs), which sync/imap_loop.rs upserts in
-- the order of their depths.
use lyra.Prelude.{
  ℕ, ◌≤◌, ◌≡◌, ap, sym, subst, ◌∙◌, true, false, some, List, [], ◌∷◌, ◌++◌, Text, text_eq,
  text_eq_iff, text_eq_refl, All, Bool-cases, inl, inr, arith,
}
use lyra.Prelude.Trim.{is_empty}
use lyra.Prelude.Split.{has_char}
use lyra.Sync.{Folder}
use lyra.Sync.Folders.{
  ImapFolder, FolderTexts, matches, imap_folder_depth, sort_folders, is_folder,
  find_folder_id_by_external_id, parent_of, put_folder, folder_row, upsert_folder, upsert_folders,
}
use lyra.Sync.Folders.Puts.{
  parent_found, is_named, find-put_folder, put_folder_found, parent_found-put_folder,
  parent_found-put_other,
}
use lyra.Sync.Folders.Depths.{
  split-child, depth_named, child_deeper, IsSorted, All-sort_folders, sort_folders-IsSorted,
  named-sort_folders,
}

module _ (texts : FolderTexts) (account_id : Text) (d : ℕ) (parent leaf : Text) where
  abbrev child : Text
  child = parent ++ (d ∷ leaf)

  abbrev Linked : List Folder → Type 0
  Linked rows =
      (id : Text) × (find_folder_id_by_external_id account_id parent rows ≡ some id)
      × (parent_found account_id child rows ≡ some (some id))

  abbrev HasDelimiter : ImapFolder → Type 0
  HasDelimiter g = g.delimiter ≡ some (d ∷ [])

  own_key :
      (g : ImapFolder) (rows : List Folder)
      → is_folder account_id g.name (folder_row texts account_id g rows) ≡ true
  unfolding folder_row
  own_key g rows = rw (text_eq_refl account_id) (text_eq_refl g.name)

  module _ (last : has_char d leaf ≡ false) (filled_parent : is_empty parent ≡ false) where
    parent_of_row :
        (g : ImapFolder) (rows : List Folder) (id : Text)
        → HasDelimiter g
        → g.name ≡ child
        → find_folder_id_by_external_id account_id parent rows ≡ some id
        → (folder_row texts account_id g rows).parent_id ≡ some id
    unfolding folder_row parent_of
    parent_of_row g rows id h e found =
        rw (h, e) (rw (split-child d parent leaf last filled_parent) found)

    Linked-now :
        (g : ImapFolder) (rows : List Folder) (id : Text)
        → HasDelimiter g
        → g.name ≡ child
        → find_folder_id_by_external_id account_id parent rows ≡ some id
        → Linked (upsert_folder texts account_id g rows)
    unfolding upsert_folder
    Linked-now g rows id h e found = (
      id,
      find-put_folder account_id parent g.name (folder_row texts account_id g rows) rows id found,
      subst
          (λ n.
            parent_found account_id n
              (put_folder account_id g.name (folder_row texts account_id g rows) rows)
            ≡ some (some id))
          e
          (parent_found-put_folder account_id g.name (folder_row texts account_id g rows) rows
              (own_key g rows)
            ∙ ap some (parent_of_row g rows id h e found)),
    )

    Linked-still :
        (g : ImapFolder) (rows : List Folder)
        → HasDelimiter g
        → Linked rows
        → Linked (upsert_folder texts account_id g rows)
    unfolding upsert_folder
    Linked-still g rows h (id, found, link) = elim (Bool-cases (text_eq g.name child)) [
      | inl same ↦ Linked-now g rows id h ((text_eq_iff g.name child).0 same) found
      | inr other ↦ (
        id,
        find-put_folder account_id parent g.name (folder_row texts account_id g rows) rows id found,
        parent_found-put_other account_id child g.name (folder_row texts account_id g rows) rows
              other (own_key g rows)
            ∙ link,
      )
    ]

    Linked-on :
        (folders : List ImapFolder) (rows : List Folder)
        → All HasDelimiter folders
        → Linked rows
        → Linked (upsert_folders texts account_id folders rows)
    unfolding upsert_folders
    Linked-on [] rows h k = k
    Linked-on (g ∷ folders) rows (h, hs) k =
        Linked-on folders (upsert_folder texts account_id g rows) hs (Linked-still g rows h k)

    -- The parent's row is there before the child's turn.
    Linked-after :
        (folders : List ImapFolder) (rows : List Folder) (id : Text)
        → All HasDelimiter folders
        → is_named child folders ≡ true
        → find_folder_id_by_external_id account_id parent rows ≡ some id
        → Linked (upsert_folders texts account_id folders rows)
    unfolding upsert_folders
    Linked-after [] rows id h k found = cc (k)
    Linked-after (g ∷ folders) rows id (h, hs) k found = elim (Bool-cases (text_eq g.name child)) [
      | inl same ↦
          Linked-on folders (upsert_folder texts account_id g rows) hs
            (Linked-now g rows id h ((text_eq_iff g.name child).0 same) found)
      | inr other ↦
          Linked-after folders (upsert_folder texts account_id g rows) id hs
            (ground (arith, k, other))
            (unfold upsert_folder in
              find-put_folder account_id parent g.name (folder_row texts account_id g rows) rows id
                found)
    ]

    depth_at_least :
        (n : Text) (l : ℕ) (folders : List ImapFolder)
        → All HasDelimiter folders
        → All (λ g. l ≤ imap_folder_depth g) folders
        → is_named n folders ≡ true
        → l ≤ matches (d ∷ []) 0 n
    depth_at_least n l [] h k m = cc (m)
    depth_at_least n l (g ∷ folders) (h, hs) (k, ks) m = elim (Bool-cases (text_eq g.name n)) [
      | inl same ↦
          let e = (text_eq_iff g.name n).0 same in
          subst (λ t. l ≤ matches (d ∷ []) 0 t) e (subst (λ x. l ≤ x) (depth_named d g h) k)
      | inr other ↦ depth_at_least n l folders hs ks (ground (arith, m, other))
    ]

    apart : (g : ImapFolder) → text_eq g.name parent ≡ true → text_eq g.name child ≡ false
    apart g h = elim (Bool-cases (text_eq g.name child)) [
      | inl same ↦
          let e : parent ≡ child =
            sym ((text_eq_iff g.name parent).0 h) ∙ (text_eq_iff g.name child).0 same in
          let deeper = child_deeper d parent leaf in
          absurd (omega (arith, deeper, ap (matches (d ∷ []) 0) e))
      | inr other ↦ other
    ]

    -- A child does not come before its parent.
    too_early :
        (g : ImapFolder) (folders : List ImapFolder)
        → HasDelimiter g
        → All HasDelimiter folders
        → All (λ f. imap_folder_depth g ≤ imap_folder_depth f) folders
        → g.name ≡ child
        → is_named parent folders ≡ true
        → ⊥
    too_early g folders h hs low e p =
        let below = depth_at_least parent (imap_folder_depth g) folders hs low p in
        let own = depth_named d g h ∙ ap (matches (d ∷ []) 0) e in
        let deeper = child_deeper d parent leaf in omega (arith, below, own, deeper)

    Linked-sorted :
        (folders : List ImapFolder) (rows : List Folder)
        → IsSorted folders
        → All HasDelimiter folders
        → is_named parent folders ≡ true
        → is_named child folders ≡ true
        → Linked (upsert_folders texts account_id folders rows)
    unfolding upsert_folders
    Linked-sorted [] rows s h p c = cc (p)
    Linked-sorted (g ∷ folders) rows (low, s) (h, hs) p c =
        elim (Bool-cases (text_eq g.name parent)) [
          | inl first ↦
              let (id, found) =
                put_folder_found account_id g.name (folder_row texts account_id g rows) rows
                  (own_key g rows) in
              let named =
                subst
                  (λ n.
                    find_folder_id_by_external_id account_id n
                      (upsert_folder texts account_id g rows)
                    ≡ some id)
                  ((text_eq_iff g.name parent).0 first) (unfold upsert_folder in found) in
              Linked-after folders (upsert_folder texts account_id g rows) id hs
                (ground (arith, c, apart g first)) named
          | inr later ↦
              let p_later : is_named parent folders ≡ true = ground (arith, p, later) in
              elim (Bool-cases (text_eq g.name child)) [
                | inl same ↦
                    absurd
                      (too_early g folders h hs low ((text_eq_iff g.name child).0 same) p_later)
                | inr other ↦
                    Linked-sorted folders (upsert_folder texts account_id g rows) s hs p_later
                      (ground (arith, c, other))
              ]
        ]

    -- Where every mailbox that the server lists has the one-character delimiter `d`: after the folders
    -- are upserted in the order in which a sync does it, whatever rows were there and in whatever order
    -- the server lists them, a listed mailbox whose path is a listed parent's, which is not empty, with
    -- `d` and a leaf without `d`, has a row whose parent is the row of that mailbox.
    pub upsert_folders_parent :
        (found : List ImapFolder) (rows : List Folder)
        → All HasDelimiter found
        → is_named parent found ≡ true
        → is_named child found ≡ true
        → (id : Text) × (find_folder_id_by_external_id account_id parent
              (upsert_folders texts account_id (sort_folders found) rows)
            ≡ some id)
          × (parent_found account_id child
                (upsert_folders texts account_id (sort_folders found) rows)
              ≡ some (some id))
    upsert_folders_parent found rows h p c =
        Linked-sorted (sort_folders found) rows (sort_folders-IsSorted found)
          (All-sort_folders HasDelimiter found h) (named-sort_folders parent found p)
          (named-sort_folders child found c)
