-- ===== src/Sync/Folders/Puts.antt =====
-- What an upsert of a folder row changes (backend/src/sync/store.rs).
use lyra.Prelude.{
  ◌≡◌, refl, ap, Bool, true, false, ◌&&◌, Option, none, some, List, [], ◌∷◌, Text, text_eq,
  text_eq_iff, any, Bool-cases, inl, inr, arith, if◌then◌else◌,
}
use lyra.Sync.{Folder}
use lyra.Sync.Messages.{opt_eq}
use lyra.Sync.Folders.{ImapFolder, is_folder, find_folder_id_by_external_id, put_folder}

-- The parent of the row under a wire name.
unfoldable pub parent_found : Text → Text → List Folder → Option (Option Text)
parent_found account_id name [] = none
parent_found account_id name (f ∷ rows) =
    if is_folder account_id name f then some f.parent_id else parent_found account_id name rows

abbrev pub is_named : Text → List ImapFolder → Bool
is_named name folders = any (λ g. text_eq g.name name) folders

module _ (account_id : Text) where
  pub find-put_folder :
      (m n : Text) (new : Folder) (rows : List Folder) (i : Text)
      → find_folder_id_by_external_id account_id m rows ≡ some i
      → find_folder_id_by_external_id account_id m (put_folder account_id n new rows) ≡ some i
  unfolding find_folder_id_by_external_id put_folder
  find-put_folder m n new [] i h = cc (h)
  find-put_folder m n new (f ∷ rows) i h = elim (Bool-cases (is_folder account_id n f)) [
    | inl here ↦ rw here h
    | inr there ↦ elim (Bool-cases (is_folder account_id m f)) [
      | inl found ↦ rw (there, found) (cc (h, found))
      | inr later ↦
          let left = rw later at h in rw (there, later) (find-put_folder m n new rows i left)
    ]
  ]

  pub put_folder_found :
      (n : Text) (new : Folder) (rows : List Folder)
      → is_folder account_id n new ≡ true
      → (i : Text) × (find_folder_id_by_external_id account_id n (put_folder account_id n new rows)
          ≡ some i)
  unfolding find_folder_id_by_external_id put_folder
  put_folder_found n new [] h = (new.id, rw h refl)
  put_folder_found n new (f ∷ rows) h = elim (Bool-cases (is_folder account_id n f)) [
    | inl here ↦ (f.id, rw here (rw here refl))
    | inr there ↦ let (i, found) = put_folder_found n new rows h in (i, rw there (rw there found))
  ]

  pub parent_found-put_folder :
      (n : Text) (new : Folder) (rows : List Folder)
      → is_folder account_id n new ≡ true
      → parent_found account_id n (put_folder account_id n new rows) ≡ some new.parent_id
  unfolding parent_found put_folder
  parent_found-put_folder n new [] h = rw h refl
  parent_found-put_folder n new (f ∷ rows) h = elim (Bool-cases (is_folder account_id n f)) [
    | inl here ↦ rw here (rw here refl)
    | inr there ↦ rw there (rw there (parent_found-put_folder n new rows h))
  ]

  other_key :
      (m n : Text) (f : Folder)
      → text_eq n m ≡ false
      → is_folder account_id n f ≡ true
      → is_folder account_id m f ≡ false
  other_key m n f h k =
      elim f.external_id
          as (λ o.
            (text_eq f.account_id account_id && opt_eq o n) ≡ true
            → (text_eq f.account_id account_id && opt_eq o m) ≡ false) [
              | none ↦ λ q. ground (arith, q)
              | some t ↦ λ q.
                  let same : text_eq t n ≡ true = ground (arith, q) in
                  let e : t ≡ n = (text_eq_iff t n).0 same in rw e (ground (arith, h))
            ]
        k

  pub parent_found-put_other :
      (m n : Text) (new : Folder) (rows : List Folder)
      → text_eq n m ≡ false
      → is_folder account_id n new ≡ true
      → parent_found account_id m (put_folder account_id n new rows)
        ≡ parent_found account_id m rows
  unfolding parent_found put_folder
  parent_found-put_other m n new [] h k = rw (other_key m n new h k) refl
  parent_found-put_other m n new (f ∷ rows) h k = elim (Bool-cases (is_folder account_id n f)) [
    | inl here ↦ rw here (rw (other_key m n f h here) refl)
    | inr there ↦ rw there (
        ap (λ rest. if is_folder account_id m f then some f.parent_id else rest)
          (parent_found-put_other m n new rows h k))
  ]
