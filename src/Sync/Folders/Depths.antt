-- ===== src/Sync/Folders/Depths.antt =====
-- Depths of mailbox paths with a delimiter of one character, and the order in which
-- backend/src/sync/imap_loop.rs upserts the folders.
use lyra.Prelude.{
  ℕ, suc, ◌+◌, ◌≤◌, ◌<◌, ◌≡◌, refl, true, false, none, some, List, [], ◌∷◌, ◌++◌, Text, starts_with,
  strip_prefix, leb, ◌==◌, All, Bool-cases, inl, inr, arith,
}
use lyra.Prelude.Trim.{is_empty}
use lyra.Prelude.Split.{has_char}
use lyra.Sync.Folders.{
  ImapFolder, rsplit_once, before_char, split_imap_folder_path, split_at, parent_and_leaf, filled,
  matches, imap_folder_depth, depth_with, insert_folder, sort_folders,
}
use lyra.Sync.Folders.Puts.{is_named}

module _ (d : ℕ) where
  count_append :
      (s t : Text) → matches (d ∷ []) 0 (s ++ t) ≡ matches (d ∷ []) 0 s + matches (d ∷ []) 0 t
  unfolding matches starts_with
  count_append [] t = omega arith
  count_append (c ∷ s) t = ground (arith, count_append s t)

  no_split : (t : Text) → has_char d t ≡ false → rsplit_once t (d ∷ []) ≡ none
  unfolding rsplit_once before_char strip_prefix
  no_split [] h = refl
  no_split (c ∷ t) h =
      let differs : (c == d) ≡ false = ground (arith, h) in
      rw (no_split t (ground (arith, h)), differs) refl

  rsplit_once_last :
      (p leaf : Text)
      → has_char d leaf ≡ false
      → rsplit_once (p ++ (d ∷ leaf)) (d ∷ []) ≡ some (p, leaf)
  unfolding rsplit_once before_char strip_prefix
  rsplit_once_last [] leaf h = rw (no_split leaf h) (ground arith)
  rsplit_once_last (c ∷ p) leaf h = rw (rsplit_once_last p leaf h) refl

  pub split-child :
      (parent leaf : Text)
      → has_char d leaf ≡ false
      → is_empty parent ≡ false
      → (split_imap_folder_path (parent ++ (d ∷ leaf)) (some (d ∷ []))).0 ≡ some parent
  unfolding split_imap_folder_path split_at parent_and_leaf filled
  split-child parent leaf h k = rw (rsplit_once_last parent leaf h, k) refl

  pub depth_named :
      (g : ImapFolder)
      → g.delimiter ≡ some (d ∷ [])
      → imap_folder_depth g ≡ matches (d ∷ []) 0 g.name
  unfolding imap_folder_depth depth_with filled
  depth_named g h = rw h refl

  pub child_deeper :
      (parent leaf : Text) → matches (d ∷ []) 0 parent < matches (d ∷ []) 0 (parent ++ (d ∷ leaf))
  unfolding matches starts_with
  child_deeper parent leaf =
      let sum = count_append parent (d ∷ leaf) in
      let one : matches (d ∷ []) 0 (d ∷ leaf) ≡ suc (matches (d ∷ []) 0 leaf) = ground arith in
      omega (arith, sum, one)

abbrev pub IsSorted : List ImapFolder → Type 0
IsSorted [] = Unit
IsSorted (f ∷ folders) =
    All (λ g. imap_folder_depth f ≤ imap_folder_depth g) folders × IsSorted folders

module _ (P : ImapFolder → Type 0) where
  All-insert_folder :
      (f : ImapFolder) (folders : List ImapFolder)
      → P f
      → All P folders
      → All P (insert_folder f folders)
  unfolding insert_folder
  All-insert_folder f [] h k = (h, tt)
  All-insert_folder f (g ∷ folders) h (k, ks) =
      elim (Bool-cases (leb (imap_folder_depth f) (imap_folder_depth g))) [
        | inl before ↦ rw before (h, (k, ks))
        | inr after ↦ rw after (k, All-insert_folder f folders h ks)
      ]

  pub All-sort_folders : (folders : List ImapFolder) → All P folders → All P (sort_folders folders)
  unfolding sort_folders
  All-sort_folders [] h = tt
  All-sort_folders (f ∷ folders) (h, hs) =
      All-insert_folder f (sort_folders folders) h (All-sort_folders folders hs)

raised :
    (a b : ℕ) (folders : List ImapFolder)
    → a ≤ b
    → All (λ g. b ≤ imap_folder_depth g) folders
    → All (λ g. a ≤ imap_folder_depth g) folders
raised a b [] h k = tt
raised a b (g ∷ folders) h (k, ks) = (omega (arith, h, k), raised a b folders h ks)

insert_folder-IsSorted :
    (f : ImapFolder) (folders : List ImapFolder)
    → IsSorted folders
    → IsSorted (insert_folder f folders)
unfolding insert_folder
insert_folder-IsSorted f [] h = (tt, tt)
insert_folder-IsSorted f (g ∷ folders) (h, hs) =
    elim (Bool-cases (leb (imap_folder_depth f) (imap_folder_depth g))) [
      | inl before ↦
          let le : imap_folder_depth f ≤ imap_folder_depth g = ground (arith, before) in
          rw before ((le, raised (imap_folder_depth f) (imap_folder_depth g) folders le h), (h, hs))
      | inr after ↦ rw after (
        All-insert_folder (λ x. imap_folder_depth g ≤ imap_folder_depth x) f folders
            (ground (arith, after)) h,
        insert_folder-IsSorted f folders hs,
      )
    ]

pub sort_folders-IsSorted : (folders : List ImapFolder) → IsSorted (sort_folders folders)
unfolding sort_folders
sort_folders-IsSorted [] = tt
sort_folders-IsSorted (f ∷ folders) =
    insert_folder-IsSorted f (sort_folders folders) (sort_folders-IsSorted folders)

named-insert_folder :
    (n : Text) (f : ImapFolder) (folders : List ImapFolder)
    → is_named n (f ∷ folders) ≡ true
    → is_named n (insert_folder f folders) ≡ true
unfolding insert_folder
named-insert_folder n f [] h = h
named-insert_folder n f (g ∷ folders) h =
    elim (Bool-cases (leb (imap_folder_depth f) (imap_folder_depth g))) [
      | inl before ↦ rw before h
      | inr after ↦ rw after (ground (arith, h, named-insert_folder n f folders))
    ]

pub named-sort_folders :
    (n : Text) (folders : List ImapFolder)
    → is_named n folders ≡ true
    → is_named n (sort_folders folders) ≡ true
unfolding sort_folders
named-sort_folders n [] h = h
named-sort_folders n (f ∷ folders) h =
    named-insert_folder n f (sort_folders folders) (ground (arith, h, named-sort_folders n folders))
