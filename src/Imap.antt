-- ===== src/Imap.antt =====
-- The texts that backend/src/imap.rs sends in its commands.
pub mod Quoted
pub mod UidSet
use lyra.Prelude.{
  ℕ, zero, suc, ◌+◌, Bool, true, false, ◌&&◌, ◌||◌, Option, none, some, List, [], ◌∷◌, ◌++◌, map,
  Text, codes, text_eq, starts_with, leb, ltb, ◌==◌, if◌then◌else◌,
}
use lyra.Prelude.Trim.{trim}
use lyra.Prelude.Decimal.{show_ℕ}

quoted : Text → Text
quoted [] = 34 ∷ []
quoted (c ∷ s) = let rest = quoted s in if c == 92 || c == 34 then 92 ∷ c ∷ rest else c ∷ rest

unfoldable pub imap_quoted : Text → Text
unfolding quoted
imap_quoted s = 34 ∷ quoted s

-- `sort_unstable`
insert_sorted : ℕ → List ℕ → List ℕ
insert_sorted x [] = x ∷ []
insert_sorted x (y ∷ ys) = let rest = insert_sorted x ys in if leb x y then x ∷ y ∷ ys else y ∷ rest

unfoldable pub sort : List ℕ → List ℕ
unfolding insert_sorted
sort [] = []
sort (x ∷ xs) = insert_sorted x (sort xs)

-- `dedup`: of equal neighbours one stays.
unfoldable pub dedup_from : ℕ → List ℕ → List ℕ
dedup_from x [] = x ∷ []
dedup_from x (y ∷ ys) = let rest = dedup_from y ys in if x == y then rest else x ∷ rest

-- The loop over what follows the first UID, with the range that is open.
unfoldable pub ranges_from : ℕ → ℕ → List ℕ → List (ℕ × ℕ)
ranges_from start end [] = (start, end) ∷ []
ranges_from start end (uid ∷ uids) =
    let longer = ranges_from start uid uids in
    let next = ranges_from uid uid uids in if uid == end + 1 then longer else (start, end) ∷ next

unfoldable pub show_range : ℕ × ℕ → Text
show_range (start, end) =
    if start == end then show_ℕ start else show_ℕ start ++ (codes ":" ++ show_ℕ end)

-- `parts.join(",")`
unfoldable pub join : List Text → Text
join [] = []
join (t ∷ []) = t
join (t ∷ u ∷ ts) = t ++ (codes "," ++ join (u ∷ ts))

ranges_of_sorted : List ℕ → Option (List (ℕ × ℕ))
ranges_of_sorted [] = none
ranges_of_sorted (x ∷ xs) = some (ranges_from x x xs)

deduped : List ℕ → List ℕ
deduped [] = []
deduped (x ∷ xs) = dedup_from x xs

-- The ranges that are printed.
unfoldable pub uid_ranges : List ℕ → Option (List (ℕ × ℕ))
unfolding ranges_of_sorted deduped
uid_ranges uids = ranges_of_sorted (deduped (sort uids))

show_ranges : Option (List (ℕ × ℕ)) → Option Text
show_ranges none = none
show_ranges (some ranges) = some (join (map show_range ranges))

-- No UIDs at all is a panic.
unfoldable pub format_uid_set : List ℕ → Option Text
unfolding show_ranges
format_uid_set uids = show_ranges (uid_ranges uids)

-- `ends_with` of one character.
ends_in : ℕ → Text → Bool
ends_in c [] = false
ends_in c (d ∷ []) = d == c
ends_in c (d ∷ e ∷ t) = ends_in c (e ∷ t)

unfoldable pub parenthesize_fetch_atts : Text → Text
unfolding ends_in
parenthesize_fetch_atts atts =
    let trimmed = trim atts in
    if starts_with trimmed (codes "(") && ends_in 41 trimmed
    then trimmed
    else codes "(" ++ (trimmed ++ codes ")")

unfoldable pub role_to_specialuse : Text → Option Text
role_to_specialuse role =
    if text_eq role (codes "sent")
    then some (codes "\\Sent")
    else if text_eq role (codes "drafts")
    then some (codes "\\Drafts")
    else if text_eq role (codes "trash")
    then some (codes "\\Trash")
    else if text_eq role (codes "spam")
    then some (codes "\\Junk")
    else if text_eq role (codes "archive")
    then some (codes "\\Archive")
    else none
