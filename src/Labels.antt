-- ===== src/Labels.antt =====
-- User labels as provider keywords: backend/src/sync/labels.rs. A flags column is taken as what its
-- JSON reads as.
pub mod Slug
pub mod Sets
pub mod Keys
pub mod Keywords
use lyra.Prelude.{
  ℕ, ◌+◌, Bool, true, false, ◌&&◌, ◌||◌, not, Option, none, some, List, [], ◌∷◌, ◌++◌, map, Text,
  codes, strip_prefix, contains, filter, take, length, leb, ◌==◌, if◌then◌else◌,
}
use lyra.Prelude.Trim.{is_empty, trim_end_matches, trim_matches, trim}

abbrev pub keyword_prefix : Text
keyword_prefix = codes "label-"

abbrev pub max_labels : ℕ
max_labels = 8

abbrev pub max_label_len : ℕ
max_label_len = 40

abbrev pub is_lower_or_digit : ℕ → Bool
is_lower_or_digit c = (leb 97 c && leb c 122) || (leb 48 c && leb c 57)

abbrev pub is_upper : ℕ → Bool
is_upper c = leb 65 c && leb c 90

abbrev pub is_dash : ℕ → Bool
is_dash c = c == 45

-- A dash, an underscore or a space.
abbrev pub is_separator : ℕ → Bool
is_separator c = c == 45 || c == 95 || c == 32

-- What the loop's body pushes for a character, and its new `last_dash`.
unfoldable pub slug_char : Bool → ℕ → Option ℕ × Bool
slug_char last_dash ch =
    if is_lower_or_digit ch
    then (some ch, false)
    else if is_upper ch
    then (some (ch + 32), false)
    else if is_separator ch && not last_dash
    then (some 45, true)
    else (none, last_dash)

abbrev pub push : Option ℕ → Text → Text
push none out = out
push (some c) out = c ∷ out

unfoldable pub slug_loop : Bool → Text → Text
slug_loop last_dash [] = []
slug_loop last_dash (ch ∷ raw) =
    push (slug_char last_dash ch).0 (slug_loop (slug_char last_dash ch).1 raw)

abbrev non_empty : Text → Option Text
non_empty s = if is_empty s then none else some s

unfoldable pub sanitize_label : Text → Option Text
sanitize_label raw =
    let out = trim_end_matches is_dash (slug_loop true (trim raw)) in
    non_empty (trim_matches is_dash (take max_label_len out))

add_label : List Text → Option Text → List Text
add_label out none = out
add_label out (some slug) = if contains out slug then out else out ++ slug ∷ []

-- The loop ends when `out` is full; `out` only grows, so that it is full from then on.
unfoldable pub labels_loop : List Text → List Text → List Text
unfolding add_label
labels_loop out [] = out
labels_loop out (label ∷ raw) =
    let rest = labels_loop (add_label out (sanitize_label label)) raw in
    if leb max_labels (length out) then out else rest

unfoldable pub sanitize_labels : List Text → List Text
sanitize_labels raw = labels_loop [] raw

unfoldable pub label_keyword : Text → Text
label_keyword label = keyword_prefix ++ label

-- The keywords to add and those to remove.
unfoldable pub label_diff : List Text → List Text → List Text × List Text
label_diff old next = (
  map label_keyword (filter (λ l. not (contains old l)) next),
  map label_keyword (filter (λ l. not (contains next l)) old),
)

-- An array's items, `none` where one is no string; an object's keys, in the order in which the map of
-- the JSON library gives them, which sorts them; other JSON, or no JSON.
pub data Flags : Type 0 where
  array : (items : List (Option Text)) → Flags
  object : (keys : List Text) → Flags
  other : Flags

push_new : List Text → Option Text → List Text
push_new out none = out
push_new out (some label) = if is_empty label || contains out label then out else out ++ label ∷ []

push_flag : List Text → Text → List Text
unfolding push_new
push_flag out flag = push_new out (strip_prefix flag keyword_prefix)

push_keys : List Text → List Text → List Text
unfolding push_flag
push_keys out [] = out
push_keys out (flag ∷ flags) = push_keys (push_flag out flag) flags

push_item : List Text → Option Text → List Text
unfolding push_flag
push_item out none = out
push_item out (some flag) = push_flag out flag

push_items : List Text → List (Option Text) → List Text
unfolding push_item
push_items out [] = out
push_items out (item ∷ items) = push_items (push_item out item) items

unfoldable pub labels_from_flags : Flags → List Text
unfolding push_keys push_items
labels_from_flags (array items) = take max_labels (push_items [] items)
labels_from_flags (object keys) = take max_labels (push_keys [] keys)
labels_from_flags other = []
