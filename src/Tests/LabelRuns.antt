-- ===== src/Tests/LabelRuns.antt =====
-- Labels, run.
use lyra.Prelude.{
  ◌≡◌, refl, false, ◌&&◌, ◌||◌, not, none, some, List, [], ◌∷◌, map, Text, codes, text_eq,
  strip_prefix, contains, arith,
}
use lyra.Prelude.Trim.{trim, trim_matches, trim_start_matches, trim_end_matches}
use lyra.Labels.{
  slug_char, slug_loop, sanitize_label, labels_loop, sanitize_labels, label_keyword, label_diff,
  array, object, labels_from_flags,
}
use lyra.Labels.Slug.{is_slug_from}
use lyra.Labels.Sets.{are_distinct, are_slugs, AreLabels, sanitize_labels-AreLabels}
use lyra.Labels.Keywords.{labels_from_flags-label_keyword, label_diff_lem}

unfoldable label_run : Unit {0}
unfolding text_eq strip_prefix contains trim trim_matches trim_start_matches trim_end_matches
    slug_char slug_loop sanitize_label labels_loop sanitize_labels label_keyword label_diff
    labels_from_flags is_slug_from are_distinct are_slugs
label_run = tt

-- The cases of the unit tests.
slugs :
    (sanitize_label (codes "Work Travel") ≡ some (codes "work-travel"))
    × (sanitize_label (codes "  Projects_2026 ") ≡ some (codes "projects-2026"))
    × (sanitize_label (codes "Travel!!") ≡ some (codes "travel"))
    × (sanitize_label (codes "---") ≡ none)
    × (sanitize_label (codes "!!!") ≡ none)
unfolding label_run
slugs = (refl, refl, refl, refl, refl)

abbrev raw : List Text
raw = codes "Work" ∷ codes "work" ∷ codes "TRAVEL" ∷ []

deduplicated : sanitize_labels raw ≡ codes "work" ∷ codes "travel" ∷ []
unfolding label_run
deduplicated = refl

flags :
    labels_from_flags (
      array (some (codes "\\Seen") ∷ none ∷ some (codes "label-work") ∷ some (codes "label-") ∷ []))
    ≡ codes "work" ∷ []
unfolding label_run
flags = refl

cleaned : sanitize_label (codes "Work Travel") ≡ some (codes "work-travel")
unfolding label_run
cleaned = refl

sanitize_labels-AreLabels_example : AreLabels (sanitize_labels raw)
sanitize_labels-AreLabels_example = sanitize_labels-AreLabels raw

-- The keys of a JMAP object, sorted as its map gives them.
abbrev keys : List Text
keys = codes "$seen" ∷ codes "label-travel" ∷ codes "label-work" ∷ []

keys_hold : (l : Text) → contains keys (label_keyword l) ≡ contains (sanitize_labels raw) l
unfolding label_run
keys_hold l = ground arith

-- The labels of the object are sorted too.
sorted : labels_from_flags (object keys) ≡ codes "travel" ∷ codes "work" ∷ []
unfolding label_run
sorted = refl

labels_from_flags-label_keyword_example :
    (labels_from_flags (array (map (λ k. some k) (map label_keyword (sanitize_labels raw))))
      ≡ sanitize_labels raw)
    × ((l : Text) → contains (labels_from_flags (object keys)) l ≡ contains (sanitize_labels raw) l)
labels_from_flags-label_keyword_example = labels_from_flags-label_keyword raw keys keys_hold

abbrev old : List Text
old = codes "work" ∷ codes "old" ∷ []

abbrev next : List Text
next = codes "travel" ∷ codes "work" ∷ []

label_diff_lem_example :
    (((contains old (codes "old")
          && not (contains (label_diff old next).1 (label_keyword (codes "old"))))
        || contains (label_diff old next).0 (label_keyword (codes "old")))
      ≡ contains next (codes "old"))
    × ((contains (label_diff old next).0 (label_keyword (codes "old"))
          && contains (label_diff old next).1 (label_keyword (codes "old")))
        ≡ false)
label_diff_lem_example = label_diff_lem old next (codes "old")
