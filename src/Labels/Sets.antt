-- ===== src/Labels/Sets.antt =====
-- Lists of labels: what `sanitize_labels` makes, that keywords give it back, and the difference of
-- two.
use lyra.Prelude.{
  ◌≤◌, ◌<◌, ◌≡◌, refl, Bool, true, ◌&&◌, ◌||◌, not, List, [], ◌∷◌, ◌++◌, Text, text_eq, text_eq_iff,
  text_eq_refl, contains, length, leb, length-append, arith, inl, inr, Bool-cases, Option-cases,
}
use lyra.Labels.{sanitize_label, sanitize_labels, add_label, labels_loop, max_labels}
use lyra.Labels.Slug.{is_slug_from, sanitize_label_lem}

unfoldable pub are_distinct : List Text → Bool
are_distinct [] = true
are_distinct (l ∷ ls) = not (contains ls l) && are_distinct ls

unfoldable pub are_slugs : List Text → Bool
are_slugs [] = true
are_slugs (l ∷ ls) = is_slug_from true l && leb (length l) 40 && are_slugs ls

pub contains-append :
    (xs ys : List Text) (t : Text) → contains (xs ++ ys) t ≡ (contains xs t || contains ys t)
unfolding contains
contains-append [] ys t = refl
contains-append (x ∷ xs) ys t = ground (arith, contains-append xs ys t)

pub text_eq_sym : (s t : Text) → text_eq s t ≡ text_eq t s
text_eq_sym s t = ground (arith, text_eq_iff s t, text_eq_iff t s, text_eq_refl s)

pub are_distinct-snoc :
    (xs : List Text) (t : Text)
    → are_distinct (xs ++ t ∷ []) ≡ (are_distinct xs && not (contains xs t))
unfolding are_distinct contains
are_distinct-snoc [] t = refl
are_distinct-snoc (x ∷ xs) t =
    ground (arith, are_distinct-snoc xs t, contains-append xs (t ∷ []) x, text_eq_sym x t)

are_slugs-snoc :
    (xs : List Text) (t : Text)
    → are_slugs (xs ++ t ∷ []) ≡ (are_slugs xs && (is_slug_from true t && leb (length t) 40))
unfolding are_slugs
are_slugs-snoc [] t = ground arith
are_slugs-snoc (x ∷ xs) t = ground (arith, are_slugs-snoc xs t)

pub record AreLabels (ls : List Text) : Type 0 where
  pub distinct : are_distinct ls ≡ true
  pub slugs : are_slugs ls ≡ true
  pub few : length ls ≤ 8

add_label-AreLabels :
    (out : List Text) (label : Text)
    → AreLabels out
    → length out < max_labels
    → AreLabels (add_label out (sanitize_label label))
unfolding add_label
add_label-AreLabels out label w h = elim (Option-cases (sanitize_label label)) [
  | inl e ↦ rw e w
  | inr (s, e) ↦ rw e (elim (Bool-cases (contains out s)) [
    | inl old ↦ rw old w
    | inr new ↦ rw new (record {
      distinct = ground (arith, are_distinct-snoc out s, new, w.distinct);
      slugs = ground (arith, are_slugs-snoc out s, w.slugs, sanitize_label_lem label s e);
      few = ground (arith, length-append out (s ∷ []), h);
    })
  ])
]

labels_loop-AreLabels : (out raw : List Text) → AreLabels out → AreLabels (labels_loop out raw)
unfolding labels_loop
labels_loop-AreLabels out [] w = w
labels_loop-AreLabels out (label ∷ raw) w = elim (Bool-cases (leb max_labels (length out))) [
  | inl full ↦ rw full w
  | inr free ↦ rw free (
      labels_loop-AreLabels (add_label out (sanitize_label label)) raw
        (add_label-AreLabels out label w (ground (arith, free))))
]

-- Whatever list goes in, `sanitize_labels` gives at most 8 labels, all different, each a slug of at
-- most 40 characters.
pub sanitize_labels-AreLabels : (raw : List Text) → AreLabels (sanitize_labels raw)
unfolding sanitize_labels are_distinct are_slugs
sanitize_labels-AreLabels raw =
    labels_loop-AreLabels [] raw (record { distinct = refl; slugs = refl; few = omega arith })
