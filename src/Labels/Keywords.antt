-- ===== src/Labels/Keywords.antt =====
-- Labels and their keywords: the round trip, and the difference of two lists.
use lyra.Prelude.{
  ◌≡◌, refl, ap, sym, ◌∙◌, true, false, ◌&&◌, ◌||◌, not, some, List, [], ◌∷◌, ◌++◌, map, Text,
  text_eq, text_eq_iff, text_eq_cancel, strip_prefix-append, contains, filter, take_all, arith,
}
use lyra.Prelude.Trim.{is_empty}
use lyra.Labels.{
  sanitize_labels, label_keyword, keyword_prefix, label_diff, max_labels, array, object, push_new,
  push_flag, push_keys, push_item, push_items, labels_from_flags,
}
use lyra.Labels.Keys.{contains-labels_from_flags}
use lyra.Labels.Slug.{slug_non_empty}
use lyra.Labels.Sets.{
  are_distinct, are_slugs, contains-append, text_eq_sym, sanitize_labels-AreLabels,
}

append_nil : (xs : List Text) → xs ++ [] ≡ xs
append_nil [] = refl
append_nil (x ∷ xs) = ap (λ r. x ∷ r) (append_nil xs)

append_assoc : (xs : List Text) (y : Text) (ys : List Text) → (xs ++ y ∷ []) ++ ys ≡ xs ++ y ∷ ys
append_assoc [] y ys = refl
append_assoc (x ∷ xs) y ys = ap (λ r. x ∷ r) (append_assoc xs y ys)

-- A member is in no part before it.
distinct_before :
    (out : List Text) (l : Text) (ls : List Text)
    → are_distinct (out ++ l ∷ ls) ≡ true
    → contains out l ≡ false
unfolding are_distinct contains
distinct_before [] l ls h = refl
distinct_before (x ∷ out) l ls h =
    ground (arith, h, distinct_before out l ls, contains-append out (l ∷ ls) x, text_eq_sym l x)

push_flag-label_keyword :
    (out : List Text) (l : Text)
    → is_empty l ≡ false
    → contains out l ≡ false
    → push_flag out (label_keyword l) ≡ out ++ l ∷ []
unfolding push_flag push_new label_keyword
push_flag-label_keyword out l e c = ground (arith, strip_prefix-append keyword_prefix l, e, c)

push_keys-map :
    (out ls : List Text)
    → are_slugs ls ≡ true
    → are_distinct (out ++ ls) ≡ true
    → push_keys out (map label_keyword ls) ≡ out ++ ls
unfolding push_keys are_slugs
push_keys-map out [] s d = sym (append_nil out)
push_keys-map out (l ∷ ls) s d =
    ap (λ o. push_keys o (map label_keyword ls))
      (push_flag-label_keyword out l (ground (arith, s, slug_non_empty l))
        (distinct_before out l ls d))
    ∙ push_keys-map (out ++ l ∷ []) ls (ground (arith, s)) (rw (append_assoc out l ls) d)
    ∙ append_assoc out l ls

push_items-map :
    (out keys : List Text) → push_items out (map (λ k. some k) keys) ≡ push_keys out keys
unfolding push_items push_item push_keys
push_items-map out [] = refl
push_items-map out (k ∷ keys) = push_items-map (push_flag out k) keys

no_empty : (ls : List Text) → are_slugs ls ≡ true → contains ls [] ≡ false
unfolding are_slugs contains text_eq
no_empty [] h = refl
no_empty ([] ∷ ls) h =
    let impossible : ⊥ = ground (arith, h, slug_non_empty []) in absurd impossible
no_empty ((c ∷ l) ∷ ls) h = no_empty ls (ground (arith, h))

-- Labels come back from their keywords, for any list that `sanitize_labels` gives: as that list from
-- an IMAP array of its keywords, and as the same set of labels from a JMAP object among whose keys
-- are exactly its keywords, in whatever order the keys come and whatever other keys there are.
pub labels_from_flags-label_keyword :
    (raw keys : List Text)
    → ((l : Text) → contains keys (label_keyword l) ≡ contains (sanitize_labels raw) l)
    → (labels_from_flags (array (map (λ k. some k) (map label_keyword (sanitize_labels raw))))
        ≡ sanitize_labels raw)
      × ((l : Text)
          → contains (labels_from_flags (object keys)) l ≡ contains (sanitize_labels raw) l)
labels_from_flags-label_keyword raw keys h =
    let w = sanitize_labels-AreLabels raw in
    let back = push_keys-map [] (sanitize_labels raw) w.slugs w.distinct in
    let whole = take_all max_labels (sanitize_labels raw) w.few in
    (
      unfold labels_from_flags in
          rw (push_items-map [] (map label_keyword (sanitize_labels raw)), back) whole,
      contains-labels_from_flags keys (sanitize_labels raw) h w.few
          (no_empty (sanitize_labels raw) w.slugs),
    )

contains-map :
    (ls : List Text) (l : Text) → contains (map label_keyword ls) (label_keyword l) ≡ contains ls l
unfolding contains label_keyword
contains-map [] l = refl
contains-map (x ∷ ls) l = ground (arith, contains-map ls l, text_eq_cancel keyword_prefix x l)

contains-filter :
    (ls ms : List Text) (l : Text)
    → contains (filter (λ m. not (contains ms m)) ls) l ≡ (contains ls l && not (contains ms l))
unfolding contains
contains-filter [] ms l = refl
contains-filter (x ∷ ls) ms l = ground (arith, contains-filter ls ms l, (text_eq_iff x l).0)

-- Taking the keywords to remove from the old labels' and adding those to add leaves exactly the next
-- labels' keywords, and nothing is both added and removed.
pub label_diff_lem :
    (old next : List Text) (l : Text)
    → (((contains old l && not (contains (label_diff old next).1 (label_keyword l)))
          || contains (label_diff old next).0 (label_keyword l))
        ≡ contains next l)
      × ((contains (label_diff old next).0 (label_keyword l)
            && contains (label_diff old next).1 (label_keyword l))
          ≡ false)
unfolding label_diff
label_diff_lem old next l =
    let added =
      contains-map (filter (λ m. not (contains old m)) next) l ∙ contains-filter next old l in
    let removed =
      contains-map (filter (λ m. not (contains next m)) old) l ∙ contains-filter old next l in
    (ground (arith, added, removed), ground (arith, added, removed))
