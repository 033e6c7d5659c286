-- ===== src/Labels/Keys.antt =====
-- Labels out of the keys of an object, in whatever order these come (backend/src/sync/labels.rs).
use lyra.Prelude.{
  suc, ◌≤◌, ◌≡◌, refl, ap, sym, ◌∙◌, true, false, ◌&&◌, ◌||◌, not, some, List, [], ◌∷◌, ◌++◌, Text,
  text_eq, text_eq_iff, text_eq_refl, text_eq_cancel, strip_prefix, strip_prefix-append, contains,
  length, take_all, arith, inl, inr, Bool-cases, Option-cases, if◌then◌else◌,
}
use lyra.Prelude.Trim.{is_empty}
use lyra.Labels.{
  label_keyword, keyword_prefix, max_labels, object, push_new, push_flag, push_keys,
  labels_from_flags,
}
use lyra.Labels.Sets.{are_distinct, are_distinct-snoc, contains-append}

strip_some : (t prefix rest : Text) → strip_prefix t prefix ≡ some rest → t ≡ prefix ++ rest
unfolding strip_prefix
strip_some t [] rest h = cc (h)
strip_some [] (d ∷ prefix) rest h = cc (h)
strip_some (c ∷ t) (d ∷ prefix) rest h = ground (arith, h, strip_some t prefix rest)

pushed :
    (out : List Text) (rest l : Text)
    → contains (push_new out (some rest)) l
      ≡ (contains out l || (text_eq rest l && not (is_empty l)))
unfolding push_new contains
pushed out rest l = elim (Bool-cases (text_eq rest l)) [
  | inl same ↦
      let e = (text_eq_iff rest l).0 same in
      ground (arith, same, contains-append out (rest ∷ []) l, ap is_empty e, ap (contains out) e)
  | inr differs ↦ ground (arith, differs, contains-append out (rest ∷ []) l)
]

contains-push_flag :
    (out : List Text) (flag l : Text)
    → contains (push_flag out flag) l
      ≡ (contains out l || (text_eq flag (label_keyword l) && not (is_empty l)))
unfolding push_flag push_new label_keyword contains
contains-push_flag out flag l = elim (Option-cases (strip_prefix flag keyword_prefix)) [
  | inl other ↦ elim (Bool-cases (text_eq flag (keyword_prefix ++ l))) [
    | inl same ↦
        let e =
          ap (λ t. strip_prefix t keyword_prefix)
            ((text_eq_iff flag (keyword_prefix ++ l)).0 same) in
        absurd
          (let impossible : ⊥ = cc (e, other, strip_prefix-append keyword_prefix l) in impossible)
    | inr differs ↦ rw (other, differs) (ground arith)
  ]
  | inr (rest, cut) ↦
      let e = strip_some flag keyword_prefix rest cut in
      let same : text_eq flag (keyword_prefix ++ l) ≡ text_eq rest l =
        ap (λ t. text_eq t (keyword_prefix ++ l)) e ∙ text_eq_cancel keyword_prefix rest l in
      rw (cut, same) (pushed out rest l)
]

are_distinct-push_flag :
    (out : List Text) (flag : Text)
    → are_distinct out ≡ true
    → are_distinct (push_flag out flag) ≡ true
unfolding push_flag push_new
are_distinct-push_flag out flag h = elim (Option-cases (strip_prefix flag keyword_prefix)) [
  | inl other ↦ rw other h
  | inr (rest, cut) ↦ rw cut (ground (arith, h, are_distinct-snoc out rest))
]

contains-push_keys :
    (out keys : List Text) (l : Text)
    → contains (push_keys out keys) l
      ≡ (contains out l || (contains keys (label_keyword l) && not (is_empty l)))
unfolding push_keys contains
contains-push_keys out [] l = ground arith
contains-push_keys out (flag ∷ keys) l =
    ground (arith, contains-push_keys (push_flag out flag) keys l, contains-push_flag out flag l)

are_distinct-push_keys :
    (out keys : List Text) → are_distinct out ≡ true → are_distinct (push_keys out keys) ≡ true
unfolding push_keys
are_distinct-push_keys out [] h = h
are_distinct-push_keys out (flag ∷ keys) h =
    are_distinct-push_keys (push_flag out flag) keys (are_distinct-push_flag out flag h)

drop_one : Text → List Text → List Text
drop_one t [] = []
drop_one t (y ∷ ys) = if text_eq y t then ys else y ∷ drop_one t ys

length-drop_one :
    (t : Text) (ys : List Text) → contains ys t ≡ true → length ys ≡ suc (length (drop_one t ys))
unfolding drop_one contains
length-drop_one t [] h = cc (h)
length-drop_one t (y ∷ ys) h = ground (arith, h, length-drop_one t ys)

contains-drop_one :
    (t u : Text) (ys : List Text)
    → text_eq t u ≡ false
    → contains ys u ≡ true
    → contains (drop_one t ys) u ≡ true
unfolding drop_one contains
contains-drop_one t u [] d h = cc (h)
contains-drop_one t u (y ∷ ys) d h =
    ground (arith, d, h, contains-drop_one t u ys d, text_eq_iff y t, text_eq_iff y u)

apart :
    (x t : Text) (xs : List Text)
    → contains xs x ≡ false
    → contains xs t ≡ true
    → text_eq x t ≡ false
apart x t xs h k = elim (Bool-cases (text_eq x t)) [
  | inl same ↦
      let e = ap (contains xs) ((text_eq_iff x t).0 same) in
      absurd (let impossible : ⊥ = cc (e, h, k) in impossible)
  | inr differs ↦ differs
]

-- Distinct texts that are all in a list are no more than its.
no_more :
    (xs ys : List Text)
    → are_distinct xs ≡ true
    → ((t : Text) → contains xs t ≡ true → contains ys t ≡ true)
    → length xs ≤ length ys
unfolding are_distinct contains
no_more [] ys d h = omega arith
no_more (x ∷ xs) ys d h =
    let there = h x (ground (arith, text_eq_refl x)) in
    let fewer = no_more xs (drop_one x ys) (ground (arith, d)) (λ t k.
      contains-drop_one x t ys (apart x t xs (ground (arith, d)) k) (h t (ground (arith, k)))) in
    omega (arith, fewer, length-drop_one x ys there)

same_labels :
    (keys labels : List Text)
    → ((l : Text) → contains keys (label_keyword l) ≡ contains labels l)
    → contains labels [] ≡ false
    → (l : Text) → contains (push_keys [] keys) l ≡ contains labels l
unfolding contains
same_labels keys labels h filled [] = ground (arith, contains-push_keys [] keys [], h [], filled)
same_labels keys labels h filled (c ∷ l) =
    ground (arith, contains-push_keys [] keys (c ∷ l), h (c ∷ l))

-- The keys hold the keywords of at most eight labels, none of them empty, beside others.
pub contains-labels_from_flags :
    (keys labels : List Text)
    → ((l : Text) → contains keys (label_keyword l) ≡ contains labels l)
    → length labels ≤ max_labels
    → contains labels [] ≡ false
    → (l : Text) → contains (labels_from_flags (object keys)) l ≡ contains labels l
unfolding labels_from_flags contains are_distinct
contains-labels_from_flags keys labels h few filled l =
    let same = same_labels keys labels h filled in
    let fewer =
      no_more (push_keys [] keys) labels (are_distinct-push_keys [] keys refl)
        (λ t k. sym (same t) ∙ k) in
    rw (take_all max_labels (push_keys [] keys) (omega (arith, fewer, few))) (same l)
