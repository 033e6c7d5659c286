-- ===== src/Labels/Slug.antt =====
-- The slugs that `sanitize_label` makes, and that it keeps them.
use lyra.Prelude.{
  ℕ, zero, suc, ◌≤◌, ◌≡◌, refl, subst, Bool, true, false, ◌&&◌, ◌||◌, not, some, [], ◌∷◌, Text,
  take, length, length-take, take_all, arith, inl, inr, Bool-cases,
}
use lyra.Prelude.Trim.{
  is_empty, trim_start_matches, trim_end_matches, trim_matches, trim, is_whitespace,
  length-trim_end_matches,
}
use lyra.Labels.{
  is_lower_or_digit, is_dash, slug_char, slug_loop, sanitize_label, max_label_len, non_empty,
}

-- Lower-case letters, digits and single dashes between them: `after_dash` tells that a dash, or
-- nothing, stands before.
unfoldable pub is_slug_from : Bool → Text → Bool
is_slug_from after_dash [] = not after_dash
is_slug_from after_dash (c ∷ t) =
    (is_lower_or_digit c && is_slug_from false t)
    || (is_dash c && not after_dash && is_slug_from true t)

-- The same without a condition on the end.
open_slug : Bool → Text → Bool
open_slug after_dash [] = true
open_slug after_dash (c ∷ t) =
    (is_lower_or_digit c && open_slug false t) || (is_dash c && not after_dash && open_slug true t)

open_slug-slug_loop : (d : Bool) (s : Text) → open_slug d (slug_loop d s) ≡ true
unfolding open_slug slug_loop slug_char
open_slug-slug_loop d [] = refl
open_slug-slug_loop d (c ∷ t) =
    ground (arith, open_slug-slug_loop d t, open_slug-slug_loop false t, open_slug-slug_loop true t)

open_slug-take :
    (n : ℕ) (d : Bool) (s : Text) → open_slug d s ≡ true → open_slug d (take n s) ≡ true
unfolding open_slug
open_slug-take zero d s h = refl
open_slug-take (suc n) d [] h = refl
open_slug-take (suc n) d (c ∷ t) h =
    ground (arith, h, open_slug-take n false t, open_slug-take n true t)

empty_is : (s : Text) → is_empty s ≡ true → s ≡ []
empty_is [] e = refl
empty_is (c ∷ t) e = cc

-- Without its trailing dashes an open slug is empty or a slug.
trimmed :
    (d : Bool) (s : Text)
    → open_slug d s ≡ true
    → (is_empty (trim_end_matches is_dash s) || is_slug_from d (trim_end_matches is_dash s)) ≡ true
unfolding open_slug is_slug_from trim_end_matches
trimmed d [] h = refl
trimmed d (c ∷ t) h = elim (Bool-cases (is_empty (trim_end_matches is_dash t))) [
  | inl e ↦ rw (empty_is (trim_end_matches is_dash t) e) (ground (arith, h))
  | inr e ↦ ground (arith, h, e, trimmed false t, trimmed true t)
]

open_slug-trim_end :
    (d : Bool) (s : Text) → open_slug d s ≡ true → open_slug d (trim_end_matches is_dash s) ≡ true
unfolding open_slug trim_end_matches
open_slug-trim_end d [] h = refl
open_slug-trim_end d (c ∷ t) h =
    ground (arith, h, open_slug-trim_end false t, open_slug-trim_end true t)

-- An open slug at the beginning has no leading dash.
start_kept : (s : Text) → open_slug true s ≡ true → trim_start_matches is_dash s ≡ s
unfolding open_slug trim_start_matches
start_kept [] h = refl
start_kept (c ∷ t) h = ground (arith, h)

non_empty-some : (x s : Text) → non_empty x ≡ some s → (x ≡ s) × (is_empty x ≡ false)
non_empty-some [] s h = cc
non_empty-some (c ∷ t) s h = (cc h, refl)

cut_slug :
    (r : Text)
    → open_slug true r ≡ true
    → length r ≤ max_label_len
    → is_empty (trim_matches is_dash r) ≡ false
    → (is_slug_from true (trim_matches is_dash r) ≡ true)
      × (length (trim_matches is_dash r) ≤ max_label_len)
unfolding trim_matches
cut_slug r o l e = rw (start_kept r o) (
  ground (arith, start_kept r o, trimmed true r o, e),
  omega (arith, length-trim_end_matches is_dash r, l),
)

-- A label that comes out of `sanitize_label`, whatever went in, has at most 40 characters, is not
-- empty, and consists of lower-case letters, digits and single dashes between them.
pub sanitize_label_lem :
    (raw s : Text)
    → sanitize_label raw ≡ some s
    → (is_slug_from true s ≡ true) × (length s ≤ max_label_len)
unfolding sanitize_label
sanitize_label_lem raw s h =
    let out = trim_end_matches is_dash (slug_loop true (trim raw)) in
    let is_open = open_slug-trim_end true _ (open_slug-slug_loop true (trim raw)) in
    let cut = open_slug-take max_label_len true out is_open in
    let (same, there) = non_empty-some (trim_matches is_dash (take max_label_len out)) s h in
    subst (λ x. (is_slug_from true x ≡ true) × (length x ≤ max_label_len)) same
      (cut_slug (take max_label_len out) cut (length-take max_label_len out) there)

pub slug_non_empty : (s : Text) → is_empty s ≡ true → is_slug_from true s ≡ false
unfolding is_slug_from
slug_non_empty [] e = refl
slug_non_empty (c ∷ t) e = cc

-- Trimming takes nothing from a slug's end where it takes no letter and no digit.
slug_end_kept :
    (p : ℕ → Bool) (d : Bool) (s : Text)
    → ((c : ℕ) → is_lower_or_digit c ≡ true → p c ≡ false)
    → is_slug_from d s ≡ true
    → trim_end_matches p s ≡ s
unfolding is_slug_from trim_end_matches
slug_end_kept p d [] h k = refl
slug_end_kept p d (c ∷ t) h k =
    ground (arith, k, h c, slug_non_empty t, slug_end_kept p false t h, slug_end_kept p true t h)

slug_start_kept :
    (p : ℕ → Bool) (s : Text)
    → ((c : ℕ) → is_lower_or_digit c ≡ true → p c ≡ false)
    → is_slug_from true s ≡ true
    → trim_start_matches p s ≡ s
unfolding is_slug_from trim_start_matches
slug_start_kept p [] h k = refl
slug_start_kept p (c ∷ t) h k = ground (arith, h c, k)

slug_loop_kept : (d : Bool) (s : Text) → is_slug_from d s ≡ true → slug_loop d s ≡ s
unfolding is_slug_from slug_loop slug_char
slug_loop_kept d [] k = refl
slug_loop_kept d (c ∷ t) k = ground (arith, k, slug_loop_kept false t, slug_loop_kept true t)

dash_apart : (c : ℕ) → is_lower_or_digit c ≡ true → is_dash c ≡ false
dash_apart c h = ground arith

space_apart : (c : ℕ) → is_lower_or_digit c ≡ true → is_whitespace c ≡ false
space_apart c h = ground arith

trim_matches_kept :
    (p : ℕ → Bool) (s : Text)
    → ((c : ℕ) → is_lower_or_digit c ≡ true → p c ≡ false)
    → is_slug_from true s ≡ true
    → trim_matches p s ≡ s
unfolding trim_matches
trim_matches_kept p s h k = rw (slug_start_kept p s h k) (slug_end_kept p true s h k)

trim_kept : (s : Text) → is_slug_from true s ≡ true → trim s ≡ s
unfolding trim
trim_kept s k = trim_matches_kept is_whitespace s space_apart k

non_empty_slug : (s : Text) → is_slug_from true s ≡ true → non_empty s ≡ some s
non_empty_slug s k = ground (arith, k, slug_non_empty s)

-- `sanitize_label` keeps a slug of at most 40 characters.
pub sanitize_label_keeps :
    (s : Text) → is_slug_from true s ≡ true → length s ≤ max_label_len → sanitize_label s ≡ some s
unfolding sanitize_label
sanitize_label_keeps s k h =
    rw
      (
        trim_kept s k,
        slug_loop_kept true s k,
        slug_end_kept is_dash true s dash_apart k,
        take_all max_label_len s h,
        trim_matches_kept is_dash s dash_apart k,
      )
      (non_empty_slug s k)
