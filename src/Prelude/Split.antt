-- ===== src/Prelude/Split.antt =====
-- Text cut at a character, and joined again.
use lyra.Prelude.{
  ℕ, ◌≡◌, refl, ap, sym, ◌∙◌, All, Bool, false, List, [], ◌∷◌, ◌++◌, Text, any, ◌==◌, arith,
  Bool-cases, inl, inr, if◌then◌else◌,
}

unfoldable pub push_char : ℕ → List Text → List Text
push_char c [] = (c ∷ []) ∷ []
push_char c (t ∷ ts) = (c ∷ t) ∷ ts

-- `text.split(c)`
unfoldable pub split_on : ℕ → Text → List Text
unfolding push_char
split_on c [] = [] ∷ []
split_on c (d ∷ t) = let rest = split_on c t in if d == c then [] ∷ rest else push_char d rest

abbrev pub has_char : ℕ → Text → Bool
has_char c t = any (λ d. d == c) t

pub split_none : (c : ℕ) (t : Text) → has_char c t ≡ false → split_on c t ≡ t ∷ []
unfolding split_on
split_none c [] h = refl
split_none c (d ∷ t) h = ground (arith, split_none c t)

pub split_first :
    (c : ℕ) (s t : Text) → has_char c s ≡ false → split_on c (s ++ (c ∷ t)) ≡ s ∷ split_on c t
unfolding split_on
split_first c [] t h = ground arith
split_first c (d ∷ s) t h = ground (arith, split_first c s t)

-- The pieces with the character between them.
unfoldable pub join_with : ℕ → List Text → Text
join_with c [] = []
join_with c (t ∷ []) = t
join_with c (t ∷ u ∷ ts) = t ++ (c ∷ join_with c (u ∷ ts))

pub join_with_push : (c d : ℕ) (ts : List Text) → join_with c (push_char d ts) ≡ d ∷ join_with c ts
unfolding push_char join_with
join_with_push c d [] = refl
join_with_push c d (t ∷ []) = refl
join_with_push c d (t ∷ u ∷ ts) = refl

pushed :
    (c d : ℕ) (ts : List Text)
    → (d == c) ≡ false
    → All (λ piece. has_char c piece ≡ false) ts
    → All (λ piece. has_char c piece ≡ false) (push_char d ts)
unfolding push_char
pushed c d [] h k = (rw h, tt)
pushed c d (t ∷ ts) h (k, l) = (ground (arith, h, k), l)

-- Pieces without the character that are joined are cut again as they were.
pub split_on-join_with :
    (c : ℕ) (t : Text) (ts : List Text)
    → All (λ piece. has_char c piece ≡ false) (t ∷ ts)
    → split_on c (join_with c (t ∷ ts)) ≡ t ∷ ts
unfolding join_with
split_on-join_with c t [] (h, _) = split_none c t h
split_on-join_with c t (u ∷ ts) (h, k) =
    split_first c t (join_with c (u ∷ ts)) h ∙ ap (λ rest. t ∷ rest) (split_on-join_with c u ts k)

pub some_piece :
    (c : ℕ) (t : Text) → (first : Text) × (rest : List Text) × (split_on c t ≡ first ∷ rest)
unfolding split_on
some_piece c [] = ([], [], refl)
some_piece c (d ∷ t) = elim (Bool-cases (d == c)) [
  | inl cut ↦ ([], split_on c t, ground (arith, cut))
  | inr goes_on ↦
      let (first, rest, same) = some_piece c t in (d ∷ first, rest, ground (arith, goes_on, same))
]

-- Joining what was cut gives the text back.
pub join_with-split_on : (c : ℕ) (t : Text) → join_with c (split_on c t) ≡ t
unfolding split_on join_with
join_with-split_on c [] = refl
join_with-split_on c (d ∷ t) =
    let (first, rest, same) = some_piece c t in
    let joined : join_with c (split_on c t) ≡ t = join_with-split_on c t in
    elim (Bool-cases (d == c)) [
      | inl cut ↦
          let e : c ≡ d = ground (arith, cut) in
          rw cut (
            ap (λ ps. join_with c ([] ∷ ps)) same
            ∙ ap (λ u. c ∷ u) (ap (join_with c) (sym same) ∙ joined)
            ∙ ap (λ x. x ∷ t) e)
      | inr goes_on ↦ rw goes_on (join_with_push c d (split_on c t) ∙ ap (λ u. d ∷ u) joined)
    ]

-- No piece holds the character.
pub pieces_without : (c : ℕ) (t : Text) → All (λ piece. has_char c piece ≡ false) (split_on c t)
unfolding split_on
pieces_without c [] = (refl, tt)
pieces_without c (d ∷ t) = elim (Bool-cases (d == c)) [
  | inl cut ↦ rw cut (refl, pieces_without c t)
  | inr goes_on ↦ rw goes_on (pushed c d (split_on c t) goes_on (pieces_without c t))
]
