-- ===== src/Backup/Mbox/Lines.antt =====
-- Lines, suffixes and separators of the mailbox files of backend/src/backup.
use lyra.Prelude.{
  ℕ, ◌≡◌, refl, ap, true, false, ◌||◌, some, [], ◌∷◌, ◌++◌, Text, codes, text_eq, text_eq_iff,
  text_eq_refl, starts_with, strip_prefix, length, length-append, Bool-cases, Option-cases, inl,
  inr, arith,
}
use lyra.Prelude.Split.{push_char, has_char}
use lyra.Backup.Mbox.{
  escape_line, or_whole, unescape_mbox_line, after_char, strip_suffix, lines_of, bare,
}

-- A line that is ended is the first of the lines.
pub lines_of_first :
    (line t : Text)
    → has_char 10 line ≡ false
    → lines_of (line ++ (10 ∷ t)) ≡ (line ++ (10 ∷ [])) ∷ lines_of t
unfolding lines_of push_char
lines_of_first [] t h = refl
lines_of_first (c ∷ line) t h = ground (arith, lines_of_first line t)

longer : (c s0 : ℕ) (t suffix : Text) → text_eq (c ∷ (t ++ (s0 ∷ suffix))) (s0 ∷ suffix) ≡ false
longer c s0 t suffix = elim (Bool-cases (text_eq (c ∷ (t ++ (s0 ∷ suffix))) (s0 ∷ suffix))) [
  | inl same ↦
      let e = ap length ((text_eq_iff (c ∷ (t ++ (s0 ∷ suffix))) (s0 ∷ suffix)).0 same) in
      absurd (omega (arith, length-append t (s0 ∷ suffix), e))
  | inr other ↦ other
]

pub strip_suffix-append :
    (t : Text) (s0 : ℕ) (suffix : Text) → strip_suffix (t ++ (s0 ∷ suffix)) (s0 ∷ suffix) ≡ some t
unfolding strip_suffix after_char
strip_suffix-append [] s0 suffix = rw (text_eq_refl (s0 ∷ suffix))
strip_suffix-append (c ∷ t) s0 suffix =
    rw (longer c s0 t suffix) (rw (strip_suffix-append t s0 suffix) refl)

-- What a suffix was taken from begins as what is left.
stripped_starts :
    (t suffix prefix : Text)
    → starts_with (or_whole t (strip_suffix t suffix)) prefix ≡ true
    → starts_with t prefix ≡ true
unfolding strip_suffix after_char starts_with
stripped_starts t suffix [] h = refl
stripped_starts [] suffix (d ∷ prefix) h = ground (arith, h)
stripped_starts (c ∷ t) suffix (d ∷ prefix) h = elim (Bool-cases (text_eq (c ∷ t) suffix)) [
  | inl whole ↦ absurd (let impossible : ⊥ = ground (arith, h, whole) in impossible)
  | inr part ↦ elim (Option-cases (strip_suffix t suffix)) [
    | inl kept ↦ ground (arith, h, part, kept)
    | inr (s, cut) ↦ ground (arith, h, part, cut, stripped_starts t suffix prefix)
  ]
]

pub bare_starts :
    (line prefix : Text) → starts_with (bare line) prefix ≡ true → starts_with line prefix ≡ true
unfolding bare
bare_starts line prefix h =
    stripped_starts line (10 ∷ []) prefix
      (stripped_starts (or_whole line (strip_suffix line (10 ∷ []))) (13 ∷ []) prefix h)

-- A line that ends in CRLF, without it.
pub bare_ended : (t : Text) → bare ((t ++ (13 ∷ [])) ++ (10 ∷ [])) ≡ t
unfolding bare
bare_ended t =
    rw (strip_suffix-append (t ++ (13 ∷ [])) 10 []) (rw (strip_suffix-append t 13 []) refl)

abbrev pub from_ : Text
from_ = codes "From "

-- What follows a line does not make it begin with `From `.
no_from :
    (t prefix more : Text) (c : ℕ)
    → has_char c prefix ≡ false
    → starts_with (t ++ (c ∷ more)) prefix ≡ true
    → starts_with t prefix ≡ true
unfolding starts_with
no_from t [] more c h k = refl
no_from [] (d ∷ prefix) more c h k = ground (arith, h, k)
no_from (x ∷ t) (d ∷ prefix) more c h k = ground (arith, h, k, no_from t prefix more c)

not_escaped : (line : Text) → starts_with (escape_line line) from_ ≡ true → ⊥
unfolding escape_line starts_with
not_escaped line h =
    elim (Bool-cases (starts_with line (codes "From ") || starts_with line (codes ">"))) [
      | inl marked ↦ ground (arith, h, marked)
      | inr plain ↦ ground (arith, h, plain)
    ]

-- An escaped line is no separator, whatever ends it.
pub escaped_no_separator :
    (line more : Text) (c : ℕ)
    → has_char c from_ ≡ false
    → starts_with (bare (escape_line line ++ (c ∷ more))) from_ ≡ false
unfolding escape_line
escaped_no_separator line more c h =
    elim (Bool-cases (starts_with (bare (escape_line line ++ (c ∷ more))) from_)) [
      | inl cut ↦
          let begins =
            no_from (escape_line line) from_ more c h
              (bare_starts (escape_line line ++ (c ∷ more)) from_ cut) in
          absurd (not_escaped line begins)
      | inr other ↦ other
    ]

pub unescape-escape : (line : Text) → unescape_mbox_line (escape_line line) ≡ line
unfolding unescape_mbox_line escape_line strip_prefix starts_with
unescape-escape [] = refl
unescape-escape (c ∷ line) = ground arith

pub escape_without :
    (line : Text) → has_char 10 line ≡ false → has_char 10 (escape_line line) ≡ false
unfolding escape_line
escape_without line h =
    elim (Bool-cases (starts_with line (codes "From ") || starts_with line (codes ">"))) [
      | inl marked ↦ rw marked (ground (arith, h))
      | inr plain ↦ rw plain h
    ]
