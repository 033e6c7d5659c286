-- ===== src/Imap/Quoted.antt =====
-- A server's reading of what `imap_quoted` of backend/src/imap.rs writes.
use lyra.Prelude.{
  ℕ, ◌≡◌, ◌∙◌, refl, ap, Bool, true, false, ◌||◌, not, Option, none, some, [], ◌∷◌, ◌++◌, all, Text,
  arith, ◌==◌, if◌then◌else◌, inl, inr, Bool-cases,
}
use lyra.Imap.{imap_quoted, quoted}

-- RFC 3501's TEXT-CHAR, with 8-bit characters.
abbrev pub is_text_char : ℕ → Bool
is_text_char c = not (c == 0 || c == 10 || c == 13)

abbrev then_cons : ℕ → Option (Text × Text) → Option (Text × Text)
then_cons c none = none
then_cons c (some (s, rest)) = some (c ∷ s, rest)

-- A server's reading of a quoted string behind its opening quote: an escape is of a backslash or a
-- quote, and a line's end does not belong in it.
read_chars : Text → Option (Text × Text)
read_chars [] = none
read_chars (c ∷ []) = if c == 34 then some ([], []) else none
read_chars (c ∷ d ∷ t) =
    let escaped = then_cons d (read_chars t) in
    let plain = then_cons c (read_chars (d ∷ t)) in
    if c == 34
    then some ([], d ∷ t)
    else if c == 92
    then (if d == 92 || d == 34 then escaped else none)
    else if is_text_char c
    then plain
    else none

unfoldable pub read_quoted : Text → Option (Text × Text)
unfolding read_chars
read_quoted [] = none
read_quoted (c ∷ t) = if c == 34 then read_chars t else none

read_plain :
    (c : ℕ) (t : Text)
    → c == 34 ≡ false
    → c == 92 ≡ false
    → is_text_char c ≡ true
    → read_chars (c ∷ t) ≡ then_cons c (read_chars t)
unfolding read_chars
read_plain c [] a b h = ground (arith, a)
read_plain c (d ∷ t) a b h = ground (arith, a, b, h)

read_close : (t : Text) → read_chars (34 ∷ t) ≡ some ([], t)
unfolding read_chars
read_close [] = refl
read_close (d ∷ t) = refl

read_escaped :
    (c : ℕ) (t : Text)
    → (c == 92 || c == 34) ≡ true
    → read_chars (92 ∷ c ∷ t) ≡ then_cons c (read_chars t)
unfolding read_chars
read_escaped c t h = ground (arith, h)

read_chars-quoted :
    (s rest : Text) → all is_text_char s ≡ true → read_chars (quoted s ++ rest) ≡ some (s, rest)
unfolding quoted
read_chars-quoted [] rest h = read_close rest
read_chars-quoted (c ∷ s) rest h = elim (Bool-cases (c == 92 || c == 34)) [
  | inl special ↦ rw special (
      read_escaped c (quoted s ++ rest) special
      ∙ ap (then_cons c) (read_chars-quoted s rest (ground (arith, h))))
  | inr plain ↦ rw plain (
      read_plain c (quoted s ++ rest) (ground (arith, plain)) (ground (arith, plain))
        (ground (arith, h))
      ∙ ap (then_cons c) (read_chars-quoted s rest (ground (arith, h))))
]

-- A quoted text without line ends and NUL is read back by a server, whatever follows it.
pub read_quoted-imap_quoted :
    (s rest : Text)
    → all is_text_char s ≡ true
    → read_quoted (imap_quoted s ++ rest) ≡ some (s, rest)
unfolding read_quoted imap_quoted
read_quoted-imap_quoted s rest h = read_chars-quoted s rest h
