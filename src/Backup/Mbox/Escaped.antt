-- ===== src/Backup/Mbox/Escaped.antt =====
-- The lines of an escaped message in a mailbox of backend/src/backup: none is a separator, and the
-- escapes come off again.
use lyra.Prelude.{
  ◌≡◌, refl, ap, sym, subst, ◌∙◌, false, some, List, [], ◌∷◌, ◌++◌, map, Text, starts_with, All,
  arith,
}
use mathlib.Core.List.{append_assoc, append-nil}
use lyra.Prelude.Split.{
  split_on, join_with, has_char, join_with-split_on, pieces_without, split_on-join_with, some_piece,
}
use lyra.Backup.Mbox.{
  escape_line, unescape_mbox_line, lines_of, bare, extend, split_lines, recover_raw,
}
use lyra.Backup.Mbox.Lines.{
  lines_of_first, strip_suffix-append, from_, escaped_no_separator, unescape-escape, escape_without,
}

pub without-append :
    (s t : Text) → has_char 10 s ≡ false → has_char 10 t ≡ false → has_char 10 (s ++ t) ≡ false
without-append [] t h k = k
without-append (c ∷ s) t h k = ground (arith, h, k, without-append s t)

abbrev pub crlf : Text
crlf = 13 ∷ 10 ∷ []

abbrev pub escaped : Text → Text
escaped raw = join_with 10 (map escape_line (split_on 10 raw))

-- The lines of an escaped message with its end.
body_lines : List Text → List Text
body_lines [] = []
body_lines (t ∷ []) = (t ++ crlf) ∷ []
body_lines (t ∷ u ∷ ts) = (t ++ (10 ∷ [])) ∷ body_lines (u ∷ ts)

flatten : List Text → Text
flatten [] = []
flatten (l ∷ ls) = l ++ flatten ls

abbrev Whole : List Text → Type 0
Whole ts = All (λ t. has_char 10 t ≡ false) ts

lines_of_body :
    (t : Text) (ts : List Text) (rest : Text)
    → Whole (t ∷ ts)
    → lines_of (join_with 10 (t ∷ ts) ++ (13 ∷ 10 ∷ rest)) ≡ body_lines (t ∷ ts) ++ lines_of rest
unfolding body_lines join_with
lines_of_body t [] rest (h, _) =
    ap lines_of (sym (append_assoc t (13 ∷ []) (10 ∷ rest)))
    ∙ lines_of_first (t ++ (13 ∷ [])) rest (without-append t (13 ∷ []) h refl)
    ∙ ap (λ l. l ∷ lines_of rest) (append_assoc t (13 ∷ []) (10 ∷ []))
lines_of_body t (u ∷ ts) rest (h, k) =
    ap lines_of (append_assoc t (10 ∷ join_with 10 (u ∷ ts)) (13 ∷ 10 ∷ rest))
    ∙ lines_of_first t (join_with 10 (u ∷ ts) ++ (13 ∷ 10 ∷ rest)) h
    ∙ ap (λ ls. (t ++ (10 ∷ [])) ∷ ls) (lines_of_body u ts rest k)

flatten-body_lines :
    (t : Text) (ts : List Text) → flatten (body_lines (t ∷ ts)) ≡ join_with 10 (t ∷ ts) ++ crlf
unfolding flatten body_lines join_with
flatten-body_lines t [] = append-nil (t ++ crlf)
flatten-body_lines t (u ∷ ts) =
    append_assoc t (10 ∷ []) (flatten (body_lines (u ∷ ts)))
    ∙ ap (λ r. t ++ (10 ∷ r)) (flatten-body_lines u ts)
    ∙ sym (append_assoc t (10 ∷ join_with 10 (u ∷ ts)) crlf)

abbrev NoSeparator : Text → Type 0
NoSeparator line = starts_with (bare line) from_ ≡ false

NoSeparator-body :
    (t : Text) (ts : List Text) → All NoSeparator (body_lines (map escape_line (t ∷ ts)))
unfolding body_lines
NoSeparator-body t [] = (escaped_no_separator t (10 ∷ []) 13 refl, tt)
NoSeparator-body t (u ∷ ts) = (escaped_no_separator t [] 10 refl, NoSeparator-body u ts)

-- Lines that are no separators join the open message.
split_lines-body :
    (body : Text) (ls more : List Text)
    → All NoSeparator ls
    → split_lines (some body) (ls ++ more) ≡ split_lines (some (body ++ flatten ls)) more
unfolding flatten
split_lines-body body [] more h = ap (λ b. split_lines (some b) more) (sym (append-nil body))
split_lines-body body (l ∷ ls) more (h, k) =
    let joined : split_lines (some body) (l ∷ (ls ++ more))
        ≡ split_lines (some (body ++ l)) (ls ++ more) =
      unfold split_lines extend in rw h in
    joined
    ∙ split_lines-body (body ++ l) ls more k
    ∙ ap (λ b. split_lines (some b) more) (append_assoc body l (flatten ls))

Whole-escaped : (ts : List Text) → Whole ts → Whole (map escape_line ts)
Whole-escaped [] h = tt
Whole-escaped (t ∷ ts) (h, k) = (escape_without t h, Whole-escaped ts k)

split_lines-pieces :
    (t : Text) (ts : List Text) (more : Text)
    → Whole (t ∷ ts)
    → split_lines (some []) (lines_of (join_with 10 (map escape_line (t ∷ ts)) ++ (13 ∷ 10 ∷ more)))
      ≡ split_lines (some (join_with 10 (map escape_line (t ∷ ts)) ++ crlf)) (lines_of more)
split_lines-pieces t ts more h =
    ap (split_lines (some []))
      (lines_of_body (escape_line t) (map escape_line ts) more (Whole-escaped (t ∷ ts) h))
    ∙ split_lines-body [] (body_lines (map escape_line (t ∷ ts))) (lines_of more)
        (NoSeparator-body t ts)
    ∙ ap (λ b. split_lines (some b) (lines_of more))
        (flatten-body_lines (escape_line t) (map escape_line ts))

pub split_lines-escaped :
    (raw more : Text)
    → split_lines (some []) (lines_of (escaped raw ++ (13 ∷ 10 ∷ more)))
      ≡ split_lines (some (escaped raw ++ crlf)) (lines_of more)
split_lines-escaped raw more =
    let (first, rest, same) = some_piece 10 raw in
    subst
      (λ ps.
        split_lines (some []) (lines_of (join_with 10 (map escape_line ps) ++ (13 ∷ 10 ∷ more)))
        ≡ split_lines (some (join_with 10 (map escape_line ps) ++ crlf)) (lines_of more))
      (sym same) (split_lines-pieces first rest more (subst Whole same (pieces_without 10 raw)))

unescaped : (ts : List Text) → map unescape_mbox_line (map escape_line ts) ≡ ts
unescaped [] = refl
unescaped (t ∷ ts) = rw (unescape-escape t) (ap (λ rest. t ∷ rest) (unescaped ts))

split_on-escaped : (raw : Text) → split_on 10 (escaped raw) ≡ map escape_line (split_on 10 raw)
split_on-escaped raw =
    let (first, rest, same) = some_piece 10 raw in
    subst (λ ps. split_on 10 (join_with 10 (map escape_line ps)) ≡ map escape_line ps) (sym same)
      (split_on-join_with 10 (escape_line first) (map escape_line rest)
        (Whole-escaped (first ∷ rest) (subst Whole same (pieces_without 10 raw))))

pub recover_raw-escaped : (raw : Text) → recover_raw (escaped raw ++ crlf) ≡ raw
unfolding recover_raw
recover_raw-escaped raw = rw (strip_suffix-append (escaped raw) 13 (10 ∷ [])) (
    ap (λ ps. join_with 10 (map unescape_mbox_line ps)) (split_on-escaped raw)
    ∙ ap (join_with 10) (unescaped (split_on 10 raw))
    ∙ join_with-split_on 10 raw)
