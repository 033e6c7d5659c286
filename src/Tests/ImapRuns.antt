-- ===== src/Tests/ImapRuns.antt =====
-- The texts of IMAP commands, on the inputs of the unit tests.
use lyra.Prelude.{◌≡◌, ◌++◌, true, refl, some, none, [], ◌∷◌, codes, text_eq, starts_with}
use lyra.Prelude.Trim.{trim, trim_matches, trim_start_matches, trim_end_matches}
use lyra.Prelude.Decimal.{show_ℕ}
use lyra.Imap.{
  imap_quoted, parenthesize_fetch_atts, role_to_specialuse, format_uid_set, uid_ranges, sort,
  dedup_from, ranges_from, show_range, join,
}
use lyra.Imap.Quoted.{read_quoted, read_quoted-imap_quoted}
use lyra.Imap.UidSet.{named, format_uid_set_lem}

uid_sets :
    (format_uid_set (1 ∷ 2 ∷ 3 ∷ 7 ∷ 8 ∷ 10 ∷ []) ≡ some (codes "1:3,7:8,10"))
    × (format_uid_set (5 ∷ 3 ∷ 1 ∷ 3 ∷ 5 ∷ []) ≡ some (codes "1,3,5"))
    × (format_uid_set (42 ∷ []) ≡ some (codes "42"))
unfolding format_uid_set uid_ranges sort dedup_from ranges_from show_range join show_ℕ
uid_sets = (refl, refl, refl)

format_uid_set_lem_example : named 8 (format_uid_set (10 ∷ 8 ∷ 7 ∷ 8 ∷ [])) ≡ true
format_uid_set_lem_example = format_uid_set_lem 8 (10 ∷ 8 ∷ 7 ∷ 8 ∷ [])

quotes :
    (imap_quoted (codes "\\Sent") ≡ codes "\"\\\\Sent\"")
    × (imap_quoted (codes "a\"b") ≡ codes "\"a\\\"b\"")
unfolding imap_quoted
quotes = (refl, refl)

read_quoted-imap_quoted_example :
    read_quoted (imap_quoted (codes "a\"b") ++ codes " (x") ≡ some (codes "a\"b", codes " (x")
read_quoted-imap_quoted_example = read_quoted-imap_quoted (codes "a\"b") (codes " (x") refl

commands :
    (parenthesize_fetch_atts (codes " UID FLAGS ") ≡ codes "(UID FLAGS)")
    × (parenthesize_fetch_atts (codes "(UID FLAGS)") ≡ codes "(UID FLAGS)")
    × (role_to_specialuse (codes "spam") ≡ some (codes "\\Junk"))
    × (role_to_specialuse (codes "inbox") ≡ none)
unfolding parenthesize_fetch_atts role_to_specialuse trim trim_matches trim_start_matches
    trim_end_matches starts_with text_eq
commands = (refl, refl, refl, refl)
