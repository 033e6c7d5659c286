-- ===== src/Backup/Mbox.antt =====
-- The mailbox files of a backup: written by backend/src/backup/format.rs for the export, cut into
-- messages again by backend/src/backup/import.rs. Bytes are numbers, and an address stands for the bytes
-- of its UTF-8.
pub mod Lines
pub mod Escaped
pub mod RoundTrip
use lyra.Prelude.{
  ℕ, Bool, true, false, ◌&&◌, ◌||◌, not, Option, none, some, List, [], ◌∷◌, ◌++◌, map, Text, codes,
  text_eq, starts_with, strip_prefix, ◌==◌, if◌then◌else◌,
}
use lyra.Prelude.Int.{ℤ}
use lyra.Prelude.Decimal.{show_i64}
use lyra.Prelude.Split.{split_on, join_with, push_char, has_char}

unfoldable pub escape_line : Text → Text
escape_line line =
    if starts_with line (codes "From ") || starts_with line (codes ">") then 62 ∷ line else line

-- `out` grows by this text.
unfoldable pub write_mbox_message : Text → ℤ → Text → Text
write_mbox_message from_addr epoch raw =
    codes "From "
    ++ (from_addr
        ++ (codes " "
            ++ (show_i64 epoch
                ++ (codes "\r\n"
                    ++ (join_with 10 (map escape_line (split_on 10 raw)) ++ codes "\r\n")))))

unknown_addr : Text
unknown_addr = codes "unknown@localhost"

-- From the bare email of the first address, if there is one.
unfoldable pub mbox_from_addr : Option Text → Text
unfolding unknown_addr
mbox_from_addr none = unknown_addr
mbox_from_addr (some e) =
    if has_char 64 e && not (has_char 13 e || has_char 10 e) then e else unknown_addr

abbrev or_whole : Text → Option Text → Text
or_whole whole none = whole
or_whole whole (some rest) = rest

unfoldable pub unescape_mbox_line : Text → Text
unescape_mbox_line line = or_whole line (strip_prefix line (codes ">"))

after_char : ℕ → Option Text → Option Text
after_char c none = none
after_char c (some t) = some (c ∷ t)

-- `text.strip_suffix(suffix)`
unfoldable pub strip_suffix : Text → Text → Option Text
unfolding after_char
strip_suffix [] suffix = if text_eq [] suffix then some [] else none
strip_suffix (c ∷ text) suffix =
    if text_eq (c ∷ text) suffix then some [] else after_char c (strip_suffix text suffix)

-- The lines of a text, each with the newline that ends it.
unfoldable pub lines_of : Text → List Text
unfolding push_char
lines_of [] = []
lines_of (c ∷ t) = let rest = lines_of t in if c == 10 then (c ∷ []) ∷ rest else push_char c rest

-- A line without its newline and without a carriage return before it.
unfoldable pub bare : Text → Text
bare line =
    let ended = or_whole line (strip_suffix line (10 ∷ [])) in
    or_whole ended (strip_suffix ended (13 ∷ []))

-- What an open message leaves where it ends, and how it goes on with a line.
flush : Option Text → List Text → List Text
flush none rest = rest
flush (some body) rest = body ∷ rest

extend : Option Text → Text → Option Text
extend none line = none
extend (some body) line = some (body ++ line)

-- The loop over the lines, with the body of the message that is open.
unfoldable pub split_lines : Option Text → List Text → List Text
unfolding flush extend
split_lines open_body [] = flush open_body []
split_lines open_body (line ∷ lines) =
    let next = flush open_body (split_lines (some []) lines) in
    let same = split_lines (extend open_body line) lines in
    if starts_with (bare line) (codes "From ") then next else same

unfoldable pub split_mbox : Text → List Text
split_mbox mbox = split_lines none (lines_of mbox)

unfoldable pub recover_raw : Text → Text
recover_raw chunk =
    join_with 10
      (map unescape_mbox_line (split_on 10 (or_whole chunk (strip_suffix chunk (13 ∷ 10 ∷ [])))))
