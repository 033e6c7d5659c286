-- ===== src/Backup/Mbox/RoundTrip.antt =====
-- A mailbox file that backend/src/backup/format.rs writes is read back by backend/src/backup/import.rs.
use lyra.Prelude.{
  ◌≡◌, refl, ap, sym, ◌∙◌, true, false, Option, none, some, List, [], ◌∷◌, ◌++◌, map, Text, codes,
  starts_with, All, arith,
}
use mathlib.Core.List.{append_assoc}
use lyra.Prelude.Int.{ℤ, pos, negsuc}
use lyra.Prelude.Decimal.{show_i64, show_ℕ, show_ℕ-IsDigit, IsDigit}
use lyra.Prelude.Split.{has_char}
use lyra.Backup.Mbox.{
  write_mbox_message, mbox_from_addr, lines_of, bare, flush, split_lines, split_mbox, recover_raw,
}
use lyra.Backup.Mbox.Lines.{lines_of_first, bare_ended, from_}
use lyra.Backup.Mbox.Escaped.{
  without-append, crlf, escaped, split_lines-escaped, recover_raw-escaped,
}

pub record Entry : Type 0 where
  pub address : Option Text
  pub epoch : ℤ
  pub raw : Text

-- What the export of a folder writes.
unfoldable pub mbox_of : List Entry → Text
mbox_of [] = []
mbox_of (e ∷ entries) =
    write_mbox_message (mbox_from_addr e.address) e.epoch e.raw ++ mbox_of entries

digits_without : (t : Text) → All IsDigit t → has_char 10 t ≡ false
digits_without [] h = refl
digits_without (c ∷ t) (d, h) = ground (arith, d, digits_without t h)

show_i64_without : (z : ℤ) → has_char 10 (show_i64 z) ≡ false
unfolding show_i64
show_i64_without (pos n) = digits_without (show_ℕ n) (show_ℕ-IsDigit n)
show_i64_without (negsuc n) = digits_without (show_ℕ _) (show_ℕ-IsDigit _)

address_without : (o : Option Text) → has_char 10 (mbox_from_addr o) ≡ false
unfolding mbox_from_addr
address_without none = refl
address_without (some e) = ground arith

abbrev header : Text → ℤ → Text
header addr epoch = from_ ++ (addr ++ (codes " " ++ show_i64 epoch))

header_without : (o : Option Text) (z : ℤ) → has_char 10 (header (mbox_from_addr o) z) ≡ false
header_without o z = without-append from_ (mbox_from_addr o ++ (codes " " ++ show_i64 z)) refl (
    without-append (mbox_from_addr o) (codes " " ++ show_i64 z) (address_without o)
      (without-append (codes " ") (show_i64 z) refl (show_i64_without z)))

-- The chunk that a message is cut out as.
abbrev chunk_of : Entry → Text
chunk_of e = escaped e.raw ++ crlf

abbrev header_line : Entry → Text
header_line e = (header (mbox_from_addr e.address) e.epoch ++ (13 ∷ [])) ++ (10 ∷ [])

split_lines-header :
    (open_body : Option Text) (line : Text) (more : List Text)
    → starts_with (bare line) from_ ≡ true
    → split_lines open_body (line ∷ more) ≡ flush open_body (split_lines (some []) more)
unfolding split_lines
split_lines-header open_body line more h = rw h

message_text :
    (addr : Text) (z : ℤ) (raw rest : Text)
    → write_mbox_message addr z raw ++ rest
      ≡ header addr z ++ (13 ∷ 10 ∷ (escaped raw ++ (13 ∷ 10 ∷ rest)))
unfolding write_mbox_message
message_text addr z raw rest = simp append_assoc

lines_of-message :
    (e : Entry) (rest : Text)
    → lines_of (write_mbox_message (mbox_from_addr e.address) e.epoch e.raw ++ rest)
      ≡ header_line e ∷ lines_of (escaped e.raw ++ (13 ∷ 10 ∷ rest))
lines_of-message e rest =
    let h = header (mbox_from_addr e.address) e.epoch in
    let body = escaped e.raw ++ (13 ∷ 10 ∷ rest) in
    ap lines_of (message_text (mbox_from_addr e.address) e.epoch e.raw rest)
    ∙ ap lines_of (sym (append_assoc h (13 ∷ []) (10 ∷ body)))
    ∙ lines_of_first (h ++ (13 ∷ [])) body
        (without-append h (13 ∷ []) (header_without e.address e.epoch) refl)

separator : (e : Entry) → starts_with (bare (header_line e)) from_ ≡ true
unfolding starts_with
separator e = rw (bare_ended (header (mbox_from_addr e.address) e.epoch)) refl

split_lines-message :
    (open_body : Option Text) (e : Entry) (more : Text)
    → split_lines open_body
        (lines_of (write_mbox_message (mbox_from_addr e.address) e.epoch e.raw ++ more))
      ≡ flush open_body (split_lines (some (chunk_of e)) (lines_of more))
split_lines-message open_body e more =
    ap (split_lines open_body) (lines_of-message e more)
    ∙ split_lines-header open_body (header_line e) (lines_of (escaped e.raw ++ (13 ∷ 10 ∷ more)))
        (separator e)
    ∙ ap (flush open_body) (split_lines-escaped e.raw more)

flush-some :
    (body : Text) (rest more : List Text) → rest ≡ more → flush (some body) rest ≡ body ∷ more
unfolding flush
flush-some body rest more h = ap (λ ls. body ∷ ls) h

split_lines-mbox_of :
    (body : Text) (entries : List Entry)
    → split_lines (some body) (lines_of (mbox_of entries)) ≡ body ∷ map chunk_of entries
unfolding mbox_of
split_lines-mbox_of body [] = unfold split_lines lines_of flush in refl
split_lines-mbox_of body (e ∷ entries) =
    split_lines-message (some body) e (mbox_of entries)
    ∙ flush-some body (split_lines (some (chunk_of e)) (lines_of (mbox_of entries)))
        (map chunk_of (e ∷ entries)) (split_lines-mbox_of (chunk_of e) entries)

split_mbox-mbox_of : (entries : List Entry) → split_mbox (mbox_of entries) ≡ map chunk_of entries
unfolding split_mbox mbox_of
split_mbox-mbox_of [] = unfold split_lines lines_of flush in refl
split_mbox-mbox_of (e ∷ entries) =
    split_lines-message none e (mbox_of entries)
    ∙ unfold flush in split_lines-mbox_of (chunk_of e) entries

recovered :
    (entries : List Entry) → map recover_raw (map chunk_of entries) ≡ map (λ e. e.raw) entries
recovered [] = refl
recovered (e ∷ entries) =
    rw (recover_raw-escaped e.raw) (ap (λ rest. e.raw ∷ rest) (recovered entries))

-- The import cuts the mailbox that the export writes into as many messages as were written, in their
-- order, and recovers the bytes of each as they were, whatever they are: also lines that begin with
-- `From ` or with `>`, and texts without a line end. It holds for any sender, since what is no address
-- or has a line end is replaced.
pub mbox_round_trip :
    (entries : List Entry)
    → map recover_raw (split_mbox (mbox_of entries)) ≡ map (λ e. e.raw) entries
mbox_round_trip entries = ap (map recover_raw) (split_mbox-mbox_of entries) ∙ recovered entries
