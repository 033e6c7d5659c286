-- ===== src/Tests/MboxRuns.antt =====
-- The mailbox of two messages, written and read back.
use lyra.Prelude.{◌≡◌, refl, some, none, [], ◌∷◌, List, codes, map}
use lyra.Prelude.Int.{pos, negsuc}
use lyra.Backup.Mbox.{split_mbox, recover_raw}
use lyra.Backup.Mbox.RoundTrip.{Entry, mbox_of, mbox_round_trip}

-- A body with a separator of its own and an escaped line; one without an address or a line end.
abbrev entries : List Entry
entries =
    record {
      address = some (codes "a@b.com");
      epoch = pos 1_700_000_000;
      raw = codes "From me\n>From you\r\nend";
    }
    ∷ record { address = none; epoch = negsuc 0; raw = [] }
    ∷ []

-- A carriage return and a newline are two bytes.
line_end_test : codes "\r\n" ≡ 13 ∷ 10 ∷ []
line_end_test = refl

mbox_round_trip_example :
    map recover_raw (split_mbox (mbox_of entries)) ≡ codes "From me\n>From you\r\nend" ∷ [] ∷ []
mbox_round_trip_example = mbox_round_trip entries
