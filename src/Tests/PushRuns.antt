-- ===== src/Tests/PushRuns.antt =====
-- The push diff, run with a reader for which a sender column is no JSON.
use lyra.Prelude.{
  ◌≡◌, refl, true, none, some, List, [], ◌∷◌, ◌++◌, map, Text, codes, text_eq, contains, all, not,
}
use lyra.Prelude.Trim.{trim, trim_matches, trim_start_matches, trim_end_matches}
use lyra.Push.{
  MessageResponse, Address, other, is_incoming, identity, at_last_lt, before_gt,
  display_from_address, sender_label, incoming, is_fresh, diff_new_messages,
}
use lyra.Push.Baseline.{diff, diff_again, moved_up_is_fresh}

unfoldable push_run : Unit {0}
unfolding text_eq contains trim trim_matches trim_start_matches trim_end_matches is_incoming
    identity at_last_lt before_gt display_from_address sender_label is_fresh diff_new_messages
push_run = tt

abbrev read : Text → Address
read _ = other

abbrev message : Text → MessageResponse
message id = record {
  id = id;
  folder_id = codes "f";
  folder_role = some (codes "inbox");
  thread_id = none;
  message_id_header = none;
  from_address = some (codes "a@b.example");
  subject = none;
}

-- Fourteen messages below the newest.
abbrev middle : List MessageResponse
middle = map message (
    codes "2"
    ∷ codes "3"
    ∷ codes "4"
    ∷ codes "5"
    ∷ codes "6"
    ∷ codes "7"
    ∷ codes "8"
    ∷ codes "9"
    ∷ codes "10"
    ∷ codes "11"
    ∷ codes "12"
    ∷ codes "13"
    ∷ codes "14"
    ∷ codes "15"
    ∷ [])

abbrev before : List MessageResponse
before = message (codes "1") ∷ middle ++ message (codes "16") ∷ []

-- The newest message is deleted.
abbrev after : List MessageResponse
after = middle ++ message (codes "16") ∷ []

names :
    (display_from_address (codes "Ada <ada@b.example>") ≡ codes "Ada")
    × (display_from_address (codes "<ada@b.example>") ≡ codes "ada@b.example")
    × (display_from_address (codes "ada@b.example") ≡ codes "ada@b.example")
unfolding push_run
names = (refl, refl, refl)

window_before : incoming read before ≡ message (codes "1") ∷ middle
unfolding push_run
window_before = refl

window_after : incoming read after ≡ middle ++ message (codes "16") ∷ []
unfolding push_run
window_after = refl

-- With the newest message gone, the 16th is reported, and none of those before.
diff_again_example :
    (all
        (λ c. not (contains (map identity (incoming read before)) c.identity))
        (diff read [] [] after (diff read [] [] before (codes "2" ∷ [])).new_baseline).fresh
      ≡ true)
    × ((diff read [] [] before (diff read [] [] before (codes "2" ∷ [])).new_baseline).fresh ≡ [])
diff_again_example = diff_again read [] [] before after (codes "2" ∷ [])

unknown :
    is_fresh read (map identity (message (codes "1") ∷ middle)) [] [] (message (codes "16")) ≡ true
unfolding push_run
unknown = refl

moved_up_is_fresh_example :
    map (λ c. c.id) (diff read [] [] after (diff read [] [] before []).new_baseline).fresh
    ≡ codes "16" ∷ []
moved_up_is_fresh_example =
    moved_up_is_fresh read [] [] before after (message (codes "1")) middle (message (codes "16")) []
      window_before window_after unknown
