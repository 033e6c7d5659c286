-- ===== src/Tests/SpamRuns.antt =====
-- Spam verdicts, run with the lower-case mapping of ASCII.
use lyra.Prelude.{
  ◌+◌, ◌≡◌, refl, true, false, ◌&&◌, some, [], ◌∷◌, ◌++◌, map, Text, codes, text_eq, starts_with,
  strip_prefix, leb, if◌then◌else◌,
}
use lyra.Prelude.Trim.{trim, trim_matches, trim_start_matches, trim_end_matches}
use lyra.Spam.{
  threshold, SpamSettings, default_settings, SenderEntry, allowed, blocked, SpamEnvelope, listed,
  scored, clean, is_spam, has_part, ends_with, after_last_at, shouting, exclaiming, heuristic_score,
  sender_matches, is_listed, spam_verdict,
}
use lyra.Spam.Verdicts.{allowed_never_spam}

unfoldable spam_run : Unit {0}
unfolding text_eq starts_with strip_prefix trim trim_matches trim_start_matches trim_end_matches
    threshold is_spam has_part ends_with after_last_at shouting exclaiming heuristic_score
    sender_matches is_listed spam_verdict
spam_run = tt

abbrev lower : Text → Text
lower = map (λ c. if leb 65 c && leb c 90 then c + 32 else c)

abbrev mail : SpamEnvelope
mail = record {
  from_email = some (codes "Win@mail.casino.example");
  from_name = some (codes "Casino");
  subject = some (codes "CLAIM YOUR PRIZE NOW!!!");
}

abbrev on : SpamSettings
on = record default_settings { enabled = true }

abbrev allow : SenderEntry
allow = record { email = codes "casino.example"; list = allowed }

abbrev block : SenderEntry
block = record { email = codes "@mail.casino.example"; list = blocked }

verdicts :
    (spam_verdict lower mail on [] ≡ scored 4)
    × (spam_verdict lower mail default_settings [] ≡ clean)
    × (spam_verdict lower mail default_settings (block ∷ []) ≡ listed blocked)
    × (spam_verdict lower mail on (block ∷ allow ∷ []) ≡ listed allowed)
    × (sender_matches lower (codes "@casino.example") (codes "win@evilcasino.example") ≡ false)
unfolding spam_run
verdicts = (refl, refl, refl, refl, refl)

matches : is_listed lower allowed (codes "Win@mail.casino.example") allow ≡ true
unfolding spam_run
matches = refl

allowed_never_spam_example :
    is_spam (spam_verdict lower mail on ((block ∷ []) ++ allow ∷ [])) ≡ false
allowed_never_spam_example = allowed_never_spam lower mail on (block ∷ []) [] allow matches
