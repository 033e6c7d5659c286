-- ===== src/Spam/Verdicts.antt =====
-- What a verdict of backend/src/spam.rs depends on.
use lyra.Prelude.{◌≤◌, ◌≡◌, refl, Bool, true, false, ◌||◌, List, [], ◌∷◌, ◌++◌, Text, any, arith}
use lyra.Spam.{
  Sensitivity, threshold, SpamSettings, SenderEntry, allowed, blocked, SpamEnvelope, is_spam,
  shouting, exclaiming, heuristic_score, is_listed, spam_verdict, or_default,
}

any-append {ℓ} :
    {A : Type ℓ} (p : A → Bool) (xs ys : List A) → any p (xs ++ ys) ≡ (any p xs || any p ys)
any-append p [] ys = refl
any-append p (x ∷ xs) ys = ground (arith, any-append p xs ys)

-- `settings` with another sensitivity.
abbrev pub at_sensitivity : SpamSettings → Sensitivity → SpamSettings
at_sensitivity settings s = record settings { sensitivity = s }

module _ (lower : Text → Text) where
  -- The score is at most 5, so that its 8 bits never overflow.
  pub heuristic_score_le : (env : SpamEnvelope) → heuristic_score lower env ≤ 5
  unfolding heuristic_score shouting exclaiming
  heuristic_score_le env = ground arith

  -- The order of the sender lists does not matter: two parts of the list can be exchanged.
  pub spam_verdict_order :
      (env : SpamEnvelope) (settings : SpamSettings) (xs ys : List SenderEntry)
      → spam_verdict lower env settings (xs ++ ys) ≡ spam_verdict lower env settings (ys ++ xs)
  unfolding spam_verdict
  spam_verdict_order env settings xs ys =
      let from = or_default env.from_email in
      let a = is_listed lower allowed from in
      let b = is_listed lower blocked from in
      ground (arith, any-append a xs ys, any-append a ys xs, any-append b xs ys, any-append b ys xs)

  -- A higher sensitivity never lets through what a lower one finds to be spam.
  pub spam_verdict_sensitivity :
      (env : SpamEnvelope) (settings : SpamSettings) (s t : Sensitivity)
      (senders : List SenderEntry)
      → threshold t ≤ threshold s
      → is_spam (spam_verdict lower env (at_sensitivity settings s) senders) ≡ true
      → is_spam (spam_verdict lower env (at_sensitivity settings t) senders) ≡ true
  unfolding spam_verdict is_spam
  spam_verdict_sensitivity env settings s t senders le h = ground (arith, le, h)

  -- An allowed sender's message is never spam, whatever else is listed and whatever it scores.
  pub allowed_never_spam :
      (env : SpamEnvelope) (settings : SpamSettings) (xs ys : List SenderEntry)
      (entry : SenderEntry)
      → is_listed lower allowed (or_default env.from_email) entry ≡ true
      → is_spam (spam_verdict lower env settings (xs ++ entry ∷ ys)) ≡ false
  unfolding spam_verdict is_spam
  allowed_never_spam env settings xs ys entry h =
      ground
        (arith, h, any-append (is_listed lower allowed (or_default env.from_email)) xs (entry ∷ ys))
