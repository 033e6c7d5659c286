-- ===== src/Spam.antt =====
-- Spam verdicts: backend/src/spam.rs. `lower` is Unicode's lower-case mapping of a text. A score is
-- a native number; the source's has 8 bits.
pub mod Verdicts
use lyra.Prelude.{
  ℕ, suc, ◌+◌, ◌*◌, min, Bool, true, false, ◌&&◌, ◌||◌, not, Option, none, some, List, [], ◌∷◌,
  ◌++◌, Text, codes, text_eq, starts_with, strip_prefix, any, filter, length, leb, ◌==◌,
  if◌then◌else◌,
}
use lyra.Prelude.Trim.{is_empty, trim}

pub data Sensitivity : Type 0 where
  lenient standard strict : Sensitivity

unfoldable pub threshold : Sensitivity → ℕ
threshold lenient = 3
threshold standard = 2
threshold strict = 1

pub record SpamSettings : Type 0 where
  pub enabled : Bool
  pub learn : Bool
  pub auto_delete : Bool
  pub sensitivity : Sensitivity

abbrev pub default_settings : SpamSettings
default_settings = record {
  enabled = false;
  learn = true;
  auto_delete = false;
  sensitivity = standard;
}

pub data SenderList : Type 0 where
  blocked allowed : SenderList

pub record SenderEntry : Type 0 where
  pub email : Text
  pub list : SenderList

pub record SpamEnvelope : Type 0 where
  pub from_email : Option Text
  pub from_name : Option Text
  pub subject : Option Text

pub data Verdict : Type 0 where
  listed : SenderList → Verdict
  scored : ℕ → Verdict
  clean : Verdict

unfoldable pub is_spam : Verdict → Bool
is_spam (listed blocked) = true
is_spam (listed allowed) = false
is_spam (scored n) = true
is_spam clean = false

abbrev pub bait_keywords : List Text
bait_keywords =
    codes "viagra"
    ∷ codes "casino"
    ∷ codes "lottery"
    ∷ codes "crypto bonus"
    ∷ codes "bitcoin earnings"
    ∷ codes "wire transfer urgently"
    ∷ codes "claim your prize"
    ∷ codes "winner notification"
    ∷ codes "limited time offer"
    ∷ codes "act now"
    ∷ codes "100% free"
    ∷ codes "make money fast"
    ∷ codes "work from home millionaire"
    ∷ codes "no credit check"
    ∷ codes "unsubscribe click here"
    ∷ codes "seo services guaranteed"
    ∷ codes "cheap meds"
    ∷ codes "代开发票"
    ∷ codes "中奖通知"
    ∷ codes "恭喜获得"
    ∷ codes "赌博"
    ∷ codes "贷款秒批"
    ∷ []

abbrev or_default : Option Text → Text
or_default none = []
or_default (some s) = s

-- `haystack.contains(needle)`
unfoldable pub has_part : Text → Text → Bool
has_part [] needle = starts_with [] needle
has_part (c ∷ t) needle = starts_with (c ∷ t) needle || has_part t needle

-- `text.ends_with(suffix)`
unfoldable pub ends_with : Text → Text → Bool
ends_with [] suffix = text_eq [] suffix
ends_with (c ∷ t) suffix = text_eq (c ∷ t) suffix || ends_with t suffix

-- `rsplit('@').next()`: what follows the last `@`, the whole text without one.
unfoldable pub after_last_at : Text → Text → Text
after_last_at found [] = found
after_last_at found (c ∷ t) = after_last_at (if c == 64 then t else found) t

abbrev is_ascii_uppercase : ℕ → Bool
is_ascii_uppercase c = leb 65 c && leb c 90

abbrev is_ascii_alphabetic : ℕ → Bool
is_ascii_alphabetic c = is_ascii_uppercase c || (leb 97 c && leb c 122)

-- The point for a shouting subject.
unfoldable pub shouting : Text → ℕ
shouting subject =
    let letters = filter is_ascii_alphabetic subject in
    if leb 8 (length letters)
      && leb (length letters * 8) (length (filter is_ascii_uppercase letters) * 10)
    then 1
    else 0

unfoldable pub exclaiming : Text → ℕ
exclaiming subject = if leb 3 (length (filter (λ c. c == 33) subject)) then 1 else 0

module _ (lower : Text → Text) where
  unfoldable pub heuristic_score : SpamEnvelope → ℕ
  heuristic_score env =
      let subject = or_default env.subject in
      let name = or_default env.from_name in
      let haystack = lower (subject ++ (32 ∷ name)) in
      min (length (filter (λ kw. has_part haystack kw) bait_keywords)) 3
      + shouting subject
      + exclaiming subject

  without_at : Text → Text
  without_at entry = elim (strip_prefix entry (codes "@")) [ none ↦ entry | some domain ↦ domain ]

  in_domain : Text → Text → Bool
  in_domain host domain = text_eq host domain || ends_with host (codes "." ++ domain)

  unfoldable pub sender_matches : Text → Text → Bool
  unfolding without_at in_domain
  sender_matches entry_email sender_email =
      let entry = lower (trim entry_email) in
      let sender = lower (trim sender_email) in
      if text_eq entry sender
      then true
      else if starts_with entry (codes "@") || not (any (λ c. c == 64) entry)
      then in_domain (after_last_at sender sender) (without_at entry)
      else false

  is_allowed : SenderList → Bool
  is_allowed allowed = true
  is_allowed blocked = false

  unfoldable pub is_listed : SenderList → Text → SenderEntry → Bool
  unfolding is_allowed
  is_listed allowed from s = is_allowed s.list && sender_matches s.email from
  is_listed blocked from s = not (is_allowed s.list) && sender_matches s.email from

  unfoldable pub spam_verdict : SpamEnvelope → SpamSettings → List SenderEntry → Verdict
  spam_verdict env settings senders =
      let from = or_default env.from_email in
      if is_empty from
      then clean
      else if any (is_listed allowed from) senders
      then listed allowed
      else if any (is_listed blocked from) senders
      then listed blocked
      else if not settings.enabled
      then clean
      else if leb (threshold settings.sensitivity) (heuristic_score env)
      then scored (heuristic_score env)
      else clean
