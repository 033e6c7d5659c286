-- ===== src/Auth/Totp/Replay.antt =====
-- The replay guard of `verify_totp_code` (backend/src/auth/handlers.rs) and the window in which a
-- code matches.
use lyra.Prelude.{
  ℕ, ◌+◌, ◌/◌, ◌≤◌, ◌<◌, ◌≡◌, refl, Bool, true, false, Option, none, some, Text, text_eq,
  text_eq_refl, codes, arith, inl, inr, Bool-cases, Option-cases, if◌then◌else◌,
}
use native.Mathlib.Nat.{le_refl}
use lyra.Prelude.Decimal.{show_ℕ, parse_u64-show_ℕ, u64_max}
use lyra.Prelude.Result.{Result, ok}
use lyra.Prelude.Exec.{then_fail}
use lyra.Kv.{KvStore, KvLaws, from_secs, lives}
use lyra.Auth.{AuthError, unauthorized, totp_rl_key, totp_step_key, totp_last_step_ttl_secs}
use lyra.Auth.RateLimit.{note_failed_attempt, clear_failed_attempts}
use lyra.Auth.Users.{UserData}
use lyra.Auth.Totp.{
  Totp, TotpServices, totp_step, as_secs, matched_totp_step, stored_step, is_replay, accept_step,
  settle_step, check_step, verify_totp_code,
}

-- A code matches only around its own half minute.
matched_near :
    (now : ℕ) (totp : Totp) (code : Text) (step : ℕ)
    → matched_totp_step now totp code ≡ some step
    → (step ≤ as_secs now / totp_step + 1) × (as_secs now / totp_step ≤ step + 1)
unfolding matched_totp_step
matched_near now totp code step h = ground (arith, h)

rl-step : (user_id : Text) → text_eq (totp_rl_key user_id) (totp_step_key user_id) ≡ false
unfolding totp_rl_key totp_step_key text_eq
rl-step user_id = refl

-- A step of a code that was accepted, and what is stored from then on.
module _ (kv : KvStore) (laws : KvLaws kv) (user_id : Text) where
  open kv use {Store}
  open laws use {peek}

  abbrev guard : Text
  guard = totp_step_key user_id

  abbrev accept : ℕ → ℕ → Store → Result AuthError Unit × Store
  accept now step s = accept_step kv now (totp_rl_key user_id) user_id step s

  settled :
      (now later step : ℕ) (replay : Bool) (s : Store)
      → now ≤ later
      → (settle_step kv now (totp_rl_key user_id) user_id step replay s).0 ≡ ok tt
      → (replay ≡ false)
        × (peek (settle_step kv now (totp_rl_key user_id) user_id step replay s).1 later guard
            ≡ (if lives now (some totp_last_step_ttl_secs) later then some (show_ℕ step) else none))
  unfolding settle_step clear_failed_attempts
  settled now later step true s h good = absurd (
      then_fail (note_failed_attempt kv now (totp_rl_key user_id) (codes "Verification failed"))
        (unauthorized (codes "TOTP code already used")) s tt good)
  settled now later step false s h good =
      let ttl = some totp_last_step_ttl_secs in
      let s1 = (kv.set now guard (show_ℕ step) ttl s).1 in
      ground (
        arith,
        rl-step user_id,
        text_eq_refl guard,
        laws.set_result now guard (show_ℕ step) ttl s,
        laws.set_peek now later guard (show_ℕ step) ttl guard s h,
        laws.del_peek now later (totp_rl_key user_id) guard s1 h,
      )

  accepted :
      (now later step : ℕ) (s : Store)
      → now ≤ later
      → (accept now step s).0 ≡ ok tt
      → (is_replay (stored_step (ok (peek s now guard))) step ≡ false)
        × (peek (accept now step s).1 later guard
            ≡ (if lives now (some totp_last_step_ttl_secs) later then some (show_ℕ step) else none))
  unfolding accept_step
  accepted now later step s h good = ground (
    arith,
    good,
    laws.get_result now guard s,
    settled now later step (is_replay (stored_step (ok (peek s now guard))) step)
        (kv.get now guard s).1 h,
  )

  -- The step of a code, where the user's generator can be built.
  step_of_secret : TotpServices → ℕ → UserData → Text → Option Text → Option ℕ
  step_of_secret sv now user code none = none
  step_of_secret sv now user code (some stored) = elim (sv.decrypt_totp_secret user_id stored) [
    | none ↦ none
    | some secret ↦ elim (sv.build_totp secret user.username) [
      | none ↦ none
      | some totp ↦ matched_totp_step now totp code
    ]
  ]

  unfoldable pub step_of : TotpServices → ℕ → UserData → Text → Option ℕ
  unfolding step_of_secret
  step_of sv now user code = step_of_secret sv now user code user.totp_secret

  -- The user's generator, where there is a step.
  opened :
      (sv : TotpServices) (now : ℕ) (user : UserData) (code : Text) (step : ℕ)
      → step_of sv now user code ≡ some step
      → (stored : Text) × (secret : Text) × (totp : Totp) × (user.totp_secret ≡ some stored)
        × (sv.decrypt_totp_secret user_id stored ≡ some secret)
        × (sv.build_totp secret user.username ≡ some totp)
        × (matched_totp_step now totp code ≡ some step)
  unfolding step_of
  opened sv now user code step h = elim (Option-cases user.totp_secret) [
    | inl e ↦ absurd (ground (arith, h, e))
    | inr (stored, e) ↦ elim (Option-cases (sv.decrypt_totp_secret user_id stored)) [
      | inl d ↦ absurd (ground (arith, h, e, d))
      | inr (secret, d) ↦ elim (Option-cases (sv.build_totp secret user.username)) [
        | inl b ↦ absurd (ground (arith, h, e, d, b))
        | inr (totp, b) ↦ (stored, secret, totp, e, d, b, ground (arith, h, e, d, b))
      ]
    ]
  ]

  verify-accept :
      (sv : TotpServices) (now : ℕ) (user : UserData) (code : Text) (step : ℕ) (s : Store)
      → step_of sv now user code ≡ some step
      → verify_totp_code kv sv now (totp_rl_key user_id) user_id user code s ≡ accept now step s
  unfolding verify_totp_code check_step
  verify-accept sv now user code step s h =
      let (stored, secret, totp, e, d, b, found) = opened sv now user code step h in
      ground (arith, e, d, b, found)

  step_near :
      (sv : TotpServices) (now : ℕ) (user : UserData) (code : Text) (step : ℕ)
      → step_of sv now user code ≡ some step
      → (step ≤ as_secs now / totp_step + 1) × (as_secs now / totp_step ≤ step + 1)
  unfolding step_of
  step_near sv now user code step h =
      let (stored, secret, totp, e, d, b, found) = opened sv now user code step h in
      matched_near now totp code step found

  not_replay :
      (n step : ℕ) (o : Option Text)
      → n ≤ u64_max
      → o ≡ some (show_ℕ n)
      → is_replay (stored_step (ok o)) step ≡ false
      → n < step
  unfolding is_replay stored_step
  not_replay n step o h e new = ground (arith, e, new, parse_u64-show_ℕ n h)

  -- A stored step outlives its window.
  window_over :
      (now later a b : ℕ)
      → now + from_secs totp_last_step_ttl_secs ≤ later
      → a ≤ as_secs now / totp_step + 1
      → as_secs later / totp_step ≤ b + 1
      → a < b
  window_over now later a b h p q = omega arith

  -- Of two accepted codes of a user, the later one has the greater time step, whatever happened
  -- between, if nothing else wrote the guard's key and the first step fits 64 bits: no code, and no
  -- older one, is accepted again, although the stored step expires after 120 seconds.
  pub totp_steps_increase :
      (sv : TotpServices) (now later : ℕ) (user user2 : UserData) (code code2 : Text)
      (step step2 : ℕ) (s s2 : Store)
      → now ≤ later
      → step ≤ u64_max
      → step_of sv now user code ≡ some step
      → step_of sv later user2 code2 ≡ some step2
      → (verify_totp_code kv sv now (totp_rl_key user_id) user_id user code s).0 ≡ ok tt
      → peek s2 later guard
        ≡ peek (verify_totp_code kv sv now (totp_rl_key user_id) user_id user code s).1 later guard
      → (verify_totp_code kv sv later (totp_rl_key user_id) user_id user2 code2 s2).0 ≡ ok tt
      → step < step2
  totp_steps_increase sv now later user user2 code code2 step step2 s s2 h fits e e2 good kept
        good2 =
      let first =
        accepted now later step s h (rw (← verify-accept sv now user code step s e) good) in
      let second =
        accepted later later step2 s2 (le_refl later)
          (rw (← verify-accept sv later user2 code2 step2 s2 e2) good2) in
      elim (Bool-cases (lives now (some totp_last_step_ttl_secs) later)) [
        | inl fresh ↦
            not_replay step step2 (peek s2 later guard) fits
              (cc (kept, verify-accept sv now user code step s e, first.1, fresh)) second.0
        | inr gone ↦
            window_over now later step step2 (ground (arith, gone))
              (step_near sv now user code step e).0 (step_near sv later user2 code2 step2 e2).1
      ]
