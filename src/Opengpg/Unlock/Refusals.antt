-- ===== src/Opengpg/Unlock/Refusals.antt =====
-- The answers of `unlock_key` (backend/src/opengpg/http.rs) past its limiter.
use lyra.Prelude.{
  ℕ, ◌≡◌, refl, ap, sym, subst, Bool, true, false, Option, none, some, Text, arith, ◌↔◌,
  if◌then◌else◌,
}
use lyra.Prelude.Result.{Result, ok, err}
use lyra.Prelude.Exec.{Never, Never-pure, Never-fail, Never-map_err, Never-bind, Never-attempt}
use lyra.Kv.{KvStore, KvLaws}
use lyra.Auth.RateLimit.{attempts_of}
use lyra.Prelude.Decimal.{show_i64}
use lyra.Opengpg.Session.{CacheMode, UnlockRing}
use lyra.Opengpg.Unlock.{
  KeyServices, StoredKey, OpengpgError, too_many_requests, invalid_input, invalid_key,
  UnlockRequest, get_key, verify_secret_passphrase, opened, check_unlock, with_key, with_mode,
  requested, verify_request, settle_unlock, ensure_unlock_allowed, note_unlock_failure,
  clear_unlock_failures, rejected, unlock_rl_key, wrapping_next, unlock_rl_ttl, unlock_key,
}
use lyra.Opengpg.Unlock.Limit.{check_limited, unlock_refused}

with_key_answers :
    (mode : CacheMode) (r : Result OpengpgError (Option StoredKey))
    → (r ≡ err too_many_requests → ⊥)
    → with_key mode r ≡ err too_many_requests
    → ⊥
unfolding with_key
with_key_answers mode (err e) p h = p (cc (h))
with_key_answers mode (ok none) p h = cc h
with_key_answers mode (ok (some k)) p h = ground (arith, h)

with_mode_answers :
    (q : Result Text CacheMode) (r : Result OpengpgError (Option StoredKey))
    → (r ≡ err too_many_requests → ⊥)
    → with_mode q r ≡ err too_many_requests
    → ⊥
unfolding with_mode
with_mode_answers (err e) r p h = cc h
with_mode_answers (ok mode) r p h = with_key_answers mode r p h

get_key_answers :
    (sv : KeyServices) (user_id key_id : Text)
    → get_key sv user_id key_id ≡ err too_many_requests
    → ⊥
unfolding get_key
get_key_answers sv user_id key_id h = ground (arith, h)

opened_answers :
    (o : Option Bool) (e : OpengpgError) → opened o ≡ err e → rejected e ≡ too_many_requests → ⊥
unfolding opened rejected
opened_answers none e h k =
    let is : invalid_key ≡ e = cc (h) in cc (subst (λ x. rejected x ≡ too_many_requests) (sym is) k)
opened_answers (some true) e h k = cc h
opened_answers (some false) e h k =
    let is : invalid_input ≡ e = cc (h) in
    cc (subst (λ x. rejected x ≡ too_many_requests) (sym is) k)

module _ (kv : KvStore) (laws : KvLaws kv) (sv : KeyServices) (token : Text) where
  open kv use {Store}

  Never-note : (now : ℕ) → Never too_many_requests (note_unlock_failure kv sv now token)
  unfolding note_unlock_failure
  Never-note now =
      Never-bind
        (Never-map_err (λ _. invalid_input) (kv.get now (unlock_rl_key token)) (λ x e. cc e))
        (λ found.
          Never-map_err (λ _. invalid_input)
            (kv.set now (unlock_rl_key token) (show_i64 (wrapping_next (attempts_of found)))
              (some unlock_rl_ttl))
            (λ x e. cc e))

  Never-settle :
      (now : ℕ) (r : Result OpengpgError (Unit {0}))
      → ((e : OpengpgError) → r ≡ err e → rejected e ≡ too_many_requests → ⊥)
      → Never too_many_requests (settle_unlock kv sv now token r)
  unfolding settle_unlock clear_unlock_failures
  Never-settle now (ok u) p =
      Never-bind (Never-attempt (kv.del now (unlock_rl_key token))) (λ r. Never-pure tt)
  Never-settle now (err e) p = Never-bind (Never-note now) (λ _. Never-fail (rejected e) (p e refl))

  Never-verify :
      (now : ℕ) (body : UnlockRequest) (r : Result OpengpgError (CacheMode × StoredKey))
      → (r ≡ err too_many_requests → ⊥)
      → Never too_many_requests (verify_request kv sv now token body r)
  unfolding verify_request verify_secret_passphrase
  Never-verify now body (err e) p = Never-fail e (λ h. p (ap err h))
  Never-verify now body (ok (mode, found)) p =
      let checked = verify_secret_passphrase sv found.key_data body.passphrase in
      Never-bind (Never-settle now checked (λ e. opened_answers _ e)) (λ _. Never-pure mode)

  check_free :
      (now : ℕ) (user_id : Text) (body : UnlockRequest) (s : Store)
      → (ensure_unlock_allowed kv sv now token s).0 ≡ ok tt
      → (check_unlock kv sv now user_id token body s).0 ≡ err too_many_requests
      → ⊥
  unfolding check_unlock requested
  check_free now user_id body s free h =
      let named = requested sv user_id body in
      let rest =
        Never-verify now body named
          (with_mode_answers _ _ (get_key_answers sv user_id body.key_id)) in
      rest.refuted (ensure_unlock_allowed kv sv now token s).1 (cc (h, free))

  check_limited_iff :
      (now : ℕ) (user_id : Text) (body : UnlockRequest) (s : Store) (limited : Bool)
      → (ensure_unlock_allowed kv sv now token s).0
        ≡ (if limited then err too_many_requests else ok tt)
      → ((check_unlock kv sv now user_id token body s).0 ≡ err too_many_requests) ↔ (limited ≡ true)
  check_limited_iff now user_id body s true e =
      (λ h. refl, λ h. ap (λ r. r.0) (check_limited kv laws sv token now user_id body s e))
  check_limited_iff now user_id body s false e =
      (λ h. absurd (check_free now user_id body s e h), λ h. cc h)

  -- The handler answers as the limiter exactly where the limiter refuses.
  pub unlock_limited_iff :
      (now : ℕ) (user_id : Text) (body : UnlockRequest) (s : Store) (rings : UnlockRing)
      (limited : Bool)
      → (ensure_unlock_allowed kv sv now token s).0
        ≡ (if limited then err too_many_requests else ok tt)
      → ((unlock_key kv sv now user_id token body (s, rings)).0 ≡ err too_many_requests)
        ↔ (limited ≡ true)
  unlock_limited_iff now user_id body s rings limited e =
      let (there, back) = unlock_refused kv laws sv token now user_id body s rings in
      let (sound, complete) = check_limited_iff now user_id body s limited e in
      (λ h. sound (there h), λ h. back (complete h))
