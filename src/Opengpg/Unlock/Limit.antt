-- ===== src/Opengpg/Unlock/Limit.antt =====
-- The limiter of unlocks of backend/src/opengpg/http.rs: what one request reads and writes of it.
use lyra.Prelude.{
  ℕ, ◌+◌, ◌≤◌, ◌<◌, ◌≡◌, Bool, true, false, ◌&&◌, Option, none, some, Text, text_eq_refl, arith,
  inl, inr, ◌↔◌, leb, ltb, if◌then◌else◌,
}
use lyra.Prelude.Int.{pos, leb_ℤ}
use lyra.Prelude.Decimal.{show_i64, parse_i64-show_i64}
use lyra.Prelude.Result.{Result, ok, err, Result-cases}
use lyra.Prelude.Exec.{pure, ◌>>◌}
use lyra.Kv.{KvStore, KvLaws, from_secs}
use lyra.Kv.Frame.{Keeps, Keeps-bind, Keeps-map_err, Keeps-if, Keeps-fail, Keeps-pure, Keeps-get}
use lyra.Auth.RateLimit.{attempts_of}
use lyra.Opengpg.Session.{CacheMode, UnlockRing}
use lyra.Opengpg.Unlock.{
  KeyServices, StoredKey, OpengpgError, too_many_requests, invalid_input, UnlockRequest,
  verify_secret_passphrase, unlock_key, check_unlock, keep_unlock, requested, verify_request,
  settle_unlock, ensure_unlock_allowed, note_unlock_failure, unlock_rl_key, unlock_rl_max,
  unlock_rl_ttl,
}

abbrev pub window : ℕ
window = from_secs unlock_rl_ttl

abbrev count_text : ℕ → Option Text
count_text n = some (show_i64 (pos n))

module _ (kv : KvStore) (laws : KvLaws kv) (sv : KeyServices) (token : Text) where
  open kv use {Store}
  open laws use {peek}

  abbrev key : Text
  key = unlock_rl_key token

  -- What a reader finds from `since` on: `n` failures, the last counted at `from`.
  pub record Counts (n from since : ℕ) (s : Store) : Type 0 where
    pub read :
        (t : ℕ) → since ≤ t → peek s t key ≡ (if ltb t (from + window) then count_text n else none)
    pub few : n ≤ 5

  pub ensure_lem :
      (n from since u : ℕ) (s : Store)
      → Counts n from since s
      → since ≤ u
      → (ensure_unlock_allowed kv sv u token s).0
        ≡ (if leb 5 n && ltb u (from + window) then err too_many_requests else ok tt)
  unfolding ensure_unlock_allowed attempts_of
  ensure_lem n from since u s c p = ground (
    arith,
    laws.get_result u key s,
    c.read u p,
    c.few,
    parse_i64-show_i64 (pos n) (omega (arith, c.few)),
  )

  pub ensure_fresh :
      (u : ℕ) (s : Store) → peek s u key ≡ none → (ensure_unlock_allowed kv sv u token s).0 ≡ ok tt
  unfolding ensure_unlock_allowed attempts_of
  ensure_fresh u s h = ground (arith, laws.get_result u key s, h)

  pub Keeps-ensure :
      (now : ℕ) (j : Text) → Keeps kv laws now j (ensure_unlock_allowed kv sv now token)
  unfolding ensure_unlock_allowed
  Keeps-ensure now j = Keeps-bind (Keeps-map_err (λ _. invalid_input) (Keeps-get key)) (λ found.
      Keeps-if (leb_ℤ unlock_rl_max (attempts_of found)) (Keeps-fail too_many_requests)
        (Keeps-pure tt))

  pub note_fresh :
      (t : ℕ) (s : Store)
      → peek s t key ≡ none
      → Counts 1 t t (note_unlock_failure kv sv t token s).1
  unfolding note_unlock_failure attempts_of
  note_fresh t s h = record {
    read = λ u p. ground (
      arith,
      text_eq_refl key,
      laws.get_result t key s,
      h,
      laws.set_peek t u key (show_i64 (pos 1)) (some unlock_rl_ttl) key (kv.get t key s).1 p,
    );
    few = omega arith;
  }

  pub note_next :
      (n t : ℕ) (s : Store)
      → peek s t key ≡ count_text n
      → n < 5
      → Counts (n + 1) t t (note_unlock_failure kv sv t token s).1
  unfolding note_unlock_failure attempts_of
  note_next n t s h p = record {
    read = λ u q. ground (
      arith,
      text_eq_refl key,
      laws.get_result t key s,
      h,
      parse_i64-show_i64 (pos n) (omega arith),
      laws.set_peek t u key (show_i64 (pos (n + 1))) (some unlock_rl_ttl) key (kv.get t key s).1 q,
    );
    few = omega arith;
  }

  is_err : {E A : Type 0} → Result E A → Bool
  is_err (ok a) = false
  is_err (err e) = true

  wrong_for : UnlockRequest → Result OpengpgError (CacheMode × StoredKey) → Bool
  unfolding is_err
  wrong_for body (err e) = false
  wrong_for body (ok (mode, found)) =
      is_err (verify_secret_passphrase sv found.key_data body.passphrase)

  -- A request for a secret key that the user has, in a proper mode, whose passphrase is refused.
  unfoldable pub is_wrong : Text → UnlockRequest → Bool
  unfolding wrong_for
  is_wrong user_id body = wrong_for body (requested sv user_id body)

  settle_store :
      (now : ℕ) (r : Result OpengpgError (Unit {0})) (mode : CacheMode) (s : Store)
      → is_err r ≡ true
      → ((settle_unlock kv sv now token r >> pure mode) s).1
        ≡ (note_unlock_failure kv sv now token s).1
  unfolding settle_unlock is_err
  settle_store now (ok u) mode s h = cc
  settle_store now (err e) mode s h =
      elim (Result-cases (note_unlock_failure kv sv now token s).0) [
        | inl (a, r) ↦ ground (arith, r)
        | inr (x, r) ↦ ground (arith, r)
      ]

  verify_store :
      (now : ℕ) (body : UnlockRequest) (r : Result OpengpgError (CacheMode × StoredKey)) (s : Store)
      → wrong_for body r ≡ true
      → (verify_request kv sv now token body r s).1 ≡ (note_unlock_failure kv sv now token s).1
  unfolding verify_request wrong_for
  verify_store now body (err e) s h = cc
  verify_store now body (ok (mode, found)) s h =
      settle_store now (verify_secret_passphrase sv found.key_data body.passphrase) mode s h

  -- A wrong request past the limiter is counted, one before it is not.
  pub check_wrong :
      (now : ℕ) (user_id : Text) (body : UnlockRequest) (s : Store)
      → is_wrong user_id body ≡ true
      → (ensure_unlock_allowed kv sv now token s).0 ≡ ok tt
      → (check_unlock kv sv now user_id token body s).1
        ≡ (note_unlock_failure kv sv now token (ensure_unlock_allowed kv sv now token s).1).1
  unfolding check_unlock is_wrong
  check_wrong now user_id body s wrong free = ground (
    arith,
    free,
    verify_store now body (requested sv user_id body) (ensure_unlock_allowed kv sv now token s).1
        wrong,
  )

  pub check_limited :
      (now : ℕ) (user_id : Text) (body : UnlockRequest) (s : Store)
      → (ensure_unlock_allowed kv sv now token s).0 ≡ err too_many_requests
      → check_unlock kv sv now user_id token body s
        ≡ (err too_many_requests, (ensure_unlock_allowed kv sv now token s).1)
  unfolding check_unlock
  check_limited now user_id body s shut = ground (arith, shut)

  -- The handler's store is that of the check.
  pub unlock_store :
      (now : ℕ) (user_id : Text) (body : UnlockRequest) (s : Store) (rings : UnlockRing)
      → (unlock_key kv sv now user_id token body (s, rings)).1.0
        ≡ (check_unlock kv sv now user_id token body s).1
  unfolding unlock_key keep_unlock
  unlock_store now user_id body s rings =
      elim (Result-cases (check_unlock kv sv now user_id token body s).0) [
        | inl (m, e) ↦ ground (arith, e)
        | inr (x, e) ↦ ground (arith, e)
      ]

  pub unlock_refused :
      (now : ℕ) (user_id : Text) (body : UnlockRequest) (s : Store) (rings : UnlockRing)
      → ((unlock_key kv sv now user_id token body (s, rings)).0 ≡ err too_many_requests)
        ↔ ((check_unlock kv sv now user_id token body s).0 ≡ err too_many_requests)
  unfolding unlock_key keep_unlock
  unlock_refused now user_id body s rings =
      elim (Result-cases (check_unlock kv sv now user_id token body s).0) [
        | inl (m, e) ↦ (λ h. ground (arith, e, h), λ h. ground (arith, e, h))
        | inr (x, e) ↦ (λ h. ground (arith, e, h), λ h. ground (arith, e, h))
      ]
