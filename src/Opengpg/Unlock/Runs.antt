-- ===== src/Opengpg/Unlock/Runs.antt =====
-- Requests in any order over the unlock ring of backend/src/opengpg/session.rs.
use lyra.Prelude.{
  ℕ, ◌≡◌, refl, sym, subst, ◌∙◌, true, Option, none, some, List, [], ◌∷◌, Text, arith, inl, inr,
  Bool-cases,
}
use lyra.Prelude.Map
use lyra.Prelude.Result.{Result, ok, err, Result-cases}
use lyra.Prelude.Exec.{pure, then_fail, bind_ok}
use lyra.Kv.{KvStore}
use lyra.Auth.Session.{Users}
use lyra.Opengpg.Session.{CacheMode, CachedUnlock, UnlockRing, get, is_unlocked, parse}
use lyra.Opengpg.Session.Entries.{entry-empty, only_alive, phrase, get-phrase}
use lyra.Opengpg.Unlock.{
  KeyServices, StoredKey, OpengpgError, UnlockRequest, get_key, verify_secret_passphrase, ttl_of,
  State, unlock_key, check_unlock, keep_unlock, lock_keys, auth_logout, with_key, with_mode,
  requested, verify_request, settle_unlock, ensure_unlock_allowed, note_unlock_failure, logout,
  rejected,
}
use lyra.Opengpg.Unlock.Verified.{
  Opens, GoodAt, IsVerified, IsVerified-get, IsVerified-lock, IsVerified-put,
  IsVerified-unlocked_ids,
}

module _ (mode m : CacheMode) (key : StoredKey) where
  with_key_sound :
      (r : Result OpengpgError (Option StoredKey))
      → with_key mode r ≡ ok (m, key)
      → (r ≡ ok (some key)) × (key.is_secret ≡ true)
  unfolding with_key
  with_key_sound (err e) h = absurd (let impossible : ⊥ = cc (h) in impossible)
  with_key_sound (ok none) h = absurd (let impossible : ⊥ = cc (h) in impossible)
  with_key_sound (ok (some k)) h = elim (Bool-cases k.is_secret) [
    | inl e ↦ (ground (arith, h, e), ground (arith, h, e))
    | inr e ↦ absurd (let impossible : ⊥ = ground (arith, h, e) in impossible)
  ]

with_mode_sound :
    (m : CacheMode) (key : StoredKey) (q : Result Text CacheMode)
    (r : Result OpengpgError (Option StoredKey))
    → with_mode q r ≡ ok (m, key)
    → (r ≡ ok (some key)) × (key.is_secret ≡ true)
unfolding with_mode
with_mode_sound m key (err e) r h = absurd (let impossible : ⊥ = cc (h) in impossible)
with_mode_sound m key (ok mode) r h = with_key_sound mode m key r h

module _ (kv : KvStore) (sv : KeyServices) where
  open kv use {Store}

  settled :
      (now : ℕ) (token : Text) (r : Result OpengpgError (Unit {0})) (s : Store) (u : Unit {0})
      → (settle_unlock kv sv now token r s).0 ≡ ok u
      → r ≡ ok tt
  unfolding settle_unlock
  settled now token (ok x) s u h = refl
  settled now token (err e) s u h =
      absurd (then_fail (note_unlock_failure kv sv now token) (rejected e) s u h)

  verify_request_sound :
      (now : ℕ) (user_id token : Text) (body : UnlockRequest)
      (r : Result OpengpgError (CacheMode × StoredKey)) (s : Store) (mode : CacheMode)
      → requested sv user_id body ≡ r
      → (verify_request kv sv now token body r s).0 ≡ ok mode
      → Opens sv body.key_id body.passphrase
  unfolding verify_request requested
  verify_request_sound now user_id token body (err e) s mode q h =
      absurd (let impossible : ⊥ = cc (h) in impossible)
  verify_request_sound now user_id token body (ok (m, key)) s mode q h =
      let checked = verify_secret_passphrase sv key.key_data body.passphrase in
      let (u, good, rest) =
        bind_ok (settle_unlock kv sv now token checked) (λ _. pure m) s mode h in
      let (is_found, has_secret) =
        with_mode_sound m key (parse body.cache) (get_key sv user_id body.key_id) q in
      record {
        user_id = user_id;
        key = key;
        is_found = is_found;
        has_secret = has_secret;
        is_right = settled now token checked s u good;
      }

  check_unlock_sound :
      (now : ℕ) (user_id token : Text) (body : UnlockRequest) (s : Store) (mode : CacheMode)
      → (check_unlock kv sv now user_id token body s).0 ≡ ok mode
      → Opens sv body.key_id body.passphrase
  unfolding check_unlock
  check_unlock_sound now user_id token body s mode h =
      let r = requested sv user_id body in
      let (u, free, rest) =
        bind_ok (ensure_unlock_allowed kv sv now token) (λ _. verify_request kv sv now token body r)
          s mode h in
      verify_request_sound now user_id token body r _ mode refl rest

  IsVerified-unlock :
      (now : ℕ) (user_id token : Text) (body : UnlockRequest) (s : Store) (rings : UnlockRing)
      → IsVerified sv rings
      → IsVerified sv (unlock_key kv sv now user_id token body (s, rings)).1.1
  unfolding unlock_key keep_unlock is_unlocked
  IsVerified-unlock now user_id token body s rings h =
      elim (Result-cases (check_unlock kv sv now user_id token body s).0) [
        | inl (mode, e) ↦
            let opens = check_unlock_sound now user_id token body s mode e in
            let stored =
              IsVerified-put sv now token body.key_id body.passphrase mode (ttl_of body.ttl_minutes)
                rings opens h in
            rw e (IsVerified-get sv now token body.key_id _ stored)
        | inr (x, e) ↦ rw e h
      ]

  -- What reaches the ring: the handlers, and the readers of mail, which ask for a passphrase.
  pub data Event : Type 0 where
    unlock_request : ℕ → Text → Text → UnlockRequest → Event
    lock_request : ℕ → Text → Option Text → Event
    use_key : ℕ → Text → Text → Event
    log_out : Users → ℕ → Option Text → Event

  unfoldable pub step : Event → State kv sv → State kv sv
  step (Event.unlock_request now user_id token body) state =
      (unlock_key kv sv now user_id token body state).1
  step (Event.lock_request now token key_id) (s, rings) =
      (s, (lock_keys kv sv now token key_id rings).1)
  step (Event.use_key now token key_id) (s, rings) = (s, (get now token key_id rings).1)
  step (Event.log_out db now token) state = auth_logout kv sv db now token state

  unfoldable pub run : List Event → State kv sv → State kv sv
  unfolding step
  run [] state = state
  run (e ∷ es) state = run es (step e state)

  IsVerified-step :
      (e : Event) (s : Store) (rings : UnlockRing)
      → IsVerified sv rings
      → IsVerified sv (step e (s, rings)).1
  unfolding step lock_keys auth_logout logout
  IsVerified-step (Event.unlock_request now user_id token body) s rings h =
      IsVerified-unlock now user_id token body s rings h
  IsVerified-step (Event.lock_request now token key_id) s rings h =
      IsVerified-unlocked_ids sv now token _ (IsVerified-lock sv token key_id rings h)
  IsVerified-step (Event.use_key now token key_id) s rings h =
      IsVerified-get sv now token key_id rings h
  IsVerified-step (Event.log_out db now none) s rings h = h
  IsVerified-step (Event.log_out db now (some token)) s rings h =
      IsVerified-lock sv token none rings h

  IsVerified-run :
      (es : List Event) (s : Store) (rings : UnlockRing)
      → IsVerified sv rings
      → IsVerified sv (run es (s, rings)).1
  unfolding run
  IsVerified-run [] s rings h = h
  IsVerified-run (e ∷ es) s rings h =
      IsVerified-run es (step e (s, rings)).0 (step e (s, rings)).1 (IsVerified-step e s rings h)

  opened_by :
      (u : ℕ) (k p : Text) (o : Option CachedUnlock)
      → GoodAt sv k o
      → phrase (only_alive u o) ≡ some p
      → Opens sv k p
  unfolding only_alive
  opened_by u k p none g h = absurd (let impossible : ⊥ = cc (h) in impossible)
  opened_by u k p (some e) g h =
      let same : e.passphrase ≡ p = ground (arith, h) in subst (λ x. Opens sv k x) same g.opens

  -- Over a key table that does not change, however unlocks, locks, uses and logouts follow one
  -- another from an empty ring, a passphrase that the ring answers for a key id opens a secret key
  -- of that id in the key table.
  pub ring_answers_verified :
      (es : List Event) (s : Store) (u : ℕ) (token key_id passphrase : Text)
      → (get u token key_id (run es (s, Map.empty)).1).0 ≡ some passphrase
      → Opens sv key_id passphrase
  ring_answers_verified es s u token key_id passphrase h =
      let empty : IsVerified sv Map.empty = λ t k. rw (entry-empty t k) tt in
      let state = run es (s, Map.empty) in
      opened_by u key_id passphrase _ (IsVerified-run es s Map.empty empty token key_id)
        (sym (get-phrase u token key_id state.1) ∙ h)
