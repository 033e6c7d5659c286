-- ===== src/Opengpg/Unlock.antt =====
-- The handlers that unlock and lock keys (backend/src/opengpg/http.rs), with their limiter over the
-- key-value store, and the logout of backend/src/auth/handlers.rs, which locks too. The key table is
-- a list of rows by user; parsing an id and opening a secret key belong to libraries.
pub mod Verified
pub mod Runs
pub mod Limit
pub mod Lockout
pub mod LogOut
pub mod Refusals
use lyra.Prelude.{
  ℕ, zero, suc, ◌+◌, ◌*◌, Bool, true, false, ◌&&◌, not, Option, none, some, is_some, List, [], ◌∷◌,
  ◌++◌, Text, codes, text_eq, ◌==◌, if◌then◌else◌,
}
use lyra.Prelude.Int.{ℤ, pos, negsuc, leb_ℤ, i64_max}
use lyra.Prelude.Decimal.{show_i64}
use lyra.Prelude.Trim.{trim}
use lyra.Prelude.Result.{Result, ok, err}
use lyra.Prelude.Exec.{Exec, pure, fail, lift, map_err, attempt, ◌>>=◌, ◌>>◌}
use lyra.Kv.{KvStore}
use lyra.Auth.RateLimit.{attempts_of}
use lyra.Auth.Session.{Users, remove_session}
use lyra.Opengpg.Session
use lyra.Opengpg.Session.{
  CacheMode, UnlockRing, parse, as_str, clamp_ttl, default_ttl_minutes, put, is_unlocked, lock,
  unlocked_ids,
}

-- The messages that quote a library's error are left out.
pub data OpengpgError : Type 0 where
  invalid_key invalid_input not_found too_many_requests : OpengpgError
  unauthorized : Text → OpengpgError

pub record StoredKey : Type 0 where
  pub id : Text
  pub user_id : Text
  pub is_secret : Bool
  pub key_data : Text

-- `is_id` accepts the ids that the database can hold; `unlock` has no answer where the text is no
-- secret key, and otherwise says whether the passphrase opens it.
pub record KeyServices : Type 0 where
  pub keys : List StoredKey
  pub is_id : Text → Bool
  pub unlock : Text → Text → Option Bool

first_key : Text → Text → List StoredKey → Option StoredKey
first_key user_id key_id [] = none
first_key user_id key_id (k ∷ keys) =
    if text_eq k.id key_id && text_eq k.user_id user_id
    then some k
    else first_key user_id key_id keys

unfoldable pub get_key : KeyServices → Text → Text → Result OpengpgError (Option StoredKey)
unfolding first_key
get_key sv user_id key_id =
    if sv.is_id user_id && sv.is_id key_id
    then ok (first_key user_id key_id sv.keys)
    else err invalid_input

opened : Option Bool → Result OpengpgError Unit
opened none = err invalid_key
opened (some true) = ok tt
opened (some false) = err invalid_input

unfoldable pub verify_secret_passphrase : KeyServices → Text → Text → Result OpengpgError Unit
unfolding opened
verify_secret_passphrase sv key_data passphrase = opened (sv.unlock (trim key_data) passphrase)

pub record UnlockRequest : Type 0 where
  pub key_id : Text
  pub passphrase : Text
  pub cache : Text
  pub ttl_minutes : Option ℕ

pub record UnlockResponse : Type 0 where
  pub key_id : Text
  pub cache : Text
  pub unlocked : Bool
  pub cached : Bool

abbrev pub unlock_rl_max : ℤ
unlock_rl_max = pos 5

abbrev pub unlock_rl_ttl : ℕ
unlock_rl_ttl = 15 * 60

unfoldable pub unlock_rl_key : Text → Text
unlock_rl_key token = codes "rl:opengpg-unlock:" ++ token

-- `n + 1` on an `i64` without overflow checks.
abbrev pub wrapping_next : ℤ → ℤ
wrapping_next (pos n) = if n == i64_max then negsuc i64_max else pos (n + 1)
wrapping_next (negsuc zero) = pos 0
wrapping_next (negsuc (suc n)) = negsuc n

-- `verify.map_err(…)`: a wrong passphrase becomes 401.
unfoldable pub rejected : OpengpgError → OpengpgError
rejected invalid_input = unauthorized (codes "passphrase rejected")
rejected e = e

unfoldable pub ttl_of : Option ℕ → ℕ
ttl_of none = clamp_ttl default_ttl_minutes
ttl_of (some minutes) = clamp_ttl minutes

with_key :
    CacheMode → Result OpengpgError (Option StoredKey) → Result OpengpgError (CacheMode × StoredKey)
with_key mode (err e) = err e
with_key mode (ok none) = err not_found
with_key mode (ok (some key)) = if key.is_secret then ok (mode, key) else err invalid_input

with_mode :
    Result Text CacheMode
    → Result OpengpgError (Option StoredKey)
    → Result OpengpgError (CacheMode × StoredKey)
unfolding with_key
with_mode (err e) found = err invalid_input
with_mode (ok mode) found = with_key mode found

-- The mode and the key that a request names.
unfoldable pub requested :
    KeyServices → Text → UnlockRequest → Result OpengpgError (CacheMode × StoredKey)
unfolding with_mode
requested sv user_id body = with_mode (parse body.cache) (get_key sv user_id body.key_id)

module _ (kv : KvStore) (sv : KeyServices) where
  open kv use {Store}

  unfoldable pub ensure_unlock_allowed : ℕ → Text → Exec Store OpengpgError Unit
  ensure_unlock_allowed now token = do
    found ← map_err (λ _. invalid_input) (kv.get now (unlock_rl_key token))
    if leb_ℤ unlock_rl_max (attempts_of found) then fail too_many_requests else pure tt

  unfoldable pub note_unlock_failure : ℕ → Text → Exec Store OpengpgError Unit
  note_unlock_failure now token = do
    found ← map_err (λ _. invalid_input) (kv.get now (unlock_rl_key token))
    map_err (λ _. invalid_input)
        (kv.set now (unlock_rl_key token) (show_i64 (wrapping_next (attempts_of found)))
          (some unlock_rl_ttl))

  -- A failure to clear is dropped.
  unfoldable pub clear_unlock_failures : ℕ → Text → Exec Store OpengpgError Unit
  clear_unlock_failures now token = do attempt (kv.del now (unlock_rl_key token)); pure tt

  -- The store and the ring.
  abbrev pub State : Type 0
  State = Store × UnlockRing

  -- A call that leaves the ring alone.
  abbrev pub stored : {A : Type 0} → Exec Store OpengpgError A → Exec State OpengpgError A
  stored m (s, rings) = let (r, s') = m s in (r, (s', rings))

  settle_unlock : ℕ → Text → Result OpengpgError Unit → Exec Store OpengpgError Unit
  settle_unlock now token (ok u) = clear_unlock_failures now token
  settle_unlock now token (err e) = do note_unlock_failure now token; fail (rejected e)

  verify_request :
      ℕ
      → Text
      → UnlockRequest
      → Result OpengpgError (CacheMode × StoredKey)
      → Exec Store OpengpgError CacheMode
  unfolding settle_unlock
  verify_request now token body (err e) = fail e
  verify_request now token body (ok (mode, key)) = do
    settle_unlock now token (verify_secret_passphrase sv key.key_data body.passphrase)
    pure mode

  -- The request up to the passphrase that is found right.
  unfoldable pub check_unlock : ℕ → Text → Text → UnlockRequest → Exec Store OpengpgError CacheMode
  unfolding verify_request
  check_unlock now user_id token body = do
    ensure_unlock_allowed now token
    verify_request now token body (requested sv user_id body)

  keep_unlock : ℕ → Text → UnlockRequest → CacheMode → Exec State OpengpgError UnlockResponse
  keep_unlock now token body mode (s, rings) =
      let rings' = put now token body.key_id body.passphrase mode (ttl_of body.ttl_minutes) rings in
      let (cached, rings'') = is_unlocked now token body.key_id rings' in
      (
        ok (record { key_id = body.key_id; cache = as_str mode; unlocked = true; cached = cached }),
        (s, rings''),
      )

  -- The session is that of `user_id` by `token`.
  unfoldable pub unlock_key :
      ℕ → Text → Text → UnlockRequest → Exec State OpengpgError UnlockResponse
  unfolding check_unlock keep_unlock
  unlock_key now user_id token body = do
    mode ← stored (check_unlock now user_id token body)
    keep_unlock now token body mode

  unfoldable pub lock_keys : ℕ → Text → Option Text → UnlockRing → List Text × UnlockRing
  lock_keys now token key_id rings = unlocked_ids now token (lock token key_id rings)

  logout : Users → ℕ → Option Text → State → State
  logout db now none state = state
  logout db now (some token) (s, rings) = (remove_session kv db now token s, lock token none rings)

  -- The bearer token of the request, if it has one.
  unfoldable pub auth_logout : Users → ℕ → Option Text → State → State
  unfolding logout
  auth_logout db now token state = logout db now token state
