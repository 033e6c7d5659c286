-- ===== src/Tests/UnlockRuns.antt =====
-- Unlocking OpenPGP keys over the in-memory store, run.
use lyra.Prelude.{ℕ, ◌*◌, ◌≡◌, true, refl, none, some, [], ◌∷◌, Text, codes, arith, text_eq}
use lyra.Prelude.Map
use lyra.Prelude.Trim.{trim, trim_matches, trim_start_matches, trim_end_matches}
use lyra.Netsec.{to_ascii_lowercase}
use lyra.Tests.Open.{kv_run}
use lyra.Prelude.Result.{err}
use lyra.Kv.{from_secs}
use lyra.Kv.Memory.{new, memory_kv}
use lyra.Kv.Memory.Laws.{memory-KvLaws}
use lyra.Auth.RateLimit.{attempts_of}
use lyra.Auth.Session.{Users, get_session}
use lyra.Opengpg.Session.{
  timed, UnlockRing, parse, put, get, lock, entry_alive, clamp_ttl, expiry, is_unlocked,
}
use lyra.Opengpg.Session.Expiry.{reads, unlock_lasts}
use lyra.Opengpg.Session.Locks.{lock_lem}
use lyra.Opengpg.Unlock.{
  KeyServices, StoredKey, too_many_requests, UnlockRequest, unlock_rl_key, unlock_key, auth_logout,
  get_key, verify_secret_passphrase, requested, check_unlock, ensure_unlock_allowed,
  clear_unlock_failures, ttl_of,
}
use lyra.Opengpg.Unlock.Limit.{is_wrong}
use lyra.Opengpg.Unlock.Lockout.{Try, tries, shut_out, next_count, next_from, unlock_guessing_locks}
use lyra.Opengpg.Unlock.LogOut.{auth_logout_ends}
use lyra.Opengpg.Unlock.Verified.{Opens}
use lyra.Opengpg.Unlock.Runs.{unlock_request, run, ring_answers_verified}

abbrev minute : ℕ
minute = from_secs 60

abbrev unlocked : UnlockRing
unlocked = put 0 (codes "t") (codes "k") (codes "pw") timed 30 Map.empty

-- Read at 9 and 18 minutes, the passphrase is there at 28, and gone at 30.
unlock_lasts_example :
    ((get
        (28 * minute)
        (codes "t")
        (codes "k")
        (reads (codes "t") (codes "k") (9 * minute ∷ 18 * minute ∷ []) unlocked)).0
      ≡ some (codes "pw"))
    × ((get
          (30 * minute)
          (codes "t")
          (codes "k")
          (reads (codes "t") (codes "k") (9 * minute ∷ 18 * minute ∷ 27 * minute ∷ []) unlocked)).0
        ≡ none)
unlock_lasts_example = (
  unlock_lasts 0 (28 * minute) (codes "t") (codes "k") (codes "pw") timed 30
      (9 * minute ∷ 18 * minute ∷ []) Map.empty (λ e. cc e) (omega arith) (omega arith),
  unlock_lasts 0 (30 * minute) (codes "t") (codes "k") (codes "pw") timed 30
      (9 * minute ∷ 18 * minute ∷ 27 * minute ∷ []) Map.empty (λ e. cc e) (omega arith)
      (omega arith),
)

lock_lem_example :
    (get 1 (codes "t") (codes "k") (lock (codes "t") (some (codes "k")) unlocked)).0 ≡ none
unfolding text_eq
lock_lem_example = lock_lem 1 (codes "t") (codes "t") (codes "k") (some (codes "k")) unlocked

abbrev no_users : Users
no_users = Map.empty

abbrev secret_key : StoredKey
secret_key = record {
  id = codes "k";
  user_id = codes "u1";
  is_secret = true;
  key_data = codes "pw";
}

-- A key opens with its own text.
abbrev services : KeyServices
services = record {
  keys = secret_key ∷ [];
  is_id = λ id. true;
  unlock = λ key_data passphrase. some (text_eq key_data passphrase);
}

abbrev asking : Text → UnlockRequest
asking passphrase = record {
  key_id = codes "k";
  passphrase = passphrase;
  cache = codes "timed";
  ttl_minutes = none;
}

answered :
    (get 2
      (codes "t")
      (codes "k")
      (run memory_kv services
        (unlock_request 1 (codes "u1") (codes "t") (asking (codes "pw")) ∷ [])
        (new, Map.empty)).1).0
    ≡ some (codes "pw")
unfolding kv_run run unlock_key check_unlock get put requested get_key verify_secret_passphrase
    ensure_unlock_allowed clear_unlock_failures parse trim trim_matches trim_start_matches
    trim_end_matches to_ascii_lowercase attempts_of is_unlocked Map.retain_values entry_alive expiry
    clamp_ttl ttl_of
answered = refl

ring_answers_verified_example : Opens services (codes "k") (codes "pw")
ring_answers_verified_example =
    ring_answers_verified memory_kv services
      (unlock_request 1 (codes "u1") (codes "t") (asking (codes "pw")) ∷ []) new 2 (codes "t")
      (codes "k") (codes "pw") answered

is_fresh : memory-KvLaws.peek new 0 (unlock_rl_key (codes "t")) ≡ none
unfolding kv_run unlock_rl_key
is_fresh = cc (memory-KvLaws.get_result 0 (unlock_rl_key (codes "t")) new)

misses :
    is_wrong memory_kv memory-KvLaws services (codes "t") (codes "u1") (asking (codes "x")) ≡ true
unfolding is_wrong requested get_key verify_secret_passphrase text_eq parse trim trim_matches
    trim_start_matches trim_end_matches to_ascii_lowercase
misses = refl

abbrev try : ℕ → Text → Try memory_kv memory-KvLaws services (codes "t")
try at passphrase = record { at = at; user_id = codes "u1"; body = asking passphrase }

-- Five misses ten minutes apart shut the session out for the right passphrase too.
unlock_guessing_locks_example :
    (unlock_key memory_kv services (54 * minute) (codes "u1") (codes "t") (asking (codes "pw")) (
      tries memory_kv memory-KvLaws services
        (codes "t")
        (try 0 (codes "x")
          ∷ try (10 * minute) (codes "x")
          ∷ try (20 * minute) (codes "x")
          ∷ try (30 * minute) (codes "x")
          ∷ try (40 * minute) (codes "x")
          ∷ [])
        (new, Map.empty))).0
    ≡ err too_many_requests
unfolding shut_out next_count next_from
unlock_guessing_locks_example =
    (unlock_guessing_locks memory_kv memory-KvLaws services (codes "t") (try 0 (codes "x"))
        (try (54 * minute) (codes "pw"))
        (try (10 * minute) (codes "x")
          ∷ try (20 * minute) (codes "x")
          ∷ try (30 * minute) (codes "x")
          ∷ try (40 * minute) (codes "x")
          ∷ [])
        new Map.empty is_fresh misses
        (
          omega arith,
          misses,
          (omega arith, misses, (omega arith, misses, (omega arith, misses, tt))),
        )
        (omega arith)).1
      refl

auth_logout_ends_example :
    ((get_session memory_kv no_users 2
        (codes "t")
        (auth_logout memory_kv services no_users 1 (some (codes "t")) (new, unlocked)).0).0
      ≡ none)
    × ((get 2
          (codes "t")
          (codes "k")
          (auth_logout memory_kv services no_users 1 (some (codes "t")) (new, unlocked)).1).0
        ≡ none)
auth_logout_ends_example =
    auth_logout_ends memory_kv memory-KvLaws services no_users 1 2 (codes "t") (codes "k") new
      unlocked (omega arith)
