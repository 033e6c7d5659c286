-- ===== src/Opengpg/Session.antt =====
-- The unlock ring of backend/src/opengpg/session.rs: passphrases in memory, by session token and key
-- id. `now` is the clock's reading in nanoseconds; the mutex makes each call one step.
pub mod Expiry
pub mod Entries
pub mod Locks
use lyra.Prelude.{
  ℕ, ◌+◌, ◌-◌, ◌*◌, min, max, Bool, true, false, not, Option, none, some, is_some, List, [], Text,
  codes, text_eq, ltb, leb, if◌then◌else◌,
}
use lyra.Prelude.Map
use lyra.Prelude.Map.{Map}
use lyra.Prelude.Trim.{trim}
use lyra.Prelude.Result.{Result, ok, err}
use lyra.Kv.{from_secs}
use lyra.Netsec.{to_ascii_lowercase}

pub data CacheMode : Type 0 where
  once timed session : CacheMode

-- The text that is not a mode stands for the message that quotes it.
unfoldable pub parse : Text → Result Text CacheMode
parse s =
    let mode = to_ascii_lowercase (trim s) in
    if text_eq mode (codes "once")
    then ok once
    else if text_eq mode (codes "timed")
    then ok timed
    else if text_eq mode (codes "session")
    then ok session
    else err mode

unfoldable pub as_str : CacheMode → Text
as_str once = codes "once"
as_str timed = codes "timed"
as_str session = codes "session"

abbrev pub default_ttl_minutes : ℕ
default_ttl_minutes = 10

abbrev pub max_ttl_minutes : ℕ
max_ttl_minutes = 120

abbrev pub idle_timeout : ℕ
idle_timeout = from_secs (10 * 60)

pub record CachedUnlock : Type 0 where
  pub passphrase : Text
  pub mode : CacheMode
  pub expires_at : Option ℕ
  pub last_used : ℕ

abbrev pub UnlockRing : Type 0
UnlockRing = Map (Map CachedUnlock)

before : ℕ → Option ℕ → Bool
before now none = true
before now (some exp) = not (leb exp now)

unfoldable pub entry_alive : ℕ → CachedUnlock → Bool
unfolding before
entry_alive now e = if ltb idle_timeout (now - e.last_used) then false else before now e.expires_at

unfoldable pub clamp_ttl : ℕ → ℕ
clamp_ttl ttl_minutes = min (max ttl_minutes 1) max_ttl_minutes

-- When a mode's entry ends by itself.
unfoldable pub expiry : ℕ → CacheMode → ℕ → Option ℕ
expiry now once ttl = none
expiry now timed ttl = some (now + from_secs (ttl * 60))
expiry now session ttl = none

-- `entry(token).or_default()`
ring_of : UnlockRing → Text → Map CachedUnlock
ring_of rings session_token = elim (Map.get rings session_token) [
  | none ↦ Map.empty
  | some ring ↦ ring
]

store_entry : ℕ → Text → Text → Text → CacheMode → ℕ → UnlockRing → UnlockRing
unfolding ring_of
store_entry now session_token key_id passphrase mode ttl rings =
    let entry : CachedUnlock = record {
      passphrase = passphrase;
      mode = mode;
      expires_at = expiry now mode ttl;
      last_used = now;
    } in
    Map.insert rings session_token (Map.insert (ring_of rings session_token) key_id entry)

unfoldable pub put : ℕ → Text → Text → Text → CacheMode → ℕ → UnlockRing → UnlockRing
unfolding store_entry
put now session_token key_id passphrase once ttl_minutes rings = rings
put now session_token key_id passphrase timed ttl_minutes rings =
    store_entry now session_token key_id passphrase timed (clamp_ttl ttl_minutes) rings
put now session_token key_id passphrase session ttl_minutes rings =
    store_entry now session_token key_id passphrase session (clamp_ttl ttl_minutes) rings

-- The entry that is found in the pruned ring is used now.
answer :
    ℕ → Text → Text → UnlockRing → Map CachedUnlock → Option CachedUnlock → Option Text × UnlockRing
answer now session_token key_id rings ring none = (none, Map.insert rings session_token ring)
answer now session_token key_id rings ring (some entry) = (
  some entry.passphrase,
  Map.insert rings session_token (Map.insert ring key_id (record entry { last_used = now })),
)

look_up : ℕ → Text → Text → UnlockRing → Option (Map CachedUnlock) → Option Text × UnlockRing
unfolding answer
look_up now session_token key_id rings none = (none, rings)
look_up now session_token key_id rings (some ring) =
    let live = Map.retain_values (entry_alive now) ring in
    answer now session_token key_id rings live (Map.get live key_id)

unfoldable pub get : ℕ → Text → Text → UnlockRing → Option Text × UnlockRing
unfolding look_up
get now session_token key_id rings =
    look_up now session_token key_id rings (Map.get rings session_token)

unfoldable pub is_unlocked : ℕ → Text → Text → UnlockRing → Bool × UnlockRing
unfolding get
is_unlocked now session_token key_id rings =
    let (found, rings') = get now session_token key_id rings in (is_some found, rings')

lock_key : Text → Text → UnlockRing → Option (Map CachedUnlock) → UnlockRing
lock_key session_token id rings none = rings
lock_key session_token id rings (some ring) =
    let left = Map.remove ring id in
    if Map.is_empty left
    then Map.remove rings session_token
    else Map.insert rings session_token left

unfoldable pub lock : Text → Option Text → UnlockRing → UnlockRing
unfolding lock_key
lock session_token (some id) rings = lock_key session_token id rings (Map.get rings session_token)
lock session_token none rings = Map.remove rings session_token

unlocked : ℕ → Text → UnlockRing → Option (Map CachedUnlock) → List Text × UnlockRing
unlocked now session_token rings none = ([], rings)
unlocked now session_token rings (some ring) =
    let live = Map.retain_values (entry_alive now) ring in
    (Map.keys live, Map.insert rings session_token live)

unfoldable pub unlocked_ids : ℕ → Text → UnlockRing → List Text × UnlockRing
unfolding unlocked
unlocked_ids now session_token rings =
    unlocked now session_token rings (Map.get rings session_token)
