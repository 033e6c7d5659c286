-- ===== src/Kv/Memory.antt =====
-- backend/src/kv/memory.rs: the process-local store. One `Instant::now()` is read for an operation
-- (`incr` reads it twice, for the test and for a new expiry), and the lock makes each one atomic.
pub mod Laws
use lyra.Prelude.{
  ℕ, ◌+◌, Bool, true, false, not, Option, none, some, Text, starts_with, leb, if◌then◌else◌,
}
use lyra.Prelude.Map
use lyra.Prelude.Map.{Map}
use lyra.Prelude.Int.{ℤ, saturating_add}
use lyra.Prelude.Decimal.{show_i64, parse_i64}
use lyra.Prelude.Result.{Result, ok, err}
use lyra.Kv.{KvError, internal, KvStore, from_secs}

pub record Entry : Type 0 where
  pub value : Text
  pub expires_at : Option ℕ

-- The map behind the lock.
abbrev pub MemoryKv : Type 0
MemoryKv = Map Entry

unfoldable pub new : MemoryKv
new = Map.empty

-- `Instant::now() >= expires_at`
abbrev pub is_expired : ℕ → Option ℕ → Bool
is_expired now none = false
is_expired now (some at) = leb at now

get_entry : ℕ → Text → Option Entry → MemoryKv → Result KvError (Option Text) × MemoryKv
get_entry now key none map = (ok none, map)
get_entry now key (some entry) map =
    if is_expired now entry.expires_at
    then (ok none, Map.remove map key)
    else (ok (some entry.value), map)

unfoldable pub get : ℕ → Text → MemoryKv → Result KvError (Option Text) × MemoryKv
unfolding get_entry
get now key map = get_entry now key (Map.get map key) map

-- `ttl_secs.map(|s| Instant::now() + Duration::from_secs(s))`
abbrev pub expiry : ℕ → Option ℕ → Option ℕ
expiry now none = none
expiry now (some s) = some (now + from_secs s)

unfoldable pub set : ℕ → Text → Text → Option ℕ → MemoryKv → Result KvError Unit × MemoryKv
set now key value ttl_secs map =
    (ok tt, Map.insert map key (record { value = value; expires_at = expiry now ttl_secs }))

unfoldable pub del : ℕ → Text → MemoryKv → Result KvError Unit × MemoryKv
del now key map = (ok tt, Map.remove map key)

unfoldable pub del_prefix : ℕ → Text → MemoryKv → Result KvError Unit × MemoryKv
del_prefix now prefix map = (ok tt, Map.retain (λ k. not (starts_with k prefix)) map)

-- An expired entry is dropped first, so that a fixed window restarts.
drop_expired : ℕ → Text → Option Entry → MemoryKv → MemoryKv
drop_expired now key none map = map
drop_expired now key (some entry) map =
    if is_expired now entry.expires_at then Map.remove map key else map

-- The current number of a live counter, which keeps its expiry.
bump : Text → ℤ → Option ℕ → Option ℤ → MemoryKv → Result KvError ℤ × MemoryKv
bump key delta expires_at none map = (err internal, map)
bump key delta expires_at (some current) map =
    let next = saturating_add current delta in
    (ok next, Map.insert map key (record { value = show_i64 next; expires_at = expires_at }))

incr_entry : ℕ → Text → ℤ → Option ℕ → Option Entry → MemoryKv → Result KvError ℤ × MemoryKv
incr_entry now key delta ttl_secs none map = (
  ok delta,
  Map.insert map key (record { value = show_i64 delta; expires_at = expiry now ttl_secs }),
)
incr_entry now key delta ttl_secs (some e) map = bump key delta e.expires_at (parse_i64 e.value) map

unfoldable pub incr : ℕ → Text → ℤ → Option ℕ → MemoryKv → Result KvError ℤ × MemoryKv
unfolding drop_expired incr_entry bump
incr now key delta ttl_secs map =
    let live = drop_expired now key (Map.get map key) map in
    incr_entry now key delta ttl_secs (Map.get live key) live

abbrev pub memory_kv : KvStore
memory_kv = record {
  Store = MemoryKv;
  get = get;
  set = set;
  del = del;
  del_prefix = del_prefix;
  incr = incr;
}
