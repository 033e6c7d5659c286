-- ===== src/Kv.antt =====
-- The key-value seam for sessions and counters: the trait `KvStore` and `KvError` of
-- backend/src/kv/mod.rs. An operation takes the clock's reading (`Instant::now()`, in nanoseconds)
-- and the store, and returns its result beside the store that it leaves.
pub mod Memory
pub mod Frame
use lyra.Prelude.{
  ℕ, ◌+◌, ◌*◌, ◌≤◌, ◌≡◌, Bool, true, Option, none, some, Text, text_eq, starts_with, ltb, is_some,
  if◌then◌else◌,
}
use lyra.Prelude.Int.{ℤ, saturating_add}
use lyra.Prelude.Decimal.{show_i64, parse_i64}
use lyra.Prelude.Result.{Result, ok, err}

-- The message of `Internal` is left out: the callers log it or turn it into a status.
pub data KvError : Type 0 where
  internal : KvError

pub record KvStore : Type 1 where
  pub Store : Type 0
  pub get : ℕ → Text → Store → Result KvError (Option Text) × Store
  pub set : ℕ → Text → Text → Option ℕ → Store → Result KvError Unit × Store
  pub del : ℕ → Text → Store → Result KvError Unit × Store
  pub del_prefix : ℕ → Text → Store → Result KvError Unit × Store
  pub incr : ℕ → Text → ℤ → Option ℕ → Store → Result KvError ℤ × Store

-- `Duration::from_secs`
abbrev pub from_secs : ℕ → ℕ
from_secs s = s * 1_000_000_000

-- Whether what is written at `now` with this time to live can still be read at `later`.
abbrev pub lives : ℕ → Option ℕ → ℕ → Bool
lives now none later = true
lives now (some secs) later = ltb later (now + from_secs secs)

module _ (kv : KvStore) where
  open kv use {Store, get, set, del, del_prefix, incr}

  -- What the callers rely on, by what can be read at each moment from the write on. An `incr` keeps
  -- the expiry of a live counter, and gives a new one its own.
  pub record KvLaws : Type 0 where
    pub peek : Store → ℕ → Text → Option Text
    pub peek_expired :
        (s : Store) (now later : ℕ) (k : Text)
        → now ≤ later
        → peek s now k ≡ none
        → peek s later k ≡ none
    pub peek_same :
        (s : Store) (now later : ℕ) (k v w : Text)
        → peek s now k ≡ some v
        → peek s later k ≡ some w
        → v ≡ w
    pub get_result : (now : ℕ) (k : Text) (s : Store) → (get now k s).0 ≡ ok (peek s now k)
    pub get_peek :
        (now later : ℕ) (k j : Text) (s : Store)
        → now ≤ later
        → peek (get now k s).1 later j ≡ peek s later j
    pub set_result :
        (now : ℕ) (k v : Text) (ttl : Option ℕ) (s : Store) → (set now k v ttl s).0 ≡ ok tt
    pub set_peek :
        (now later : ℕ) (k v : Text) (ttl : Option ℕ) (j : Text) (s : Store)
        → now ≤ later
        → peek (set now k v ttl s).1 later j
          ≡ (if text_eq k j then (if lives now ttl later then some v else none) else peek s later j)
    pub del_result : (now : ℕ) (k : Text) (s : Store) → (del now k s).0 ≡ ok tt
    pub del_peek :
        (now later : ℕ) (k j : Text) (s : Store)
        → now ≤ later
        → peek (del now k s).1 later j ≡ (if text_eq k j then none else peek s later j)
    pub del_prefix_result : (now : ℕ) (p : Text) (s : Store) → (del_prefix now p s).0 ≡ ok tt
    pub del_prefix_peek :
        (now later : ℕ) (p j : Text) (s : Store)
        → now ≤ later
        → peek (del_prefix now p s).1 later j ≡ (if starts_with j p then none else peek s later j)
    pub incr_fresh :
        (now : ℕ) (k : Text) (d : ℤ) (ttl : Option ℕ) (s : Store)
        → peek s now k ≡ none
        → (incr now k d ttl s).0 ≡ ok d
    pub incr_fresh_peek :
        (now later : ℕ) (k : Text) (d : ℤ) (ttl : Option ℕ) (j : Text) (s : Store)
        → now ≤ later
        → peek s now k ≡ none
        → peek (incr now k d ttl s).1 later j ≡ (
            if text_eq k j
            then (if lives now ttl later then some (show_i64 d) else none)
            else peek s later j)
    pub incr_next :
        (now : ℕ) (k : Text) (d : ℤ) (ttl : Option ℕ) (s : Store) (v : Text) (c : ℤ)
        → peek s now k ≡ some v
        → parse_i64 v ≡ some c
        → (incr now k d ttl s).0 ≡ ok (saturating_add c d)
    pub incr_next_peek :
        (now later : ℕ) (k : Text) (d : ℤ) (ttl : Option ℕ) (j : Text) (s : Store) (v : Text)
        (c : ℤ)
        → now ≤ later
        → peek s now k ≡ some v
        → parse_i64 v ≡ some c
        → peek (incr now k d ttl s).1 later j ≡ (
            if text_eq k j
            then (if is_some (peek s later k) then some (show_i64 (saturating_add c d)) else none)
            else peek s later j)
    pub incr_bad :
        (now : ℕ) (k : Text) (d : ℤ) (ttl : Option ℕ) (s : Store) (v : Text)
        → peek s now k ≡ some v
        → parse_i64 v ≡ none
        → (incr now k d ttl s).0 ≡ err internal
    pub incr_bad_peek :
        (now later : ℕ) (k : Text) (d : ℤ) (ttl : Option ℕ) (j : Text) (s : Store) (v : Text)
        → now ≤ later
        → peek s now k ≡ some v
        → parse_i64 v ≡ none
        → peek (incr now k d ttl s).1 later j ≡ peek s later j
