-- ===== src/Sync/Imap.antt =====
-- What a pass over one folder in `run_imap_sync` of backend/src/sync/imap_loop.rs works with. The mail
-- client is what it answers: `Replies` holds its answers on a folder in one pass, whatever they are.
pub mod Pass
pub mod Account
use lyra.Prelude.{
  ℕ, zero, suc, ◌+◌, max, Bool, true, false, ◌&&◌, not, Option, none, some, List, [], ◌∷◌, map,
  Text, codes, ltb, ◌==◌, if◌then◌else◌, any, filter,
}
use lyra.Prelude.Result.{Result, ok, err}
use lyra.Prelude.Exec.{Exec, pure, fail, ◌>>=◌, ◌>>◌}
use lyra.Sync.{ImapMessage, ImapSelectResult, Db}
use lyra.Jobs.Worker.Errors.{ImapError, connection, tls, timeout, imap}
use lyra.Sync.Ids.{SyncCursorInfo}

-- Errors after which the byte stream is in an unknown state.
unfoldable pub session_may_be_poisoned : ImapError → Bool
session_may_be_poisoned timeout = true
session_may_be_poisoned imap = true
session_may_be_poisoned connection = true
session_may_be_poisoned tls = true
session_may_be_poisoned _ = false

pub record Replies : Type 0 where
  pub select : Result ImapError ImapSelectResult
  -- The first `search_uids(None)`, for the deletions.
  pub listing : Result ImapError (List ℕ)
  pub search_uids : Option ℕ → Result ImapError (List ℕ)
  pub supports_condstore : Bool
  pub fetch_changed_since : ℕ → Result ImapError (List ImapMessage)
  pub fetch_metadata : List ℕ → Result ImapError (List ImapMessage)

-- The tables and the pass's counts.
pub record SyncPass : Type 0 where
  pub db : Db
  pub total_new : ℕ
  pub total_updated : ℕ
  pub total_deleted : ℕ

abbrev pub uids_of : List ImapMessage → List ℕ
uids_of msgs = map (λ m. m.uid) msgs

abbrev pub has : ℕ → List ℕ → Bool
has uid uids = any (λ u. u == uid) uids

-- `iter().max().unwrap_or(0)`
unfoldable pub max_uid : List ImapMessage → ℕ
max_uid [] = 0
max_uid (m ∷ msgs) = max m.uid (max_uid msgs)

push_first : ℕ → List (List ℕ) → List (List ℕ)
push_first x [] = (x ∷ []) ∷ []
push_first x (c ∷ cs) = (x ∷ c) ∷ cs

-- `left` more may join the chunk that a UID begins or goes on.
chunks_from : ℕ → ℕ → List ℕ → List (List ℕ)
unfolding push_first
chunks_from size left [] = []
chunks_from size zero (x ∷ xs) = (x ∷ []) ∷ chunks_from size size xs
chunks_from size (suc left) (x ∷ xs) = push_first x (chunks_from size left xs)

abbrev pub metadata_chunk : ℕ
metadata_chunk = 8

-- `chunks(METADATA_CHUNK)`
unfoldable pub chunks : List ℕ → List (List ℕ)
unfolding chunks_from
chunks uids = chunks_from 7 7 uids

abbrev pub with_counts : ℕ × ℕ → SyncPass → Db → SyncPass
with_counts (new, updated) p db = record p {
  db = db;
  total_new = p.total_new + new;
  total_updated = p.total_updated + updated;
}

-- The chunk loop's variables.
pub record Progress : Type 0 where
  pub pass : SyncPass
  pub chunk_cursor : ℕ
  pub cleared : Bool

-- The pass ends with `err`; an error that skips the folder is none.
abbrev pub Step : Type 0
Step = Exec SyncPass ImapError (Unit {0})

abbrev pub stop_or_skip : ImapError → Step
stop_or_skip e = if session_may_be_poisoned e then fail e else pure tt

unfoldable pub is_changed : Option SyncCursorInfo → ℕ → Bool
is_changed none uid_validity = false
is_changed (some c) uid_validity = not (c.uid_validity == uid_validity)

unfoldable pub after_uid : Option SyncCursorInfo → ℕ → Option ℕ
after_uid none uid_validity = none
after_uid (some c) uid_validity = if c.uid_validity == uid_validity then some c.last_uid else none

unfoldable pub stored_modseq : Option SyncCursorInfo → ℕ → ℕ
stored_modseq none uid_validity = 0
stored_modseq (some c) uid_validity = if c.uid_validity == uid_validity then c.last_modseq else 0

unfoldable pub first_cursor : Option SyncCursorInfo → ℕ
first_cursor none = 0
first_cursor (some c) = c.last_uid

or_zero : Option ℕ → ℕ
or_zero none = 0
or_zero (some n) = n

unfoldable pub new_modseq : Replies → ImapSelectResult → ℕ
unfolding or_zero
new_modseq r selected = if r.supports_condstore then or_zero selected.highest_modseq else 0

-- The last step is left out when a poisoned session ends the pass.
unfoldable pub closed :
    (Progress → SyncPass) → Progress × Option ImapError → Result ImapError (Unit {0}) × SyncPass
closed close (g, none) = (ok tt, close g)
closed close (g, some e) = (err e, g.pass)
