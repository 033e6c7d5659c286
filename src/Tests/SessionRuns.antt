-- ===== src/Tests/SessionRuns.antt =====
-- Sessions over the in-memory store, run.
use lyra.Prelude.{ℕ, ◌*◌, ◌≡◌, refl, none, some, [], ◌∷◌, codes, arith, text_eq}
use lyra.Prelude.Map
use lyra.Tests.Open.{kv_run}
use lyra.Prelude.Result.{ok, err}
use lyra.Kv.{from_secs}
use lyra.Kv.Memory.{MemoryKv, new, memory_kv}
use lyra.Kv.Memory.Laws.{memory-KvLaws}
use lyra.Auth.{not_found, sess_key, tok_key, refresh_key}
use lyra.Auth.Session.{
  Users, create_session, get_session, get_session_exec, fetch_sess_epoch, promote_pending_session,
  drop_session, remove_session, invalidate_user_sessions,
}
use lyra.Auth.Session.Lifetime.Uses.{use_at, session_kept_alive}
use lyra.Auth.Session.Logout.{invalidate_user_sessions_lem}
use lyra.Auth.Session.Pending.{promote_pending_session_once}

abbrev users : Users
users = Map.insert Map.empty (codes "u1") 3

known : Map.get users (codes "u1") ≡ some 3
unfolding kv_run
known = refl

abbrev day : ℕ
day = from_secs 86_400

-- Used on day 10, 20 and 30, the session still lives on day 44.
session_kept_alive_example :
    (get_session memory_kv users (44 * day) (codes "t") (
      use_at memory_kv memory-KvLaws users
        (codes "t")
        (10 * day ∷ 20 * day ∷ 30 * day ∷ [])
        (create_session memory_kv users 0 (codes "t") (codes "u1") new).1)).0
    ≡ some (codes "u1")
session_kept_alive_example =
    session_kept_alive memory_kv memory-KvLaws users (codes "u1") 3 (codes "t") 0 (44 * day)
      (10 * day ∷ 20 * day ∷ 30 * day ∷ []) new known (omega arith) (omega arith) (omega arith)

abbrev logged_in : MemoryKv
logged_in = (create_session memory_kv users 0 (codes "t") (codes "u1") new).1

-- The token lives on when another one logs out, and dies with the user's epoch.
session_runs :
    ((get_session memory_kv users 2
        (codes "t")
        (remove_session memory_kv users 1 (codes "x") logged_in)).0
      ≡ some (codes "u1"))
    × ((invalidate_user_sessions memory_kv users 1 (codes "u2") logged_in).0 ≡ err not_found)
unfolding kv_run create_session get_session get_session_exec remove_session invalidate_user_sessions
    fetch_sess_epoch drop_session sess_key tok_key refresh_key
session_runs = (refl, refl)

invalidate_user_sessions_lem_example :
    ((invalidate_user_sessions memory_kv users 1 (codes "u1") logged_in).0 ≡ ok tt)
    × (fetch_sess_epoch
          (invalidate_user_sessions memory_kv users 1 (codes "u1") logged_in).1
          (codes "u1")
        ≡ ok 4)
    × (memory-KvLaws.peek
          (invalidate_user_sessions memory_kv users 1 (codes "u1") logged_in).2
          2
          (sess_key 3 (codes "t"))
        ≡ none)
unfolding text_eq
invalidate_user_sessions_lem_example =
    invalidate_user_sessions_lem memory_kv memory-KvLaws users 1 (codes "u1") 3 logged_in known 2 3
      (codes "t") (codes "u1") (omega arith)

promote_pending_session_once_example :
    (promote_pending_session memory_kv users 2
      (codes "p")
      (codes "b")
      (promote_pending_session memory_kv users 1 (codes "p") (codes "a") new).1).0
    ≡ ok none
promote_pending_session_once_example =
    promote_pending_session_once memory_kv memory-KvLaws users 1 2 (codes "p") (codes "a")
      (codes "b") new (omega arith)
