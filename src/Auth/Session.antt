-- ===== src/Auth/Session.antt =====
-- `SessionStore` and `invalidate_user_sessions` of backend/src/auth/session.rs, over any store. A
-- call takes one reading of the clock for its steps, and a token from the generator as an argument.
-- The `lyra_user` table is its column `sess_epoch` by user id; a driver's failure is not modelled.
pub mod Reads
pub mod Lifetime
pub mod Logout
pub mod Pending
use lyra.Prelude.{
  ℕ, ◌+◌, ◌/◌, ◌∷◌, Option, none, some, Text, codes, text_eq, is_none, if◌then◌else◌,
}
use lyra.Prelude.Map
use lyra.Prelude.Map.{Map}
use lyra.Prelude.Result.{Result, ok, err}
use lyra.Prelude.Exec.{Exec, pure, fail, lift, map_err, attempt, to_option, ◌>>=◌, ◌>>◌}
use lyra.Kv.{KvStore}
use lyra.Auth.{
  StatusCode, not_found, internal_server_error, session_ttl_secs, pending_ttl_secs, sess_prefix,
  sess_key, tok_key, pending_key, refresh_key,
}

abbrev pub Users : Type 0
Users = Map ℕ

or_not_found : Option ℕ → Result StatusCode ℕ
or_not_found none = err not_found
or_not_found (some epoch) = ok epoch

unfoldable pub fetch_sess_epoch : Users → Text → Result StatusCode ℕ
unfolding or_not_found
fetch_sess_epoch db user_id = or_not_found (Map.get db user_id)

-- `?` on what a call may not have found.
abbrev found : {S A : Type 0} → Option A → Exec S Unit A
found none = fail tt
found (some a) = pure a

module _ (kv : KvStore) where
  open kv use {Store}

  unfoldable pub create_session : Users → ℕ → Text → Text → Exec Store StatusCode Text
  create_session db now token user_id = do
    epoch ← lift (fetch_sess_epoch db user_id)
    map_err (λ _. internal_server_error)
        (kv.set now (sess_key epoch token) user_id (some session_ttl_secs))
    map_err (λ _. internal_server_error)
        (kv.set now (tok_key token) user_id (some session_ttl_secs))
    map_err (λ _. internal_server_error)
        (kv.set now (refresh_key token) user_id (some (session_ttl_secs / 2)))
    pure token

  -- `kv.get(key).await.ok().flatten()?`
  read : ℕ → Text → Exec Store Unit Text
  read now key = do value ← map_err (λ _. tt) (kv.get now key); found value

  -- Both session keys get the full window again, and the throttle marker half of it.
  renew : ℕ → Text → Text → ℕ → Exec Store Unit Unit
  renew now token user_id epoch = do
    attempt (kv.set now (tok_key token) user_id (some session_ttl_secs))
    attempt (kv.set now (sess_key epoch token) user_id (some session_ttl_secs))
    attempt (kv.set now (refresh_key token) user_id (some (session_ttl_secs / 2)))
    pure tt

  -- `kv.get(key).await.ok().flatten().is_none()`
  marker_gone : Result Unit Text → Exec Store Unit Unit → Exec Store Unit Unit
  marker_gone (ok v) act = pure tt
  marker_gone (err e) act = act

  -- Sliding renewal, at most once in half a window.
  touch : ℕ → Text → Text → ℕ → Exec Store Unit Text
  touch now token user_id epoch = do
    marker ← attempt (read now (refresh_key token))
    marker_gone marker (renew now token user_id epoch)
    pure user_id

  unfoldable pub get_session_exec : Users → ℕ → Text → Exec Store Unit Text
  unfolding read renew marker_gone touch
  get_session_exec db now token = do
    user_id ← read now (tok_key token)
    epoch ← map_err (λ _. tt) (lift (fetch_sess_epoch db user_id))
    stored ← read now (sess_key epoch token)
    if text_eq stored user_id then touch now token user_id epoch else fail tt

  unfoldable pub get_session : Users → ℕ → Text → Store → Option Text × Store
  get_session db now token s = let (r, s') = get_session_exec db now token s in (to_option r, s')

  unfoldable pub create_pending_session : ℕ → Text → Text → Exec Store StatusCode Text
  create_pending_session now token user_id = do
    map_err (λ _. internal_server_error)
        (kv.set now (pending_key token) user_id (some pending_ttl_secs))
    pure token

  unfoldable pub get_pending_session : ℕ → Text → Store → Option Text × Store
  unfolding read
  get_pending_session now token s =
      let (r, s') = read now (pending_key token) s in (to_option r, s')

  promote : Users → ℕ → Text → Text → Option Text → Exec Store StatusCode (Option Text)
  promote db now pending_token token none = pure none
  promote db now pending_token token (some user_id) = do
    map_err (λ _. internal_server_error) (kv.del now (pending_key pending_token))
    created ← create_session db now token user_id
    pure (some created)

  -- `token` is the session token that is generated if the pending one is good.
  unfoldable pub promote_pending_session :
      Users → ℕ → Text → Text → Exec Store StatusCode (Option Text)
  unfolding promote
  promote_pending_session db now pending_token token s =
      let (user, s') = get_pending_session now pending_token s in
      promote db now pending_token token user s'

  -- The key at the user's present epoch, if the token resolves to a user.
  unfoldable pub drop_session : Users → ℕ → Text → Exec Store Unit Unit
  unfolding read
  drop_session db now token = do
    user_id ← read now (tok_key token)
    epoch ← map_err (λ _. tt) (lift (fetch_sess_epoch db user_id))
    attempt (kv.del now (sess_key epoch token))
    pure tt

  unfoldable pub remove_session : Users → ℕ → Text → Store → Store
  remove_session db now token s =
      let s1 = (drop_session db now token s).1 in
      let s2 = (kv.del now (tok_key token) s1).1 in (kv.del now (refresh_key token) s2).1

  -- The epoch is raised in the table before the old epoch's keys go.
  raise_epoch :
      Users → ℕ → Text → Result StatusCode ℕ → Store → Result StatusCode Unit × Users × Store
  raise_epoch db now user_id (err e) s = (err e, db, s)
  raise_epoch db now user_id (ok old_epoch) s =
      let (r, s') =
        map_err (λ _. internal_server_error) (kv.del_prefix now (sess_prefix old_epoch)) s in
      (r, Map.insert db user_id (old_epoch + 1), s')

  unfoldable pub invalidate_user_sessions :
      Users → ℕ → Text → Store → Result StatusCode Unit × Users × Store
  unfolding raise_epoch
  invalidate_user_sessions db now user_id s =
      raise_epoch db now user_id (fetch_sess_epoch db user_id) s
