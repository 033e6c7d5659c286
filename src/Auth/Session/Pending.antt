-- ===== src/Auth/Session/Pending.antt =====
-- A pending session, between the password and the second factor, is used once.
use lyra.Prelude.{ℕ, ◌/◌, ◌≤◌, ◌≡◌, none, some, Text, text_eq_refl, arith, inl, inr, Option-cases}
use lyra.Prelude.Map
use lyra.Prelude.Map.{get-insert}
use lyra.Prelude.Result.{ok}
use lyra.Kv.{KvStore, KvLaws}
use lyra.Auth.{session_ttl_secs, sess_key, tok_key, pending_key, refresh_key}
use lyra.Auth.Keys.{sess-pending, tok-pending, refresh-pending}
use lyra.Auth.Session.{
  Users, fetch_sess_epoch, create_session, get_pending_session, promote_pending_session,
}

module _ (kv : KvStore) (laws : KvLaws kv) where
  open kv use {Store}
  open laws use {peek}

  peek-create_session_pending :
      (db : Users) (now u : ℕ) (token user_id p : Text) (s : Store)
      → now ≤ u
      → peek (create_session kv db now token user_id s).1 u (pending_key p)
        ≡ peek s u (pending_key p)
  unfolding create_session fetch_sess_epoch
  peek-create_session_pending db now u token user_id p s h =
      elim (Option-cases (Map.get db user_id)) [
        | inl unknown ↦ ground arith
        | inr (epoch, known) ↦
            let a = some session_ttl_secs in
            let b = some (session_ttl_secs / 2) in
            let s1 = (kv.set now (sess_key epoch token) user_id a s).1 in
            let s2 = (kv.set now (tok_key token) user_id a s1).1 in
            ground (
              arith,
              sess-pending epoch token p,
              tok-pending token p,
              refresh-pending token p,
              laws.set_result now (sess_key epoch token) user_id a s,
              laws.set_result now (tok_key token) user_id a s1,
              laws.set_result now (refresh_key token) user_id b s2,
              laws.set_peek now u (sess_key epoch token) user_id a (pending_key p) s h,
              laws.set_peek now u (tok_key token) user_id a (pending_key p) s1 h,
              laws.set_peek now u (refresh_key token) user_id b (pending_key p) s2 h,
            )
      ]

  promoted_none :
      (db : Users) (u : ℕ) (pending again : Text) (s : Store)
      → peek s u (pending_key pending) ≡ none
      → (promote_pending_session kv db u pending again s).0 ≡ ok none
  unfolding promote_pending_session get_pending_session
  promoted_none db u pending again s gone =
      ground (arith, laws.get_result u (pending_key pending) s)

  -- The key of a pending session does not outlive a promotion, successful or not.
  pending_gone :
      (db : Users) (now u : ℕ) (pending token : Text) (s : Store)
      → now ≤ u
      → peek (promote_pending_session kv db now pending token s).1 u (pending_key pending) ≡ none
  unfolding promote_pending_session get_pending_session
  pending_gone db now u pending token s h =
      let s1 = (kv.get now (pending_key pending) s).1 in
      let s2 = (kv.del now (pending_key pending) s1).1 in
      elim (Option-cases (peek s now (pending_key pending))) [
        | inl missing ↦ ground (
          arith,
          laws.get_result now (pending_key pending) s,
          laws.get_peek now u (pending_key pending) (pending_key pending) s h,
          laws.peek_expired s now u (pending_key pending) h,
        )
        | inr (user_id, there) ↦ ground (
          arith,
          laws.get_result now (pending_key pending) s,
          laws.del_result now (pending_key pending) s1,
          laws.del_peek now u (pending_key pending) (pending_key pending) s1 h,
          text_eq_refl (pending_key pending),
          peek-create_session_pending db now u token user_id pending s2 h,
        )
      ]

  -- A pending session can be promoted once: whatever the first call answered, a later one with the
  -- same pending token finds nothing.
  pub promote_pending_session_once :
      (db : Users) (now u : ℕ) (pending token again : Text) (s : Store)
      → now ≤ u
      → (promote_pending_session kv db u pending again
          (promote_pending_session kv db now pending token s).1).0
        ≡ ok none
  promote_pending_session_once db now u pending token again s h =
      promoted_none db u pending again _ (pending_gone db now u pending token s h)
