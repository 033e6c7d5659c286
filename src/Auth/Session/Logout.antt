-- ===== src/Auth/Session/Logout.antt =====
-- What ends a session: logging out, and raising the user's epoch.
use lyra.Prelude.{
  ℕ, ◌+◌, ◌≤◌, ◌≡◌, sym, ◌∙◌, false, none, some, Text, text_eq, text_eq_refl, arith, inl, inr,
  Option-cases, ◌==◌, if◌then◌else◌,
}
use lyra.Prelude.Map
use lyra.Prelude.Map.{get-insert}
use lyra.Prelude.Result.{ok}
use lyra.Kv.{KvStore, KvLaws}
use lyra.Auth.{sess_prefix, sess_key, tok_key, refresh_key}
use lyra.Auth.Keys.{
  sess-tok, refresh-tok, refresh-sess, tok-sess, tok-tok, sess-sess_ne, sess-starts_iff,
  tok-sess_prefix,
}
use lyra.Auth.Session.{
  Users, fetch_sess_epoch, get_session, drop_session, remove_session, invalidate_user_sessions,
}
use lyra.Auth.Session.Reads.{session_user, session_user-cong, get_session-session_user}

module _ (kv : KvStore) (laws : KvLaws kv) where
  open kv use {Store}
  open laws use {peek}

  -- Dropping the epoch's key leaves every other token's keys, and all reverse indices.
  peek-drop_session :
      (db : Users) (now u : ℕ) (token j : Text) (s : Store)
      → now ≤ u
      → ((e : ℕ) → text_eq (sess_key e token) j ≡ false)
      → peek (drop_session kv db now token s).1 u j ≡ peek s u j
  unfolding drop_session fetch_sess_epoch
  peek-drop_session db now u token j s h apart =
      let get_tok = laws.get_peek now u (tok_key token) j s h in
      elim (Option-cases (peek s now (tok_key token))) [
        | inl missing ↦ ground (arith, laws.get_result now (tok_key token) s)
        | inr (user_id, indexed) ↦ elim (Option-cases (Map.get db user_id)) [
          | inl unknown ↦ ground (arith, laws.get_result now (tok_key token) s)
          | inr (epoch, known) ↦ ground (
            arith,
            apart epoch,
            laws.get_result now (tok_key token) s,
            laws.del_peek now u (sess_key epoch token) j (kv.get now (tok_key token) s).1 h,
          )
        ]
      ]

  module _ (db : Users) (now u : ℕ) (token : Text) (s : Store) (h : now ≤ u) where
    s1 : Store
    s1 = (drop_session kv db now token s).1

    s2 : Store
    s2 = (kv.del now (tok_key token) s1).1

    peek-remove_session :
        (j : Text)
        → ((e : ℕ) → text_eq (sess_key e token) j ≡ false)
        → text_eq (tok_key token) j ≡ false
        → text_eq (refresh_key token) j ≡ false
        → peek (remove_session kv db now token s) u j ≡ peek s u j
    unfolding remove_session s1 s2
    peek-remove_session j a b c = ground (
      arith,
      laws.del_peek now u (refresh_key token) j s2 h,
      laws.del_peek now u (tok_key token) j s1 h,
      peek-drop_session db now u token j s h a,
    )

    tok_removed : peek (remove_session kv db now token s) u (tok_key token) ≡ none
    unfolding remove_session s1 s2
    tok_removed = ground (
      arith,
      laws.del_peek now u (refresh_key token) (tok_key token) s2 h,
      laws.del_peek now u (tok_key token) (tok_key token) s1 h,
      text_eq_refl (tok_key token),
    )

    -- After a logout the token answers no user.
    pub remove_session_ends :
        (get_session kv db u token (remove_session kv db now token s)).0 ≡ none
    remove_session_ends =
        get_session-session_user kv laws db u token _ ∙ ground (arith, tok_removed)

    -- A logout changes nothing for any other token: it answers what it answered before.
    pub remove_session_others :
        (other : Text)
        → text_eq token other ≡ false
        → (get_session kv db u other (remove_session kv db now token s)).0
          ≡ (get_session kv db u other s).0
    remove_session_others other ne =
        get_session-session_user kv laws db u other _
        ∙ same_user_read
        ∙ sym (get_session-session_user kv laws db u other s)
      where
        same_tok :
            peek (remove_session kv db now token s) u (tok_key other) ≡ peek s u (tok_key other)
        same_tok =
            peek-remove_session (tok_key other) (λ e. sess-tok e token other)
              (tok-tok token other ∙ ne) (refresh-tok token other)

        same_sess :
            (e : ℕ)
            → peek (remove_session kv db now token s) u (sess_key e other)
              ≡ peek s u (sess_key e other)
        same_sess e =
            peek-remove_session (sess_key e other) (λ d. sess-sess_ne d e token other ne)
              (tok-sess token e other) (refresh-sess token e other)

        same_user_read :
            session_user kv laws db (remove_session kv db now token s) u other
            ≡ session_user kv laws db s u other
        same_user_read = session_user-cong kv laws db _ s u other same_tok same_sess

  module _ (db : Users) (now : ℕ) (user_id : Text) (epoch : ℕ) (s : Store)
      (known : Map.get db user_id ≡ some epoch) where
    -- Invalidating a known user's sessions succeeds, raises that user's epoch by one and no other's,
    -- and from then on no session key of the old epoch is readable, while every session key of any
    -- other epoch reads as before.
    pub invalidate_user_sessions_lem :
        (u e : ℕ) (token other : Text)
        → now ≤ u
        → ((invalidate_user_sessions kv db now user_id s).0 ≡ ok tt)
          × (fetch_sess_epoch (invalidate_user_sessions kv db now user_id s).1 other
              ≡ (if text_eq user_id other then ok (epoch + 1) else fetch_sess_epoch db other))
          × (peek (invalidate_user_sessions kv db now user_id s).2 u (sess_key e token)
              ≡ (if e == epoch then none else peek s u (sess_key e token)))
    unfolding invalidate_user_sessions fetch_sess_epoch
    invalidate_user_sessions_lem u e token other h = (
      ground (arith, known, laws.del_prefix_result now (sess_prefix epoch) s),
      ground (arith, known, get-insert db user_id other (epoch + 1)),
      ground (
        arith,
        known,
        laws.del_prefix_peek now u (sess_prefix epoch) (sess_key e token) s h,
        sess-starts_iff e epoch token,
      ),
    )

    tok_kept :
        (u : ℕ) (token : Text)
        → now ≤ u
        → peek (invalidate_user_sessions kv db now user_id s).2 u (tok_key token)
          ≡ peek s u (tok_key token)
    unfolding invalidate_user_sessions fetch_sess_epoch
    tok_kept u token h = ground (
      arith,
      known,
      tok-sess_prefix token epoch,
      laws.del_prefix_peek now u (sess_prefix epoch) (tok_key token) s h,
    )

    epoch_kept :
        (other : Text)
        → text_eq user_id other ≡ false
        → Map.get (invalidate_user_sessions kv db now user_id s).1 other ≡ Map.get db other
    unfolding invalidate_user_sessions fetch_sess_epoch
    epoch_kept other ne = ground (arith, known, ne, get-insert db user_id other (epoch + 1))

    -- Invalidating a known user's sessions also ends every session of another user whose epoch is the
    -- same: from then on that user's tokens answer no user.
    pub invalidation_ends_others :
        (u : ℕ) (token other : Text)
        → now ≤ u
        → text_eq user_id other ≡ false
        → Map.get db other ≡ some epoch
        → peek s u (tok_key token) ≡ some other
        → (get_session kv
            (invalidate_user_sessions kv db now user_id s).1
            u
            token
            (invalidate_user_sessions kv db now user_id s).2).0
          ≡ none
    invalidation_ends_others u token other h ne same indexed =
        get_session-session_user kv laws _ u token _
        ∙ ground (
          arith,
          indexed,
          same,
          tok_kept u token h,
          epoch_kept other ne,
          (invalidate_user_sessions_lem u epoch token other h).2,
        )
