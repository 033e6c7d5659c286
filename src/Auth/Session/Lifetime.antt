-- ===== src/Auth/Session/Lifetime.antt =====
-- How long a session lives: the writes of `create_session` and of the sliding renewal, and what
-- a sequence of uses makes of them.
pub mod Uses
use lyra.Prelude.{
  ℕ, ◌+◌, ◌/◌, ◌≤◌, ◌<◌, ◌≡◌, refl, sym, subst, ◌∙◌, true, Option, none, some, List, [], ◌∷◌, Text,
  text_eq, text_eq_refl, arith, inl, inr, Option-cases, Bool-cases, ltb, if◌then◌else◌,
}
use native.Mathlib.Nat.{le_refl}
use lyra.Prelude.Map
use lyra.Prelude.Result.{ok}
use lyra.Kv.{KvStore, KvLaws, lives, from_secs}
use lyra.Auth.{session_ttl_secs, sess_key, tok_key, refresh_key}
use lyra.Auth.Keys.{tok-sess, sess-tok, refresh-tok, refresh-sess, tok-refresh, sess-refresh}
use lyra.Auth.Session.{Users, fetch_sess_epoch, create_session, get_session_exec, get_session}
use lyra.Auth.Session.Reads.{session_user, get_session-session_user}

abbrev half : ℕ
half = session_ttl_secs / 2

-- What is read of a value written at `w` for so many seconds.
abbrev for_secs : ℕ → ℕ → Text → ℕ → Option Text
for_secs w secs user_id u = if ltb u (w + from_secs secs) then some user_id else none

module _ (kv : KvStore) (laws : KvLaws kv) where
  open kv use {Store}
  open laws use {peek}

  module _ (db : Users) (user_id : Text) (epoch : ℕ) (token : Text) where
    -- The three keys of a session whose last burst of writes was at `w`, as read from `from` on.
    record Written (w from : ℕ) (s : Store) : Type 0 where
      tok : (u : ℕ) → from ≤ u → peek s u (tok_key token) ≡ for_secs w session_ttl_secs user_id u
      sess :
          (u : ℕ)
          → from ≤ u
          → peek s u (sess_key epoch token) ≡ for_secs w session_ttl_secs user_id u
      marker : (u : ℕ) → from ≤ u → peek s u (refresh_key token) ≡ for_secs w half user_id u

    create-Written :
        (now : ℕ) (s : Store)
        → Map.get db user_id ≡ some epoch
        → Written now now (create_session kv db now token user_id s).1
    unfolding create_session fetch_sess_epoch
    create-Written now s known =
        let s1 = (kv.set now (sess_key epoch token) user_id (some session_ttl_secs) s).1 in
        let s2 = (kv.set now (tok_key token) user_id (some session_ttl_secs) s1).1 in
        let r1 = laws.set_result now (sess_key epoch token) user_id (some session_ttl_secs) s in
        let r2 = laws.set_result now (tok_key token) user_id (some session_ttl_secs) s1 in
        let r3 = laws.set_result now (refresh_key token) user_id (some half) s2 in
        record {
          tok = λ u h. ground (
            arith,
            known,
            r1,
            r2,
            r3,
            refresh-tok token token,
            text_eq_refl (tok_key token),
            laws.set_peek now u (refresh_key token) user_id (some half) (tok_key token) s2 h,
            laws.set_peek now u (tok_key token) user_id (some session_ttl_secs) (tok_key token) s1
                h,
          );
          sess = λ u h. ground (
            arith,
            known,
            r1,
            r2,
            r3,
            refresh-sess token epoch token,
            tok-sess token epoch token,
            text_eq_refl (sess_key epoch token),
            laws.set_peek now u (refresh_key token) user_id (some half) (sess_key epoch token) s2 h,
            laws.set_peek now u (tok_key token) user_id (some session_ttl_secs)
                (sess_key epoch token) s1 h,
            laws.set_peek now u (sess_key epoch token) user_id (some session_ttl_secs)
                (sess_key epoch token) s h,
          );
          marker = λ u h. ground (
            arith,
            known,
            r1,
            r2,
            r3,
            text_eq_refl (refresh_key token),
            laws.set_peek now u (refresh_key token) user_id (some half) (refresh_key token) s2 h,
          );
        }

    module _ (now : ℕ) (s : Store) (known : Map.get db user_id ≡ some epoch) where
      s1 : Store
      s1 = (kv.get now (tok_key token) s).1

      s2 : Store
      unfolding s1
      s2 = (kv.get now (sess_key epoch token) s1).1

      s3 : Store
      unfolding s2
      s3 = (kv.get now (refresh_key token) s2).1

      s4 : Store
      unfolding s3
      s4 = (kv.set now (tok_key token) user_id (some session_ttl_secs) s3).1

      s5 : Store
      unfolding s4
      s5 = (kv.set now (sess_key epoch token) user_id (some session_ttl_secs) s4).1

      s6 : Store
      unfolding s5
      s6 = (kv.set now (refresh_key token) user_id (some half) s5).1

      peek-s3 : (u : ℕ) (j : Text) → now ≤ u → peek s3 u j ≡ peek s u j
      unfolding s3
      peek-s3 u j h = cc (
        laws.get_peek now u (tok_key token) j s h,
        laws.get_peek now u (sess_key epoch token) j (kv.get now (tok_key token) s).1 h,
        laws.get_peek now u (refresh_key token) j
            (kv.get now (sess_key epoch token) (kv.get now (tok_key token) s).1).1 h,
      )

      module _ (indexed : peek s now (tok_key token) ≡ some user_id)
          (stored : peek s now (sess_key epoch token) ≡ some user_id) where
        store_kept :
            (v : Text)
            → peek s now (refresh_key token) ≡ some v
            → (get_session kv db now token s).1 ≡ s3
        unfolding get_session get_session_exec fetch_sess_epoch s3
        store_kept v there = ground (
          arith,
          known,
          text_eq_refl user_id,
          laws.get_result now (tok_key token) s,
          laws.get_result now (sess_key epoch token) s1,
          laws.get_peek now now (tok_key token) (sess_key epoch token) s (le_refl now),
          laws.get_result now (refresh_key token) s2,
          laws.get_peek now now (tok_key token) (refresh_key token) s (le_refl now),
          laws.get_peek now now (sess_key epoch token) (refresh_key token) s1 (le_refl now),
        )

        store_renewed :
            peek s now (refresh_key token) ≡ none → (get_session kv db now token s).1 ≡ s6
        unfolding get_session get_session_exec fetch_sess_epoch s6
        store_renewed gone = ground (
          arith,
          known,
          text_eq_refl user_id,
          laws.get_result now (tok_key token) s,
          laws.get_result now (sess_key epoch token) s1,
          laws.get_peek now now (tok_key token) (sess_key epoch token) s (le_refl now),
          laws.get_result now (refresh_key token) s2,
          laws.get_peek now now (tok_key token) (refresh_key token) s (le_refl now),
          laws.get_peek now now (sess_key epoch token) (refresh_key token) s1 (le_refl now),
        )

      renewed-Written : Written now now s6
      unfolding s6
      renewed-Written = record {
        tok = λ u h. ground (
          arith,
          refresh-tok token token,
          sess-tok epoch token token,
          text_eq_refl (tok_key token),
          laws.set_peek now u (refresh_key token) user_id (some half) (tok_key token) s5 h,
          laws.set_peek now u (sess_key epoch token) user_id (some session_ttl_secs) (tok_key token)
              s4 h,
          laws.set_peek now u (tok_key token) user_id (some session_ttl_secs) (tok_key token) s3 h,
        );
        sess = λ u h. ground (
          arith,
          refresh-sess token epoch token,
          text_eq_refl (sess_key epoch token),
          laws.set_peek now u (refresh_key token) user_id (some half) (sess_key epoch token) s5 h,
          laws.set_peek now u (sess_key epoch token) user_id (some session_ttl_secs)
              (sess_key epoch token) s4 h,
        );
        marker = λ u h. ground (
          arith,
          text_eq_refl (refresh_key token),
          laws.set_peek now u (refresh_key token) user_id (some half) (refresh_key token) s5 h,
        );
      }

    user_of_Written :
        (w from u : ℕ) (s : Store)
        → Map.get db user_id ≡ some epoch
        → Written w from s
        → from ≤ u
        → session_user kv laws db s u token ≡ for_secs w session_ttl_secs user_id u
    user_of_Written w from u s known h p =
        ground (arith, known, h.tok u p, h.sess u p, text_eq_refl user_id)

    -- A use keeps the keys as they are, or writes them all again.
    use-Written :
        (w from now : ℕ) (s : Store)
        → Map.get db user_id ≡ some epoch
        → Written w from s
        → from ≤ now
        → w ≤ now
        → now < w + from_secs session_ttl_secs
        → (v : ℕ) × Written v now (get_session kv db now token s).1
          × (v ≤ now)
          × (now < v + from_secs half)
    use-Written w from now s known h p q r =
        let indexed : peek s now (tok_key token) ≡ some user_id = ground (arith, h.tok now p) in
        let stored : peek s now (sess_key epoch token) ≡ some user_id =
          ground (arith, h.sess now p) in
        elim (Bool-cases (ltb now (w + from_secs half))) [
          | inl early ↦
              let there : peek s now (refresh_key token) ≡ some user_id =
                ground (arith, h.marker now p) in
              let e = store_kept now s known indexed stored user_id there in
              (w, subst (Written w now) (sym e) (kept early), q, ground arith)
          | inr late ↦
              let gone : peek s now (refresh_key token) ≡ none = ground (arith, h.marker now p) in
              let e = store_renewed now s known indexed stored gone in
              (
                now,
                subst (Written now now) (sym e) (renewed-Written now s known),
                le_refl now,
                omega arith,
              )
        ]
      where
        kept : ltb now (w + from_secs half) ≡ true → Written w now (s3 now s known)
        kept early = record {
          tok = λ u a. peek-s3 now s known u (tok_key token) a ∙ h.tok u (omega arith);
          sess = λ u a. peek-s3 now s known u (sess_key epoch token) a ∙ h.sess u (omega arith);
          marker = λ u a. peek-s3 now s known u (refresh_key token) a ∙ h.marker u (omega arith);
        }
