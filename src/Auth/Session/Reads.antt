-- ===== src/Auth/Session/Reads.antt =====
-- What a token resolves to, stated by what can be read from the store, and that `get_session`
-- answers it.
use lyra.Prelude.{
  ℕ, ◌≡◌, Option, none, some, Text, text_eq, arith, inl, inr, Option-cases, if◌then◌else◌,
}
use native.Mathlib.Nat.{le_refl}
use lyra.Prelude.Map
use lyra.Kv.{KvStore, KvLaws}
use lyra.Auth.{sess_key, tok_key}
use lyra.Auth.Session.{Users, fetch_sess_epoch, get_session_exec, get_session}

module _ (kv : KvStore) (laws : KvLaws kv) where
  open kv use {Store}
  open laws use {peek}

  abbrev same_user : Text → Option Text → Option Text
  same_user user_id none = none
  same_user user_id (some stored) = if text_eq stored user_id then some user_id else none

  abbrev at_epoch : Store → ℕ → Text → Text → Option ℕ → Option Text
  at_epoch s t token user_id none = none
  at_epoch s t token user_id (some epoch) = same_user user_id (peek s t (sess_key epoch token))

  abbrev of_token : Users → Store → ℕ → Text → Option Text → Option Text
  of_token db s t token none = none
  of_token db s t token (some user_id) = at_epoch s t token user_id (Map.get db user_id)

  -- The user of a token at a moment: the one in its reverse index, if the key at that user's present
  -- epoch names the same user.
  abbrev pub session_user : Users → Store → ℕ → Text → Option Text
  session_user db s t token = of_token db s t token (peek s t (tok_key token))

  pub get_session-session_user :
      (db : Users) (now : ℕ) (token : Text) (s : Store)
      → (get_session kv db now token s).0 ≡ session_user db s now token
  unfolding get_session get_session_exec fetch_sess_epoch
  get_session-session_user db now token s = elim (Option-cases (peek s now (tok_key token))) [
    | inl missing ↦ ground (arith, laws.get_result now (tok_key token) s)
    | inr (user_id, indexed) ↦ elim (Option-cases (Map.get db user_id)) [
      | inl unknown ↦ ground (arith, laws.get_result now (tok_key token) s)
      | inr (epoch, known) ↦ ground (
        arith,
        laws.get_result now (tok_key token) s,
        laws.get_result now (sess_key epoch token) (kv.get now (tok_key token) s).1,
        laws.get_peek now now (tok_key token) (sess_key epoch token) s (le_refl now),
      )
    ]
  ]

  -- What a token answers depends on its own keys alone.
  pub session_user-cong :
      (db : Users) (s t : Store) (u : ℕ) (token : Text)
      → peek s u (tok_key token) ≡ peek t u (tok_key token)
      → ((e : ℕ) → peek s u (sess_key e token) ≡ peek t u (sess_key e token))
      → session_user db s u token ≡ session_user db t u token
  session_user-cong db s t u token same_tok same_sess =
      elim (Option-cases (peek t u (tok_key token))) [
        | inl missing ↦ ground (arith, same_tok)
        | inr (user_id, indexed) ↦ elim (Option-cases (Map.get db user_id)) [
          | inl unknown ↦ ground (arith, same_tok)
          | inr (epoch, known) ↦ ground (arith, same_tok, same_sess epoch)
        ]
      ]
