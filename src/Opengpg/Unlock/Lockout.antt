-- ===== src/Opengpg/Unlock/Lockout.antt =====
-- Refused passphrases one after another, as the limiter of backend/src/opengpg/http.rs counts them.
use lyra.Prelude.{
  ℕ, ◌+◌, ◌≤◌, ◌≡◌, ◌∙◌, ap, Bool, true, ◌&&◌, none, List, [], ◌∷◌, Text, arith, inl, inr, ◌↔◌,
  Bool-cases, leb, ltb, if◌then◌else◌,
}
use lyra.Prelude.Result.{err}
use lyra.Kv.{KvStore, KvLaws}
use lyra.Opengpg.Session.{UnlockRing}
use lyra.Opengpg.Unlock.{
  KeyServices, too_many_requests, UnlockRequest, State, unlock_key, check_unlock,
  ensure_unlock_allowed, unlock_rl_key,
}
use lyra.Opengpg.Unlock.Refusals.{unlock_limited_iff}
use lyra.Opengpg.Unlock.Limit.{
  window, is_wrong, Counts, ensure_lem, ensure_fresh, Keeps-ensure, note_fresh, note_next,
  check_wrong, check_limited, unlock_store,
}

module _ (kv : KvStore) (laws : KvLaws kv) (sv : KeyServices) (token : Text) where
  open kv use {Store}
  open laws use {peek}

  abbrev key : Text
  key = unlock_rl_key token

  -- How many failures are counted after a wrong request at `t`, where `n` were and the last was at
  -- `from`; and when the last of them was.
  unfoldable pub next_count : ℕ → ℕ → ℕ → ℕ
  next_count n from t = if ltb t (from + window) then (if leb 5 n then n else n + 1) else 1

  unfoldable pub next_from : ℕ → ℕ → ℕ → ℕ
  next_from n from t = if ltb t (from + window) && leb 5 n then from else t

  check-Counts :
      (n from since t : ℕ) (user_id : Text) (body : UnlockRequest) (s : Store)
      → Counts kv laws sv token n from since s
      → since ≤ t
      → is_wrong kv laws sv token user_id body ≡ true
      → Counts kv laws sv token
          (next_count n from t)
          (next_from n from t)
          t
          (check_unlock kv sv t user_id token body s).1
  unfolding next_count next_from
  check-Counts n from since t user_id body s c p wrong =
      let checked = (ensure_unlock_allowed kv sv t token s).1 in
      let answers = ensure_lem kv laws sv token n from since t s c p in
      let kept : (u : ℕ) → t ≤ u → peek checked u key ≡ peek s u key =
        λ u q. (Keeps-ensure kv laws sv token t key).unchanged s u q in
      elim (Bool-cases (ltb t (from + window))) [
        | inl open_now ↦ elim (Bool-cases (leb 5 n)) [
          | inl full ↦
              let shut =
                check_limited kv laws sv token t user_id body s
                  (ground (arith, answers, open_now, full)) in
              rw (open_now, full, ap (λ r. r.1) shut)
                (record { read = λ u q. kept u q ∙ c.read u (omega arith); few = c.few })
          | inr room ↦
              let noted =
                check_wrong kv laws sv token t user_id body s wrong
                  (ground (arith, answers, open_now, room)) in
              rw (open_now, room, noted)
                (note_next kv laws sv token n t checked
                  (kept t (omega arith) ∙ ground (arith, c.read t p, open_now))
                  (ground (arith, room)))
        ]
        | inr over ↦
            let noted =
              check_wrong kv laws sv token t user_id body s wrong (ground (arith, answers, over)) in
            rw (over, noted)
              (note_fresh kv laws sv token t checked
                (kept t (omega arith) ∙ ground (arith, c.read t p, over)))
      ]

  -- A request for an unlock: when, whose, and what.
  pub record Try : Type 0 where
    pub at : ℕ
    pub user_id : Text
    pub body : UnlockRequest

  pub tries : List Try → State kv sv → State kv sv
  tries [] state = state
  tries (y ∷ ys) state = tries ys (unlock_key kv sv y.at y.user_id token y.body state).1

  abbrev pub WrongFrom : ℕ → List Try → Type 0
  WrongFrom from [] = Unit
  WrongFrom from (y ∷ ys) =
      (from ≤ y.at) × (is_wrong kv laws sv token y.user_id y.body ≡ true) × WrongFrom y.at ys

  abbrev pub last_at : ℕ → List Try → ℕ
  last_at t [] = t
  last_at t (y ∷ ys) = last_at y.at ys

  -- Whether a session is shut out at `u` after further wrong requests.
  unfoldable pub shut_out : ℕ → ℕ → List Try → ℕ → Bool
  shut_out n from [] u = leb 5 n && ltb u (from + window)
  shut_out n from (y ∷ ys) u = shut_out (next_count n from y.at) (next_from n from y.at) ys u

  shut_after :
      (n from since : ℕ) (ys : List Try) (y : Try) (s : Store) (rings : UnlockRing)
      → Counts kv laws sv token n from since s
      → WrongFrom since ys
      → last_at since ys ≤ y.at
      → ((unlock_key kv sv y.at y.user_id token y.body (tries ys (s, rings))).0
          ≡ err too_many_requests)
        ↔ (shut_out n from ys y.at ≡ true)
  unfolding tries shut_out
  shut_after n from since [] y s rings c w p =
      unlock_limited_iff kv laws sv token y.at y.user_id y.body s rings
        (leb 5 n && ltb y.at (from + window)) (ensure_lem kv laws sv token n from since y.at s c p)
  shut_after n from since (x ∷ ys) y s rings c w p =
      let state = (unlock_key kv sv x.at x.user_id token x.body (s, rings)).1 in
      let same = unlock_store kv laws sv token x.at x.user_id x.body s rings in
      let counts = check-Counts n from since x.at x.user_id x.body s c w.0 w.1 in
      shut_after (next_count n from x.at) (next_from n from x.at) x.at ys y state.0 state.1
        (rw same counts) w.2 p

  first_try :
      (t : ℕ) (user_id : Text) (body : UnlockRequest) (s : Store)
      → peek s t key ≡ none
      → is_wrong kv laws sv token user_id body ≡ true
      → Counts kv laws sv token 1 t t (check_unlock kv sv t user_id token body s).1
  first_try t user_id body s fresh wrong =
      let kept = (Keeps-ensure kv laws sv token t key).unchanged s t (omega arith) in
      let noted =
        check_wrong kv laws sv token t user_id body s wrong
          (ensure_fresh kv laws sv token t s fresh) in
      rw noted (note_fresh kv laws sv token t _ (kept ∙ fresh))

  -- Unlock requests with a refused passphrase in one session, in order, the first at a moment when
  -- no failure is counted: a later request of the session, whatever its passphrase, is refused for
  -- too many requests exactly when five failures are counted and less than 15 minutes have passed
  -- since the last of them. A failure is counted unless five are; one that comes 15 minutes or more
  -- after the last counted one starts again at one.
  pub unlock_guessing_locks :
      (x y : Try) (ys : List Try) (s : Store) (rings : UnlockRing)
      → peek s x.at key ≡ none
      → is_wrong kv laws sv token x.user_id x.body ≡ true
      → WrongFrom x.at ys
      → last_at x.at ys ≤ y.at
      → ((unlock_key kv sv y.at y.user_id token y.body (tries (x ∷ ys) (s, rings))).0
          ≡ err too_many_requests)
        ↔ (shut_out 1 x.at ys y.at ≡ true)
  unfolding tries
  unlock_guessing_locks x y ys s rings fresh wrong w p =
      let state = (unlock_key kv sv x.at x.user_id token x.body (s, rings)).1 in
      let same = unlock_store kv laws sv token x.at x.user_id x.body s rings in
      let counts = first_try x.at x.user_id x.body s fresh wrong in
      shut_after 1 x.at x.at ys y state.0 state.1 (rw same counts) w p
