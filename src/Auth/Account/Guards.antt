-- ===== src/Auth/Account/Guards.antt =====
-- The guards of the account handlers of backend/src/auth/handlers.rs: the current password, and the
-- unique row of the user table.
use lyra.Prelude.{
  ℕ, ◌≡◌, Bool, true, false, Option, none, some, Text, codes, arith, inl, inr, Bool-cases,
  Option-cases,
}
use lyra.Prelude.Result.{Result, ok, err, Result-cases}
use lyra.Kv.{KvStore}
use lyra.Auth.{AuthError, pwd_rl_key, unauthorized}
use lyra.Auth.RateLimit.{ensure_not_rate_limited, note_failed_attempt}
use lyra.Auth.Login.{ensure_captcha}
use lyra.Auth.Users.{validate_password, UserData, Db, find_user_by_id, has_any_user, insert_user}
use lyra.Auth.Account.{
  AccountServices, BootstrapRequest, or_err, confirm, reauthenticate, totp_disable, change_password,
  create_first, auth_bootstrap, bootstrap, add_user, bootstrap_taken, check_username, refused,
}

abbrev is_yes : Option Bool → Bool
is_yes none = false
is_yes (some valid) = valid

abbrev pub is_err : {E A : Type 0} → Result E A → Bool
is_err (ok a) = false
is_err (err e) = true

module _ (kv : KvStore) (sv : AccountServices) where
  open kv use {Store}

  right_hash : Text → Option Text → Bool
  right_hash password none = false
  right_hash password (some hash) = is_yes (sv.login.verify_password password hash)

  right_user : Text → Option UserData → Bool
  unfolding right_hash
  right_user password none = false
  right_user password (some user) = right_hash password user.password_hash

  -- Whether a password is the current one of a user.
  unfoldable pub is_current : Db → Text → Text → Bool
  unfolding right_user
  is_current db user_id password = right_user password (find_user_by_id db user_id)

  abbrev op : Text
  op = codes "Verification failed"

  reauthenticate_wrong :
      (now : ℕ) (user_id password : Text) (refusal : AuthError) (s : Store) (db : Db)
      → is_current db user_id password ≡ false
      → (is_err (reauthenticate kv sv now user_id password refusal (s, db)).0 ≡ true)
        × ((reauthenticate kv sv now user_id password refusal (s, db)).1.1 ≡ db)
  unfolding reauthenticate or_err confirm is_current right_user right_hash
  reauthenticate_wrong now user_id password refusal s db h =
      elim (Result-cases (ensure_not_rate_limited kv now (pwd_rl_key user_id) op s).0) [
        | inr (x, e) ↦ (ground (arith, e), ground (arith, e))
        | inl (u, e) ↦ elim (Option-cases (find_user_by_id db user_id)) [
          | inl f ↦ (ground (arith, e, f), ground (arith, e, f))
          | inr (user, f) ↦ elim (Option-cases user.password_hash) [
            | inl g ↦ (ground (arith, e, f, g), ground (arith, e, f, g))
            | inr (hash, g) ↦ elim (Option-cases (sv.login.verify_password password hash)) [
              | inl v ↦ (ground (arith, e, f, g, v), ground (arith, e, f, g, v))
              | inr (valid, v) ↦ elim (Bool-cases valid) [
                | inl yes_valid ↦
                    absurd
                      (let impossible : ⊥ = ground (arith, h, f, g, v, yes_valid) in impossible)
                | inr wrong ↦
                    elim (Result-cases
                      (note_failed_attempt kv now (pwd_rl_key user_id) op
                        (ensure_not_rate_limited kv now (pwd_rl_key user_id) op s).1).0) [
                          | inl (a, r) ↦ (
                            ground (arith, e, f, g, v, wrong, r),
                            ground (arith, e, f, g, v, wrong, r),
                          )
                          | inr (x, r) ↦ (
                            ground (arith, e, f, g, v, wrong, r),
                            ground (arith, e, f, g, v, wrong, r),
                          )
                        ]
              ]
            ]
          ]
        ]
      ]

  -- Without a user's current password, neither a change of the password nor the removal of the second
  -- factor succeeds, and neither changes the table: no row, and no session epoch.
  pub wrong_password_changes_nothing :
      (now : ℕ) (user_id password new_password : Text) (s : Store) (db : Db)
      → is_current db user_id password ≡ false
      → (is_err (change_password kv sv now user_id password new_password (s, db)).0 ≡ true)
        × ((change_password kv sv now user_id password new_password (s, db)).1.1 ≡ db)
        × (is_err (totp_disable kv sv now user_id password (s, db)).0 ≡ true)
        × ((totp_disable kv sv now user_id password (s, db)).1.1 ≡ db)
  unfolding change_password totp_disable
  wrong_password_changes_nothing now user_id password new_password s db h =
      let first = unauthorized (codes "Current password is incorrect") in
      let second = unauthorized (codes "Invalid password") in
      let (a, b) = reauthenticate_wrong now user_id password first s db h in
      let (c, d) = reauthenticate_wrong now user_id password second s db h in
      elim (Result-cases (reauthenticate kv sv now user_id password first (s, db)).0) [
        | inl (u, e) ↦ absurd (let impossible : ⊥ = ground (arith, a, e) in impossible)
        | inr (x, e) ↦
            elim (Result-cases (reauthenticate kv sv now user_id password second (s, db)).0) [
              | inl (u, f) ↦ absurd (let impossible : ⊥ = ground (arith, c, f) in impossible)
              | inr (y, f) ↦ (
                ground (arith, e, b),
                ground (arith, e, b),
                ground (arith, f, d),
                ground (arith, f, d),
              )
            ]
      ]

  create_first_taken :
      (now : ℕ) (req : BootstrapRequest) (user_id token : Text) (s : Store) (db : Db)
      → has_any_user db ≡ true
      → (is_err (create_first kv sv now req user_id token (s, db)).0 ≡ true)
        × ((create_first kv sv now req user_id token (s, db)).1 ≡ (s, db))
  unfolding create_first or_err add_user insert_user
  create_first_taken now req user_id token s db h =
      elim (Result-cases (ensure_captcha sv.login.captcha req.captcha_token)) [
        | inr (x, a) ↦ (ground (arith, a), ground (arith, a))
        | inl (u, a) ↦ elim (Result-cases (check_username req.username)) [
          | inr (x, b) ↦ (ground (arith, a, b), ground (arith, a, b))
          | inl (v, b) ↦
              elim (Result-cases
                (refused sv.describe (validate_password req.password sv.min_password_length))) [
                  | inr (x, c) ↦ (ground (arith, a, b, c), ground (arith, a, b, c))
                  | inl (w, c) ↦ elim (Option-cases (sv.login.hash_password req.password)) [
                    | inl d ↦ (ground (arith, a, b, c, d), ground (arith, a, b, c, d))
                    | inr (hash, d) ↦ elim (Option-cases (sv.wrap_dek user_id)) [
                      | inl e ↦ (ground (arith, a, b, c, d, e), ground (arith, a, b, c, d, e))
                      | inr (key, e) ↦
                          (ground (arith, a, b, c, d, e, h), ground (arith, a, b, c, d, e, h))
                    ]
                  ]
                ]
        ]
      ]

  -- Once there is a user, no bootstrap succeeds and none changes the table: neither a new one nor one
  -- that had looked at the table while it was empty.
  pub bootstrap_once :
      (now : ℕ) (req : BootstrapRequest) (user_id token : Text) (s : Store) (db : Db)
      → has_any_user db ≡ true
      → (auth_bootstrap kv sv now req user_id token (s, db) ≡ (err bootstrap_taken, (s, db)))
        × (is_err (create_first kv sv now req user_id token (s, db)).0 ≡ true)
        × ((create_first kv sv now req user_id token (s, db)).1 ≡ (s, db))
  unfolding auth_bootstrap bootstrap
  bootstrap_once now req user_id token s db h =
      let (a, b) = create_first_taken now req user_id token s db h in (ground (arith, h), a, b)
