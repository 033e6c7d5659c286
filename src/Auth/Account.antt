-- ===== src/Auth/Account.antt =====
-- The account handlers of backend/src/auth/handlers.rs: bootstrap, change of password, and the second
-- factor switched on and off, over the store and the rows of `lyra_user`. A fresh id, token or secret
-- is an argument.
pub mod Guards
use lyra.Prelude.{
  ℕ, ◌||◌, Bool, true, false, Option, none, some, Text, codes, utf8_len, ltb, if◌then◌else◌,
}
use lyra.Prelude.Trim.{is_empty}
use lyra.Prelude.Result.{Result, ok, err}
use lyra.Prelude.Exec.{Exec, pure, fail, lift, map_err, ◌>>=◌, ◌>>◌}
use lyra.Kv.{KvStore}
use lyra.Auth.{
  StatusCode, AuthError, bad_request, unauthorized, conflict, internal, crypto, pwd_rl_key,
  login_rl_key,
}
use lyra.Auth.RateLimit.{ensure_not_rate_limited, note_failed_attempt, clear_failed_attempts}
use lyra.Auth.Session.{create_session, invalidate_user_sessions}
use lyra.Auth.Users.{
  UserData, UserInfo, user_info_from, Db, find_user_by_id, update_user_totp, update_user_password,
  has_any_user, insert_user, PasswordError, validate_password,
}
use lyra.Auth.Totp.{Totp, as_secs, or_fail}
use lyra.Auth.Login.{LoginServices, LoginResponse, ensure_captcha}

pub record BootstrapRequest : Type 0 where
  pub username : Text
  pub password : Text
  pub display_name : Option Text
  pub locale : Option Text
  pub captcha_token : Option Text

-- `describe` is the text of a refused password, `wrap_dek` makes and seals a user's key, `encrypt_totp_secret` seals a secret with the user's
-- key, and `check_current` is the library's test of a code at a second.
pub record AccountServices : Type 0 where
  pub login : LoginServices
  pub min_password_length : ℕ
  pub describe : PasswordError → Text
  pub wrap_dek : Text → Option Text
  pub encrypt_totp_secret : Text → Text → Option Text
  pub check_current : Totp → Text → ℕ → Bool

or_err : {A : Type 0} → AuthError → Option A → Result AuthError A
or_err e none = err e
or_err e (some a) = ok a

abbrev pub bootstrap_taken : AuthError
bootstrap_taken =
    conflict (codes "A user already exists. Bootstrap is only available for first-time setup.")

abbrev map_ok : {A B : Type 0} → (A → B) → Result AuthError A → Result AuthError B
map_ok f (ok a) = ok (f a)
map_ok f (err e) = err e

or_en : Option Text → Text
or_en none = codes "en"
or_en (some locale) = locale

-- The length of a name is that of its UTF-8 form.
check_username : Text → Result AuthError Unit
check_username username =
    if is_empty username || ltb 64 (utf8_len username)
    then err (bad_request (codes "Username must be between 1 and 64 characters"))
    else ok tt

refused : (PasswordError → Text) → Result PasswordError Unit → Result AuthError Unit
refused describe (ok u) = ok tt
refused describe (err e) = err (bad_request (describe e))

module _ (kv : KvStore) (sv : AccountServices) where
  open kv use {Store}

  -- The store and the table.
  abbrev pub State : Type 0
  State = Store × Db

  abbrev pub on_store : {A : Type 0} → Exec Store AuthError A → Exec State AuthError A
  on_store m (s, db) = let (r, s') = m s in (r, (s', db))

  abbrev pub read_db : {A : Type 0} → (Db → Result AuthError A) → Exec State AuthError A
  read_db f (s, db) = (f db, (s, db))

  abbrev pub write_db : (Db → Db) → Exec State AuthError Unit
  write_db f (s, db) = (ok tt, (s, f db))

  confirm : ℕ → Text → AuthError → Bool → Exec Store AuthError Unit
  confirm now rl_key refusal true = clear_failed_attempts kv now rl_key
  confirm now rl_key refusal false = do
    note_failed_attempt kv now rl_key (codes "Verification failed")
    fail refusal

  -- The check of the current password, which both handlers make before they write.
  unfoldable pub reauthenticate : ℕ → Text → Text → AuthError → Exec State AuthError UserData
  unfolding or_err confirm
  reauthenticate now user_id password refusal = do
    on_store (ensure_not_rate_limited kv now (pwd_rl_key user_id) (codes "Verification failed"))
    user ← read_db (λ db. or_err (internal (codes "User not found")) (find_user_by_id db user_id))
    hash ← lift (or_err (internal (codes "Password hash not available")) user.password_hash)
    valid ←
        lift
          (or_err (internal (codes "Verification failed")) (sv.login.verify_password password hash))
    on_store (confirm now (pwd_rl_key user_id) refusal valid)
    pure user

  unfoldable pub totp_disable : ℕ → Text → Text → Exec State AuthError Unit
  totp_disable now user_id password = do
    reauthenticate now user_id password (unauthorized (codes "Invalid password"))
    write_db (update_user_totp user_id none false)

  end_sessions : ℕ → Text → Exec State AuthError Unit
  end_sessions now user_id (s, db) =
      let (r, epochs, s') = invalidate_user_sessions kv db.epochs now user_id s in
      (map_err (λ _. internal (codes "Failed to invalidate sessions")) (lift r)
        (s', record db { epochs = epochs }))

  unfoldable pub change_password : ℕ → Text → Text → Text → Exec State AuthError Unit
  unfolding refused or_err end_sessions
  change_password now user_id current_password new_password = do
    user ←
        reauthenticate now user_id current_password
          (unauthorized (codes "Current password is incorrect"))
    lift (refused sv.describe (validate_password new_password sv.min_password_length))
    new_hash ←
        lift (
          or_err (internal (codes "Failed to hash password")) (sv.login.hash_password new_password))
    write_db (update_user_password user_id new_hash)
    end_sessions now user_id
    on_store (clear_failed_attempts kv now (login_rl_key user.username))

  add_user : UserData → Exec State AuthError Unit
  add_user user (s, db) = elim (insert_user user db) [
    | none ↦ (err bootstrap_taken, (s, db))
    | some db' ↦ (ok tt, (s, db'))
  ]

  open_first : ℕ → Text → UserData → Exec State AuthError LoginResponse
  open_first now token user (s, db) =
      let (made, s') =
        map_err (λ _. internal (codes "Failed to create session"))
          (create_session kv db.epochs now token user.id) s in
      (
        map_ok (λ t. record { token = t; user = user_info_from user; requires_totp = false }) made,
        (s', db),
      )

  abbrev new_user : BootstrapRequest → Text → Text → UserData
  new_user req user_id password_hash = record {
    id = user_id;
    username = req.username;
    password_hash = some password_hash;
    totp_enabled = false;
    totp_secret = none;
    display_name = req.display_name;
    locale = or_en req.locale;
    mark_read_policy = codes "on_open";
  }

  -- What follows the first look at the table; another bootstrap can come between.
  unfoldable pub create_first :
      ℕ → BootstrapRequest → Text → Text → Exec State AuthError LoginResponse
  unfolding check_username refused or_err add_user open_first or_en
  create_first now req user_id token = do
    lift (ensure_captcha sv.login.captcha req.captcha_token)
    lift (check_username req.username)
    lift (refused sv.describe (validate_password req.password sv.min_password_length))
    password_hash ←
        lift (
          or_err (internal (codes "Failed to hash password")) (sv.login.hash_password req.password))
    lift (or_err crypto (sv.wrap_dek user_id))
    add_user (new_user req user_id password_hash)
    open_first now token (new_user req user_id password_hash)

  bootstrap : Bool → ℕ → BootstrapRequest → Text → Text → Exec State AuthError LoginResponse
  bootstrap true now req user_id token = fail bootstrap_taken
  bootstrap false now req user_id token = create_first now req user_id token

  unfoldable pub auth_bootstrap :
      ℕ → BootstrapRequest → Text → Text → Exec State AuthError LoginResponse
  unfolding bootstrap
  auth_bootstrap now req user_id token (s, db) =
      bootstrap (has_any_user db) now req user_id token (s, db)

  not_enabled : UserData → Result AuthError Unit
  not_enabled user =
      if user.totp_enabled
      then err (conflict (codes "TOTP is already enabled. Disable it before re-enrolling."))
      else ok tt

  -- `secret` is the one that is generated.
  unfoldable pub totp_enroll : Text → Text → Exec State AuthError Text
  unfolding or_err not_enabled
  totp_enroll user_id secret = do
    user ← read_db (λ db. or_err (internal (codes "User not found")) (find_user_by_id db user_id))
    lift (not_enabled user)
    stored ← lift (or_err crypto (sv.encrypt_totp_secret user_id secret))
    write_db (update_user_totp user_id (some stored) false)
    lift (
        or_err (internal (codes "Failed to build TOTP"))
          (sv.login.totp.build_totp secret user.username))
    pure secret

  check_code : ℕ → Totp → Text → Result AuthError Unit
  check_code now totp code =
      if sv.check_current totp code (as_secs now)
      then ok tt
      else err (unauthorized (codes "Invalid TOTP code. Please try again."))

  unfoldable pub totp_enroll_confirm : ℕ → Text → Text → Exec State AuthError Unit
  unfolding or_err check_code
  totp_enroll_confirm now user_id code = do
    user ← read_db (λ db. or_err (internal (codes "User not found")) (find_user_by_id db user_id))
    stored ← lift (or_err (bad_request (codes "TOTP enrollment not started")) user.totp_secret)
    secret ← lift (or_err crypto (sv.login.totp.decrypt_totp_secret user_id stored))
    totp ← lift (
        or_err (internal (codes "Failed to build TOTP"))
          (sv.login.totp.build_totp secret user.username))
    lift (check_code now totp code)
    write_db (update_user_totp user_id (some stored) true)
