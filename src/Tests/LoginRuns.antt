-- ===== src/Tests/LoginRuns.antt =====
-- Logins over the in-memory store, run.
use lyra.Prelude.{
  ℕ, ◌/◌, ◌<◌, ◌≡◌, true, false, refl, none, some, [], ◌∷◌, Text, codes, arith, text_eq, utf8_len,
}
use lyra.Prelude.Map
use lyra.Tests.Open.{kv_run}
use lyra.Prelude.Decimal.{parse_u64}
use lyra.Prelude.Result.{Result, ok, err}
use lyra.Kv.{from_secs}
use lyra.Kv.Memory.{MemoryKv, new, memory_kv}
use lyra.Kv.Memory.Laws.{memory-KvLaws}
use lyra.Auth.{
  AuthError, unauthorized, too_many_requests, login_rl_key, totp_rl_key, totp_step_key, pwd_rl_key,
  sess_key, tok_key, refresh_key,
}
use lyra.Auth.RateLimit.{
  ensure_not_rate_limited, is_rate_limited, attempts_of, note_failed_attempt, clear_failed_attempts,
}
use lyra.Auth.Users.{
  UserData, Db, find_user_by_username, find_user_by_id, has_any_user, insert_user,
  validate_password, classes,
}
use lyra.Auth.Totp.{Totp, verify_totp_code, matched_totp_step, stored_step, is_replay, accept_step}
use lyra.Auth.Totp.Replay.{step_of, totp_steps_increase}
use lyra.Auth.Session.{create_session, fetch_sess_epoch, get_session}
use lyra.Auth.Login.{LoginServices, ensure_captcha, auth_login}
use lyra.Auth.Account.{
  AccountServices, BootstrapRequest, reauthenticate, change_password, totp_disable, create_first,
  auth_bootstrap, bootstrap_taken,
}
use lyra.Auth.Account.Guards.{is_err, is_current, wrong_password_changes_nothing, bootstrap_once}
use lyra.Auth.Login.Lockout.{is_wrong}
use lyra.Auth.Login.Guessing.{Guess, guesses, guessing_locks}
use lyra.Auth.Login.SecondFactor.{password_opens_no_session}

abbrev ann : UserData
ann = record {
  id = codes "u1";
  username = codes "ann";
  password_hash = some (codes "right");
  totp_enabled = true;
  totp_secret = some (codes "s");
  display_name = none;
  locale = codes "en";
  mark_read_policy = codes "open";
}

-- The code of a second is the number of its step.
abbrev counting : Totp
counting s = (s / 30) ∷ []

abbrev services : LoginServices
services = record {
  captcha = none;
  verify_password = λ password hash. some (text_eq password hash);
  hash_password = λ p. some p;
  totp = record {
    decrypt_totp_secret = λ user_id stored. some stored;
    build_totp = λ secret username. some counting;
  };
}

abbrev db : Db
db = record { rows = ann ∷ []; epochs = Map.insert Map.empty (codes "u1") 0 }

abbrev guess : ℕ → Guess memory_kv memory-KvLaws services db (codes "t") (codes "ann")
guess at = record { at = at; password = codes "x"; captcha_token = none }

is_fresh : memory-KvLaws.peek new 0 (login_rl_key (codes "ann")) ≡ none
unfolding kv_run login_rl_key
is_fresh = cc (memory-KvLaws.get_result 0 (login_rl_key (codes "ann")) new)

misses :
    is_wrong services db
      (record { username = codes "ann"; password = codes "x"; captcha_token = none })
    ≡ true
unfolding is_wrong ensure_captcha find_user_by_username text_eq
misses = refl

-- The right password does not help after five wrong ones.
guessing_locks_example :
    (auth_login memory_kv services db
      (from_secs 899)
      (codes "t")
      (record { username = codes "ann"; password = codes "right"; captcha_token = none })
      (guesses memory_kv memory-KvLaws services db
        (codes "t")
        (codes "ann")
        (guess 0 ∷ guess 1 ∷ guess 2 ∷ guess 3 ∷ guess (from_secs 4) ∷ [])
        new)).0
    ≡ err too_many_requests
guessing_locks_example =
    (guessing_locks memory_kv memory-KvLaws services db (codes "t") (codes "ann") (guess 0)
        (record { at = from_secs 899; password = codes "right"; captcha_token = none })
        (guess 1 ∷ guess 2 ∷ guess 3 ∷ guess (from_secs 4) ∷ []) new is_fresh misses
        (
          omega arith,
          omega arith,
          misses,
          (
            omega arith,
            omega arith,
            misses,
            (omega arith, omega arith, misses, (omega arith, omega arith, misses, tt)),
          ),
        )
        (omega arith)).1
      refl

has_ann : find_user_by_username db (codes "ann") ≡ some ann
unfolding find_user_by_username text_eq
has_ann = refl

password_opens_no_session_example :
    (get_session memory_kv db.epochs 9
      (codes "t")
      (auth_login memory_kv services db 1
        (codes "p")
        (record { username = codes "ann"; password = codes "right"; captcha_token = none })
        new).1).0
    ≡ (get_session memory_kv db.epochs 9 (codes "t") new).0
password_opens_no_session_example =
    password_opens_no_session memory_kv memory-KvLaws services db 1 9 (codes "p") (codes "t")
      (record { username = codes "ann"; password = codes "right"; captcha_token = none }) ann new
      (omega arith) has_ann refl

-- A code's step as the server reads it.
abbrev code : ℕ → Text
code step = step ∷ []

abbrev first : Result AuthError Unit × MemoryKv
first =
    verify_totp_code memory_kv services.totp (from_secs 300) (totp_rl_key (codes "u1")) (codes "u1")
      ann (code 10) new

step_10 :
    step_of memory_kv memory-KvLaws (codes "u1") services.totp (from_secs 300) ann (code 10)
    ≡ some 10
unfolding step_of matched_totp_step text_eq
step_10 = refl

step_11 :
    step_of memory_kv memory-KvLaws (codes "u1") services.totp (from_secs 302) ann (code 11)
    ≡ some 11
unfolding step_of matched_totp_step text_eq
step_11 = refl

first_accepted : first.0 ≡ ok tt
unfolding kv_run parse_u64 verify_totp_code accept_step matched_totp_step stored_step is_replay
    totp_rl_key totp_step_key clear_failed_attempts
first_accepted = refl

second_accepted :
    (verify_totp_code memory_kv services.totp
      (from_secs 302)
      (totp_rl_key (codes "u1"))
      (codes "u1")
      ann
      (code 11)
      first.1).0
    ≡ ok tt
unfolding kv_run parse_u64 verify_totp_code accept_step matched_totp_step stored_step is_replay
    totp_rl_key totp_step_key clear_failed_attempts
second_accepted = refl

-- The same code is refused a second time.
second_refused :
    (verify_totp_code memory_kv services.totp
      (from_secs 301)
      (totp_rl_key (codes "u1"))
      (codes "u1")
      ann
      (code 10)
      first.1).0
    ≡ err (unauthorized (codes "TOTP code already used"))
unfolding kv_run parse_u64 verify_totp_code accept_step matched_totp_step stored_step is_replay
    totp_rl_key totp_step_key clear_failed_attempts note_failed_attempt
second_refused = refl

totp_steps_increase_example : 10 < 11
totp_steps_increase_example =
    totp_steps_increase memory_kv memory-KvLaws (codes "u1") services.totp (from_secs 300)
      (from_secs 302) ann ann (code 10) (code 11) 10 11 new first.1 (omega arith) (omega arith)
      step_10 step_11 first_accepted refl second_accepted

abbrev account : AccountServices
account = record {
  login = services;
  min_password_length = 12;
  describe = λ e. [];
  wrap_dek = λ user_id. some user_id;
  encrypt_totp_secret = λ user_id secret. some secret;
  check_current = λ totp code s. text_eq (totp s) code;
}

not_hers : is_current memory_kv account db (codes "u1") (codes "x") ≡ false
unfolding is_current find_user_by_id text_eq
not_hers = refl

wrong_password_changes_nothing_example :
    (is_err (change_password memory_kv account 1 (codes "u1") (codes "x") (codes "new") (new, db)).0
      ≡ true)
    × ((change_password memory_kv account 1 (codes "u1") (codes "x") (codes "new") (new, db)).1.1
        ≡ db)
    × (is_err (totp_disable memory_kv account 1 (codes "u1") (codes "x") (new, db)).0 ≡ true)
    × ((totp_disable memory_kv account 1 (codes "u1") (codes "x") (new, db)).1.1 ≡ db)
wrong_password_changes_nothing_example =
    wrong_password_changes_nothing memory_kv account 1 (codes "u1") (codes "x") (codes "new") new db
      not_hers

abbrev second : BootstrapRequest
second = record {
  username = codes "eve";
  password = codes "Long enough 1";
  display_name = none;
  locale = none;
  captcha_token = none;
}

-- The right password removes the second factor, and the first bootstrap succeeds.
account_runs :
    ((totp_disable memory_kv account 1 (codes "u1") (codes "right") (new, db)).0 ≡ ok tt)
    × (is_err
          (auth_bootstrap memory_kv account 1 second
            (codes "u2")
            (codes "t")
            (new, record { rows = []; epochs = Map.empty })).0
        ≡ false)
unfolding kv_run totp_disable reauthenticate find_user_by_id ensure_not_rate_limited is_rate_limited
    attempts_of clear_failed_attempts pwd_rl_key auth_bootstrap create_first has_any_user
    insert_user ensure_captcha validate_password classes utf8_len create_session fetch_sess_epoch
    sess_key tok_key refresh_key
account_runs = (refl, refl)

has_user : has_any_user db ≡ true
unfolding has_any_user
has_user = refl

bootstrap_once_example :
    (auth_bootstrap memory_kv account 1 second (codes "u2") (codes "t") (new, db)
      ≡ (err bootstrap_taken, (new, db)))
    × (is_err (create_first memory_kv account 1 second (codes "u2") (codes "t") (new, db)).0 ≡ true)
    × ((create_first memory_kv account 1 second (codes "u2") (codes "t") (new, db)).1 ≡ (new, db))
bootstrap_once_example =
    bootstrap_once memory_kv account 1 second (codes "u2") (codes "t") new db has_user
