-- ===== src/Auth/Users.antt =====
-- The `lyra_user` table as the handlers read and write it (backend/src/auth/db.rs), and the rules for
-- passwords (auth/password.rs). A driver's failure is not modelled.
use lyra.Prelude.{
  ℕ, ◌+◌, Bool, ◌&&◌, ◌||◌, not, Option, none, some, List, [], ◌∷◌, map, any, length, Text, text_eq,
  utf8_len, leb, ltb, if◌then◌else◌,
}
use lyra.Prelude.Map
use lyra.Prelude.Map.{Map}
use lyra.Prelude.Result.{Result, ok, err}
use lyra.Auth.{max_password_length}
use lyra.Auth.Session.{Users}

pub record UserData : Type 0 where
  pub id : Text
  pub username : Text
  pub password_hash : Option Text
  pub totp_enabled : Bool
  pub totp_secret : Option Text
  pub display_name : Option Text
  pub locale : Text
  pub mark_read_policy : Text

-- The answer's view of a user, without the browser's view state.
pub record UserInfo : Type 0 where
  pub id : Text
  pub username : Text
  pub display_name : Option Text
  pub locale : Text
  pub totp_enabled : Bool
  pub mark_read_policy : Text

unfoldable pub user_info_from : UserData → UserInfo
user_info_from user = record {
  id = user.id;
  username = user.username;
  display_name = user.display_name;
  locale = user.locale;
  totp_enabled = user.totp_enabled;
  mark_read_policy = user.mark_read_policy;
}

-- The rows, and the column `sess_epoch` by id.
pub record Db : Type 0 where
  pub rows : List UserData
  pub epochs : Users

first_with : (UserData → Bool) → List UserData → Option UserData
first_with p [] = none
first_with p (u ∷ rows) = if p u then some u else first_with p rows

unfoldable pub find_user_by_username : Db → Text → Option UserData
unfolding first_with
find_user_by_username db username = first_with (λ u. text_eq u.username username) db.rows

unfoldable pub find_user_by_id : Db → Text → Option UserData
unfolding first_with
find_user_by_id db user_id = first_with (λ u. text_eq u.id user_id) db.rows

update_user : Text → (UserData → UserData) → Db → Db
update_user user_id set db = record db {
  rows = map (λ u. if text_eq u.id user_id then set u else u) db.rows;
}

unfoldable pub update_user_totp : Text → Option Text → Bool → Db → Db
unfolding update_user
update_user_totp user_id totp_secret totp_enabled =
    update_user user_id (λ u. record u { totp_secret = totp_secret; totp_enabled = totp_enabled })

unfoldable pub update_user_password : Text → Text → Db → Db
unfolding update_user
update_user_password user_id password_hash =
    update_user user_id (λ u. record u { password_hash = some password_hash })

unfoldable pub has_any_user : Db → Bool
has_any_user db = leb 1 (length db.rows)

-- The unique index on the column `singleton`, which is 1 in every row, rejects a second row.
unfoldable pub insert_user : UserData → Db → Option Db
unfolding has_any_user
insert_user user db =
    if has_any_user db
    then none
    else some (record { rows = user ∷ db.rows; epochs = Map.insert db.epochs user.id 0 })

abbrev is_ascii_uppercase : ℕ → Bool
is_ascii_uppercase c = leb 65 c && leb c 90

abbrev is_ascii_lowercase : ℕ → Bool
is_ascii_lowercase c = leb 97 c && leb c 122

abbrev is_ascii_digit : ℕ → Bool
is_ascii_digit c = leb 48 c && leb c 57

abbrev is_symbol : ℕ → Bool
is_symbol c = not (is_ascii_uppercase c || is_ascii_lowercase c || is_ascii_digit c)

abbrev one_if : Bool → ℕ
one_if b = if b then 1 else 0

-- Which of the four classes of characters stand in a password.
unfoldable pub classes : Text → ℕ
classes password =
    one_if (any is_ascii_uppercase password)
    + one_if (any is_ascii_lowercase password)
    + one_if (any is_ascii_digit password)
    + one_if (any is_symbol password)

pub data PasswordError : Type 0 where
  too_long too_short too_simple : PasswordError

unfoldable pub validate_password : Text → ℕ → Result PasswordError Unit
validate_password password min_length =
    if ltb max_password_length (utf8_len password)
    then err too_long
    else if ltb (length password) min_length
    then err too_short
    else if ltb (classes password) 3 && ltb (length password) 20
    then err too_simple
    else ok tt
