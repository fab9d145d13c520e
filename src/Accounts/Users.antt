-- ===== src/Accounts/Users.antt =====
-- app/services/user.py and the columns of app/models/user.py that it and the logins decide by. Emails,
-- user names, passwords and hashes are numbers; `normalize` is `lower().strip()` of Python.
use python_fastapi_multiauth.Common.{
  ℕ, ◌+◌, ◌*◌, Bool, true, false, Option, none, some, List, if◌then◌else◌, ◌==◌, ltb, leb, Result,
  OneOrNone, select, save, has_key,
}
use python_fastapi_multiauth.Session.Service.{UserSession}
use python_fastapi_multiauth.Totp.Service.{Packages, TotpSecret}

pub record User : Type 0 where
  pub id : ℕ
  pub email : ℕ
  pub username : Option ℕ
  pub hashed_password : Option ℕ
  pub is_active : Bool
  pub is_verified : Bool
  pub is_superuser : Bool
  pub failed_login_attempts : ℕ
  pub locked_until : Option ℕ
  pub last_login : Option ℕ

-- `PasswordResetToken` and `EmailVerificationToken`, which have the same columns.
pub record OneTimeToken : Type 0 where
  pub id : ℕ
  pub user_id : ℕ
  pub token_hash : ℕ
  pub expires_at : ℕ
  pub used : Bool

-- The tables that logins and account recovery read and write.
pub record Db : Type 0 where
  pub users : List User
  pub sessions : List UserSession
  pub totp_secrets : List TotpSecret
  pub reset_tokens : List OneTimeToken
  pub verification_tokens : List OneTimeToken

-- What the calls take from app/core/config.py.
pub record Settings : Type 0 where
  pub max_login_attempts : ℕ
  pub lockout_duration_minutes : ℕ
  pub access_token_expire_minutes : ℕ
  pub refresh_token_expire_days : ℕ

abbrev pub microseconds_per_minute : ℕ
microseconds_per_minute = 60000000

abbrev pub user_key : User → ℕ
user_key u = u.id

-- Assigning to the attributes of a user object and flushing.
unfoldable pub save_user : User → Db → Db
save_user u db = record db { users = save user_key u db.users }

abbrev pub user_is : ℕ → User → Bool
user_is = has_key user_key

abbrev pub has_email : ℕ → User → Bool
has_email email u = u.email == email

module _ (one : OneOrNone) where
  unfoldable pub get_by_id : ℕ → Db → Result (Option User)
  get_by_id id db = one User (select (user_is id) db.users)

  unfoldable pub get_by_email : (ℕ → ℕ) → ℕ → Db → Result (Option User)
  get_by_email normalize email db = one User (select (has_email (normalize email)) db.users)

unfoldable pub verify_password : Packages → User → ℕ → Bool
verify_password p user password = elim user.hashed_password [
  | none ↦ false
  | some hashed ↦ p.verify_password password hashed
]

-- The user's row after `update_password`, `update_last_login`, ...; `save_user` flushes it.
unfoldable pub update_password : Packages → (salt : ℕ) → User → ℕ → User
update_password p salt user new_password = record user {
  hashed_password = some (p.hash salt new_password);
}

unfoldable pub update_last_login : (now : ℕ) → User → User
update_last_login now user = record user {
  last_login = some now;
  failed_login_attempts = 0;
  locked_until = none;
}

unfoldable pub increment_failed_login : Settings → (now : ℕ) → User → User
increment_failed_login settings now user =
    let failed = record user { failed_login_attempts = user.failed_login_attempts + 1 } in
    if leb settings.max_login_attempts failed.failed_login_attempts
    then record failed {
      locked_until = some (now + settings.lockout_duration_minutes * microseconds_per_minute);
    }
    else failed

unfoldable pub is_locked : (now : ℕ) → User → Bool
is_locked now user = elim user.locked_until [ none ↦ false | some until ↦ ltb now until ]

unfoldable pub activate : User → User
activate user = record user { is_active = true }

-- Also `delete`, which only deactivates.
unfoldable pub deactivate : User → User
deactivate user = record user { is_active = false }

unfoldable pub verify_email : User → User
verify_email user = record user { is_verified = true }
