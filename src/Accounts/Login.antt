-- ===== src/Accounts/Login.antt =====
-- The local logins of app/services/auth.py. A call reads the clock once. The two commits of a call are
-- at its ends, so the tables that it returns are those committed.
use python_fastapi_multiauth.Common.{
  ℕ, Bool, false, Option, none, some, not, ◌&&◌, if◌then◌else◌, Result, ok, ◌>>=◌, OneOrNone,
}
use python_fastapi_multiauth.Session.Service.{create_session}
use python_fastapi_multiauth.Totp.Service as Totp
use python_fastapi_multiauth.Totp.Service.{Packages, TotpSecret}
use python_fastapi_multiauth.Accounts.Users.{
  User, Db, Settings, save_user, get_by_id, get_by_email, verify_password, update_last_login,
  increment_failed_login, is_locked,
}
use python_fastapi_multiauth.Accounts.Tokens.{
  Jwt, refresh, mfa, create_access_token, create_refresh_token, create_mfa_token, verify_token,
}

-- `Token`: the pair of the two tokens.
pub record Token : Type 0 where
  pub access_token : ℕ
  pub refresh_token : ℕ

-- What `authenticate_local` returns: `(None, None)`, the user with a challenge, or with the tokens.
pub data Login : Type 0 where
  refused : Login
  challenged : User → (mfa_token : ℕ) → Login
  logged_in : User → Token → Login

-- What a login takes besides its tables and arguments: the packages, the clock, the new row's id and
-- the salt of the session's hash.
pub record Call : Type 0 where
  pub now : ℕ
  pub new_id : ℕ
  pub salt : ℕ
  pub device : Option ℕ

-- The user as app/services/totp.py reads it.
abbrev pub totp_user : User → Totp.User
totp_user user = record { id = user.id; hashed_password = user.hashed_password }

-- `totp_secret and totp_secret.is_enabled`
unfoldable pub needs_mfa : Option TotpSecret → Bool
needs_mfa none = false
needs_mfa (some secret) = secret.is_enabled

-- `not user or not user.is_active or not user.is_verified`, and then the lock
unfoldable pub may_log_in : (now : ℕ) → User → Bool
unfolding is_locked
may_log_in now user = user.is_active && user.is_verified && not (is_locked now user)

module _ (p : Packages) (jwt : Jwt) (settings : Settings) where
  unfoldable pub issue : (now : ℕ) → User → Token
  unfolding create_access_token create_refresh_token
  issue now user = record {
    access_token = create_access_token jwt settings now user.id;
    refresh_token = create_refresh_token jwt settings now user.id;
  }

  -- The end of a successful login: the counters, the tokens and the session.
  unfoldable pub complete : Call → User → Db → (User × Token) × Db
  unfolding issue save_user update_last_login create_session
  complete call user db =
      let user = update_last_login call.now user in
      let token = issue call.now user in
      let db = save_user user db in
      let (session, sessions) =
        create_session settings.refresh_token_expire_days call.new_id call.now user.id
          (p.hash call.salt token.refresh_token) call.device db.sessions in
      ((user, token), record db { sessions = sessions })

  -- The failure of a password or of a code.
  unfoldable pub fail : Call → User → Db → Db
  unfolding save_user increment_failed_login
  fail call user db = save_user (increment_failed_login settings call.now user) db

module _ (one : OneOrNone) (p : Packages) (jwt : Jwt) (settings : Settings) where
  -- The part of `authenticate_local` after the password has been verified.
  unfoldable pub admit : Call → User → Db → Result (Login × Db)
  unfolding complete needs_mfa create_mfa_token Totp.get_totp_secret
  admit call user db = do
    totp_secret ← Totp.get_totp_secret p one user.id db.totp_secrets
    let ((user', token), db') = complete p jwt settings call user db
    ok (
        if needs_mfa totp_secret
        then (challenged user (create_mfa_token jwt call.now user.id), db)
        else (logged_in user' token, db'))

  unfoldable pub authenticate_local :
      (ℕ → ℕ) → Call → (email password : ℕ) → Db → Result (Login × Db)
  unfolding get_by_email is_locked verify_password admit fail
  authenticate_local normalize call email password db = do
    found ← get_by_email one normalize email db
    elim found [
      | none ↦ ok (refused, db)
      | some user ↦
          let admitted = admit call user db in
          if not user.is_active
          then ok (refused, db)
          else if not user.is_verified
          then ok (refused, db)
          else if is_locked call.now user
          then ok (refused, db)
          else if not (verify_password p user password)
          then ok (refused, fail p jwt settings call user db)
          else admitted
    ]

  -- The part of `verify_mfa` after the user has been found.
  unfoldable pub check_code :
      Call → User → (totp_code : ℕ) → Db → Result (Option (User × Token) × Db)
  unfolding complete fail Totp.verify_totp_for_user
  check_code call user totp_code db = do
    (totp_valid, secrets) ←
        Totp.verify_totp_for_user p one call.now (totp_user user) totp_code db.totp_secrets
    let db = record db { totp_secrets = secrets }
    let ((user', token), db') = complete p jwt settings call user db
    ok (if totp_valid then (some (user', token), db') else (none, fail p jwt settings call user db))

  unfoldable pub verify_mfa :
      Call → (mfa_token totp_code : ℕ) → Db → Result (Option (User × Token) × Db)
  unfolding verify_token get_by_id may_log_in check_code
  verify_mfa call mfa_token totp_code db = elim (verify_token jwt mfa_token mfa call.now) [
    | none ↦ ok (none, db)
    | some user_id ↦ do
      found ← get_by_id one user_id db
      elim found [
        | none ↦ ok (none, db)
        | some user ↦
            let checked = check_code call user totp_code db in
            if may_log_in call.now user then checked else ok (none, db)
      ]
  ]

  unfoldable pub refresh_access_token : (now refresh_token : ℕ) → Db → Result (Option Token)
  unfolding verify_token get_by_id may_log_in issue
  refresh_access_token now refresh_token db = elim (verify_token jwt refresh_token refresh now) [
    | none ↦ ok none
    | some user_id ↦ do
      found ← get_by_id one user_id db
      ok (elim found [
        | none ↦ none
        | some user ↦ if may_log_in now user then some (issue p jwt settings now user) else none
      ])
  ]
