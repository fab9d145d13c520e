-- ===== src/Accounts/Renewal.antt =====
-- Which token serves for what, and for how long.
use python_fastapi_multiauth.Common.{
  ℕ, ◌+◌, ◌*◌, ◌≤◌, ◌≡◌, refl, true, none, some, List, [], ◌∷◌, if◌then◌else◌, ok, err, http,
  OneOrNone, IsOneOrNone, only_row, eq-only_row, select, arith,
}
use python_fastapi_multiauth.Session.Service.{UserSession}
use python_fastapi_multiauth.Totp.Service.{Packages}
use python_fastapi_multiauth.Accounts.Users.{User, Db, Settings, user_is, microseconds_per_minute}
use python_fastapi_multiauth.Accounts.Tokens.{
  TokenType, access, refresh, Jwt, IsJwt, same_type, microseconds_per_day, create_access_token,
  create_refresh_token, verify_token,
}
use python_fastapi_multiauth.Accounts.Login.{may_log_in, issue, refresh_access_token}
use python_fastapi_multiauth.Accounts.Bearer.{get_current_user}

module _ (jwt : Jwt) (jwt_law : IsJwt jwt) where
  -- Up to its expiry a token names its subject to those who ask for its type, and to no others.
  verify-fresh :
      (exp sub now : ℕ) (type_ asked : TokenType)
      → now ≤ exp
      → verify_token jwt (jwt.encode exp sub type_) asked now
        ≡ (if same_type asked (some type_) then some sub else none)
  unfolding verify_token
  verify-fresh exp sub now type_ asked early =
      rw (verify_token, jwt_law.fresh exp sub type_ now early) refl

  verify-stale :
      (exp sub now : ℕ) (type_ asked : TokenType)
      → exp + 1000000 ≤ now
      → verify_token jwt (jwt.encode exp sub type_) asked now ≡ none
  unfolding verify_token
  verify-stale exp sub now type_ asked late =
      rw (verify_token, jwt_law.stale exp sub type_ now late) refl

  refresh-none :
      (p : Packages) (settings : Settings) (now token : ℕ) (db : Db)
      → verify_token jwt token refresh now ≡ none
      → refresh_access_token only_row p jwt settings now token db ≡ ok none
  unfolding refresh_access_token
  refresh-none p settings now token db h = ground arith

  refresh-some :
      (p : Packages) (settings : Settings) (now token : ℕ) (user : User) (db : Db)
      → verify_token jwt token refresh now ≡ some user.id
      → select (user_is user.id) db.users ≡ user ∷ []
      → may_log_in now user ≡ true
      → refresh_access_token only_row p jwt settings now token db
        ≡ ok (some (issue p jwt settings now user))
  unfolding refresh_access_token
  refresh-some p settings now token user db h row may = ground arith

  bearer-none :
      (now token : ℕ) (db : Db)
      → verify_token jwt token access now ≡ none
      → get_current_user only_row jwt now token db ≡ err (http "401")
  unfolding get_current_user
  bearer-none now token db h = ground arith

  bearer-some :
      (now token : ℕ) (user : User) (db : Db)
      → verify_token jwt token access now ≡ some user.id
      → select (user_is user.id) db.users ≡ user ∷ []
      → user.is_active ≡ true
      → get_current_user only_row jwt now token db ≡ ok user
  unfolding get_current_user
  bearer-some now token user db h row active = ground arith

abbrev pub access_until : Settings → ℕ → ℕ
access_until settings now = now + settings.access_token_expire_minutes * microseconds_per_minute

abbrev pub refresh_until : Settings → ℕ → ℕ
refresh_until settings now = now + settings.refresh_token_expire_days * microseconds_per_day

module _ (one : OneOrNone) (law : IsOneOrNone one) (p : Packages) (jwt : Jwt) (jwt_law : IsJwt jwt)
    (settings : Settings) where
  -- A login's refresh token gives new tokens up to its expiry to a user who may log in, whatever the
  -- table of sessions holds by then, so also when every session has been revoked; a second after its
  -- expiry it gives none. It opens no endpoint. The access token opens the endpoints up to its expiry
  -- and cannot be used to refresh.
  pub token_uses :
      (now later : ℕ) (user : User) (db : Db)
      → select (user_is user.id) db.users ≡ user ∷ []
      → may_log_in later user ≡ true
      → later ≤ refresh_until settings now
      → let token = issue p jwt settings now user in
        ((sessions : List UserSession)
          → refresh_access_token one p jwt settings later token.refresh_token
              (record db { sessions = sessions })
            ≡ ok (some (issue p jwt settings later user)))
        × ((late : ℕ)
            → refresh_until settings now + 1000000 ≤ late
            → refresh_access_token one p jwt settings late token.refresh_token db ≡ ok none)
        × (get_current_user one jwt later token.refresh_token db ≡ err (http "401"))
        × (later ≤ access_until settings now
            → (get_current_user one jwt later token.access_token db ≡ ok user)
              × (refresh_access_token one p jwt settings later token.access_token db ≡ ok none))
  unfolding issue create_access_token create_refresh_token same_type may_log_in
  token_uses now later user db row may early =
      let until = refresh_until settings now in
      let until' = access_until settings now in
      let fresh = verify-fresh jwt jwt_law until user.id later refresh in
      let fresh' = verify-fresh jwt jwt_law until' user.id later access in
      rw (eq-only_row one law) (
        λ sessions.
            refresh-some jwt jwt_law p settings later _ user (record db { sessions = sessions })
              (fresh refresh early) row may,
        λ late over.
            refresh-none jwt jwt_law p settings late _ db
              (verify-stale jwt jwt_law until user.id late refresh refresh over),
        bearer-none jwt jwt_law later _ db (fresh access early),
        λ soon. (
          bearer-some jwt jwt_law later _ user db (fresh' access soon) row (ground (arith, may)),
          refresh-none jwt jwt_law p settings later _ db (fresh' refresh soon),
        ),
      )
