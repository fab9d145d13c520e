-- ===== src/Accounts/Bearer.antt =====
-- app/api/v1/dependencies/auth.py: the user of a request, by its bearer token. `request.state.user`,
-- which only the logging reads, is left out.
use python_fastapi_multiauth.Common.{
  ℕ, none, some, if◌then◌else◌, Result, ok, err, http, ◌>>=◌, OneOrNone,
}
use python_fastapi_multiauth.Accounts.Users.{User, Db, get_by_id}
use python_fastapi_multiauth.Accounts.Tokens.{Jwt, access, verify_token}

module _ (one : OneOrNone) (jwt : Jwt) where
  unfoldable pub get_current_user : (now token : ℕ) → Db → Result User
  unfolding verify_token get_by_id
  get_current_user now token db = elim (verify_token jwt token access now) [
    | none ↦ err (http "401")
    | some user_id ↦ do
      found ← get_by_id one user_id db
      elim found [
        | none ↦ err (http "404")
        | some user ↦ if user.is_active then ok user else err (http "403")
      ]
  ]

-- The dependencies on top of it: the user is let through or the request refused.
unfoldable pub get_current_active_user : User → Result User
get_current_active_user user = if user.is_active then ok user else err (http "403")

unfoldable pub get_current_verified_user : User → Result User
get_current_verified_user user = if user.is_verified then ok user else err (http "403")

unfoldable pub get_current_superuser : User → Result User
get_current_superuser user = if user.is_superuser then ok user else err (http "403")
