-- ===== src/Accounts/Recovery.antt =====
-- The endpoints of app/api/v1/endpoints/auth.py on one-time tokens, with app/models/token.py.
use python_fastapi_multiauth.Common.{
  ℕ, ◌+◌, ◌*◌, Bool, true, false, Option, none, some, List, [], ◌∷◌, ◌++◌, not, ◌&&◌, if◌then◌else◌,
  ◌==◌, ltb, Result, ok, err, http, ◌>>=◌, OneOrNone, select, save,
}
use python_fastapi_multiauth.Totp.Service.{Packages}
use python_fastapi_multiauth.Accounts.Users.{
  User, OneTimeToken, Db, save_user, get_by_id, get_by_email, update_password, verify_email,
  microseconds_per_minute,
}

unfoldable pub is_expired : (now : ℕ) → OneTimeToken → Bool
is_expired now t = ltb t.expires_at now

unfoldable pub is_valid : (now : ℕ) → OneTimeToken → Bool
unfolding is_expired
is_valid now t = not t.used && not (is_expired now t)

abbrev pub token_key : OneTimeToken → ℕ
token_key t = t.id

abbrev pub mark_used : OneTimeToken → OneTimeToken
mark_used t = record t { used = true }

module _ (one : OneOrNone) where
  -- `if not user: raise HTTPException(404)`
  unfoldable pub owner : OneTimeToken → Db → Result User
  unfolding get_by_id
  owner t db = do
    found ← get_by_id one t.user_id db
    elim found [ none ↦ err (http "404") | some user ↦ ok user ]

-- `hash_token` is `EncryptionService.hash_token`.
module _ (one : OneOrNone) (hash_token : ℕ → ℕ) where
  -- A row of the token table for the user, with `minutes` to live.
  unfoldable pub new_token : (new_id now user token minutes : ℕ) → OneTimeToken
  new_token new_id now user token minutes = record {
    id = new_id;
    user_id = user;
    token_hash = hash_token token;
    expires_at = now + minutes * microseconds_per_minute;
    used = false;
  }

  -- Returns the address and the token of the email that is sent, if one is.
  unfoldable pub request_password_reset :
      (ℕ → ℕ) → (new_id now token email : ℕ) → Db → Result (Option (ℕ × ℕ) × Db)
  unfolding get_by_email new_token
  request_password_reset normalize new_id now token email db = do
    found ← get_by_email one normalize email db
    ok (elim found [
      | none ↦ (none, db)
      | some user ↦ (
        some (user.email, token),
        record db { reset_tokens = db.reset_tokens ++ new_token new_id now user.id token 60 ∷ [] },
      )
    ])

  unfoldable pub resend_verification :
      (ℕ → ℕ) → (new_id now token email : ℕ) → Db → Result (Option (ℕ × ℕ) × Db)
  unfolding get_by_email new_token
  resend_verification normalize new_id now token email db = do
    found ← get_by_email one normalize email db
    ok (elim found [
      | none ↦ (none, db)
      | some user ↦ if user.is_verified then (none, db) else (
        some (user.email, token),
        record db {
          verification_tokens =
              db.verification_tokens ++ new_token new_id now user.id token 1440 ∷ [];
        },
      )
    ])

  -- `not reset_token or not reset_token.is_valid()` raises 400.
  unfoldable pub valid_token : (now token : ℕ) → List OneTimeToken → Result OneTimeToken
  unfolding is_valid
  valid_token now token rows = do
    found ← one OneTimeToken (select (λ t. t.token_hash == hash_token token) rows)
    elim found [
      | none ↦ err (http "400")
      | some t ↦ if is_valid now t then ok t else err (http "400")
    ]

  unfoldable pub reset_password : Packages → (now salt token new_password : ℕ) → Db → Result Db
  unfolding valid_token owner save_user update_password
  reset_password p now salt token new_password db = do
    t ← valid_token now token db.reset_tokens
    user ← owner one t db
    let changed = record (update_password p salt user new_password) {
      failed_login_attempts = 0;
      locked_until = none;
    }
    let db = save_user changed db
    ok (record db { reset_tokens = save token_key (mark_used t) db.reset_tokens })

  unfoldable pub verify_email_token : (now token : ℕ) → Db → Result Db
  unfolding valid_token owner save_user verify_email
  verify_email_token now token db = do
    t ← valid_token now token db.verification_tokens
    user ← owner one t db
    let db = save_user (verify_email user) db
    ok (record db { verification_tokens = save token_key (mark_used t) db.verification_tokens })
