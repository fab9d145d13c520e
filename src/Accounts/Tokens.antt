-- ===== src/Accounts/Tokens.antt =====
-- The tokens of app/core/security.py. `jose.jwt` with the service's key is a parameter: encoding an
-- expiry, a subject and a type, and decoding a text at a time, which is `none` where it raises.
use python_fastapi_multiauth.Common.{
  ℕ, ◌+◌, ◌*◌, ◌≤◌, ◌≡◌, Bool, true, false, Option, none, some, if◌then◌else◌,
}
use python_fastapi_multiauth.Accounts.Users.{Settings, microseconds_per_minute}

pub data TokenType : Type 0 where
  access refresh mfa : TokenType

-- What `verify_token` reads of a decoded token; a missing claim is `none`.
pub record Payload : Type 0 where
  pub sub : Option ℕ
  pub type_ : Option TokenType

pub record Jwt : Type 0 where
  pub encode : (exp sub : ℕ) → TokenType → ℕ
  pub decode : (token now : ℕ) → Option Payload

-- The documented behaviour: a token is decoded to its claims up to its expiry, which is kept in whole
-- seconds, and is refused from a second after it on.
pub record IsJwt (jwt : Jwt) : Type 0 where
  pub fresh :
      (exp sub : ℕ) (type_ : TokenType) (now : ℕ)
      → now ≤ exp
      → jwt.decode (jwt.encode exp sub type_) now
        ≡ some (record { sub = some sub; type_ = some type_ })
  pub stale :
      (exp sub : ℕ) (type_ : TokenType) (now : ℕ)
      → exp + 1000000 ≤ now
      → jwt.decode (jwt.encode exp sub type_) now ≡ none

-- `token_t == token_type`; `None` equals no type.
unfoldable pub same_type : TokenType → Option TokenType → Bool
same_type access (some access) = true
same_type refresh (some refresh) = true
same_type mfa (some mfa) = true
same_type _ _ = false

abbrev pub microseconds_per_day : ℕ
microseconds_per_day = 86400000000

module _ (jwt : Jwt) where
  unfoldable pub create_access_token : Settings → (now subject : ℕ) → ℕ
  create_access_token settings now subject =
      jwt.encode (now + settings.access_token_expire_minutes * microseconds_per_minute) subject
        access

  unfoldable pub create_refresh_token : Settings → (now subject : ℕ) → ℕ
  create_refresh_token settings now subject =
      jwt.encode (now + settings.refresh_token_expire_days * microseconds_per_day) subject refresh

  unfoldable pub create_mfa_token : (now subject : ℕ) → ℕ
  create_mfa_token now subject = jwt.encode (now + 5 * microseconds_per_minute) subject mfa

  unfoldable pub verify_token : (token : ℕ) → TokenType → (now : ℕ) → Option ℕ
  unfolding same_type
  verify_token token token_type now = elim (jwt.decode token now) [
    | none ↦ none
    | some payload ↦ if same_type token_type payload.type_ then payload.sub else none
  ]
