-- ===== src/Accounts/Tests.antt =====
-- Runs on one account, number 1, with the email 50 and the password 7. A token is an odd number times
-- powers of two, from which its parts are read back; a hash is the password itself.
use python_fastapi_multiauth.Common.{
  ℕ, zero, suc, ◌+◌, ◌*◌, ◌/◌, ◌%◌, ◌≤◌, ◌<◌, ◌≡◌, refl, true, false, none, some, List, [], ◌∷◌,
  ◌==◌, leb, if◌then◌else◌, ok, err, http, only_row, only_row-IsOneOrNone, select, All, arith, ◌∙◌,
  ◌⊎◌, save,
}
use python_fastapi_multiauth.Session.Service.{UserSession}
use python_fastapi_multiauth.Totp.Service.{Packages, TotpSecret}
use python_fastapi_multiauth.Totp.Service as Totp
use python_fastapi_multiauth.Accounts.Users.{
  User, OneTimeToken, Db, Settings, has_email, user_is, verify_password, is_locked,
}
use python_fastapi_multiauth.Accounts.Tokens.{
  TokenType, access, refresh, mfa, Jwt, IsJwt, create_mfa_token,
}
use python_fastapi_multiauth.Accounts.Login.{
  Token, Login, refused, challenged, Call, may_log_in, issue, complete, authenticate_local,
  verify_mfa, refresh_access_token,
}
use python_fastapi_multiauth.Accounts.Bearer.{get_current_user}
use python_fastapi_multiauth.Accounts.Recovery.{is_valid, reset_password}
use python_fastapi_multiauth.Accounts.Lockout.{Guess, Row, log_in_each, guess_bound}
use python_fastapi_multiauth.Accounts.Codes.{CodeFits}
use python_fastapi_multiauth.Accounts.Access.{local_login, mfa_login}
use python_fastapi_multiauth.Accounts.Admission.{Passes, HasFactor, entered}
use python_fastapi_multiauth.Accounts.Renewal.{access_until, refresh_until, token_uses}
use python_fastapi_multiauth.Accounts.Resets.{reset_once}

-- `2 ^ a * (2 * b + 1)`
abbrev pair : ℕ → ℕ → ℕ
pair zero b = 2 * b + 1
pair (suc a) b = 2 * pair a b

abbrev unpair : (fuel n : ℕ) → ℕ × ℕ
unpair zero n = (0, 0)
unpair (suc fuel) n =
    let (a, b) = unpair fuel (n / 2) in if n % 2 == 1 then (0, n / 2) else (a + 1, b)

below-pair : (a b : ℕ) → a < pair a b
below-pair zero b = omega arith
below-pair (suc a) b = omega (arith, below-pair a b)

unpair-pair : (a b fuel : ℕ) → a < fuel → unpair fuel (pair a b) ≡ (a, b)
unpair-pair zero b zero h = absurd (omega arith)
unpair-pair zero b (suc fuel) h = ground arith
unpair-pair (suc a) b zero h = absurd (omega arith)
unpair-pair (suc a) b (suc fuel) h =
    let half : 2 * pair a b / 2 ≡ pair a b = omega arith in
    let ih = unpair-pair a b fuel (omega arith) in ground (arith, half, ih)

abbrev code_of : TokenType → ℕ
code_of access = 0
code_of refresh = 1
code_of mfa = 2

abbrev type_of : ℕ → TokenType
type_of zero = access
type_of (suc zero) = refresh
type_of (suc (suc n)) = mfa

type_of-code : (t : TokenType) → type_of (code_of t) ≡ t
type_of-code access = refl
type_of-code refresh = refl
type_of-code mfa = refl

abbrev jwt : Jwt
jwt = record {
  encode = λ exp sub type_. pair exp (pair sub (code_of type_));
  decode = λ token now.
      let (exp, rest) = unpair token token in
      let (sub, code) = unpair rest rest in
      if leb now exp then some (record { sub = some sub; type_ = some (type_of code) }) else none;
}

decoded :
    (exp sub now : ℕ) (t : TokenType)
    → jwt.decode (jwt.encode exp sub t) now
      ≡ (if leb now exp then some (record { sub = some sub; type_ = some t }) else none)
decoded exp sub now t =
    let inner = pair sub (code_of t) in
    rw
      (
        unpair-pair exp inner (pair exp inner) (below-pair exp inner),
        unpair-pair sub (code_of t) inner (below-pair sub (code_of t)),
        type_of-code t,
      )
      refl

jwt-IsJwt : IsJwt jwt
jwt-IsJwt = record {
  fresh = λ exp sub t now early. decoded exp sub now t ∙ ground arith;
  stale = λ exp sub t now late. decoded exp sub now t ∙ ground arith;
}

abbrev packages : Packages
packages = record {
  encrypt = λ s. s;
  decrypt = λ s. s;
  totp_verify = λ secret token now. secret == token;
  hash = λ salt password. password;
  verify_password = λ password hashed. password == hashed;
  tracks_in_place = true;
}

abbrev settings : Settings
settings = record {
  max_login_attempts = 2;
  lockout_duration_minutes = 30;
  access_token_expire_minutes = 0;
  refresh_token_expire_days = 0;
}

abbrev user : User
user = record {
  id = 1;
  email = 50;
  username = none;
  hashed_password = some 7;
  is_active = true;
  is_verified = true;
  is_superuser = false;
  failed_login_attempts = 0;
  locked_until = none;
  last_login = none;
}

abbrev reset_token : OneTimeToken
reset_token = record { id = 4; user_id = 1; token_hash = 9; expires_at = 100; used = false }

abbrev db : Db
db = record {
  users = user ∷ [];
  sessions = [];
  totp_secrets = [];
  reset_tokens = reset_token ∷ [];
  verification_tokens = reset_token ∷ [];
}

abbrev at : ℕ → Call
at now = record { now = now; new_id = 60; salt = 0; device = none }

abbrev same : ℕ → ℕ
same x = x

abbrev guesses : List Guess
guesses =
    record { call = at 5; password = 1 }
    ∷ record { call = at 6; password = 2 }
    ∷ record { call = at 7; password = 3 }
    ∷ []

-- The second guess locks the account; the right password is then refused.
locked_out :
    authenticate_local only_row packages jwt settings same (at 8) 50 7 (record db {
      users = record user { failed_login_attempts = 2; locked_until = some 1800000006 } ∷ [];
    })
    ≡ ok (
      refused,
      record db {
        users = record user { failed_login_attempts = 2; locked_until = some 1800000006 } ∷ [];
      },
    )
unfolding authenticate_local
locked_out = refl

guess_bound_example :
    (logins : List Login) × (db' : Db) × (u' : User) × (log_in_each only_row packages jwt settings
        same 50 guesses db
      ≡ ok (logins, db'))
    × All (λ l. l ≡ refused) logins
    × Row 50 u' db'
    × (0 ≤ u'.failed_login_attempts)
    × ((u'.failed_login_attempts ≤ 2) ⊎ ((2 ≤ 0) × (u'.failed_login_attempts ≤ 1)))
unfolding verify_password
guess_bound_example =
    guess_bound only_row only_row-IsOneOrNone packages jwt settings same 50 5 guesses user db
      (refl, (refl, tt))
      (
        (refl, omega arith, omega arith),
        ((refl, omega arith, omega arith), ((refl, omega arith, omega arith), tt)),
      )

abbrev entered_at : ℕ → Login × Db
entered_at now = entered packages jwt settings (at now) user db

local_login_example :
    (u : User) × (select (has_email 50) db.users ≡ u ∷ [])
    × Passes packages 5 7 u
    × ((HasFactor packages jwt settings u db
          × ((entered_at 5).0 ≡ challenged u (create_mfa_token jwt 5 u.id))
          × ((entered_at 5).1 ≡ db))
        ⊎ ((¬ HasFactor packages jwt settings u db)
            × (◌≡◌ {A = Login × Db} (entered_at 5) (entered packages jwt settings (at 5) u db))))
unfolding authenticate_local complete
local_login_example =
    local_login only_row only_row-IsOneOrNone packages jwt settings same (at 5) 50 7
      (entered_at 5).0 db (entered_at 5).1 refl (λ e. ground arith)

abbrev secret : TotpSecret
secret = record {
  id = 3;
  user_id = 1;
  encrypted_secret = 500;
  backup_codes = [];
  is_enabled = true;
  is_verified = true;
  device_name = none;
  enabled_at = some 0;
  last_used_at = none;
}

abbrev with_factor : Db
with_factor = record db { totp_secrets = secret ∷ [] }

abbrev challenge : ℕ
challenge = jwt.encode 10 1 mfa

abbrev passed : (User × Token) × Db
passed =
    complete packages jwt settings (at 5) user
      (record db { totp_secrets = record secret { last_used_at = some 5 } ∷ [] })

mfa_login_example :
    (u : User) × (s used : TotpSecret) × (jwt.decode challenge 5
      ≡ some (record { sub = some u.id; type_ = some mfa }))
    × (select (user_is u.id) with_factor.users ≡ u ∷ [])
    × (u.is_active ≡ true)
    × (u.is_verified ≡ true)
    × (is_locked 5 u ≡ false)
    × (select (Totp.enabled_for u.id) with_factor.totp_secrets ≡ s ∷ [])
    × CodeFits packages 5 500 s
    × (used.last_used_at ≡ some 5)
    × (passed
        ≡ complete packages jwt settings (at 5) u (record with_factor {
          totp_secrets = save Totp.secret_key used with_factor.totp_secrets;
        }))
unfolding verify_mfa
mfa_login_example =
    mfa_login only_row only_row-IsOneOrNone packages jwt settings (at 5) challenge 500 passed.0
      with_factor passed.1 refl

token_uses_example :
    let token = issue packages jwt settings 5 user in
    ((sessions : List UserSession)
      → refresh_access_token only_row packages jwt settings 5 token.refresh_token
          (record db { sessions = sessions })
        ≡ ok (some (issue packages jwt settings 5 user)))
    × ((late : ℕ)
        → refresh_until settings 5 + 1000000 ≤ late
        → refresh_access_token only_row packages jwt settings late token.refresh_token db ≡ ok none)
    × (get_current_user only_row jwt 5 token.refresh_token db ≡ err (http "401"))
    × (5 ≤ access_until settings 5
        → (get_current_user only_row jwt 5 token.access_token db ≡ ok user)
          × (refresh_access_token only_row packages jwt settings 5 token.access_token db ≡ ok none))
unfolding may_log_in
token_uses_example =
    token_uses only_row only_row-IsOneOrNone packages jwt jwt-IsJwt settings 5 5 user db refl refl
      (omega arith)

reset_once_example :
    (db' : Db) × (u' : User) × (reset_password only_row same packages 8 0 9 77 db ≡ ok db')
    × (select (user_is 1) db'.users ≡ u' ∷ [])
    × (verify_password packages u' 77 ≡ true)
    × (is_locked 9 u' ≡ false)
    × (u'.failed_login_attempts ≡ 0)
    × (reset_password only_row same packages 9 0 9 78 db' ≡ err (http "400"))
unfolding is_valid
reset_once_example =
    reset_once only_row only_row-IsOneOrNone same packages 8 0 9 77 9 0 78 reset_token user db
      (λ s x. ground arith) (refl, (refl, tt), refl, refl, (refl, tt))
