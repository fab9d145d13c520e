-- ===== src/SignIn/Tests.antt =====
-- Runs of registrations and of logins through Google. Emails and hashes are themselves.
use python_fastapi_multiauth.Common.{
  ◌+◌, ◌≡◌, refl, true, false, none, some, [], ◌∷◌, ok, err, ◌==◌, http, only_row,
  only_row-IsOneOrNone, save,
}
use python_fastapi_multiauth.Totp.Service as Totp
use python_fastapi_multiauth.Totp.Service.{Packages, TotpSecret}
use python_fastapi_multiauth.Accounts.Users.{User, Settings, is_locked, verify_password}
use python_fastapi_multiauth.Accounts.Tokens.{Jwt, create_mfa_token}
use python_fastapi_multiauth.Accounts.Login.{Token, Call, challenged, complete, authenticate_local}
use python_fastapi_multiauth.SignIn.Model.{google, OAuthAccount, account_key, Db}
use python_fastapi_multiauth.SignIn.Providers.{UserInfo, github_email, Http, Texts}
use python_fastapi_multiauth.SignIn.OAuth.{
  Answer, refreshed_oauth, ask_provider, authenticate_oauth,
}
use python_fastapi_multiauth.SignIn.Callback.{Cache, get_state, oauth_authorize, oauth_callback}
use python_fastapi_multiauth.SignIn.Registration.{UserCreate, Draws, register}
use python_fastapi_multiauth.SignIn.OneUse.{state_used_once}
use python_fastapi_multiauth.SignIn.Identity.{same_user, new_user_fails, second_factor_skipped}
use python_fastapi_multiauth.SignIn.Newcomers.{Registered, register_once}

abbrev packages : Packages
packages = record {
  encrypt = λ s. s;
  decrypt = λ s. s;
  totp_verify = λ secret token now. secret == token;
  hash = λ salt password. password;
  verify_password = λ password hashed. password == hashed;
  tracks_in_place = true;
}

abbrev jwt : Jwt
jwt = record { encode = λ exp sub type_. exp + sub; decode = λ token now. none }

abbrev settings : Settings
settings = record {
  max_login_attempts = 5;
  lockout_duration_minutes = 30;
  access_token_expire_minutes = 15;
  refresh_token_expire_days = 7;
}

abbrev texts : Texts
texts = record { str_id = λ id. 0; normalize = λ email. email }

-- The user of Google's account 9 has the email 50.
abbrev info : UserInfo
info = record { id = some 9; email = some 50; user_principal_name = none; raw = 1 }

abbrev client : Http
client = record {
  fetch_token = λ provider code. ok (record { access_token = some 70; refresh_token = none });
  google_userinfo = λ access_token. ok info;
  github_user = λ access_token. ok info;
  github_emails = λ access_token. ok [];
  microsoft_me = λ access_token. ok info;
  keycloak_userinfo = λ access_token. ok info;
}

-- The primary email is not verified.
picks_verified :
    github_email (
      record { email = 1; primary = true; verified = false }
      ∷ record { email = 2; primary = false; verified = true }
      ∷ [])
    ≡ some 2
unfolding github_email
picks_verified = refl

abbrev user : User
user = record {
  id = 1;
  email = 50;
  username = none;
  hashed_password = some 7;
  is_active = true;
  is_verified = true;
  is_superuser = false;
  failed_login_attempts = 0;
  locked_until = none;
  last_login = none;
}

abbrev empty_db : Db
empty_db = record {
  accounts = record {
    users = [];
    sessions = [];
    totp_secrets = [];
    reset_tokens = [];
    verification_tokens = [];
  };
  oauth_accounts = [];
  organizations = [];
  members = [];
}

abbrev call : Call
call = record { now = 1000; new_id = 80; salt = 81; device = none }

abbrev answer : Answer
answer = record {
  provider = google;
  provider_user_id = 9;
  email = 50;
  access_token = 70;
  refresh_token = none;
  raw = 1;
}

asks : ask_provider client texts google 60 ≡ ok (some answer)
unfolding ask_provider
asks = refl

asks_again : ask_provider client texts google 61 ≡ ok (some answer)
unfolding ask_provider
asks_again = refl

new_user_fails_example :
    authenticate_oauth only_row client texts packages jwt settings call 90 google 60 empty_db ≡ none
new_user_fails_example =
    new_user_fails only_row only_row-IsOneOrNone client texts packages jwt settings call 90 google
      60 answer empty_db asks refl refl

-- The user exists and is linked by the email.
abbrev with_user : Db
with_user = record empty_db { accounts = record empty_db.accounts { users = user ∷ [] } }

abbrev account : OAuthAccount
account = record {
  id = 90;
  user_id = 1;
  provider = google;
  provider_user_id = 9;
  access_token = 70;
  refresh_token = none;
  provider_data = 1;
}

abbrev secret : TotpSecret
secret = record {
  id = 30;
  user_id = 1;
  encrypted_secret = 31;
  backup_codes = [];
  is_enabled = true;
  is_verified = true;
  device_name = none;
  enabled_at = none;
  last_used_at = none;
}

-- The tables after the first login.
abbrev linked : (User × Token) × Db
linked =
    let (given, accounts) = complete packages jwt settings call user with_user.accounts in
    (given, record with_user { accounts = accounts; oauth_accounts = account ∷ [] })

links :
    authenticate_oauth only_row client texts packages jwt settings call 90 google 60 with_user
    ≡ some linked
unfolding authenticate_oauth complete
links = refl

-- And after the second.
abbrev again : (User × Token) × Db
again =
    let (given, accounts) = complete packages jwt settings call linked.0.0 linked.1.accounts in
    (given, record linked.1 { accounts = accounts })

logs_in_again :
    authenticate_oauth only_row client texts packages jwt settings call 91 google 61 linked.1
    ≡ some again
unfolding authenticate_oauth complete
logs_in_again = refl

same_user_example : again.0.0.id ≡ linked.0.0.id
same_user_example =
    same_user only_row only_row-IsOneOrNone client texts packages jwt settings call call 90 91
      google google 60 61 answer answer with_user linked.1 again.1 linked.0.0 again.0.0 linked.0.1
      again.0.1 asks asks_again refl refl tt (refl, tt) links logs_in_again

-- The linked user has a second factor.
abbrev guarded : Db
guarded = record with_user {
  accounts = record with_user.accounts { totp_secrets = secret ∷ [] };
  oauth_accounts = account ∷ [];
}

unlocked : is_locked call.now user ≡ false
unfolding is_locked
unlocked = refl

password_right : verify_password packages user 7 ≡ true
unfolding verify_password
password_right = refl

has_secret :
    Totp.get_totp_secret packages only_row 1 guarded.accounts.totp_secrets ≡ ok (some secret)
unfolding Totp.get_totp_secret
has_secret = refl

second_factor_skipped_example :
    let (given, accounts) = complete packages jwt settings call user guarded.accounts in
    (authenticate_local only_row packages jwt settings (λ email. email) call 50 7 guarded.accounts
      ≡ ok (challenged user (create_mfa_token jwt call.now 1), guarded.accounts))
    × (authenticate_oauth only_row client texts packages jwt settings call 90 google 60 guarded
        ≡ some (
          given,
          record guarded {
            accounts = accounts;
            oauth_accounts = save account_key (refreshed_oauth answer account) (account ∷ []);
          },
        ))
second_factor_skipped_example =
    second_factor_skipped only_row only_row-IsOneOrNone client texts packages jwt settings call 90
      google 60 7 answer account user secret guarded asks refl refl refl refl refl unlocked
      password_right has_secret refl

-- The state 5 is issued for Google.
abbrev states : Cache
states = (oauth_authorize 900 5 google []).1

calls_back :
    oauth_callback only_row client texts packages jwt settings call 90 google 5 60 states with_user
    ≡ (ok (linked.0.1, linked.1), [])
unfolding oauth_callback oauth_authorize complete
calls_back = refl

refuses_another_provider :
    oauth_callback only_row client texts packages jwt settings call 90 1 5 60 states with_user
    ≡ (err (http "400"), states)
unfolding oauth_callback oauth_authorize
refuses_another_provider = refl

state_used_once_example :
    (get_state 1000 5 states ≡ some google)
    × (oauth_callback only_row client texts packages jwt settings call 92 google 5 62 [] linked.1
        ≡ (err (http "400"), []))
state_used_once_example =
    state_used_once only_row client texts packages jwt settings call 90 google 5 60 states []
      with_user (linked.0.1, linked.1) calls_back call 92 google 62 linked.1

abbrev draws : Draws
draws = record {
  now = 1000;
  user_uuid = 1;
  organization_uuid = 2;
  token_uuid = 3;
  salt = 4;
  token = 5;
}

abbrev newcomer : UserCreate
newcomer = record { email = 50; username = none; password = 7 }

abbrev admin : User
admin = record user { is_verified = false; is_superuser = true }

-- The first user owns the default organisation.
abbrev registered : Db
registered = record empty_db {
  accounts = record empty_db.accounts {
    users = admin ∷ [];
    verification_tokens =
        record { id = 3; user_id = 1; token_hash = 5; expires_at = 86400001000; used = false } ∷ [];
  };
  organizations = record { id = 2; slug = 0; owner_id = some 1 } ∷ [];
  members = record { user_id = 1; organization_id = 2 } ∷ [];
}

registers :
    register only_row packages (λ email. email) (λ token. token) draws newcomer empty_db
    ≡ ok ((admin, 50, 5), registered)
unfolding register
registers = refl

register_once_example :
    Registered admin empty_db registered
    × (register only_row packages (λ email. email) (λ token. token) draws newcomer registered
        ≡ err (http "400"))
register_once_example =
    register_once only_row only_row-IsOneOrNone packages (λ email. email) (λ token. token) draws
      draws newcomer newcomer empty_db registered admin 50 5 registers refl
