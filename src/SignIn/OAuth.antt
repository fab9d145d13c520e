-- ===== src/SignIn/OAuth.antt =====
-- `authenticate_oauth` and `authenticate_keycloak` of app/services/auth.py. An exception is caught and answered with
-- (None, None); the endpoint then raises, so no tables come with it.
use python_fastapi_multiauth.Common.{
  ℕ, true, false, Option, none, some, [], ◌∷◌, ◌++◌, Result, ok, err, attribute_error, ◌>>=◌, ◌>>◌,
  OneOrNone, select, save,
}
use python_fastapi_multiauth.Totp.Service.{Packages}
use python_fastapi_multiauth.Accounts.Users.{
  User, Settings, save_user, get_by_id, get_by_email, update_last_login,
}
use python_fastapi_multiauth.Accounts.Tokens.{Jwt}
use python_fastapi_multiauth.Accounts.Login.{Token, Call, issue, complete}
use python_fastapi_multiauth.SignIn.Model.{
  keycloak, OAuthAccount, account_key, identity_is, Db, join_organization,
  get_or_create_default_organization,
}
use python_fastapi_multiauth.SignIn.Providers.{
  Http, Texts, supported, get_oauth_user_info, identity, both,
}

-- `User(email=..., full_name=..., is_verified=True)` with the columns' defaults.
unfoldable pub new_oauth_user : (new_id email : ℕ) → User
new_oauth_user new_id email = record {
  id = new_id;
  email = email;
  username = none;
  hashed_password = none;
  is_active = true;
  is_verified = true;
  is_superuser = false;
  failed_login_attempts = 0;
  locked_until = none;
  last_login = none;
}

-- What a call makes of `(None, None)` or an exception: nothing.
abbrev pub caught {ℓ} : {A : Type ℓ} → Result (Option A) → Option A
caught (err raised) = none
caught (ok outcome) = outcome

-- What the provider has answered about the user.
pub record Answer : Type 0 where
  pub provider : ℕ
  pub provider_user_id : ℕ
  pub email : ℕ
  pub access_token : ℕ
  pub refresh_token : Option ℕ
  pub raw : ℕ

-- What is assigned to a linked account: the Keycloak login leaves the refresh token.
unfoldable pub refreshed_oauth : Answer → OAuthAccount → OAuthAccount
refreshed_oauth answer account = record account {
  access_token = answer.access_token;
  refresh_token = answer.refresh_token;
  provider_data = answer.raw;
}

unfoldable pub refreshed_keycloak : Answer → OAuthAccount → OAuthAccount
refreshed_keycloak answer account = record account {
  access_token = answer.access_token;
  provider_data = answer.raw;
}

module _ (one : OneOrNone) (texts : Texts) where
  -- The user of the linked account. Without a user, `update_last_login` raises on None.
  unfoldable pub linked_user :
      (OAuthAccount → OAuthAccount) → OAuthAccount → Db → Result (User × Db)
  unfolding get_by_id
  linked_user refreshed account db = do
    found ← get_by_id one account.user_id db.accounts
    elim found [
      | none ↦ err attribute_error
      | some user ↦ ok (
        user,
        record db { oauth_accounts = save account_key (refreshed account) db.oauth_accounts },
      )
    ]

  -- The user with the email, or a new one.
  unfoldable pub user_of_email : (new_id email : ℕ) → Db → Result (User × Db)
  unfolding get_by_email new_oauth_user get_or_create_default_organization join_organization
  user_of_email new_id email db = do
    found ← get_by_email one texts.normalize email db.accounts
    elim found [
      | some user ↦ ok (user, db)
      | none ↦ do
        let user = new_oauth_user new_id (texts.normalize email)
        let db = record db {
          accounts = record db.accounts { users = db.accounts.users ++ user ∷ [] };
        }
        (default_org, db) ← get_or_create_default_organization db
        db ← join_organization one default_org.id user.id db
        ok (user, db)
    ]

  -- The account of the identity is found and refreshed, or made. `uuid` is the new rows' `uuid4()`.
  unfoldable pub link :
      (OAuthAccount → OAuthAccount) → (uuid : ℕ) → Answer → Db → Result (User × Db)
  unfolding linked_user user_of_email
  link refreshed uuid answer db = do
    oauth_account ←
        one OAuthAccount
          (select (identity_is answer.provider answer.provider_user_id) db.oauth_accounts)
    elim oauth_account [
      | some account ↦ linked_user refreshed account db
      | none ↦ do
        (user, db) ← user_of_email uuid answer.email db
        let account : OAuthAccount = record {
          id = uuid;
          user_id = user.id;
          provider = answer.provider;
          provider_user_id = answer.provider_user_id;
          access_token = answer.access_token;
          refresh_token = answer.refresh_token;
          provider_data = answer.raw;
        }
        ok (user, record db { oauth_accounts = db.oauth_accounts ++ account ∷ [] })
    ]

module _ (http : Http) (texts : Texts) where
  -- The first half of `authenticate_oauth`: what the provider says, or nothing.
  unfoldable pub ask_provider : (provider code : ℕ) → Result (Option Answer)
  unfolding supported get_oauth_user_info identity
  ask_provider provider code = do
    supported provider
    token ← http.fetch_token provider code
    elim token.access_token [
      | none ↦ ok none
      | some access_token ↦ do
        user_info ← get_oauth_user_info http provider access_token
        ok (elim (identity texts provider user_info) [
          | none ↦ none
          | some (email, provider_user_id) ↦ some (record {
            provider = provider;
            provider_user_id = provider_user_id;
            email = email;
            access_token = access_token;
            refresh_token = token.refresh_token;
            raw = user_info.raw;
          })
        ])
    ]

  -- The same for Keycloak, whose user info has the id as `sub`.
  unfoldable pub ask_keycloak : (access_token : ℕ) → Result (Option Answer)
  ask_keycloak access_token = do
    user_info ← http.keycloak_userinfo access_token
    ok (elim (both user_info.email user_info.id) [
      | none ↦ none
      | some (email, provider_user_id) ↦ some (record {
        provider = keycloak;
        provider_user_id = provider_user_id;
        email = email;
        access_token = access_token;
        refresh_token = none;
        raw = user_info.raw;
      })
    ])

module _ (one : OneOrNone) (texts : Texts) (p : Packages) (jwt : Jwt) (settings : Settings) where
  -- The second half of `authenticate_oauth`: the account, the counters, the tokens and the session.
  unfoldable pub admit_oauth :
      Call → (uuid : ℕ) → Answer → Db → Result (Option ((User × Token) × Db))
  unfolding link refreshed_oauth complete
  admit_oauth call uuid answer db = do
    (user, db) ← link one texts (refreshed_oauth answer) uuid answer db
    let ((user, token), accounts) = complete p jwt settings call user db.accounts
    ok (some ((user, token), record db { accounts = accounts }))

  -- That of `authenticate_keycloak`, which opens no session.
  unfoldable pub admit_keycloak :
      Call → (uuid : ℕ) → Answer → Db → Result (Option ((User × Token) × Db))
  unfolding link refreshed_keycloak issue save_user update_last_login
  admit_keycloak call uuid answer db = do
    (user, db) ← link one texts (refreshed_keycloak answer) uuid answer db
    let user = update_last_login call.now user
    ok (
        some (
          (user, issue p jwt settings call.now user),
          record db { accounts = save_user user db.accounts },
        ))

module _ (one : OneOrNone) (http : Http) (texts : Texts) (p : Packages) (jwt : Jwt)
    (settings : Settings) where
  unfoldable pub authenticate_oauth :
      Call → (uuid provider code : ℕ) → Db → Option ((User × Token) × Db)
  unfolding ask_provider admit_oauth
  authenticate_oauth call uuid provider code db = caught (do
    answer ← ask_provider http texts provider code
    elim answer [
      | none ↦ ok none
      | some answer ↦ admit_oauth one texts p jwt settings call uuid answer db
    ])

  unfoldable pub authenticate_keycloak :
      Call → (uuid access_token : ℕ) → Db → Option ((User × Token) × Db)
  unfolding ask_keycloak admit_keycloak
  authenticate_keycloak call uuid access_token db = caught (do
    answer ← ask_keycloak http texts access_token
    elim answer [
      | none ↦ ok none
      | some answer ↦ admit_keycloak one texts p jwt settings call uuid answer db
    ])
