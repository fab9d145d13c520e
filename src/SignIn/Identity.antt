-- ===== src/SignIn/Identity.antt =====
-- The user that `authenticate_oauth` in app/services/auth.py gives tokens for.
use python_fastapi_multiauth.Common.{
  ℕ, ◌≡◌, refl, sym, ap, ◌∙◌, true, false, Option, none, some, [], ◌∷◌, arith, Result, ok, err,
  bind-ok, ok-injective, OneOrNone, IsOneOrNone, only_row, eq-only_row, select, Distinct, save,
}
use python_fastapi_multiauth.Totp.Service as Totp
use python_fastapi_multiauth.Totp.Service.{Packages, TotpSecret}
use python_fastapi_multiauth.Accounts.Users as Accounts
use python_fastapi_multiauth.Accounts.Users.{
  User, Settings, user_is, has_email, get_by_id, get_by_email, update_last_login, is_locked,
  verify_password,
}
use python_fastapi_multiauth.Accounts.Tokens.{Jwt, create_mfa_token}
use python_fastapi_multiauth.Accounts.Login.{
  Token, Call, challenged, admit, needs_mfa, complete, authenticate_local,
}
use python_fastapi_multiauth.SignIn.Model.{
  OAuthAccount, account_key, identity_is, Db, get_or_create_default_organization,
}
use python_fastapi_multiauth.SignIn.Providers.{Http, Texts}
use python_fastapi_multiauth.SignIn.OAuth.{
  Answer, caught, refreshed_oauth, linked_user, user_of_email, link, ask_provider, admit_oauth,
  authenticate_oauth,
}
use python_fastapi_multiauth.SignIn.Linking.{Linked, link-Linked, link-same}

caught-some : {A : Type 0} (r : Result (Option A)) {a : A} → caught r ≡ some a → r ≡ ok (some a)
caught-some (err e) h = ground arith
caught-some (ok o) h = ap ok h

ok_some-injective : {A : Type 0} {a b : A} → ok (some a) ≡ ok (some b) → a ≡ b
ok_some-injective h = ground (arith, ok-injective h)

module _ (http : Http) (texts : Texts) (p : Packages) (jwt : Jwt) (settings : Settings) where
  abbrev log_in : Call → (uuid provider code : ℕ) → Db → Option ((User × Token) × Db)
  log_in = authenticate_oauth only_row http texts p jwt settings

  -- A login that gives tokens has linked the identity, before the counters and the session.
  admitted :
      (call : Call) (uuid provider code : ℕ) (answer : Answer) (db db' : Db) (user : User)
      (token : Token)
      → ask_provider http texts provider code ≡ ok (some answer)
      → log_in call uuid provider code db ≡ some ((user, token), db')
      → (u : User) × (linked : Db) × (link only_row texts (refreshed_oauth answer) uuid answer db
          ≡ ok (u, linked))
        × (user.id ≡ u.id)
        × (db'.oauth_accounts ≡ linked.oauth_accounts)
  unfolding authenticate_oauth admit_oauth complete update_last_login
  admitted call uuid provider code answer db db' user token asked h =
      let h = rw (authenticate_oauth, asked) at h in
      let admitted =
        caught-some (admit_oauth only_row texts p jwt settings call uuid answer db) h in
      bind-ok (link only_row texts (refreshed_oauth answer) uuid answer db) _ admitted
        (λ u linked h.
          let same = ok_some-injective h in
          (
            u.0,
            u.1,
            linked,
            ap (λ r. r.0.0.id) (sym same),
            ap (λ r. r.1.oauth_accounts) (sym same),
          ))

  same_user_only :
      (call call' : Call) (uuid uuid' provider provider' code code' : ℕ) (answer answer' : Answer)
      (db db' db'' : Db) (user user' : User) (token token' : Token)
      → ask_provider http texts provider code ≡ ok (some answer)
      → ask_provider http texts provider' code' ≡ ok (some answer')
      → answer'.provider ≡ answer.provider
      → answer'.provider_user_id ≡ answer.provider_user_id
      → Distinct account_key db.oauth_accounts
      → Distinct account_key db'.oauth_accounts
      → log_in call uuid provider code db ≡ some ((user, token), db')
      → log_in call' uuid' provider' code' db' ≡ some ((user', token'), db'')
      → user'.id ≡ user.id
  same_user_only call call' uuid uuid' provider provider' code code' answer answer' db db' db'' user
        user' token token' asked asked' same_provider same_id d d' h h' =
      let (u, linked, e, key, kept) =
        admitted call uuid provider code answer db db' user token asked h in
      let (u', linked', e', key', kept') =
        admitted call' uuid' provider' code' answer' db' db'' user' token' asked' h' in
      let l = link-Linked texts uuid answer db d e in
      let again : Linked answer' user.id db' = record {
        account = l.account;
        row = rw (same_provider, same_id, kept) l.row;
        owned = l.owned ∙ sym key;
      } in
      key' ∙ link-same texts uuid' answer' db' user.id d' again e'

  new_user_only :
      (call : Call) (uuid provider code : ℕ) (answer : Answer) (db : Db)
      → ask_provider http texts provider code ≡ ok (some answer)
      → select (identity_is answer.provider answer.provider_user_id) db.oauth_accounts ≡ []
      → select (has_email (texts.normalize answer.email)) db.accounts.users ≡ []
      → log_in call uuid provider code db ≡ none
  unfolding authenticate_oauth admit_oauth link user_of_email get_by_email
      get_or_create_default_organization
  new_user_only call uuid provider code answer db asked unknown absent =
      rw (authenticate_oauth, asked)
        (rw (admit_oauth, link, unknown) (rw (user_of_email, get_by_email, absent) refl))

  challenged_locally :
      (call : Call) (password : ℕ) (user : User) (secret : TotpSecret) (db : Accounts.Db)
      → select (has_email (texts.normalize user.email)) db.users ≡ user ∷ []
      → user.is_active ≡ true
      → user.is_verified ≡ true
      → is_locked call.now user ≡ false
      → verify_password p user password ≡ true
      → Totp.get_totp_secret p only_row user.id db.totp_secrets ≡ ok (some secret)
      → secret.is_enabled ≡ true
      → authenticate_local only_row p jwt settings texts.normalize call user.email password db
        ≡ ok (challenged user (create_mfa_token jwt call.now user.id), db)
  unfolding authenticate_local get_by_email admit needs_mfa
  challenged_locally call password user secret db by_email active verified unlocked right stored
        enabled =
      rw (authenticate_local, by_email, active, verified, unlocked, right)
        (rw (admit, stored) (rw enabled refl))

  factor_only :
      (call : Call) (uuid provider code password : ℕ) (answer : Answer) (account : OAuthAccount)
      (user : User) (secret : TotpSecret) (db : Db)
      → ask_provider http texts provider code ≡ ok (some answer)
      → select (identity_is answer.provider answer.provider_user_id) db.oauth_accounts
        ≡ account ∷ []
      → select (user_is account.user_id) db.accounts.users ≡ user ∷ []
      → select (has_email (texts.normalize user.email)) db.accounts.users ≡ user ∷ []
      → user.is_active ≡ true
      → user.is_verified ≡ true
      → is_locked call.now user ≡ false
      → verify_password p user password ≡ true
      → Totp.get_totp_secret p only_row user.id db.accounts.totp_secrets ≡ ok (some secret)
      → secret.is_enabled ≡ true
      → let (given, accounts) = complete p jwt settings call user db.accounts in
        (authenticate_local only_row p jwt settings texts.normalize call user.email password
            db.accounts
          ≡ ok (challenged user (create_mfa_token jwt call.now user.id), db.accounts))
        × (log_in call uuid provider code db
            ≡ some (
              given,
              record db {
                accounts = accounts;
                oauth_accounts =
                    save account_key (refreshed_oauth answer account) db.oauth_accounts;
              },
            ))
  unfolding authenticate_oauth admit_oauth link linked_user get_by_id
  factor_only call uuid provider code password answer account user secret db asked row there
        by_email active verified unlocked right stored enabled =
      (
        challenged_locally call password user secret db.accounts by_email active verified unlocked
            right stored enabled,
        rw (authenticate_oauth, asked) (rw (admit_oauth, link, row) (rw (linked_user, there) refl)),
      )

module _ (one : OneOrNone) (law : IsOneOrNone one) (http : Http) (texts : Texts) (p : Packages)
    (jwt : Jwt) (settings : Settings) where
  -- If two logins in a row give tokens and the provider has confirmed the same identity,
  -- they are of the same user, whatever the emails; the accounts' ids are distinct.
  pub same_user :
      (call call' : Call) (uuid uuid' provider provider' code code' : ℕ) (answer answer' : Answer)
      (db db' db'' : Db) (user user' : User) (token token' : Token)
      → ask_provider http texts provider code ≡ ok (some answer)
      → ask_provider http texts provider' code' ≡ ok (some answer')
      → answer'.provider ≡ answer.provider
      → answer'.provider_user_id ≡ answer.provider_user_id
      → Distinct account_key db.oauth_accounts
      → Distinct account_key db'.oauth_accounts
      → authenticate_oauth one http texts p jwt settings call uuid provider code db
        ≡ some ((user, token), db')
      → authenticate_oauth one http texts p jwt settings call' uuid' provider' code' db'
        ≡ some ((user', token'), db'')
      → user'.id ≡ user.id
  same_user = rw (eq-only_row one law) (same_user_only http texts p jwt settings)

  -- A login through a provider fails for an identity that is not linked and whose email no
  -- user has.
  pub new_user_fails :
      (call : Call) (uuid provider code : ℕ) (answer : Answer) (db : Db)
      → ask_provider http texts provider code ≡ ok (some answer)
      → select (identity_is answer.provider answer.provider_user_id) db.oauth_accounts ≡ []
      → select (has_email (texts.normalize answer.email)) db.accounts.users ≡ []
      → authenticate_oauth one http texts p jwt settings call uuid provider code db ≡ none
  new_user_fails = rw (eq-only_row one law) (new_user_only http texts p jwt settings)

  -- A linked user who has a second factor gets only a challenge for the right password, and
  -- tokens through the provider.
  pub second_factor_skipped :
      (call : Call) (uuid provider code password : ℕ) (answer : Answer) (account : OAuthAccount)
      (user : User) (secret : TotpSecret) (db : Db)
      → ask_provider http texts provider code ≡ ok (some answer)
      → select (identity_is answer.provider answer.provider_user_id) db.oauth_accounts
        ≡ account ∷ []
      → select (user_is account.user_id) db.accounts.users ≡ user ∷ []
      → select (has_email (texts.normalize user.email)) db.accounts.users ≡ user ∷ []
      → user.is_active ≡ true
      → user.is_verified ≡ true
      → is_locked call.now user ≡ false
      → verify_password p user password ≡ true
      → Totp.get_totp_secret p one user.id db.accounts.totp_secrets ≡ ok (some secret)
      → secret.is_enabled ≡ true
      → let (given, accounts) = complete p jwt settings call user db.accounts in
        (authenticate_local one p jwt settings texts.normalize call user.email password db.accounts
          ≡ ok (challenged user (create_mfa_token jwt call.now user.id), db.accounts))
        × (authenticate_oauth one http texts p jwt settings call uuid provider code db
            ≡ some (
              given,
              record db {
                accounts = accounts;
                oauth_accounts =
                    save account_key (refreshed_oauth answer account) db.oauth_accounts;
              },
            ))
  second_factor_skipped = rw (eq-only_row one law) (factor_only http texts p jwt settings)
