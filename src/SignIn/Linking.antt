-- ===== src/SignIn/Linking.antt =====
-- Whom a login through a provider admits, in app/services/auth.py.
use python_fastapi_multiauth.Common.{
  ℕ, ◌≡◌, refl, sym, ap, ◌∙◌, Bool, some, [], ◌∷◌, ◌++◌, ==_iff, ==_refl, inl, inr, ok, ok≢err,
  bind-ok, ok-injective, only_row, only_row-some, only_row-none, Option-cases, select,
  select-append, select-holds, select-save, Distinct,
}
use python_fastapi_multiauth.Accounts.Users as Accounts
use python_fastapi_multiauth.Accounts.Users.{
  User, Settings, user_is, has_email, get_by_id, get_by_email,
}
use python_fastapi_multiauth.SignIn.Model.{
  OAuthAccount, account_key, identity_is, Db, get_or_create_default_organization,
}
use python_fastapi_multiauth.SignIn.Providers.{Texts}
use python_fastapi_multiauth.SignIn.OAuth.{
  Answer, refreshed_oauth, linked_user, user_of_email, link,
}

-- The identity that a provider has confirmed is linked to this user.
pub record Linked (answer : Answer) (user_id : ℕ) (db : Db) : Type 0 where
  pub account : OAuthAccount
  pub row :
      select (identity_is answer.provider answer.provider_user_id) db.oauth_accounts ≡ account ∷ []
  pub owned : account.user_id ≡ user_id

get_by_id-key :
    (id : ℕ) (db : Accounts.Db) {user : User}
    → get_by_id only_row id db ≡ ok (some user)
    → user.id ≡ id
unfolding get_by_id
get_by_id-key id db {user} h =
    (==_iff user.id id).0
      (select-holds (user_is id) db.users (only_row-some (select (user_is id) db.users) h))

-- A login with an identity that is new is that of the user with the email: new users are not reached.
known-email :
    (texts : Texts) (uuid email : ℕ) (db : Db) {user : User} {db' : Db}
    → user_of_email only_row texts uuid email db ≡ ok (user, db')
    → (select (has_email (texts.normalize email)) db.accounts.users ≡ user ∷ []) × (db' ≡ db)
unfolding user_of_email get_or_create_default_organization get_by_email
known-email texts uuid email db {user} {db'} h =
    bind-ok (get_by_email only_row texts.normalize email db.accounts) _ h (λ found asked h.
      elim (Option-cases found) [
        | inl absent ↦ let h = rw absent at h in absurd (ok≢err (sym h))
        | inr (u, there) ↦
            let h = rw there at h in
            let same = ok-injective h in
            (
              only_row-some (select (has_email (texts.normalize email)) db.accounts.users)
                  (asked ∙ ap ok there ∙ ap (λ r. ok (some r.0)) same),
              ap (λ r. r.1) (sym same),
            )
      ])

module _ (texts : Texts) (uuid : ℕ) (answer : Answer) where
  abbrev same_identity : OAuthAccount → Bool
  same_identity = identity_is answer.provider answer.provider_user_id

  abbrev new_account : ℕ → OAuthAccount
  new_account user_id = record {
    id = uuid;
    user_id = user_id;
    provider = answer.provider;
    provider_user_id = answer.provider_user_id;
    access_token = answer.access_token;
    refresh_token = answer.refresh_token;
    provider_data = answer.raw;
  }

  -- Logging in with a linked account.
  link-found :
      (account : OAuthAccount) (db : Db) {user : User} {db' : Db}
      → Distinct account_key db.oauth_accounts
      → select same_identity db.oauth_accounts ≡ account ∷ []
      → link only_row texts (refreshed_oauth answer) uuid answer db ≡ ok (user, db')
      → (user.id ≡ account.user_id) × Linked answer user.id db'
  unfolding link linked_user refreshed_oauth
  link-found account db {user} {db'} distinct row h =
      let h = rw (link, row) at h in
      bind-ok (get_by_id only_row account.user_id db.accounts) _ h (λ found asked h.
        elim (Option-cases found) [
          | inl absent ↦ let h = rw absent at h in absurd (ok≢err (sym h))
          | inr (u, there) ↦
              let h = rw there at h in
              let same = ok-injective h in
              let key =
                ap (λ r. r.0.id) (sym same)
                ∙ get_by_id-key account.user_id db.accounts (asked ∙ ap ok there) in
              (
                key,
                record {
                  account = refreshed_oauth answer account;
                  row =
                      ap (λ r. select same_identity r.1.oauth_accounts) (sym same)
                      ∙ select-save account_key same_identity account
                          (refreshed_oauth answer account) db.oauth_accounts distinct row refl
                          (select-holds same_identity db.oauth_accounts row);
                  owned = sym key;
                },
              )
        ])

  link-new :
      (db : Db) {user : User} {db' : Db}
      → select same_identity db.oauth_accounts ≡ []
      → link only_row texts (refreshed_oauth answer) uuid answer db ≡ ok (user, db')
      → Linked answer user.id db'
  unfolding link user_of_email
  link-new db {user} {db'} row h =
      let h = rw (link, row) at h in
      bind-ok (user_of_email only_row texts uuid answer.email db) _ h (λ found asked h.
        let same = ok-injective h in
        let kept = (known-email texts uuid answer.email db asked).1 in
        record {
          account = new_account found.0.id;
          row =
              ap (λ r. select same_identity r.1.oauth_accounts) (sym same)
              ∙ select-append same_identity found.1.oauth_accounts (new_account found.0.id ∷ [])
              ∙ ap (λ accounts. accounts ++ select same_identity (new_account found.0.id ∷ []))
                  (ap (λ d. select same_identity d.oauth_accounts) kept ∙ row)
              ∙ rw (==_refl answer.provider, ==_refl answer.provider_user_id) refl;
          owned = ap (λ r. r.0.id) same;
        })

  pub link-Linked :
      (db : Db) {user : User} {db' : Db}
      → Distinct account_key db.oauth_accounts
      → link only_row texts (refreshed_oauth answer) uuid answer db ≡ ok (user, db')
      → Linked answer user.id db'
  unfolding link
  link-Linked db distinct h =
      bind-ok (only_row OAuthAccount (select same_identity db.oauth_accounts)) _ h
        (λ found asked rest. elim (Option-cases found) [
          | inl absent ↦ link-new db (only_row-none _ (asked ∙ ap ok absent)) h
          | inr (account, there) ↦
              (link-found account db distinct (only_row-some _ (asked ∙ ap ok there)) h).1
        ])

  -- A login with a linked identity is that of the same user.
  pub link-same :
      (db : Db) {user : User} {db' : Db} (user_id : ℕ)
      → Distinct account_key db.oauth_accounts
      → Linked answer user_id db
      → link only_row texts (refreshed_oauth answer) uuid answer db ≡ ok (user, db')
      → user.id ≡ user_id
  link-same db user_id distinct linked h =
      (link-found linked.account db distinct linked.row h).0 ∙ linked.owned
