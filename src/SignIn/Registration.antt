-- ===== src/SignIn/Registration.antt =====
-- `register` of app/api/v1/endpoints/auth.py, with `create` and `get_by_username` of app/services/user.py.
use python_fastapi_multiauth.Common.{
  ℕ, Bool, true, false, Option, none, some, [], ◌∷◌, ◌++◌, length, ◌==◌, if◌then◌else◌, is_some,
  http, Result, ok, ◌>>=◌, ◌>>◌, raise_if, OneOrNone, select, save,
}
use python_fastapi_multiauth.Totp.Service.{Packages}
use python_fastapi_multiauth.Tenancy.Model.{Organization}
use python_fastapi_multiauth.Tenancy.Organizations.{get_or_create_default}
use python_fastapi_multiauth.Accounts.Users as Accounts
use python_fastapi_multiauth.Accounts.Users.{User, save_user, get_by_email}
use python_fastapi_multiauth.Accounts.Recovery.{new_token}
use python_fastapi_multiauth.SignIn.Model.{Db, tenancy_view, with_tenancy, join_organization}

-- `UserCreate`
pub record UserCreate : Type 0 where
  pub email : ℕ
  pub username : Option ℕ
  pub password : ℕ

-- What `uuid4()`, the clock, the hash's salt and `secrets` give.
pub record Draws : Type 0 where
  pub now : ℕ
  pub user_uuid : ℕ
  pub organization_uuid : ℕ
  pub token_uuid : ℕ
  pub salt : ℕ
  pub token : ℕ

abbrev pub named_user : ℕ → User → Bool
named_user username u = elim u.username [ none ↦ false | some name ↦ name == username ]

-- `UserService.create`: the row that it adds.
unfoldable pub create_user : Packages → (normalize : ℕ → ℕ) → Draws → UserCreate → User
create_user p normalize draws user_in = record {
  id = draws.user_uuid;
  email = normalize user_in.email;
  username = user_in.username;
  hashed_password = some (p.hash draws.salt user_in.password);
  is_active = true;
  is_verified = false;
  is_superuser = false;
  failed_login_attempts = 0;
  locked_until = none;
  last_login = none;
}

abbrev pub organization_key : Organization → ℕ
organization_key o = o.id

-- `if default_org.owner_id is None: default_org.owner_id = user.id`
unfoldable pub claim_organization : Organization → (user : ℕ) → Db → Db
claim_organization default_org user db = elim default_org.owner_id [
  | none ↦ record db {
    organizations =
        save organization_key (record default_org { owner_id = some user }) db.organizations;
  }
  | some owner ↦ db
]

module _ (one : OneOrNone) (p : Packages) (normalize hash_token : ℕ → ℕ) where
  -- Neither the email nor the user name, if there is one, is taken.
  unfoldable pub check_free : UserCreate → Accounts.Db → Result (Unit {0})
  unfolding get_by_email
  check_free user_in db = do
    existing_user ← get_by_email one normalize user_in.email db
    raise_if (is_some existing_user) (http "400")
    elim user_in.username [
      | none ↦ ok tt
      | some username ↦ do
        existing_username ← one User (select (named_user username) db.users)
        raise_if (is_some existing_username) (http "400")
    ]

  -- The user is added; the first one is a superuser.
  unfoldable pub add_user : Draws → UserCreate → Db → User × Db
  unfolding create_user save_user
  add_user draws user_in db =
      let user = create_user p normalize draws user_in in
      let accounts = record db.accounts { users = db.accounts.users ++ user ∷ [] } in
      let admin = record user { is_superuser = true } in
      if length accounts.users == 1
      then (admin, record db { accounts = save_user admin accounts })
      else (user, record db { accounts = accounts })

  -- Returns the user, and the address and token of the mail.
  unfoldable pub register : Draws → UserCreate → Db → Result ((User × ℕ × ℕ) × Db)
  unfolding check_free add_user get_or_create_default claim_organization join_organization new_token
  register draws user_in db = do
    check_free user_in db.accounts
    let (user, db) = add_user draws user_in db
    (default_org, t) ← get_or_create_default one draws.organization_uuid (tenancy_view db)
    let db = claim_organization default_org user.id (with_tenancy db t)
    db ← join_organization one default_org.id user.id db
    let verification_token =
        new_token one hash_token draws.token_uuid draws.now user.id draws.token 1440
    let accounts = record db.accounts {
      verification_tokens = db.accounts.verification_tokens ++ verification_token ∷ [];
    }
    ok ((user, user.email, draws.token), record db { accounts = accounts })
