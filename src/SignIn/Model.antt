-- ===== src/SignIn/Model.antt =====
-- app/models/oauth.py, the tables of registrations and logins, and the default organisation of a new user. A provider
-- is the number of its name.
use python_fastapi_multiauth.Common.{
  ℕ, Bool, Option, List, [], map, ◌&&◌, ◌==◌, Result, ok, err, ◌>>=◌, OneOrNone, attribute_error,
}
use python_fastapi_multiauth.Tenancy.Model as Tenancy
use python_fastapi_multiauth.Tenancy.Model.{Organization, Member}
use python_fastapi_multiauth.Tenancy.Organizations.{add_member}
use python_fastapi_multiauth.Accounts.Users as Accounts
use python_fastapi_multiauth.Accounts.Users.{User}

abbrev pub google : ℕ
google = 0

abbrev pub github : ℕ
github = 1

abbrev pub microsoft : ℕ
microsoft = 2

abbrev pub keycloak : ℕ
keycloak = 3

pub record OAuthAccount : Type 0 where
  pub id : ℕ
  pub user_id : ℕ
  pub provider : ℕ
  pub provider_user_id : ℕ
  pub access_token : ℕ
  pub refresh_token : Option ℕ
  pub provider_data : ℕ

abbrev pub account_key : OAuthAccount → ℕ
account_key a = a.id

-- The row of one identity at a provider.
abbrev pub identity_is : (provider provider_user_id : ℕ) → OAuthAccount → Bool
identity_is provider provider_user_id a =
    a.provider == provider && a.provider_user_id == provider_user_id

pub record Db : Type 0 where
  pub accounts : Accounts.Db
  pub oauth_accounts : List OAuthAccount
  pub organizations : List Organization
  pub members : List Member

-- The tables as app/services/organization.py reads them.
abbrev pub tenancy_view : Db → Tenancy.Db
tenancy_view db = record {
  users =
      map (λ u. record { id = u.id; email = u.email; is_superuser = u.is_superuser })
        db.accounts.users;
  organizations = db.organizations;
  members = db.members;
  invitations = [];
}

-- The tables after a call of that service, which leaves the users.
abbrev pub with_tenancy : Db → Tenancy.Db → Db
with_tenancy db t = record db { organizations = t.organizations; members = t.members }

-- `OrganizationService.add_member`
unfoldable pub join_organization : OneOrNone → (org user : ℕ) → Db → Result Db
unfolding add_member
join_organization one org user db = do
  t ← add_member one org user (tenancy_view db)
  ok (with_tenancy db t)

-- `OrganizationService` has no attribute of this name.
unfoldable pub get_or_create_default_organization : Db → Result (Organization × Db)
get_or_create_default_organization db = err attribute_error
