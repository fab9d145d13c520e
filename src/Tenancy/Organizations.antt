-- ===== src/Tenancy/Organizations.antt =====
-- app/services/organization.py.
use python_fastapi_multiauth.Common.{
  ℕ, Bool, false, Option, none, some, List, [], ◌∷◌, ◌++◌, ◌&&◌, if◌then◌else◌, ◌==◌, Result, ok,
  err, value_error, ◌>>=◌, OneOrNone, select, delete_where, exists,
}
use python_fastapi_multiauth.Tenancy.Model.{User, Organization, Member, Db}

-- The number of the text "default".
abbrev pub default_org_slug : ℕ
default_org_slug = 0

abbrev pub user_is : ℕ → User → Bool
user_is user u = u.id == user

abbrev pub org_is : ℕ → Organization → Bool
org_is org o = o.id == org

abbrev pub of_user : ℕ → Member → Bool
of_user user m = m.user_id == user

-- `user_organizations` rows of one user in one organisation.
abbrev pub membership : ℕ → ℕ → Member → Bool
membership user org m = m.user_id == user && m.organization_id == org

unfoldable pub is_member : ℕ → ℕ → Db → Bool
is_member org user db = exists (membership user org) db.members

unfoldable pub insert_member : ℕ → ℕ → Db → Db
insert_member org user db = record db {
  members = db.members ++ record { user_id = user; organization_id = org } ∷ [];
}

unfoldable pub remove_member : ℕ → ℕ → Db → Db
remove_member org user db = record db { members = delete_where (membership user org) db.members }

-- `existing_org and existing_org.slug == DEFAULT_ORG_SLUG`
unfoldable pub is_default : Option Organization → Bool
is_default none = false
is_default (some o) = o.slug == default_org_slug

-- The default organisation; its owner is the first user, if there is one.
unfoldable pub new_default_org : ℕ → List User → Organization
new_default_org new_id [] = record { id = new_id; slug = default_org_slug; owner_id = none }
new_default_org new_id (u ∷ rest) = record {
  id = new_id;
  slug = default_org_slug;
  owner_id = some u.id;
}

module _ (one : OneOrNone) where
  unfoldable pub get_by_id : ℕ → Db → Result (Option Organization)
  get_by_id org db = one Organization (select (org_is org) db.organizations)

  unfoldable pub get_by_slug : ℕ → Db → Result (Option Organization)
  get_by_slug slug db = one Organization (select (λ o. o.slug == slug) db.organizations)

  unfoldable pub get_or_create_default : ℕ → Db → Result (Organization × Db)
  unfolding get_by_slug new_default_org
  get_or_create_default new_id db = do
    default_org ← get_by_slug default_org_slug db
    let created = new_default_org new_id db.users
    ok (elim default_org [
      | none ↦ (created, record db { organizations = db.organizations ++ created ∷ [] })
      | some o ↦ (o, db)
    ])

  unfoldable pub create : ℕ → ℕ → ℕ → Db → Result (Organization × Db)
  unfolding insert_member
  create new_id slug owner db =
      let org : Organization = record { id = new_id; slug = slug; owner_id = some owner } in
      let db = record db { organizations = db.organizations ++ org ∷ [] } in
      ok (org, insert_member new_id owner db)

  -- The branch of `add_member` for a user who is in the organisation `existing` already.
  unfoldable pub move_member : Member → ℕ → ℕ → Db → Result Db
  unfolding is_default remove_member insert_member
  move_member existing org user db = do
    existing_org ← one Organization (select (org_is existing.organization_id) db.organizations)
    if is_default existing_org
        then ok (insert_member org user (remove_member existing.organization_id user db))
        else err (value_error "User is already a member of another organization")

  unfoldable pub add_regular : ℕ → ℕ → Db → Result Db
  unfolding move_member insert_member
  add_regular org user db = elim (select (of_user user) db.members) [
    | [] ↦ ok (insert_member org user db)
    | existing ∷ rest ↦
        if existing.organization_id == org
        then ok (insert_member org user db)
        else move_member existing org user db
  ]

  unfoldable pub add_member : ℕ → ℕ → Db → Result Db
  unfolding add_regular insert_member
  add_member org user db = do
    found ← one User (select (user_is user) db.users)
    elim found [
      | none ↦ err (value_error "User not found")
      | some u ↦ if u.is_superuser then ok (insert_member org user db) else add_regular org user db
    ]
