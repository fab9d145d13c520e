-- ===== src/Rbac/Service.antt =====
-- app/services/rbac.py and app/models/role.py, with the table user_roles of app/models/user.py.
-- Names, resources, actions and descriptions are numbers.
use python_fastapi_multiauth.Common.{
  ℕ, Bool, true, false, Option, none, some, List, [], ◌∷◌, ◌++◌, if◌then◌else◌, ◌==◌, ◌&&◌, is_some,
  Result, ok, value_error, ◌>>=◌, ◌>>◌, raise_if, OneOrNone, select, delete_where, save, has_key,
}

pub record Permission : Type 0 where
  pub id : ℕ
  pub name : ℕ
  pub resource : ℕ
  pub action : ℕ
  pub description : Option ℕ

pub record Role : Type 0 where
  pub id : ℕ
  pub name : ℕ
  pub description : Option ℕ
  pub is_system : Bool

pub record RolePermission : Type 0 where
  pub role_id : ℕ
  pub permission_id : ℕ

-- A row of `user_roles`.
pub record UserRole : Type 0 where
  pub user_id : ℕ
  pub role_id : ℕ
  pub organization_id : Option ℕ
  pub team_id : Option ℕ

-- What `check_permission` reads of the user.
pub record User : Type 0 where
  pub id : ℕ
  pub is_superuser : Bool

pub record Db : Type 0 where
  pub permissions : List Permission
  pub roles : List Role
  pub role_permissions : List RolePermission
  pub user_roles : List UserRole

abbrev pub role_key : Role → ℕ
role_key r = r.id

abbrev pub of_role : ℕ → RolePermission → Bool
of_role role rp = rp.role_id == role

-- `(column == wanted) | column.is_(None)`, or no condition if nothing is wanted.
unfoldable pub in_scope : Option ℕ → Option ℕ → Bool
in_scope none column = true
in_scope (some wanted) none = true
in_scope (some wanted) (some c) = c == wanted

-- The results of a function on all rows, in order.
abbrev pub flat_map {ℓ κ} : {A : Type ℓ} {B : Type κ} → (A → List B) → List A → List B
flat_map f [] = []
flat_map f (x ∷ xs) = f x ++ flat_map f xs

-- JOIN ... ON: `f` at every row that meets the condition.
abbrev pub join {ℓ κ} : {A : Type ℓ} {B : Type κ} → (A → Bool) → (A → List B) → List A → List B
join on f = flat_map (λ x. if on x then f x else [])

-- `select(Permission).join(RolePermission).join(Role).join(user_roles).where(...)`: the permission is
-- in the result once for every combination of rows. The joins, from the last to the first:
module _ (where_clause : Permission → UserRole → Bool) (db : Db) where
  abbrev pub with_user : Permission → Role → UserRole → Bool
  with_user p r ur = r.id == ur.role_id && where_clause p ur

  abbrev pub join_users : Permission → Role → List Permission
  join_users p r = join (with_user p r) (λ ur. p ∷ []) db.user_roles

  abbrev pub with_role : RolePermission → Role → Bool
  with_role rp r = rp.role_id == r.id

  abbrev pub join_roles : Permission → RolePermission → List Permission
  join_roles p rp = join (with_role rp) (join_users p) db.roles

  abbrev pub with_link : Permission → RolePermission → Bool
  with_link p rp = p.id == rp.permission_id

  abbrev pub join_links : Permission → List Permission
  join_links p = join (with_link p) (join_roles p) db.role_permissions

  unfoldable pub joined : List Permission
  joined = flat_map join_links db.permissions

-- The WHERE clause of `get_user_permissions`.
unfoldable pub held : (user : ℕ) → (org team : Option ℕ) → UserRole → Bool
unfolding in_scope
held user org team ur =
    ur.user_id == user && (in_scope org ur.organization_id && in_scope team ur.team_id)

unfoldable pub get_user_permissions : (user : ℕ) → (org team : Option ℕ) → Db → List Permission
unfolding joined held
get_user_permissions user org team db = joined (λ p ur. held user org team ur) db

-- The WHERE clause of `check_permission`.
unfoldable pub grants :
    (user resource action : ℕ) → (org team : Option ℕ) → Permission → UserRole → Bool
unfolding held
grants user resource action org team p ur =
    held user org team ur && (p.resource == resource && p.action == action)

module _ (one : OneOrNone) where
  unfoldable pub check_permission :
      User → (resource action : ℕ) → (org team : Option ℕ) → Db → Result Bool
  unfolding joined grants
  check_permission user resource action org team db =
      let asked = do
        permission ← one Permission (joined (grants user.id resource action org team) db)
        ok (is_some permission)
      in if user.is_superuser then ok true else asked

  unfoldable pub get_role_by_id : ℕ → Db → Result (Option Role)
  get_role_by_id role db = one Role (select (has_key role_key role) db.roles)

-- The loops that add a `RolePermission` for every id.
unfoldable pub role_rows : ℕ → List ℕ → List RolePermission
role_rows role [] = []
role_rows role (permission ∷ ids) =
    record { role_id = role; permission_id = permission } ∷ role_rows role ids

unfoldable pub create_role : (new_id name : ℕ) → Option ℕ → List ℕ → Db → Role × Db
unfolding role_rows
create_role new_id name description ids db =
    let role : Role = record {
      id = new_id;
      name = name;
      description = description;
      is_system = false;
    } in
    (
      role,
      record db {
        roles = db.roles ++ role ∷ [];
        role_permissions = db.role_permissions ++ role_rows new_id ids;
      },
    )

-- The fields that the request sets, and the permissions if it gives them.
unfoldable pub update_role : Role → Option ℕ → Option (Option ℕ) → Option (List ℕ) → Db → Role × Db
unfolding role_rows
update_role role name description permission_ids db =
    let named : Role = elim name [ none ↦ role | some n ↦ record role { name = n } ] in
    let changed : Role = elim description [
      | none ↦ named
      | some d ↦ record named { description = d }
    ] in
    let links : List RolePermission = elim permission_ids [
      | none ↦ db.role_permissions
      | some ids ↦ delete_where (of_role role.id) db.role_permissions ++ role_rows role.id ids
    ] in
    (changed, record db { roles = save role_key changed db.roles; role_permissions = links })

-- Both association tables refer to roles with ON DELETE CASCADE.
unfoldable pub delete_role : Role → Db → Result Db
delete_role role db = do
  raise_if role.is_system (value_error "Cannot delete system roles")
  ok (record db {
    roles = delete_where (has_key role_key role.id) db.roles;
    role_permissions = delete_where (of_role role.id) db.role_permissions;
    user_roles = delete_where (λ ur. ur.role_id == role.id) db.user_roles;
  })

unfoldable pub assign_role_to_user : (user role : ℕ) → (org team : Option ℕ) → Db → Db
assign_role_to_user user role org team db = record db {
  user_roles =
      db.user_roles
      ++ record { user_id = user; role_id = role; organization_id = org; team_id = team } ∷ [];
}

unfoldable pub remove_role_from_user : (user role : ℕ) → Db → Db
remove_role_from_user user role db = record db {
  user_roles = delete_where (λ ur. ur.user_id == user && ur.role_id == role) db.user_roles;
}
