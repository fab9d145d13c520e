-- ===== src/Rbac/Tests.antt =====
-- Runs on the roles 1 (admin, a system role) and 2 (member), which both have permission 7: action 5 on
-- resource 4. User 8 has both roles, user 9 is a member only, within organisation 3.

use mathlib.Core.List.{Memᴰ}
use python_fastapi_multiauth.Common.{
  ◌≡◌, ◌≢◌, ◌⊎◌, List, refl, inl, inr, true, false, none, some, [], ◌∷◌, ok, err, Error,
  multiple_results, only_row, only_row-IsOneOrNone,
}
use python_fastapi_multiauth.Rbac.Service.{
  Permission, Role, RolePermission, UserRole, User, Db, check_permission, update_role, joined,
  grants, remove_role_from_user,
}
use python_fastapi_multiauth.Rbac.Revocation.{role_taken_away}
use python_fastapi_multiauth.Rbac.Decision.{Granted, permission_decided}

abbrev read_users : Permission
read_users = record { id = 7; name = 45; resource = 4; action = 5; description = none }

abbrev admin : Role
admin = record { id = 1; name = 11; description = none; is_system = true }

abbrev member : Role
member = record { id = 2; name = 12; description = none; is_system = false }

abbrev member_reads : RolePermission
member_reads = record { role_id = 2; permission_id = 7 }

abbrev membership : UserRole
membership = record { user_id = 9; role_id = 2; organization_id = some 3; team_id = none }

abbrev db : Db
db = record {
  permissions = read_users ∷ [];
  roles = admin ∷ member ∷ [];
  role_permissions = record { role_id = 1; permission_id = 7 } ∷ member_reads ∷ [];
  user_roles =
      record { user_id = 8; role_id = 1; organization_id = none; team_id = none }
      ∷ record { user_id = 8; role_id = 2; organization_id = none; team_id = none }
      ∷ membership
      ∷ [];
}

abbrev both_roles : User
both_roles = record { id = 8; is_superuser = false }

abbrev one_role : User
one_role = record { id = 9; is_superuser = false }

granted_twice : check_permission only_row both_roles 4 5 none none db ≡ err multiple_results
unfolding check_permission
granted_twice = refl

granted_once : check_permission only_row one_role 4 5 (some 3) none db ≡ ok true
unfolding check_permission
granted_once = refl

refused_elsewhere : check_permission only_row one_role 4 5 (some 6) none db ≡ ok false
unfolding check_permission
refused_elsewhere = refl

-- User 9's grant in any tables that hold its rows.
abbrev reads :
    (tables : Db)
    → Memᴰ read_users tables.permissions
      × Memᴰ member_reads tables.role_permissions
      × Memᴰ member tables.roles
      × Memᴰ membership tables.user_roles
    → Granted 9 4 5 (some 3) none tables
reads tables stored = record {
  p = read_users;
  rp = member_reads;
  r = member;
  ur = membership;
  stored = stored;
  asked = (refl, refl);
  linked = (refl, refl, refl);
  holder = refl;
  in_organization = inr (inr refl);
  in_team = inl refl;
}

permission_decided_example :
    let result = check_permission only_row both_roles 4 5 none none db in
    let granted = Granted 8 4 5 none none db in
    (result ≡ ok true → (false ≡ true) ⊎ granted)
    × (result ≡ ok false → (false ≡ false) × ¬ granted)
    × ((e : Error)
        → result ≡ err e
        → (e ≡ multiple_results)
          × (false ≡ false)
          × granted
          × ((p q : Permission) × (rest : List Permission) × (joined (grants 8 4 5 none none) db
                ≡ p ∷ q ∷ rest)))
permission_decided_example =
    permission_decided only_row only_row-IsOneOrNone both_roles 4 5 none none db

-- Taking the admin role from user 9, who has the member role.
abbrev after_removal : Granted 9 4 5 (some 3) none (remove_role_from_user 9 1 db)
unfolding remove_role_from_user
after_removal = reads (remove_role_from_user 9 1 db) (
  Memᴰ.head refl,
  Memᴰ.tail (Memᴰ.head refl),
  Memᴰ.tail (Memᴰ.head refl),
  Memᴰ.tail (Memᴰ.tail (Memᴰ.head refl)),
)

role_taken_away_example : (member.id ≢ 1) × Granted 9 4 5 (some 3) none db
unfolding after_removal
role_taken_away_example = role_taken_away 9 1 4 5 (some 3) none db after_removal

abbrev after_update :
    Granted 9 4 5 (some 3) none (update_role member none none (some (7 ∷ [])) db).1
unfolding update_role
after_update = reads (update_role member none none (some (7 ∷ [])) db).1 (
  Memᴰ.head refl,
  Memᴰ.tail (Memᴰ.head refl),
  Memᴰ.tail (Memᴰ.head refl),
  Memᴰ.tail (Memᴰ.tail (Memᴰ.head refl)),
)
