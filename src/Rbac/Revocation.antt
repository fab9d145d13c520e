-- ===== src/Rbac/Revocation.antt =====
-- What taking a role away, deleting a role or replacing its permissions does to what is granted.
use mathlib.Core.List.Memᴰ
use mathlib.Core.List.{Memᴰ}
use python_fastapi_multiauth.Common.{
  ℕ, ◌≡◌, ◌≢◌, refl, sym, ap, ◌∙◌, inl, inr, Bool, true, false, Option, some, List, [], ◌∷◌, ◌==◌,
  ◌&&◌, ok, err, value_error, delete_where, Bool-cases, arith,
}
use python_fastapi_multiauth.Rbac.Service.{
  Role, RolePermission, Db, role_rows, of_role, delete_role, update_role, remove_role_from_user,
}
use python_fastapi_multiauth.Rbac.Decision.{Granted}

module _ {ℓ} {A : Type ℓ} where
  -- A row that a DELETE leaves was there and did not meet its condition.
  delete_where-left :
      (p : A → Bool) (x : A) (xs : List A) → Memᴰ x (delete_where p xs) → Memᴰ x xs × (p x ≡ false)
  delete_where-left p x [] m = absurd (Memᴰ.not-nil m)
  delete_where-left p x (y ∷ xs) m = elim (Bool-cases (p y)) [
    | inl gone ↦
        let (there, fits) = delete_where-left p x xs (rw gone at m) in (Memᴰ.tail there, fits)
    | inr left ↦ elim (Memᴰ.cases_cons (rw left at m)) [
      | inl same ↦ (Memᴰ.head same, ap p same ∙ left)
      | inr later ↦ let (there, fits) = delete_where-left p x xs later in (Memᴰ.tail there, fits)
    ]
  ]

role_rows-source :
    (role : ℕ) (ids : List ℕ) (rp : RolePermission)
    → Memᴰ rp (role_rows role ids)
    → (rp.role_id ≡ role) × Memᴰ rp.permission_id ids
unfolding role_rows
role_rows-source role [] rp m = absurd (Memᴰ.not-nil m)
role_rows-source role (id ∷ ids) rp m = elim (Memᴰ.cases_cons m) [
  | inl same ↦ (ap (λ x. x.role_id) same, Memᴰ.head (ap (λ x. x.permission_id) same))
  | inr later ↦
      let (its_role, listed) = role_rows-source role ids rp later in (its_role, Memᴰ.tail listed)
]

-- After a user's role is taken away, what the user is still granted was granted before, and is granted
-- through another role, whatever the organisation or team of the assignment was.
pub role_taken_away :
    (user role resource action : ℕ) (org team : Option ℕ) (db : Db)
    → (g : Granted user resource action org team (remove_role_from_user user role db))
    → (g.r.id ≢ role) × Granted user resource action org team db
unfolding remove_role_from_user
role_taken_away user role resource action org team db g =
    let (there, kept) =
      delete_where-left (λ ur. ur.user_id == user && ur.role_id == role) g.ur db.user_roles
        g.stored.3 in
    (
      λ same. ground (arith, g.linked, g.holder),
      record {
        p = g.p;
        rp = g.rp;
        r = g.r;
        ur = g.ur;
        stored = (g.stored.0, g.stored.1, g.stored.2, there);
        asked = g.asked;
        linked = g.linked;
        holder = g.holder;
        in_organization = g.in_organization;
        in_team = g.in_team;
      },
    )

-- A system role cannot be deleted. Another role can, and what is then granted to anybody is granted
-- through a role with another id, and was granted before.
role_deleted :
    (role : Role) (db : Db)
    → (role.is_system ≡ true → delete_role role db ≡ err (value_error "Cannot delete system roles"))
      × (role.is_system ≡ false
          → (db' : Db) × (delete_role role db ≡ ok db')
            × ((user resource action : ℕ) (org team : Option ℕ)
                → (g : Granted user resource action org team db')
                → (g.r.id ≢ role.id) × Granted user resource action org team db))
unfolding delete_role
role_deleted role db = (
  λ system. rw system refl,
  λ ordinary. (
    _,
    rw ordinary refl,
    λ user resource action org team g.
        let (link, other_link) =
          delete_where-left (of_role role.id) g.rp db.role_permissions g.stored.1 in
        let (there, other) = delete_where-left (λ r. r.id == role.id) g.r db.roles g.stored.2 in
        let (given, other_given) =
          delete_where-left (λ ur. ur.role_id == role.id) g.ur db.user_roles g.stored.3 in
        (
          λ same. ground arith,
          record {
            p = g.p;
            rp = g.rp;
            r = g.r;
            ur = g.ur;
            stored = (g.stored.0, link, there, given);
            asked = g.asked;
            linked = g.linked;
            holder = g.holder;
            in_organization = g.in_organization;
            in_team = g.in_team;
          },
        ),
  ),
)

-- After a role's permissions are replaced, what is granted through the role is one of the new ones.
permissions_replaced :
    (role : Role) (name : Option ℕ) (description : Option (Option ℕ)) (ids : List ℕ) (db : Db)
    (user resource action : ℕ) (org team : Option ℕ)
    → (g : Granted user resource action org team
        (update_role role name description (some ids) db).1)
    → g.r.id ≡ role.id
    → Memᴰ g.p.id ids
unfolding update_role
permissions_replaced role name description ids db user resource action org team g same =
    elim (Memᴰ.append_cases (delete_where (of_role role.id) db.role_permissions) g.stored.1) [
      | inl old ↦
          let (_, other) = delete_where-left (of_role role.id) g.rp db.role_permissions old in
          absurd (ground (arith, g.linked))
      | inr new ↦
          let (_, listed) = role_rows-source role.id ids g.rp new in rw (sym g.linked.0) listed
    ]
