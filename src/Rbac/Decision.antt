-- ===== src/Rbac/Decision.antt =====
-- What `check_permission` of app/services/rbac.py decides.
use mathlib.Core.Path.{subst}
use mathlib.Core.List.Memᴰ
use mathlib.Core.List.{Memᴰ}
use python_fastapi_multiauth.Common.{
  ℕ, ◌≡◌, refl, ◌↔◌, ◌⊎◌, Bool, true, false, Option, none, some, List, [], ◌∷◌, Result, ok, err,
  Error, multiple_results, ◌>>=◌, is_some, Bool-cases, inl, inr, OneOrNone, IsOneOrNone, only_row,
  eq-only_row, arith,
}
use python_fastapi_multiauth.Rbac.Service.{
  Permission, Role, RolePermission, UserRole, User, Db, in_scope, joined, held, grants,
  check_permission,
}
use python_fastapi_multiauth.Rbac.Joins.{Combination, joined-Combination, Combination-joined}

-- A role given for no organisation or team counts in every one; a request for none counts all.
abbrev pub Covers : Option ℕ → Option ℕ → Type 0
Covers wanted column = (wanted ≡ none) ⊎ ((column ≡ none) ⊎ (column ≡ wanted))

-- The user has a role, in a fitting scope, that has the permission.
pub record Granted (user resource action : ℕ) (org team : Option ℕ) (db : Db) : Type 0 where
  pub p : Permission
  pub rp : RolePermission
  pub r : Role
  pub ur : UserRole
  pub stored :
      Memᴰ p db.permissions × Memᴰ rp db.role_permissions × Memᴰ r db.roles × Memᴰ ur db.user_roles
  pub asked : (p.resource ≡ resource) × (p.action ≡ action)
  pub linked : (rp.permission_id ≡ p.id) × (rp.role_id ≡ r.id) × (ur.role_id ≡ r.id)
  pub holder : ur.user_id ≡ user
  pub in_organization : Covers org ur.organization_id
  pub in_team : Covers team ur.team_id

in_scope-Covers :
    (wanted column : Option ℕ) → (in_scope wanted column ≡ true) ↔ Covers wanted column
unfolding in_scope
in_scope-Covers none column = ground arith
in_scope-Covers (some w) none = ground arith
in_scope-Covers (some w) (some c) = ground arith

grants-holds :
    (user resource action : ℕ) (org team : Option ℕ) (p : Permission) (ur : UserRole)
    → (grants user resource action org team p ur ≡ true) ↔ (
        (ur.user_id ≡ user)
        × (in_scope org ur.organization_id ≡ true)
        × (in_scope team ur.team_id ≡ true)
        × (p.resource ≡ resource)
        × (p.action ≡ action))
unfolding grants held
grants-holds user resource action org team p ur = ground arith

Combination-Granted :
    (user resource action : ℕ) (org team : Option ℕ) (p : Permission) (db : Db)
    → Combination (grants user resource action org team) p db
    → Granted user resource action org team db
Combination-Granted user resource action org team p db c =
    let both : (c.r.id ≡ c.ur.role_id) × (grants user resource action org team p c.ur ≡ true) =
      ground (arith, c.user_linked) in
    let (holder, organization_ok, team_ok, resource_ok, action_ok) =
      (grants-holds user resource action org team p c.ur).0 both.1 in
    record {
      p = p;
      rp = c.rp;
      r = c.r;
      ur = c.ur;
      stored = c.stored;
      asked = (resource_ok, action_ok);
      linked = (ground (arith, c.permission_linked), ground (arith, c.role_linked), ground arith);
      holder = holder;
      in_organization = (in_scope-Covers org c.ur.organization_id).0 organization_ok;
      in_team = (in_scope-Covers team c.ur.team_id).0 team_ok;
    }

Granted-Combination :
    (user resource action : ℕ) (org team : Option ℕ) (db : Db)
    → (g : Granted user resource action org team db)
    → Combination (grants user resource action org team) g.p db
Granted-Combination user resource action org team db g =
    let fits : grants user resource action org team g.p g.ur ≡ true =
      (grants-holds user resource action org team g.p g.ur).1 (
        g.holder,
        (in_scope-Covers org g.ur.organization_id).1 g.in_organization,
        (in_scope-Covers team g.ur.team_id).1 g.in_team,
        g.asked.0,
        g.asked.1,
      ) in
    record {
      rp = g.rp;
      r = g.r;
      ur = g.ur;
      stored = g.stored;
      permission_linked = ground (arith, g.linked);
      role_linked = ground (arith, g.linked);
      user_linked = ground (arith, g.linked);
    }

rows-Granted :
    (user resource action : ℕ) (org team : Option ℕ) (p : Permission) (rest : List Permission)
    (db : Db)
    → joined (grants user resource action org team) db ≡ p ∷ rest
    → Granted user resource action org team db
rows-Granted user resource action org team p rest db e =
    Combination-Granted user resource action org team p db (
      joined-Combination (grants user resource action org team) p db
        (rw e (Memᴰ.head {xs = rest} refl)))

no_rows-Granted :
    (user resource action : ℕ) (org team : Option ℕ) (db : Db)
    → joined (grants user resource action org team) db ≡ []
    → ¬ Granted user resource action org team db
no_rows-Granted user resource action org team db e g = Memᴰ.not-nil (
    subst (λ l. Memᴰ g.p l) e
      (Combination-joined (grants user resource action org team) g.p db
        (Granted-Combination user resource action org team db g)))

-- `scalar_one_or_none() is not None`
abbrev answer : List Permission → Result Bool
answer rows = only_row Permission rows >>= λ permission. ok (is_some permission)

answer_yes :
    (rows : List Permission)
    → answer rows ≡ ok true
    → (p : Permission) × (rest : List Permission) × (rows ≡ p ∷ rest)
answer_yes [] h = absurd (ground arith)
answer_yes (p ∷ []) h = (p, [], refl)
answer_yes (p ∷ q ∷ rest) h = absurd (ground arith)

answer_no : (rows : List Permission) → answer rows ≡ ok false → rows ≡ []
answer_no [] h = refl
answer_no (p ∷ []) h = absurd (ground arith)
answer_no (p ∷ q ∷ rest) h = absurd (ground arith)

answer_raised :
    (rows : List Permission) (e : Error)
    → answer rows ≡ err e
    → (e ≡ multiple_results)
      × ((p q : Permission) × (rest : List Permission) × (rows ≡ p ∷ q ∷ rest))
answer_raised [] e h = absurd (ground arith)
answer_raised (p ∷ []) e h = absurd (ground arith)
answer_raised (p ∷ q ∷ rest) e h = (ground arith, (p, q, rest, refl))

superuser-yes :
    (user : User) (resource action : ℕ) (org team : Option ℕ) (db : Db)
    → user.is_superuser ≡ true
    → check_permission only_row user resource action org team db ≡ ok true
unfolding check_permission
superuser-yes user resource action org team db super = rw super refl

check-answer :
    (user : User) (resource action : ℕ) (org team : Option ℕ) (db : Db)
    → user.is_superuser ≡ false
    → check_permission only_row user resource action org team db
      ≡ answer (joined (grants user.id resource action org team) db)
unfolding check_permission
check-answer user resource action org team db regular = rw regular refl

-- A permission check answers yes only to a superuser or if one of the user's roles, in a scope that
-- covers what is asked, has the permission; it answers no only to a user who is no superuser and has no
-- such role; and what it raises is the exception for several rows, when the user is no superuser and the
-- joined tables grant the permission in at least two rows.
pub permission_decided :
    (one : OneOrNone) (law : IsOneOrNone one) (user : User) (resource action : ℕ)
    (org team : Option ℕ) (db : Db)
    → let result = check_permission one user resource action org team db in
      let granted = Granted user.id resource action org team db in
      (result ≡ ok true → (user.is_superuser ≡ true) ⊎ granted)
      × (result ≡ ok false → (user.is_superuser ≡ false) × ¬ granted)
      × ((e : Error)
          → result ≡ err e
          → (e ≡ multiple_results)
            × (user.is_superuser ≡ false)
            × granted
            × ((p q : Permission) × (rest : List Permission) × (joined
                    (grants user.id resource action org team)
                    db
                  ≡ p ∷ q ∷ rest)))
permission_decided one law user resource action org team db =
    let rows = joined (grants user.id resource action org team) db in
    rw (eq-only_row one law) (elim (Bool-cases user.is_superuser) [
      | inl super ↦
          rw (superuser-yes user resource action org team db super)
            (λ yes. inl super, λ no. absurd (ground arith), λ e raised. absurd (ground arith))
      | inr regular ↦ rw (check-answer user resource action org team db regular) (
        λ yes.
            let (p, rest, found) = answer_yes rows yes in
            inr (rows-Granted user.id resource action org team p rest db found),
        λ no. (regular, no_rows-Granted user.id resource action org team db (answer_no rows no)),
        λ e raised.
            let (several, (p, q, rest, found)) = answer_raised rows e raised in
            (
              several,
              regular,
              rows-Granted user.id resource action org team p (q ∷ rest) db found,
              (p, q, rest, found),
            ),
      )
    ])
