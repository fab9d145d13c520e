-- ===== src/Rbac/Joins.antt =====
-- What the joined queries of app/services/rbac.py return: membership in terms of the rows joined.
use mathlib.Core.Path.{subst}
use mathlib.Core.List.Memᴰ
use mathlib.Core.List.{Memᴰ}
use python_fastapi_multiauth.Common.{
  ◌≡◌, refl, sym, Bool, true, false, List, [], ◌∷◌, inl, inr, ◌==◌, ◌&&◌, if◌then◌else◌,
}
use python_fastapi_multiauth.Rbac.Service.{
  Permission, Role, RolePermission, UserRole, Db, flat_map, join, with_user, join_users, with_role,
  join_roles, with_link, join_links, joined,
}

kept {ℓ} :
    {B : Type ℓ} (c : Bool) (b : B) (l : List B)
    → Memᴰ b (if c then l else [])
    → (c ≡ true) × Memᴰ b l
kept true b l m = (refl, m)
kept false b l m = absurd (Memᴰ.not-nil m)

module _ {ℓ κ} {A : Type ℓ} {B : Type κ} where
  flat_map-source :
      (f : A → List B) (b : B) (xs : List A)
      → Memᴰ b (flat_map f xs)
      → (x : A) × Memᴰ x xs × Memᴰ b (f x)
  flat_map-source f b [] m = absurd (Memᴰ.not-nil m)
  flat_map-source f b (x ∷ xs) m = elim (Memᴰ.append_cases (f x) m) [
    | inl here ↦ (x, Memᴰ.head refl, here)
    | inr later ↦ let (y, in_xs, in_f) = flat_map-source f b xs later in (y, Memᴰ.tail in_xs, in_f)
  ]

  flat_map-member :
      (f : A → List B) (b : B) (x : A) (xs : List A)
      → Memᴰ x xs
      → Memᴰ b (f x)
      → Memᴰ b (flat_map f xs)
  flat_map-member f b x [] in_xs m = elim in_xs [ ]
  flat_map-member f b x (y ∷ xs) (Memᴰ.head e) m =
      Memᴰ.append_left (flat_map f xs) (subst (λ z. Memᴰ b (f z)) e m)
  flat_map-member f b x (y ∷ xs) (Memᴰ.tail in_xs) m =
      Memᴰ.append_right (f y) (flat_map-member f b x xs in_xs m)

  join-source :
      (on : A → Bool) (f : A → List B) (b : B) (xs : List A)
      → Memᴰ b (join on f xs)
      → (x : A) × Memᴰ x xs × (on x ≡ true) × Memᴰ b (f x)
  join-source on f b xs m =
      let (x, in_xs, here) = flat_map-source (λ x. if on x then f x else []) b xs m in
      let (yes_x, in_f) = kept (on x) b (f x) here in (x, in_xs, yes_x, in_f)

  join-member :
      (on : A → Bool) (f : A → List B) (b : B) (x : A) (xs : List A)
      → Memᴰ x xs
      → on x ≡ true
      → Memᴰ b (f x)
      → Memᴰ b (join on f xs)
  join-member on f b x xs in_xs yes_x m =
      flat_map-member (λ x. if on x then f x else []) b x xs in_xs (rw yes_x m)

-- The rows by which a user's role gives a permission.
pub record Combination (test : Permission → UserRole → Bool) (p : Permission) (db : Db)
    : Type 0 where
  pub rp : RolePermission
  pub r : Role
  pub ur : UserRole
  pub stored :
      Memᴰ p db.permissions × Memᴰ rp db.role_permissions × Memᴰ r db.roles × Memᴰ ur db.user_roles
  pub permission_linked : (p.id == rp.permission_id) ≡ true
  pub role_linked : (rp.role_id == r.id) ≡ true
  pub user_linked : (r.id == ur.role_id && test p ur) ≡ true

pub joined-Combination :
    (where_clause : Permission → UserRole → Bool) (p : Permission) (db : Db)
    → Memᴰ p (joined where_clause db)
    → Combination where_clause p db
unfolding joined
joined-Combination w p db m =
    let (p', in_p, m1) = flat_map-source (join_links w db) p db.permissions m in
    let (rp, in_rp, on_rp, m2) =
      join-source (with_link w db p') (join_roles w db p') p db.role_permissions m1 in
    let (r, in_r, on_r, m3) = join-source (with_role w db rp) (join_users w db p') p db.roles m2 in
    let (ur, in_ur, on_ur, m4) =
      join-source (with_user w db p' r) (λ ur. p' ∷ []) p db.user_roles m3 in
    subst (λ q. Combination w q db) (sym (Memᴰ.eq_of_singleton m4))
      (record {
        rp = rp;
        r = r;
        ur = ur;
        stored = (in_p, in_rp, in_r, in_ur);
        permission_linked = on_rp;
        role_linked = on_r;
        user_linked = on_ur;
      })

pub Combination-joined :
    (where_clause : Permission → UserRole → Bool) (p : Permission) (db : Db)
    → Combination where_clause p db
    → Memᴰ p (joined where_clause db)
unfolding joined
Combination-joined w p db c =
    let in_users =
      join-member (with_user w db p c.r) (λ ur. p ∷ []) p c.ur db.user_roles c.stored.3
        c.user_linked (Memᴰ.head {xs = []} refl) in
    let in_roles =
      join-member (with_role w db c.rp) (join_users w db p) p c.r db.roles c.stored.2 c.role_linked
        in_users in
    let in_links =
      join-member (with_link w db p) (join_roles w db p) p c.rp db.role_permissions c.stored.1
        c.permission_linked in_roles in
    flat_map-member (join_links w db) p p db.permissions c.stored.0 in_links
