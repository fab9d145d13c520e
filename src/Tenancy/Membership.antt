-- ===== src/Tenancy/Membership.antt =====
-- Who belongs to which organisation after `OrganizationService.add_member`.
use python_fastapi_multiauth.Common.{
  ℕ, ◌≡◌, refl, sym, ◌∙◌, ◌≢◌, Bool, true, false, List, [], ◌∷◌, ◌++◌, ◌⊎◌, inl, inr, arith, ==_iff,
  Bool-cases, List-cases, ok, err, value_error, OneOrNone, IsOneOrNone, only_row, eq-only_row,
  select, select-append, delete_where, exists, All,
}
use mathlib.Core.Path.{subst}
use mathlib.Core.List.{append-nil}
use python_fastapi_multiauth.Tenancy.Model.{User, Organization, Member, Db}
use python_fastapi_multiauth.Tenancy.Organizations.{
  default_org_slug, user_is, org_is, of_user, membership, is_member, insert_member, remove_member,
  add_regular, add_member,
}

-- All of a user's memberships are in one organisation.
abbrev pub OnlyIn : ℕ → ℕ → Db → Type 0
OnlyIn org user db = All (λ m. m.organization_id ≡ org) (select (of_user user) db.members)

-- The other users' memberships are what they were.
abbrev pub OthersKept : ℕ → Db → Db → Type 0
OthersKept user db db' =
    (v : ℕ) → v ≢ user → select (of_user v) db'.members ≡ select (of_user v) db.members

select-delete_other :
    (user org v : ℕ) (ms : List Member)
    → v ≢ user
    → select (of_user v) (delete_where (membership user org) ms) ≡ select (of_user v) ms
select-delete_other user org v [] ne = refl
select-delete_other user org v (m ∷ ms) ne = ground (arith, select-delete_other user org v ms ne)

-- Deleting the memberships in the one organisation leaves none.
select-delete_only :
    (user org : ℕ) (ms : List Member)
    → All (λ m. m.organization_id ≡ org) (select (of_user user) ms)
    → select (of_user user) (delete_where (membership user org) ms) ≡ []
select-delete_only user org [] h = refl
select-delete_only user org (m ∷ ms) h = ground (arith, select-delete_only user org ms)

exists-append :
    (p : Member → Bool) (ms : List Member) (m : Member)
    → p m ≡ true
    → exists p (ms ++ m ∷ []) ≡ true
exists-append p [] m h = ground arith
exists-append p (x ∷ ms) m h = ground (arith, exists-append p ms m h)

insert-joins : (org user : ℕ) (db : Db) → is_member org user (insert_member org user db) ≡ true
unfolding is_member insert_member
insert-joins org user db = exists-append (membership user org) db.members _ (ground arith)

insert-OthersKept : (org user : ℕ) (db : Db) → OthersKept user db (insert_member org user db)
unfolding insert_member
insert-OthersKept org user db v ne = ground (
  arith,
  select-append (of_user v) db.members (record { user_id = user; organization_id = org } ∷ []),
  append-nil (select (of_user v) db.members),
)

remove-OthersKept : (org user : ℕ) (db : Db) → OthersKept user db (remove_member org user db)
unfolding remove_member
remove-OthersKept org user db v ne = select-delete_other user org v db.members ne

-- The user's memberships after an insertion: one more, whether or not it was there already.
insert-rows :
    (org user : ℕ) (db : Db)
    → select (of_user user) (insert_member org user db).members
      ≡ select (of_user user) db.members ++ record { user_id = user; organization_id = org } ∷ []
unfolding insert_member
insert-rows org user db = ground (
  arith,
  select-append (of_user user) db.members (record { user_id = user; organization_id = org } ∷ []),
)

All-append :
    (org : ℕ) (ms : List Member) (m : Member)
    → All (λ m. m.organization_id ≡ org) ms
    → m.organization_id ≡ org
    → All (λ m. m.organization_id ≡ org) (ms ++ m ∷ [])
All-append org [] m h e = (e, tt)
All-append org (x ∷ ms) m h e = (h.0, All-append org ms m h.1 e)

insert-OnlyIn :
    (org user : ℕ) (db : Db) → OnlyIn org user db → OnlyIn org user (insert_member org user db)
insert-OnlyIn org user db h =
    rw (insert-rows org user db) (All-append org (select (of_user user) db.members) _ h refl)

remove-only :
    (org user : ℕ) (db : Db)
    → OnlyIn org user db
    → select (of_user user) (remove_member org user db).members ≡ []
unfolding remove_member
remove-only org user db h = select-delete_only user org db.members h

-- What `add_member` does: it inserts, or it first removes the user from the organisation of the
-- first membership found.
abbrev Joined : ℕ → ℕ → Db → Db → Type 0
Joined org user db db' =
    let rows = select (of_user user) db.members in
    ((rows ≡ []) × (db' ≡ insert_member org user db))
    ⊎ ((m : Member) × (rest : List Member) × (rows ≡ m ∷ rest)
        × (((m.organization_id ≡ org) × (db' ≡ insert_member org user db))
            ⊎ (db' ≡ insert_member org user (remove_member m.organization_id user db))))

add_regular-Joined :
    (org user : ℕ) (db db' : Db)
    → add_regular only_row org user db ≡ ok db'
    → Joined org user db db'
unfolding add_regular
add_regular-Joined org user db db' e = elim (List-cases (select (of_user user) db.members)) [
  | inl none_yet ↦ inl (none_yet, ground arith)
  | inr (m, rest, rows) ↦ inr (m, rest, rows, ground (arith, ==_iff m.organization_id org))
]

Joined-OthersKept : (org user : ℕ) (db db' : Db) → Joined org user db db' → OthersKept user db db'
Joined-OthersKept org user db db' (inl (_, e)) v ne = rw e (insert-OthersKept org user db v ne)
Joined-OthersKept org user db db' (inr (m, _, _, inl (_, e))) v ne =
    rw e (insert-OthersKept org user db v ne)
Joined-OthersKept org user db db' (inr (m, _, _, inr e)) v ne = rw e (
    insert-OthersKept org user (remove_member m.organization_id user db) v ne
    ∙ remove-OthersKept m.organization_id user db v ne)

Joined-joins : (org user : ℕ) (db db' : Db) → Joined org user db db' → is_member org user db' ≡ true
Joined-joins org user db db' (inl (_, e)) = rw e (insert-joins org user db)
Joined-joins org user db db' (inr (m, _, _, inl (_, e))) = rw e (insert-joins org user db)
Joined-joins org user db db' (inr (m, _, _, inr e)) = rw e (insert-joins org user _)

Joined-OnlyIn :
    (o org user : ℕ) (db db' : Db) → Joined org user db db' → OnlyIn o user db → OnlyIn org user db'
Joined-OnlyIn o org user db db' (inl (rows, e)) h = rw e (insert-OnlyIn org user db (rw rows tt))
Joined-OnlyIn o org user db db' (inr (m, rest, rows, inl (same, e))) h =
    let first : m.organization_id ≡ o = (rw rows at h).0 in
    rw e (insert-OnlyIn org user db (subst (λ (x : ℕ). OnlyIn x user db) (sym first ∙ same) h))
Joined-OnlyIn o org user db db' (inr (m, rest, rows, inr e)) h =
    let first : m.organization_id ≡ o = (rw rows at h).0 in
    let left : OnlyIn m.organization_id user db =
      subst (λ (x : ℕ). OnlyIn x user db) (sym first) h in
    rw e (
      insert-OnlyIn org user (remove_member m.organization_id user db)
        (rw (remove-only m.organization_id user db left) tt))

add_member-Joined :
    (org user : ℕ) (u : User) (db db' : Db)
    → select (user_is user) db.users ≡ u ∷ []
    → u.is_superuser ≡ false
    → add_member only_row org user db ≡ ok db'
    → Joined org user db db'
unfolding add_member
add_member-Joined org user u db db' found regular =
    rw (found, regular) (λ e. add_regular-Joined org user db db' e)

-- Whoever is added is a member afterwards, superusers included.
pub add_member-joins :
    (org user : ℕ) (db db' : Db)
    → add_member only_row org user db ≡ ok db'
    → is_member org user db' ≡ true
unfolding add_member
add_member-joins org user db db' e = elim (List-cases (select (user_is user) db.users)) [
  | inl absent ↦ ground arith
  | inr (u, rest, found) ↦ elim (Bool-cases u.is_superuser) [
    | inl super ↦ ground (arith, insert-joins org user db)
    | inr regular ↦ Joined-joins org user db db' (add_regular-Joined org user db db' (ground arith))
  ]
]

refused :
    (org user : ℕ) (u : User) (m : Member) (rest : List Member) (other : Organization) (db : Db)
    → select (user_is user) db.users ≡ u ∷ []
    → u.is_superuser ≡ false
    → select (of_user user) db.members ≡ m ∷ rest
    → m.organization_id ≢ org
    → select (org_is m.organization_id) db.organizations ≡ other ∷ []
    → other.slug ≢ default_org_slug
    → add_member only_row org user db
      ≡ err (value_error "User is already a member of another organization")
unfolding add_member
refused org user u m rest other db found regular rows ne there slug =
    ground (arith, ==_iff m.organization_id org, ==_iff other.slug default_org_slug)

module _ (one : OneOrNone) (law : IsOneOrNone one) where
  -- A regular user whose memberships are all in one organisation (or who has none) and who is added
  -- to an organisation is then a member of it and of no other; the memberships of all other users
  -- are unchanged.
  pub one_organization :
      (o org user : ℕ) (u : User) (db db' : Db)
      → select (user_is user) db.users ≡ u ∷ []
      → u.is_superuser ≡ false
      → OnlyIn o user db
      → add_member one org user db ≡ ok db'
      → (is_member org user db' ≡ true) × OnlyIn org user db' × OthersKept user db db'
  one_organization o org user u db db' found regular h = rw (eq-only_row one law) λ e.
      let joined = add_member-Joined org user u db db' found regular e in
      (
        Joined-joins org user db db' joined,
        Joined-OnlyIn o org user db db' joined h,
        Joined-OthersKept org user db db' joined,
      )

  -- A regular user whose first membership is in another organisation, one that exists and is not
  -- the default one, is refused.
  other_organization_refused :
      (org user : ℕ) (u : User) (m : Member) (rest : List Member) (other : Organization) (db : Db)
      → select (user_is user) db.users ≡ u ∷ []
      → u.is_superuser ≡ false
      → select (of_user user) db.members ≡ m ∷ rest
      → m.organization_id ≢ org
      → select (org_is m.organization_id) db.organizations ≡ other ∷ []
      → other.slug ≢ default_org_slug
      → add_member one org user db
        ≡ err (value_error "User is already a member of another organization")
  other_organization_refused org user u m rest other db found regular rows ne there slug =
      rw (eq-only_row one law) (refused org user u m rest other db found regular rows ne there slug)

  -- Adding a regular user to the organisation of the first membership found succeeds and stores the
  -- membership once more.
  added_twice :
      (org user : ℕ) (u : User) (m : Member) (rest : List Member) (db : Db)
      → select (user_is user) db.users ≡ u ∷ []
      → u.is_superuser ≡ false
      → select (of_user user) db.members ≡ m ∷ rest
      → m.organization_id ≡ org
      → (db' : Db) × (add_member one org user db ≡ ok db')
        × (select (of_user user) db'.members
            ≡ (m ∷ rest) ++ record { user_id = user; organization_id = org } ∷ [])
  unfolding add_member add_regular
  added_twice org user u m rest db found regular rows same = rw (eq-only_row one law) (
    insert_member org user db,
    ground (arith, ==_iff m.organization_id org),
    rw (insert-rows org user db, rows) refl,
  )
