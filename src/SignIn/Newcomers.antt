-- ===== src/SignIn/Newcomers.antt =====
-- Whom `register` of app/api/v1/endpoints/auth.py adds.
use python_fastapi_multiauth.Common.{
  ℕ, suc, ◌≡◌, refl, sym, ap, ◌∙◌, true, false, is_some, List, [], ◌∷◌, ◌++◌, length, ◌==◌, ==_refl,
  arith, inl, inr, List-cases, http, ok, err, bind-ok, raise_if-ok, ok-injective, OneOrNone,
  IsOneOrNone, only_row, only_row-none, eq-only_row, Option-cases, select, select-append,
}
use mathlib.Core.Path.{subst}
use python_fastapi_multiauth.Totp.Service.{Packages}
use python_fastapi_multiauth.Tenancy.Model.{Organization}
use python_fastapi_multiauth.Tenancy.Organizations.{is_member, get_or_create_default, add_member}
use python_fastapi_multiauth.Tenancy.Membership.{add_member-joins}
use python_fastapi_multiauth.Accounts.Users as Accounts
use python_fastapi_multiauth.Accounts.Users.{User, has_email, get_by_email}
use python_fastapi_multiauth.SignIn.Model.{Db, tenancy_view, with_tenancy, join_organization}
use python_fastapi_multiauth.SignIn.Registration.{
  UserCreate, Draws, create_user, claim_organization, check_free, add_user, register,
}

-- After a registration: the user with the email is the new one, not yet verified, a superuser just if the table was
-- empty, and a member of an organisation.
pub record Registered (user : User) (before after : Db) : Type 0 where
  pub by_email : select (has_email user.email) after.accounts.users ≡ user ∷ []
  pub unverified : user.is_verified ≡ false
  pub first : user.is_superuser ≡ (length before.accounts.users == 0)
  pub joined : (org : ℕ) × (is_member org user.id (tenancy_view after) ≡ true)

length-snoc : {A : Type 0} (xs : List A) (x : A) → length (xs ++ x ∷ []) ≡ suc (length xs)
length-snoc [] x = refl
length-snoc (y ∷ xs) x = ap suc (length-snoc xs x)

claim-accounts :
    (o : Organization) (user : ℕ) (db : Db) → (claim_organization o user db).accounts ≡ db.accounts
unfolding claim_organization
claim-accounts o user db = elim (Option-cases o.owner_id) [
  | inl unowned ↦ rw unowned refl
  | inr (owner, owned) ↦ rw owned refl
]

join-member :
    (org user : ℕ) (db : Db) {db' : Db}
    → join_organization only_row org user db ≡ ok db'
    → (db'.accounts ≡ db.accounts) × (is_member org user (tenancy_view db') ≡ true)
unfolding join_organization is_member
join-member org user db h =
    bind-ok (add_member only_row org user (tenancy_view db)) _ h (λ t joined h.
      let same = ok-injective h in
      (
        ap (λ d. d.accounts) (sym same),
        ap (λ d. is_member org user (tenancy_view d)) (sym same)
            ∙ add_member-joins org user (tenancy_view db) t joined,
      ))

module _ (p : Packages) (normalize hash_token : ℕ → ℕ) where
  free-none :
      (user_in : UserCreate) (db : Accounts.Db) {u : Unit {0}}
      → check_free only_row p normalize hash_token user_in db ≡ ok u
      → select (has_email (normalize user_in.email)) db.users ≡ []
  unfolding check_free get_by_email
  free-none user_in db h =
      bind-ok (get_by_email only_row normalize user_in.email db) _ h (λ found asked h.
        raise_if-ok (is_some found) (http "400") _ h (λ absent h. elim (Option-cases found) [
          | inl missing ↦
              only_row-none (select (has_email (normalize user_in.email)) db.users)
                (asked ∙ ap ok missing)
          | inr (u, there) ↦ absurd (ground (arith, ap is_some there))
        ]))

  added :
      (draws : Draws) (user_in : UserCreate) (db : Db)
      → select (has_email (normalize user_in.email)) db.accounts.users ≡ []
      → let (user, db') = add_user only_row p normalize hash_token draws user_in db in
        (select (has_email user.email) db'.accounts.users ≡ user ∷ [])
        × (user.is_verified ≡ false)
        × (user.is_superuser ≡ (length db.accounts.users == 0))
        × (user.email ≡ normalize user_in.email)
  unfolding add_user create_user
  added draws user_in db free = elim (List-cases db.accounts.users) [
    | inl empty ↦ rw empty (
        rw (==_refl draws.user_uuid)
          (rw (==_refl (normalize user_in.email)) (refl, refl, refl, refl)))
    | inr (u, rest, some_users) ↦
        let more : (length (db.accounts.users ++ create_user p normalize draws user_in ∷ []) == 1)
            ≡ false =
          rw some_users
            (ground (arith, length-snoc rest (create_user p normalize draws user_in))) in
        rw (add_user, more)
          ((
            select-append (has_email (normalize user_in.email)) db.accounts.users
                  (create_user p normalize draws user_in ∷ [])
                ∙ rw free (rw (==_refl (normalize user_in.email)) refl),
            refl,
            rw some_users (ground arith),
            refl,
          ))
  ]

  -- A registration that returns.
  sign_up_only :
      (draws : Draws) (user_in : UserCreate) (db db' : Db) (user : User) (address token : ℕ)
      → register only_row p normalize hash_token draws user_in db ≡ ok ((user, address, token), db')
      → Registered user db db' × (user.email ≡ normalize user_in.email)
  unfolding register is_member
  sign_up_only draws user_in db db' user address token h =
      bind-ok (check_free only_row p normalize hash_token user_in db.accounts) _ h (λ u checked h.
        let new = add_user only_row p normalize hash_token draws user_in db in
        let (by_email, unverified, first, email) =
          added draws user_in db (free-none user_in db.accounts checked) in
        bind-ok (get_or_create_default only_row draws.organization_uuid (tenancy_view new.1)) _ h
          (λ o made h.
            let claimed = claim_organization o.0 new.0.id (with_tenancy new.1 o.1) in
            bind-ok (join_organization only_row o.0.id new.0.id claimed) _ h (λ joined_db joining h.
              let same = ok-injective h in
              let who : new.0 ≡ user = ap (λ r. r.0.0) same in
              let member = join-member o.0.id new.0.id claimed joining in
              let users : db'.accounts.users ≡ new.1.accounts.users =
                ap (λ r. r.1.accounts.users) (sym same)
                ∙ ap (λ a. a.users)
                    (member.0 ∙ claim-accounts o.0 new.0.id (with_tenancy new.1 o.1)) in
              (
                record {
                  by_email =
                      ap (select (has_email user.email)) users
                      ∙ subst (λ x. select (has_email x.email) new.1.accounts.users ≡ x ∷ []) who
                          by_email;
                  unverified = ap (λ x. x.is_verified) (sym who) ∙ unverified;
                  first = ap (λ x. x.is_superuser) (sym who) ∙ first;
                  joined = (
                    o.0.id,
                    ap (λ r. is_member o.0.id r.0.0.id (tenancy_view r.1)) (sym same) ∙ member.1,
                  );
                },
                ap (λ x. x.email) (sym who) ∙ email,
              ))))

  taken_only :
      (draws : Draws) (user_in : UserCreate) (db : Db) (user : User)
      → select (has_email (normalize user_in.email)) db.accounts.users ≡ user ∷ []
      → register only_row p normalize hash_token draws user_in db ≡ err (http "400")
  unfolding register check_free get_by_email
  taken_only draws user_in db user taken = rw (register, check_free, get_by_email, taken) refl

module _ (one : OneOrNone) (law : IsOneOrNone one) (p : Packages)
    (normalize hash_token : ℕ → ℕ) where
  sign_up_by :
      (draws : Draws) (user_in : UserCreate) (db db' : Db) (user : User) (address token : ℕ)
      → register one p normalize hash_token draws user_in db ≡ ok ((user, address, token), db')
      → Registered user db db' × (user.email ≡ normalize user_in.email)
  sign_up_by = rw (eq-only_row one law) (sign_up_only p normalize hash_token)

  -- A registration that returns adds the one user with the email, not verified, a superuser
  -- just if there was no user, and a member of an organisation; another with the same email
  -- is refused with 400.
  pub register_once :
      (draws draws' : Draws) (user_in user_in' : UserCreate) (db db' : Db) (user : User)
      (address token : ℕ)
      → register one p normalize hash_token draws user_in db ≡ ok ((user, address, token), db')
      → normalize user_in'.email ≡ normalize user_in.email
      → Registered user db db'
        × (register one p normalize hash_token draws' user_in' db' ≡ err (http "400"))
  register_once draws draws' user_in user_in' db db' user address token h same =
      let (r, email) = sign_up_by draws user_in db db' user address token h in
      (
        r,
        rw (eq-only_row one law) (
            taken_only p normalize hash_token draws' user_in' db' user
              (ap (λ e. select (has_email e) db'.accounts.users) (same ∙ sym email) ∙ r.by_email)),
      )
