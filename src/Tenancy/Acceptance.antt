-- ===== src/Tenancy/Acceptance.antt =====
-- Accepting and cancelling an invitation.
use python_fastapi_multiauth.Common.{
  ℕ, ◌<◌, ◌≡◌, refl, true, false, some, [], ◌∷◌, ◌⊎◌, inl, inr, arith, ◌==◌, ==_iff, Bool-cases,
  List-cases, Result-cases, Result, ok, err, value_error, OneOrNone, IsOneOrNone, only_row,
  eq-only_row, select, select-save, Distinct, select-holds, select-delete_where, delete_where, ◌||◌,
  if◌then◌else◌,
}
use python_fastapi_multiauth.Tenancy.Model.{User, Organization, Invitation, is_valid, Db}
use python_fastapi_multiauth.Tenancy.Organizations.{
  user_is, org_is, is_member, add_member, insert_member, remove_member,
}
use python_fastapi_multiauth.Tenancy.Invitations.{
  invitation_key, invitation_is, accept_invitation, accept_for, failed_to_add, save_invitation,
  cancel_invitation, owns,
}
use python_fastapi_multiauth.Tenancy.Membership.{add_member-joins}

-- Adding a member touches no invitation.
add_member-invitations :
    (org user : ℕ) (db db' : Db)
    → add_member only_row org user db ≡ ok db'
    → db'.invitations ≡ db.invitations
unfolding add_member insert_member remove_member
add_member-invitations org user db db' e = ground arith

abbrev accepted : ℕ → ℕ → Invitation → Invitation
accepted now user i = record i {
  is_accepted = true;
  accepted_at = some now;
  accepted_by_id = some user;
}

failed_to_add-ok : (r : Result Db) (db : Db) → failed_to_add r ≡ ok db → r ≡ ok db
unfolding failed_to_add
failed_to_add-ok (ok x) db e = e
failed_to_add-ok (err (value_error m)) db e = ground arith
failed_to_add-ok (err other) db e = ground arith

-- What a successful acceptance has checked and done.
abbrev Accepts : (ℕ → ℕ) → ℕ → Invitation → ℕ → Db → Invitation → Db → Type 0
Accepts lower now i user db i' db' =
    (u : User) × (db1 : Db) × (select (user_is user) db.users ≡ u ∷ [])
    × (lower u.email ≡ lower i.email)
    × (add_member only_row i.organization_id user db ≡ ok db1)
    × (i' ≡ accepted now user i)
    × (db' ≡ save_invitation (accepted now user i) db1)

accept_for-Accepts :
    (lower hash : ℕ → ℕ) (now user : ℕ) (i i' : Invitation) (db db' : Db)
    → accept_for only_row lower hash now i user db ≡ ok (i', db')
    → Accepts lower now i user db i' db'
unfolding accept_for failed_to_add
accept_for-Accepts lower hash now user i i' db db' e =
    elim (List-cases (select (user_is user) db.users)) [
      | inl absent ↦ absurd (ground arith)
      | inr (u, rest, found) ↦ elim (List-cases rest) [
        | inr more ↦ absurd (ground arith)
        | inl single ↦ elim (Result-cases (add_member only_row i.organization_id user db)) [
          | inl (db1, added) ↦ (
            u,
            db1,
            ground arith,
            ground (arith, ==_iff (lower u.email) (lower i.email)),
            added,
            ground arith,
            ground arith,
          )
          | inr (why, failed) ↦ absurd (ground arith)
        ]
      ]
    ]

accept_invitation-Accepts :
    (lower hash : ℕ → ℕ) (now token user : ℕ) (i i' : Invitation) (db db' : Db)
    → select (λ r. r.token_hash == hash token) db.invitations ≡ i ∷ []
    → accept_invitation only_row lower hash now token user db ≡ ok (i', db')
    → (is_valid now i ≡ true) × Accepts lower now i user db i' db'
unfolding accept_invitation
accept_invitation-Accepts lower hash now token user i i' db db' row e =
    elim (Bool-cases (is_valid now i)) [
      | inl valid ↦
          (valid, accept_for-Accepts lower hash now user i i' db db' (rw (row, valid) at e))
      | inr invalid ↦ absurd (ground arith)
    ]

-- An invitation that is marked as accepted is refused.
used_refused :
    (lower hash : ℕ → ℕ) (now token user : ℕ) (i : Invitation) (db : Db)
    → select (λ r. r.token_hash == hash token) db.invitations ≡ i ∷ []
    → i.is_accepted ≡ true
    → accept_invitation only_row lower hash now token user db
      ≡ err (value_error "Invitation has already been accepted")
unfolding accept_invitation
used_refused lower hash now token user i db row used = ground arith

once :
    (lower hash : ℕ → ℕ) (now later token user other : ℕ) (i i' : Invitation) (db db' : Db)
    → Distinct invitation_key db.invitations
    → select (λ r. r.token_hash == hash token) db.invitations ≡ i ∷ []
    → accept_invitation only_row lower hash now token user db ≡ ok (i', db')
    → (i.is_accepted ≡ false)
      × (now < i.expires_at)
      × ((u : User) × (select (user_is user) db.users ≡ u ∷ []) × (lower u.email ≡ lower i.email))
      × (is_member i.organization_id user db' ≡ true)
      × (accept_invitation only_row lower hash later token other db'
          ≡ err (value_error "Invitation has already been accepted"))
unfolding is_valid save_invitation is_member
once lower hash now later token user other i i' db db' d row e =
    let (valid, facts) = accept_invitation-Accepts lower hash now token user i i' db db' row e in
    let (u, db1, found, email, added, same, saved) = facts in
    let by_token = λ (r : Invitation). r.token_hash == hash token in
    let kept = add_member-invitations i.organization_id user db db1 added in
    let joined = add_member-joins i.organization_id user db db1 added in
    let fits = select-holds by_token db.invitations {q = i} {rest = []} row in
    let after =
      select-save invitation_key by_token i (accepted now user i) db.invitations d row refl fits in
    (
      ground arith,
      ground arith,
      (u, found, email),
      rw saved joined,
      used_refused lower hash later token other (accepted now user i) db' (rw (saved, kept) after)
          refl,
    )

cancel_checks :
    (lower hash : ℕ → ℕ) (id user : ℕ) (i : Invitation) (o : Organization) (u : User) (db : Db)
    → select (invitation_is id) db.invitations ≡ i ∷ []
    → select (org_is i.organization_id) db.organizations ≡ o ∷ []
    → select (user_is user) db.users ≡ u ∷ []
    → cancel_invitation only_row lower hash id user db ≡ (
        if i.inviter_id == user || (owns (some o) user || lower u.email == lower i.email)
        then ok (true, record db { invitations = delete_where (invitation_is i.id) db.invitations })
        else err (value_error "Not authorized to cancel this invitation"))
unfolding cancel_invitation
cancel_checks lower hash id user i o u db row org account = ground arith

module _ (one : OneOrNone) (law : IsOneOrNone one) (lower hash : ℕ → ℕ) where
  -- A token that one invitation has can be accepted once: a successful acceptance means that the
  -- invitation was open and not expired and that the user's email is the invitation's up to
  -- `lower`; the user is then a member of the organisation, and every later attempt with the token,
  -- by whomever, is refused as already accepted.
  pub accepted_once :
      (now later token user other : ℕ) (i i' : Invitation) (db db' : Db)
      → Distinct invitation_key db.invitations
      → select (λ r. r.token_hash == hash token) db.invitations ≡ i ∷ []
      → accept_invitation one lower hash now token user db ≡ ok (i', db')
      → (i.is_accepted ≡ false)
        × (now < i.expires_at)
        × ((u : User) × (select (user_is user) db.users ≡ u ∷ []) × (lower u.email ≡ lower i.email))
        × (is_member i.organization_id user db' ≡ true)
        × (accept_invitation one lower hash later token other db'
            ≡ err (value_error "Invitation has already been accepted"))
  accepted_once now later token user other i i' db db' d row =
      rw (eq-only_row one law) (once lower hash now later token user other i i' db db' d row)

  -- Where the invitation, its organisation and the user exist, cancelling succeeds for exactly the
  -- inviter, the organisation's owner and a user with the invitation's email (up to `lower`), and
  -- then removes the invitation; anybody else is refused.
  cancelled_by :
      (id user : ℕ) (i : Invitation) (o : Organization) (u : User) (db : Db)
      → select (invitation_is id) db.invitations ≡ i ∷ []
      → select (org_is i.organization_id) db.organizations ≡ o ∷ []
      → select (user_is user) db.users ≡ u ∷ []
      → let entitled =
          (i.inviter_id ≡ user) ⊎ ((o.owner_id ≡ some user) ⊎ (lower u.email ≡ lower i.email)) in
        (entitled
          → (db' : Db) × (cancel_invitation one lower hash id user db ≡ ok (true, db'))
            × (select (invitation_is i.id) db'.invitations ≡ []))
        × (¬ entitled
            → cancel_invitation one lower hash id user db
              ≡ err (value_error "Not authorized to cancel this invitation"))
  unfolding owns
  cancelled_by id user i o u db row org account =
      rw (eq-only_row one law, cancel_checks lower hash id user i o u db row org account)
        (
          λ entitled. (
            record db { invitations = delete_where (invitation_is i.id) db.invitations },
            ground arith,
            select-delete_where (invitation_is i.id) db.invitations,
          ),
          λ stranger. ground arith,
        )
