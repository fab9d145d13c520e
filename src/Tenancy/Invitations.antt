-- ===== src/Tenancy/Invitations.antt =====
-- app/services/invitation_service.py. Parameters: `lower` is `str.lower`, `hash` is
-- `EncryptionService.hash_token`, tokens come from `secrets`. A call reads the clock once.
use python_fastapi_multiauth.Common.{
  ℕ, ◌+◌, ◌*◌, Bool, true, false, Option, none, some, List, [], ◌∷◌, ◌++◌, ◌&&◌, ◌||◌, not,
  if◌then◌else◌, ◌==◌, ltb, leb, length, is_some, Result, ok, err, value_error, value_error_from,
  ◌>>=◌, ◌>>◌, raise_if, OneOrNone, select, delete_where, save, has_key,
}
use python_fastapi_multiauth.Tenancy.Model.{User, Organization, Invitation, is_valid, Db}
use python_fastapi_multiauth.Tenancy.Organizations.{user_is, is_member, add_member, get_by_id}

abbrev pub microseconds_per_day : ℕ
microseconds_per_day = 86400000000

abbrev pub invitation_key : Invitation → ℕ
invitation_key i = i.id

abbrev pub invitation_is : ℕ → Invitation → Bool
invitation_is = has_key invitation_key

-- `Invitation.is_accepted is False` in a WHERE clause: Python's `is` compares the class attribute
-- (an object that describes the column) with the constant `False`, and so is `False` itself.
abbrev pub is_accepted_is_false : Bool
is_accepted_is_false = false

-- The WHERE clause of `get_pending_invitation`.
unfoldable pub pending_for : ℕ → ℕ → ℕ → Invitation → Bool
pending_for now org email i =
    i.organization_id == org && (i.email == email && (is_accepted_is_false && ltb now i.expires_at))

-- The WHERE clause of `list_organization_invitations`.
unfoldable pub listed : ℕ → ℕ → Bool → Bool → Invitation → Bool
listed now org include_expired include_accepted i =
    i.organization_id == org
    && ((include_accepted || is_accepted_is_false) && (include_expired || ltb now i.expires_at))

-- The rows of `list_organization_invitations` and `list_user_invitations`, before ORDER BY.
unfoldable pub list_organization_invitations : ℕ → ℕ → Bool → Bool → Db → List Invitation
unfolding listed
list_organization_invitations now org include_expired include_accepted db =
    select (listed now org include_expired include_accepted) db.invitations

unfoldable pub list_user_invitations : (ℕ → ℕ) → ℕ → ℕ → Db → List Invitation
list_user_invitations lower now email db =
    select (λ i. i.email == lower email && (is_accepted_is_false && ltb now i.expires_at))
      db.invitations

-- The WHERE clause of `cleanup_expired_invitations`.
unfoldable pub expired : ℕ → Invitation → Bool
expired now i = is_accepted_is_false && leb i.expires_at now

-- Returns the number of invitations that it has deleted.
unfoldable pub cleanup_expired_invitations : ℕ → Db → ℕ × Db
unfolding expired
cleanup_expired_invitations now db = (
  length (select (expired now) db.invitations),
  record db { invitations = delete_where (expired now) db.invitations },
)

unfoldable pub owns : Option Organization → ℕ → Bool
owns none user = false
owns (some o) user = elim o.owner_id [ none ↦ false | some owner ↦ owner == user ]

unfoldable pub save_invitation : Invitation → Db → Db
save_invitation i db = record db { invitations = save invitation_key i db.invitations }

-- `except ValueError as e: raise ValueError(f"Failed to add user to organization: {e!s}") from e`
unfoldable pub failed_to_add : Result Db → Result Db
failed_to_add (err (value_error m)) =
    err (value_error_from "Failed to add user to organization: " m)
failed_to_add r = r

-- The `Invitation(...)` that `create_invitation` adds.
unfoldable pub new_invitation : (ℕ → ℕ) → (ℕ → ℕ) → ℕ → ℕ → ℕ → ℕ → ℕ → ℕ → ℕ → Invitation
new_invitation lower hash new_id now token org inviter email expires_in_days = record {
  id = new_id;
  organization_id = org;
  inviter_id = inviter;
  email = lower email;
  token_hash = hash token;
  is_accepted = false;
  accepted_at = none;
  accepted_by_id = none;
  expires_at = now + expires_in_days * microseconds_per_day;
  created_at = now;
}

module _ (one : OneOrNone) (lower hash : ℕ → ℕ) where
  unfoldable pub get_invitation_by_id : ℕ → Db → Result (Option Invitation)
  get_invitation_by_id id db = one Invitation (select (invitation_is id) db.invitations)

  unfoldable pub get_invitation_by_token : ℕ → Db → Result (Option Invitation)
  get_invitation_by_token token db =
      one Invitation (select (λ i. i.token_hash == hash token) db.invitations)

  unfoldable pub get_pending_invitation : ℕ → ℕ → ℕ → Db → Result (Option Invitation)
  unfolding pending_for
  get_pending_invitation now org email db =
      one Invitation (select (pending_for now org (lower email)) db.invitations)

  unfoldable pub create_invitation : ℕ → ℕ → ℕ → ℕ → ℕ → ℕ → ℕ → Db → Result (Invitation × Db)
  unfolding get_by_id get_pending_invitation is_member owns new_invitation
  create_invitation new_id now token org inviter email expires_in_days db = do
    organization ← get_by_id one org db
    raise_if (not (is_some organization)) (value_error "Organization not found")
    raise_if (not (owns organization inviter || is_member org inviter db))
        (value_error "Only organization members can send invitations")
    existing_user ← one User (select (λ u. u.email == lower email) db.users)
    raise_if (elim existing_user [ none ↦ false | some u ↦ is_member org u.id db ])
        (value_error "User is already a member of this organization")
    existing_invitation ← get_pending_invitation now org email db
    raise_if (is_some existing_invitation)
        (value_error "An active invitation for this email already exists.")
    let invitation = new_invitation lower hash new_id now token org inviter email expires_in_days
    ok (invitation, record db { invitations = db.invitations ++ invitation ∷ [] })

  -- The part of `accept_invitation` after the invitation is known to be valid.
  unfoldable pub accept_for : ℕ → Invitation → ℕ → Db → Result (Invitation × Db)
  unfolding save_invitation failed_to_add
  accept_for now invitation user db = do
    found ← one User (select (user_is user) db.users)
    elim found [
      | none ↦ err (value_error "User not found")
      | some u ↦
          if lower u.email == lower invitation.email
          then (do
            db ← failed_to_add (add_member one invitation.organization_id user db)
            let accepted = record invitation {
              is_accepted = true;
              accepted_at = some now;
              accepted_by_id = some user;
            }
            ok (accepted, save_invitation accepted db))
          else err (value_error "Invitation email does not match your account email")
    ]

  unfoldable pub accept_invitation : ℕ → ℕ → ℕ → Db → Result (Invitation × Db)
  unfolding get_invitation_by_token is_valid accept_for
  accept_invitation now token user db = do
    found ← get_invitation_by_token token db
    elim found [
      | none ↦ err (value_error "Invitation not found")
      | some i ↦
          if is_valid now i
          then accept_for now i user db
          else if i.is_accepted
          then err (value_error "Invitation has already been accepted")
          else err (value_error "Invitation has expired")
    ]

  unfoldable pub cancel_invitation : ℕ → ℕ → Db → Result (Bool × Db)
  unfolding get_invitation_by_id get_by_id owns
  cancel_invitation id user db = do
    found ← get_invitation_by_id id db
    elim found [
      | none ↦ ok (false, db)
      | some i ↦ do
        organization ← get_by_id one i.organization_id db
        account ← one User (select (user_is user) db.users)
        let is_invitee : Bool = elim account [
          | none ↦ false
          | some u ↦ lower u.email == lower i.email
        ]
        raise_if (not (i.inviter_id == user || (owns organization user || is_invitee)))
            (value_error "Not authorized to cancel this invitation")
        ok (true, record db { invitations = delete_where (invitation_is i.id) db.invitations })
    ]

  -- The new token is assigned to `invitation.token`, which is no column of the model: the row keeps
  -- its `token_hash`. The result is the row's object and that attribute.
  unfoldable pub resend_invitation : ℕ → ℕ → ℕ → ℕ → ℕ → Db → Result ((Invitation × ℕ) × Db)
  unfolding get_invitation_by_id get_by_id owns save_invitation
  resend_invitation now token id user expires_in_days db = do
    found ← get_invitation_by_id id db
    elim found [
      | none ↦ err (value_error "Invitation not found")
      | some i ↦ do
        raise_if i.is_accepted (value_error "Cannot resend an accepted invitation")
        organization ← get_by_id one i.organization_id db
        raise_if (not (i.inviter_id == user || owns organization user))
            (value_error "Not authorized to resend this invitation")
        let renewed = record i { expires_at = now + expires_in_days * microseconds_per_day }
        ok ((renewed, token), save_invitation renewed db)
    ]
