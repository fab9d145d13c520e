-- ===== src/Tenancy/Tests.antt =====
-- Runs on concrete tables. Emails 30 and 31 differ by case only; a token's hash is 100 above it.
use python_fastapi_multiauth.Common.{
  ℕ, ◌+◌, ◌<◌, ◌≡◌, refl, true, false, none, some, [], ◌∷◌, err, value_error, only_row,
  only_row-IsOneOrNone, select, ◌==◌, if◌then◌else◌,
}
use python_fastapi_multiauth.Tenancy.Model.{User, Organization, Invitation, Db}
use python_fastapi_multiauth.Tenancy.Organizations.{user_is, add_member, is_member}
use python_fastapi_multiauth.Tenancy.Invitations.{accept_invitation}
use python_fastapi_multiauth.Tenancy.Membership.{OnlyIn, OthersKept, one_organization}
use python_fastapi_multiauth.Tenancy.Acceptance.{accepted_once}

abbrev lower : ℕ → ℕ
lower e = if e == 31 then 30 else e

abbrev hash : ℕ → ℕ
hash t = t + 100

abbrev owner : User
owner = record { id = 1; email = 29; is_superuser = false }

abbrev guest : User
guest = record { id = 2; email = 31; is_superuser = false }

abbrev default_org : Organization
default_org = record { id = 10; slug = 0; owner_id = none }

abbrev acme : Organization
acme = record { id = 11; slug = 5; owner_id = some 1 }

abbrev invitation : Invitation
invitation = record {
  id = 50;
  organization_id = 11;
  inviter_id = 1;
  email = 30;
  token_hash = 107;
  is_accepted = false;
  accepted_at = none;
  accepted_by_id = none;
  expires_at = 1000;
  created_at = 0;
}

-- The guest is in the default organisation, and invited to the other one.
abbrev tables : Db
tables = record {
  users = owner ∷ guest ∷ [];
  organizations = default_org ∷ acme ∷ [];
  members =
      record { user_id = 1; organization_id = 11 }
      ∷ record { user_id = 2; organization_id = 10 }
      ∷ [];
  invitations = invitation ∷ [];
}

abbrev moved : Db
moved = record tables {
  members =
      record { user_id = 1; organization_id = 11 }
      ∷ record { user_id = 2; organization_id = 11 }
      ∷ [];
}

one_organization_example :
    (is_member 11 2 moved ≡ true) × OnlyIn 11 2 moved × OthersKept 2 tables moved
unfolding add_member
one_organization_example =
    one_organization only_row only_row-IsOneOrNone 10 11 2 guest tables moved refl refl (refl, tt)
      refl

abbrev first : Invitation
first = record {
  id = 51;
  organization_id = 11;
  inviter_id = 1;
  email = 30;
  token_hash = 108;
  is_accepted = false;
  accepted_at = none;
  accepted_by_id = none;
  expires_at = 604800000005;
  created_at = 5;
}

abbrev invited : Db
invited = record tables { invitations = invitation ∷ first ∷ [] }

abbrev renewed : Invitation
renewed = record invitation { expires_at = 604800000005 }

abbrev resent : Db
resent = record tables { invitations = renewed ∷ [] }

abbrev taken : Invitation
taken = record invitation { is_accepted = true; accepted_at = some 5; accepted_by_id = some 2 }

abbrev joined : Db
joined = record moved { invitations = taken ∷ [] }

accepted_once_example :
    (invitation.is_accepted ≡ false)
    × (5 < invitation.expires_at)
    × ((u : User) × (select (user_is 2) tables.users ≡ u ∷ []) × (lower u.email ≡ lower 30))
    × (is_member 11 2 joined ≡ true)
    × (accept_invitation only_row lower hash 6 7 1 joined
        ≡ err (value_error "Invitation has already been accepted"))
unfolding accept_invitation add_member
accepted_once_example =
    accepted_once only_row only_row-IsOneOrNone lower hash 5 6 7 2 1 invitation taken tables joined
      (refl, tt) refl refl
