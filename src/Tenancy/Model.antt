-- ===== src/Tenancy/Model.antt =====
-- app/models/user.py, app/models/organization.py and app/models/invitation.py: the columns that the
-- services read. Ids, emails, slugs and token hashes are only compared, and are numbers here.
-- Timestamps are microseconds.
use python_fastapi_multiauth.Common.{ℕ, Bool, Option, List, ltb, not, ◌&&◌}

pub record User : Type 0 where
  pub id : ℕ
  pub email : ℕ
  pub is_superuser : Bool

pub record Organization : Type 0 where
  pub id : ℕ
  pub slug : ℕ
  pub owner_id : Option ℕ

-- A row of the association table `user_organizations`, which has no unique constraint.
pub record Member : Type 0 where
  pub user_id : ℕ
  pub organization_id : ℕ

pub record Invitation : Type 0 where
  pub id : ℕ
  pub organization_id : ℕ
  pub inviter_id : ℕ
  pub email : ℕ
  pub token_hash : ℕ
  pub is_accepted : Bool
  pub accepted_at : Option ℕ
  pub accepted_by_id : Option ℕ
  pub expires_at : ℕ
  pub created_at : ℕ

-- `Invitation.is_valid` at the time `now`.
unfoldable pub is_valid : ℕ → Invitation → Bool
is_valid now i = not i.is_accepted && ltb now i.expires_at

pub record Db : Type 0 where
  pub users : List User
  pub organizations : List Organization
  pub members : List Member
  pub invitations : List Invitation
