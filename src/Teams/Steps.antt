-- ===== src/Teams/Steps.antt =====
-- Any sequence of the calls of app/api/v1/endpoints/teams.py that change the tables.
use python_fastapi_multiauth.Common.{ℕ, ◌≡◌, ok, OneOrNone, IsOneOrNone, only_row, eq-only_row}
use python_fastapi_multiauth.Teams.Service.{Team, Db, TeamCreate, TeamUpdate}
use python_fastapi_multiauth.Teams.Endpoints.{
  create_team, open_team, update_team, delete_team, add_team_member, remove_team_member,
}
use python_fastapi_multiauth.Teams.Membership.{
  WithinOrganization, created-Within, updated-Within, deleted-Within, added-Within, removed-Within,
}

-- A call that changes the tables, by a user, on a team of an organisation.
pub data Step (one : OneOrNone) : (user org : ℕ) → Db → Db → Type 0 where
  created :
      (new_id user : ℕ) (team_in : TeamCreate) (team : Team) (db db' : Db)
      → create_team one new_id user team_in db ≡ ok (team, db')
      → Step one user team_in.organization_id db db'
  updated :
      (user team_id : ℕ) (team_in : TeamUpdate) (team : Team) (db db' : Db)
      → update_team one team_id user team_in db ≡ ok (team, db')
      → Step one user team.organization_id db db'
  deleted :
      (user team_id : ℕ) (team : Team) (db db' : Db)
      → open_team one team_id user db ≡ ok team
      → delete_team one team_id user db ≡ ok db'
      → Step one user team.organization_id db db'
  added :
      (user team_id who : ℕ) (team : Team) (db db' : Db)
      → open_team one team_id user db ≡ ok team
      → add_team_member one team_id who user db ≡ ok db'
      → Step one user team.organization_id db db'
  removed :
      (user team_id who : ℕ) (team : Team) (db db' : Db)
      → open_team one team_id user db ≡ ok team
      → remove_team_member one team_id who user db ≡ ok db'
      → Step one user team.organization_id db db'

pub data Steps (one : OneOrNone) : Db → Db → Type 0 where
  no_step : (db : Db) → Steps one db db
  one_more :
      (user org : ℕ) (db db' db'' : Db)
      → Steps one db db'
      → Step one user org db' db''
      → Steps one db db''

Step-Within :
    {user org : ℕ} {db db' : Db}
    → Step only_row user org db db'
    → WithinOrganization db
    → WithinOrganization db'
Step-Within (created new_id user team_in team db db' h) w =
    created-Within new_id user team_in team db db' h w
Step-Within (updated user team_id team_in team db db' h) w =
    updated-Within user team_id team_in team db db' h w
Step-Within (deleted user team_id team db db' opened h) w = deleted-Within user team_id db db' h w
Step-Within (added user team_id who team db db' opened h) w =
    added-Within user team_id who db db' h w
Step-Within (removed user team_id who team db db' opened h) w =
    removed-Within user team_id who db db' h w

Steps-Within :
    {db db' : Db} → Steps only_row db db' → WithinOrganization db → WithinOrganization db'
Steps-Within (no_step db) w = w
Steps-Within (one_more user org db db' db'' before step) w =
    Step-Within step (Steps-Within before w)

module _ (one : OneOrNone) (law : IsOneOrNone one) where
  -- If each user in a team is a member of its organisation, this is so after any sequence of
  -- calls that change the teams.
  pub steps-WithinOrganization :
      (db db' : Db) → Steps one db db' → WithinOrganization db → WithinOrganization db'
  steps-WithinOrganization db db' = rw (eq-only_row one law) (λ steps w. Steps-Within steps w)
