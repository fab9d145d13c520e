-- ===== src/Teams/Tests.antt =====
-- Runs on the team 4 of the organisation 11, whose members are the users 7 and 8.
use python_fastapi_multiauth.Common.{
  ◌≡◌, refl, true, false, none, some, [], ◌∷◌, ok, err, http, only_row, only_row-IsOneOrNone,
}
use python_fastapi_multiauth.Tenancy.Model as Tenancy
use python_fastapi_multiauth.Tenancy.Organizations as Organizations
use python_fastapi_multiauth.Teams.Service.{Team, Db, list_user_teams, list_team_members}
use python_fastapi_multiauth.Teams.Endpoints.{
  create_team, open_team, update_team, delete_team, add_team_member,
}
use python_fastapi_multiauth.Teams.Membership.{WithinOrganization}
use python_fastapi_multiauth.Teams.Steps.{
  Step, created, added, no_step, one_more, steps-WithinOrganization,
}

abbrev team : Team
team = record {
  id = 4;
  name = 40;
  slug = 41;
  description = none;
  organization_id = 11;
  is_active = true;
}

-- A team of another organisation.
abbrev foreign : Team
foreign = record team { id = 5; organization_id = 12 }

abbrev tenancy : Tenancy.Db
tenancy = record {
  users =
      record { id = 7; email = 70; is_superuser = false }
      ∷ record { id = 8; email = 80; is_superuser = false }
      ∷ record { id = 9; email = 90; is_superuser = false }
      ∷ [];
  organizations = record { id = 11; slug = 1; owner_id = some 7 } ∷ [];
  members =
      record { user_id = 7; organization_id = 11 }
      ∷ record { user_id = 8; organization_id = 11 }
      ∷ [];
  invitations = [];
}

abbrev db : Db
db = record { tenancy = tenancy; teams = foreign ∷ []; team_members = [] }

abbrev with_team : Db
with_team = record db { teams = foreign ∷ team ∷ [] }

abbrev with_member : Db
with_member = record with_team { team_members = record { user_id = 8; team_id = 4 } ∷ [] }

creates :
    create_team only_row 4 7
      (record { name = 40; slug = 41; description = none; organization_id = 11 })
      db
    ≡ ok (team, with_team)
unfolding create_team
creates = refl

opens : open_team only_row 4 7 with_team ≡ ok team
unfolding open_team
opens = refl

adds : add_team_member only_row 4 8 7 with_team ≡ ok with_member
unfolding add_team_member
adds = refl

adds_once : add_team_member only_row 4 8 7 with_member ≡ err (http "400")
unfolding add_team_member
adds_once = refl

refuses_outsiders : add_team_member only_row 4 9 7 with_team ≡ err (http "400")
unfolding add_team_member
refuses_outsiders = refl

deletes : delete_team only_row 4 8 with_member ≡ ok db
unfolding delete_team
deletes = refl

renames :
    update_team only_row 4 8 (record { name = some 43; description = none }) with_team
    ≡ ok (record team { name = 43 }, record db { teams = foreign ∷ record team { name = 43 } ∷ [] })
unfolding update_team
renames = refl

lists : list_user_teams 8 0 50 with_member ≡ (team ∷ [], 1)
unfolding list_user_teams
lists = refl

-- Who leaves the organisation stays in its teams.
stays :
    list_team_members 4 0 50
      (record with_member { tenancy = Organizations.remove_member 11 8 tenancy })
    ≡ (record { id = 8; email = 80; is_superuser = false } ∷ [], 1)
unfolding list_team_members Organizations.remove_member
stays = refl

first_step : Step only_row 7 11 db with_team
first_step =
    created 4 7 (record { name = 40; slug = 41; description = none; organization_id = 11 }) team db
      with_team creates

steps-WithinOrganization_example : WithinOrganization with_member
steps-WithinOrganization_example =
    steps-WithinOrganization only_row only_row-IsOneOrNone db with_member
      (one_more 7 11 db with_team with_member
        (one_more 7 11 db db with_team (no_step db) first_step)
        (added 7 4 8 team with_team with_member opens adds))
      tt
