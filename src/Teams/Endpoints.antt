-- ===== src/Teams/Endpoints.antt =====
-- app/api/v1/endpoints/teams.py. `current_user` is the id of the user that the bearer token names.
use python_fastapi_multiauth.Common.{
  ℕ, ◌+◌, ◌-◌, ◌*◌, ◌/◌, Bool, Option, none, some, List, not, is_some, if◌then◌else◌, ltb, http,
  Result, ok, err, ◌>>=◌, ◌>>◌, raise_if, OneOrNone, select,
}
use python_fastapi_multiauth.Tenancy.Model as Tenancy
use python_fastapi_multiauth.Tenancy.Organizations as Organizations
use python_fastapi_multiauth.Teams.Service as Teams
use python_fastapi_multiauth.Teams.Service.{
  Team, TeamCreate, TeamUpdate, Db, create, update, delete, list_organization_teams,
  list_user_teams, get_member_count, get_by_slug,
}

pub record TeamListResponse : Type 0 where
  pub items : List Team
  pub total : ℕ
  pub page : ℕ
  pub page_size : ℕ
  pub pages : ℕ

pub record TeamWithMembers : Type 0 where
  pub team : Team
  pub member_count : ℕ

-- The members of an organisation, as `OrganizationService.is_member` tests them.
abbrev pub in_org : (org user : ℕ) → Db → Bool
in_org org user db = Organizations.is_member org user db.tenancy

module _ (one : OneOrNone) where
  unfoldable pub create_team : (new_id current_user : ℕ) → TeamCreate → Db → Result (Team × Db)
  unfolding Organizations.is_member Organizations.get_by_id get_by_slug create
  create_team new_id current_user team_in db = do
    raise_if (not (in_org team_in.organization_id current_user db)) (http "403")
    org ← Organizations.get_by_id one team_in.organization_id db.tenancy
    raise_if (not (is_some org)) (http "404")
    existing_team ← get_by_slug one team_in.slug team_in.organization_id db
    raise_if (is_some existing_team) (http "400")
    ok (create new_id team_in db)

  -- The list and the total of `list_teams`.
  unfoldable pub listed_teams :
      (current_user : ℕ) → Option ℕ → (skip limit : ℕ) → Db → Result (List Team × ℕ)
  unfolding Organizations.is_member list_organization_teams list_user_teams
  listed_teams current_user organization_id skip limit db = elim organization_id [
    | none ↦ ok (list_user_teams current_user skip limit db)
    | some org ↦
        raise_if (not (in_org org current_user db)) (http "403")
        >> ok (list_organization_teams org skip limit db)
  ]

  unfoldable pub list_teams :
      (current_user : ℕ) → Option ℕ → (page page_size : ℕ) → Db → Result TeamListResponse
  unfolding listed_teams
  list_teams current_user organization_id page page_size db = do
    (teams, total) ← listed_teams current_user organization_id ((page - 1) * page_size) page_size db
    ok (record {
      items = teams;
      total = total;
      page = page;
      page_size = page_size;
      pages = if ltb 0 total then (total + page_size - 1) / page_size else 0;
    })

  -- The team, for a member of its organisation; 404 or 403 otherwise.
  unfoldable pub open_team : (team current_user : ℕ) → Db → Result Team
  unfolding Teams.get_by_id Organizations.is_member
  open_team team_id current_user db = do
    found ← Teams.get_by_id one team_id db
    elim found [
      | none ↦ err (http "404")
      | some team ↦
          raise_if (not (in_org team.organization_id current_user db)) (http "403") >> ok team
    ]

  unfoldable pub get_team : (team current_user : ℕ) → Db → Result TeamWithMembers
  unfolding open_team get_member_count
  get_team team_id current_user db = do
    team ← open_team team_id current_user db
    ok (record { team = team; member_count = get_member_count team_id db })

  unfoldable pub update_team : (team current_user : ℕ) → TeamUpdate → Db → Result (Team × Db)
  unfolding open_team update
  update_team team_id current_user team_in db = do
    team ← open_team team_id current_user db
    ok (update team team_in db)

  unfoldable pub delete_team : (team current_user : ℕ) → Db → Result Db
  unfolding open_team delete
  delete_team team_id current_user db = do
    team ← open_team team_id current_user db
    ok (delete team db)

  unfoldable pub add_team_member : (team user current_user : ℕ) → Db → Result Db
  unfolding open_team Organizations.is_member Teams.is_member Teams.add_member
  add_team_member team_id user current_user db = do
    team ← open_team team_id current_user db
    user_to_add ← one Tenancy.User (select (Organizations.user_is user) db.tenancy.users)
    raise_if (not (is_some user_to_add)) (http "404")
    raise_if (not (in_org team.organization_id user db)) (http "400")
    raise_if (Teams.is_member team_id user db) (http "400")
    ok (Teams.add_member team_id user db)

  unfoldable pub remove_team_member : (team user current_user : ℕ) → Db → Result Db
  unfolding open_team Teams.is_member Teams.remove_member
  remove_team_member team_id user current_user db = do
    team ← open_team team_id current_user db
    raise_if (not (Teams.is_member team_id user db)) (http "400")
    ok (Teams.remove_member team_id user db)

  -- The page of the members' users.
  unfoldable pub list_team_members :
      (team current_user page page_size : ℕ) → Db → Result (List Tenancy.User)
  unfolding open_team Teams.list_team_members
  list_team_members team_id current_user page page_size db = do
    team ← open_team team_id current_user db
    ok (Teams.list_team_members team_id ((page - 1) * page_size) page_size db).0
