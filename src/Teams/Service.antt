-- ===== src/Teams/Service.antt =====
-- app/services/team.py with app/models/team.py and the table user_teams. The timestamps are left out.
use python_fastapi_multiauth.Common.{
  ℕ, Bool, true, Option, none, some, List, [], ◌∷◌, ◌++◌, map, length, ◌&&◌, ◌==◌, Result,
  OneOrNone, select, delete_where, exists, save, has_key,
}
use python_fastapi_multiauth.Tenancy.Model as Tenancy
use python_fastapi_multiauth.Tenancy.Model.{User}
use python_fastapi_multiauth.Files.Stream.{take, drop}

pub record Team : Type 0 where
  pub id : ℕ
  pub name : ℕ
  pub slug : ℕ
  pub description : Option ℕ
  pub organization_id : ℕ
  pub is_active : Bool

-- A row of the association table `user_teams`, which has no unique constraint.
pub record TeamMember : Type 0 where
  pub user_id : ℕ
  pub team_id : ℕ

pub record Db : Type 0 where
  pub tenancy : Tenancy.Db
  pub teams : List Team
  pub team_members : List TeamMember

pub record TeamCreate : Type 0 where
  pub name : ℕ
  pub slug : ℕ
  pub description : Option ℕ
  pub organization_id : ℕ

-- The fields that a request sets: `none` is a field that it does not name. A name that is null is refused by its
-- column.
pub record TeamUpdate : Type 0 where
  pub name : Option ℕ
  pub description : Option (Option ℕ)

abbrev pub team_key : Team → ℕ
team_key t = t.id

abbrev pub team_is : ℕ → Team → Bool
team_is = has_key team_key

abbrev pub in_organization : ℕ → Team → Bool
in_organization org t = t.organization_id == org

abbrev pub slugged : (slug org : ℕ) → Team → Bool
slugged slug org t = t.slug == slug && t.organization_id == org

-- The rows of one user in one team, of one team, and of one user.
abbrev pub membership : (user team : ℕ) → TeamMember → Bool
membership user team m = m.user_id == user && m.team_id == team

abbrev pub of_team : ℕ → TeamMember → Bool
of_team team m = m.team_id == team

abbrev pub of_user : ℕ → TeamMember → Bool
of_user user m = m.user_id == user

unfoldable pub create : (new_id : ℕ) → TeamCreate → Db → Team × Db
create new_id team_in db =
    let team : Team = record {
      id = new_id;
      name = team_in.name;
      slug = team_in.slug;
      description = team_in.description;
      organization_id = team_in.organization_id;
      is_active = true;
    } in
    (team, record db { teams = db.teams ++ team ∷ [] })

-- `setattr` for a field that the request names.
abbrev pub set_or {ℓ} : {A : Type ℓ} → Option A → A → A
set_or none kept = kept
set_or (some value) kept = value

unfoldable pub update : Team → TeamUpdate → Db → Team × Db
update team team_in db =
    let team = record team {
      name = set_or team_in.name team.name;
      description = set_or team_in.description team.description;
    } in
    (team, record db { teams = save team_key team db.teams })

-- The rows of `user_teams` go with the team.
unfoldable pub delete : Team → Db → Db
delete team db = record db {
  teams = delete_where (team_is team.id) db.teams;
  team_members = delete_where (of_team team.id) db.team_members;
}

unfoldable pub add_member : (team user : ℕ) → Db → Db
add_member team user db = record db {
  team_members = db.team_members ++ record { user_id = user; team_id = team } ∷ [];
}

unfoldable pub remove_member : (team user : ℕ) → Db → Db
remove_member team user db = record db {
  team_members = delete_where (membership user team) db.team_members;
}

unfoldable pub is_member : (team user : ℕ) → Db → Bool
is_member team user db = exists (membership user team) db.team_members

-- One row for each pair of a row and a membership that belong together.
unfoldable pub join {ℓ} : {A : Type ℓ} → (A → TeamMember → Bool) → List A → List TeamMember → List A
join on [] members = []
join on (x ∷ xs) members = map (λ _. x) (select (on x) members) ++ join on xs members

-- `.offset(skip).limit(limit)`, with the number of all rows.
abbrev pub page {ℓ} : {A : Type ℓ} → (skip limit : ℕ) → List A → List A × ℕ
page skip limit rows = (take limit (drop skip rows), length rows)

unfoldable pub list_organization_teams : (org skip limit : ℕ) → Db → List Team × ℕ
list_organization_teams org skip limit db = page skip limit (select (in_organization org) db.teams)

unfoldable pub list_user_teams : (user skip limit : ℕ) → Db → List Team × ℕ
unfolding join
list_user_teams user skip limit db =
    page skip limit
      (join (λ t m. m.team_id == t.id) db.teams (select (of_user user) db.team_members))

unfoldable pub get_member_count : (team : ℕ) → Db → ℕ
get_member_count team db = length (select (of_team team) db.team_members)

unfoldable pub list_team_members : (team skip limit : ℕ) → Db → List User × ℕ
unfolding join
list_team_members team skip limit db =
    page skip limit
      (join (λ u m. m.user_id == u.id) db.tenancy.users (select (of_team team) db.team_members))

module _ (one : OneOrNone) where
  unfoldable pub get_by_id : ℕ → Db → Result (Option Team)
  get_by_id team db = one Team (select (team_is team) db.teams)

  unfoldable pub get_by_slug : (slug org : ℕ) → Db → Result (Option Team)
  get_by_slug slug org db = one Team (select (slugged slug org) db.teams)
