-- ===== src/Teams/Guards.antt =====
-- The user and the organisation of a call of app/api/v1/endpoints/teams.py that changes the tables.
use python_fastapi_multiauth.Common.{ℕ, ◌≡◌, true, List, select}
use python_fastapi_multiauth.Tenancy.Model as Tenancy
use python_fastapi_multiauth.Tenancy.Organizations as Organizations
use python_fastapi_multiauth.Teams.Service as Teams
use python_fastapi_multiauth.Teams.Service.{Team, Db, in_organization}
use python_fastapi_multiauth.Teams.Endpoints.{in_org}

-- The teams of an organisation.
abbrev pub teams_of : ℕ → Db → List Team
teams_of o db = select (in_organization o) db.teams

-- The user is a member of the organisation, and the teams of another are what they were.
abbrev pub Guarded : (user org o : ℕ) → Db → Db → Type 0
Guarded user org o db db' = (in_org org user db ≡ true) × (teams_of o db' ≡ teams_of o db)
