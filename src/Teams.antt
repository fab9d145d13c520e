-- ===== src/Teams.antt =====
-- Teams: app/services/team.py, app/models/team.py, the table user_teams of app/models/user.py and
-- app/api/v1/endpoints/teams.py.
pub mod Service
pub mod Endpoints
pub mod Membership
pub mod Steps
pub mod Guards
pub mod Tests
