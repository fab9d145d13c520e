-- ===== src/Lib.antt =====
-- A verification library of the backend in app/: a multi-tenant FastAPI service with organisations,
-- quotas, sessions, second factors, API keys, feature flags and background tasks.
--
-- Each service in app/services is a class of static coroutines over a database session. A module here
-- models one of them, or a few that belong together:
-- - Quota: app/services/quota.py, app/models/quota.py, app/api/v1/dependencies/quota.py and
--   app/core/organization_helpers.py.
-- - Tenancy: app/services/organization.py, app/services/invitation_service.py and their models.
-- - Totp: app/services/totp.py and app/models/totp.py.
-- - Session: app/services/session.py and app/models/session.py.
-- - ApiKeys: app/services/api_key_service.py and app/models/api_key.py.
-- - FeatureFlags: app/services/feature_flag.py, app/models/feature_flag.py and the entries of
--   app/services/cache.py.
-- - Rbac: app/services/rbac.py, app/models/role.py and the table user_roles of app/models/user.py.
-- - WebSocket: app/services/websocket_manager.py.
-- - Accounts: app/services/user.py, the password login, the second step and the token renewal of
--   app/services/auth.py, the tokens of app/core/security.py, app/models/token.py, the password reset
--   and e-mail verification of app/api/v1/endpoints/auth.py, and app/api/v1/dependencies/auth.py. A
--   login uses Totp for the second factor and Session for the session that it opens.
-- - SignIn: `register`, `oauth_authorize` and `oauth_callback` of app/api/v1/endpoints/auth.py, the
--   OAuth and Keycloak logins of app/services/auth.py and app/models/oauth.py, over the tables of
--   Accounts and Tenancy.
-- - Billing: app/services/billing_service.py, the subscription calls of
--   app/services/stripe_service.py, app/api/v1/endpoints/stripe_webhooks.py and their models. Stripe is
--   a parameter. `quota_view` (Billing/Model.antt) is the part of its tables that Quota reads.
-- - Webhooks: app/services/webhook.py, app/models/webhook.py and app/tasks/webhook.py.
-- - Notifications: app/services/notification_service.py and app/models/notification.py.
-- - Files: app/api/v1/endpoints/files.py, app/services/storage.py and app/models/file.py. An upload
--   uses Tenancy for the organisation and Quota for its limits.
-- - Teams: app/services/team.py, app/api/v1/endpoints/teams.py, app/models/team.py and the table
--   user_teams of app/models/user.py, over the tables of Tenancy.
-- - Shutdown: app/core/graceful_shutdown.py and app/middleware/graceful_shutdown.py.
-- - Common: Boolean tests, integers, results with exceptions, tables and keyed rows.
--
-- How the code is read:
-- - A table is the list of its rows in the order in which a query returns them; the pages of the files,
--   whose query names no order, take one for each request. A query's WHERE clause is a Boolean test on a
--   row. An ORM object that is changed and flushed is an update of the
--   row with its primary key (`save` in Common/Records.antt). Every operation takes the tables and
--   returns them with its result, or an exception, after which the transaction is rolled back
--   (app/db/session.py), so that no tables come with it.
-- - `scalar_one_or_none` is SQLAlchemy's, a parameter `one` of the models; theorems assume its
--   documented behaviour, IsOneOrNone, which the tests show can be met.
-- - Ids, emails, slugs, tokens and hashes are only compared by the code, and are numbers. Timestamps
--   are microseconds. What `uuid4()`, the clock and `secrets` return is an argument. Unless a file
--   says otherwise an operation reads the clock once.
-- - Rows that are written are taken to meet the constraints of their table, whose violation the
--   database refuses; theorems that need a unique column say so (`Distinct` in Common/Records.antt).
-- - Hashing, password verification and text functions of other packages are parameters.
-- - Loops over lists are structural recursions. A file is read in at most one round more than it has
--   bytes, since a round reads a byte or is the last. The waiting loop of the shutdown takes fuel:
--   `timeout + 1` tests, since each but the last is followed by a second's sleep.
--
-- Not modelled: app/tasks/billing.py, which cannot be imported, as it takes `async_session_maker` from
-- app/db/session.py, where it is not defined; the checkout and customer calls of Stripe and the endpoints of
-- app/api/v1/endpoints/billing.py, dead letters and the audit log, which no file here describes;
-- the creation of default roles and the update and deletion of organisations; logging, configuration,
-- HTTP routing and schemas, e-mail, the queue of background tasks and the OpenAI clients, which are
-- input and output; audit columns that no code reads.
pub mod Accounts
pub mod ApiKeys
pub mod Billing
pub mod Common
pub mod FeatureFlags
pub mod Files
pub mod Notifications
pub mod Quota
pub mod Rbac
pub mod Session
pub mod Shutdown
pub mod SignIn
pub mod Teams
pub mod Tenancy
pub mod Totp
pub mod WebSocket
pub mod Webhooks
