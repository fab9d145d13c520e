-- ===== src/Accounts.antt =====
-- Accounts and logins: app/services/user.py, app/services/auth.py, app/core/security.py,
-- app/models/token.py and the endpoints of app/api/v1/endpoints/auth.py that change state.
pub mod Users
pub mod Tokens
pub mod Login
pub mod Recovery
pub mod Lockout
pub mod Admission
pub mod Codes
pub mod Access
pub mod Bearer
pub mod Renewal
pub mod Resets
mod Tests
