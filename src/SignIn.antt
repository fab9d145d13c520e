-- ===== src/SignIn.antt =====
-- Registration and the logins through other providers: the rest of app/services/auth.py and of
-- app/api/v1/endpoints/auth.py, over the tables of Accounts and Tenancy.
pub mod Model
pub mod Providers
pub mod OAuth
pub mod Callback
pub mod Registration
pub mod OneUse
pub mod Linking
pub mod Newcomers
pub mod Identity
pub mod Tests
