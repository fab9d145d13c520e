-- ===== src/Files.antt =====
-- Uploaded files: the endpoints of app/api/v1/endpoints/files.py, app/models/file.py and the local storage of
-- app/services/storage.py, over the tables of Quota and Tenancy.
pub mod Stream
pub mod Types
pub mod Storage
pub mod Keeping
pub mod Model
pub mod Upload
pub mod Access
pub mod Guards
pub mod Limits
pub mod Accounting
pub mod Listing
pub mod Tests
