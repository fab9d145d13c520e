-- ===== src/Totp.antt =====
-- The second factor: app/services/totp.py with app/models/totp.py.
pub mod Service
pub mod BackupCodes
pub mod Enrolment
mod Tests
