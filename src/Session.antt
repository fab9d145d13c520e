-- ===== src/Session.antt =====
-- Login sessions: app/services/session.py with app/models/session.py.
pub mod Service
pub mod Revocation
pub mod Cleanup
mod Tests
