-- ===== src/Shutdown.antt =====
-- The end of the server: app/core/graceful_shutdown.py and app/middleware/graceful_shutdown.py.
pub mod Handler
pub mod Waiting
pub mod InFlight
mod Tests
