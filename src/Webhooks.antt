-- ===== src/Webhooks.antt =====
-- Webhooks of organisations: app/services/webhook.py, app/models/webhook.py and the tasks of
-- app/tasks/webhook.py.
pub mod Model
pub mod Service
pub mod Tasks
pub mod Attempts
pub mod Retries
pub mod Statistics
mod Tests
