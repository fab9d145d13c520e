-- ===== src/ApiKeys.antt =====
-- API keys: app/services/api_key_service.py with app/models/api_key.py.
pub mod Service
pub mod Lifecycle
pub mod Expiry
mod Tests
