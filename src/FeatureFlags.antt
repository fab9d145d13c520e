-- ===== src/FeatureFlags.antt =====
-- Feature flags and their cache: app/services/feature_flag.py with app/models/feature_flag.py.
pub mod Service
pub mod Cache
pub mod Rollout
mod Tests
