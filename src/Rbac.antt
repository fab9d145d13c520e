-- ===== src/Rbac.antt =====
-- Roles and permissions: app/services/rbac.py with app/models/role.py.
pub mod Service
mod Joins
pub mod Decision
pub mod Revocation
mod Tests
