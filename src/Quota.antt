-- ===== src/Quota.antt =====
-- Organisation quotas: app/models/quota.py, app/services/quota.py and the request guards of
-- app/api/v1/dependencies/quota.py. `Model` holds the rows and the methods of the models, `Service`
-- and `Guards` the operations; the other children are about what they guarantee.
pub mod Model
pub mod Service
pub mod Guards
pub mod Rows
pub mod Reset
pub mod Limits
pub mod Isolation
pub mod Refusals
pub mod FirstUse
mod Tests
