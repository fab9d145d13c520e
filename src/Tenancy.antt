-- ===== src/Tenancy.antt =====
-- Organisations, their members and the invitations to join them: app/services/organization.py and
-- app/services/invitation_service.py with their models.
pub mod Model
pub mod Organizations
pub mod Invitations
pub mod Membership
pub mod Acceptance
pub mod Pending
mod Tests
