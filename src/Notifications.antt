-- ===== src/Notifications.antt =====
-- Notifications of users: app/services/notification_service.py and app/models/notification.py.
pub mod Service
pub mod ReadState
pub mod Ownership
mod Tests
