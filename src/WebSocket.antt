-- ===== src/WebSocket.antt =====
-- The WebSocket manager: app/services/websocket_manager.py.
pub mod Manager
pub mod Delivery
pub mod Connections
mod Tests
