-- ===== src/Socket.antt =====
-- The WebSocket side of the service.
pub mod Server
pub mod Removal
pub mod Deliver
pub mod Commands
