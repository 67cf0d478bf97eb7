-- ===== src/Message.antt =====
-- Messages: src/restful/services/messages.go.
pub mod Status
pub mod Store
pub mod External
pub mod Validate
pub mod Send
pub mod Change
