-- ===== src/Tests.antt =====
-- Small inputs, the theorems applied to them, and runs of the code on them.
pub mod Data
pub mod Status
pub mod Change
pub mod Send
pub mod Socket
pub mod Configuration
pub mod Crypto
pub mod Base64
pub mod Classes
pub mod Lost
pub mod Templates
pub mod Scenes
pub mod Commands
