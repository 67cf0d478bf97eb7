-- ===== src/Scenes.antt =====
-- The scenes of an application: src/restful/services/scenes.go.
pub mod Collection
pub mod Copy
pub mod Copied
pub mod Inserted
pub mod Whole
pub mod Requests
pub mod Sending
