-- ===== src/Configuration.antt =====
-- Message class configurations: src/restful/services/configuration.go.
pub mod Settings
pub mod Customs
pub mod Register
pub mod Inherit
pub mod Create
pub mod Kept
pub mod View
pub mod Valid
pub mod Validated
pub mod Frame
pub mod Effects
pub mod Creation
pub mod Created
pub mod Changed
pub mod Updated
pub mod Runs
pub mod Histories
pub mod Safety
pub mod Validity
pub mod Lost
pub mod Validate
pub mod Actions
