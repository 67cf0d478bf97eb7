-- ===== src/Backend.antt =====
-- The databases of the service.
mod Documents
mod Defs
pub mod Memory
unfoldable pub use Documents.*
unfoldable pub use Defs.*
