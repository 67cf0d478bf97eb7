-- ===== src/Go.antt =====
-- Go's way of ending a function, and actions on a state.
mod Defs
pub mod Exec
pub mod Results
pub use Defs.*
