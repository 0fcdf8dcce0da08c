-- ===== src/Launch.antt =====
-- cmd/claude-contained: the launcher's own loops.
pub mod Driver
pub mod Applied
pub mod Ending
mod Tests
pub mod Session
pub mod Unwound
pub mod Status
pub mod Mode
pub mod Environment
pub mod Filled
pub mod Prompt
