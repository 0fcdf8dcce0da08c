-- ===== src/Cli.antt =====
-- internal/cli: the command line.
pub mod Config
pub mod Arms
pub mod Parse
pub mod Kept
pub mod Command
pub mod RoundTrip
pub mod Validate
pub mod Accepted
mod Tests
