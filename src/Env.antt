-- ===== src/Env.antt =====
-- internal/env: the environment variables bound for the tool process.
pub mod Store
pub mod File
pub mod Lookup
pub mod Invariant
pub mod Precedence
pub mod Keys
pub mod RoundTrip
mod Tests
