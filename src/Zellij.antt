-- ===== src/Zellij.antt =====
-- internal/zellij: the multiplexer that holds a session across containers.
pub mod Names
pub mod Resolve
pub mod Safe
pub mod Discovery
pub mod Planned
mod Tests
