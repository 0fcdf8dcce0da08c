-- ===== src/Runtime.antt =====
-- internal/runtime: what the two container runtimes run.
pub mod Spec
pub mod Render
pub mod ReadBack
pub mod Inspect
pub mod Selection
pub mod Redaction
mod Tests
