-- ===== src/Attach.antt =====
-- internal/attach: attaching to a running container.
pub mod Resolve
pub mod Safe
pub mod Selection
mod Tests
