-- ===== src/Host.antt =====
-- internal/host: what the launcher knows of paths, folder names and worktree locks.
pub mod FilePath
pub mod Sanitize
pub mod Paths
pub mod Realpath
mod Tests
